-- ===== src/LibraryLoader/Bindings.antt =====
-- What library_loader.c binds a name of the module to.
use pycallocs.Prelude.{
  ℕ, zero, suc, ◌+◌, ◌*◌, ◌≡◌, ◌≤◌, ◌<◌, refl, ◌∙◌, inl, inr, arith, Bool, Bool-cases, true, false,
  ◌&&◌, Option, none, some, List, [], ◌∷◌, All, Elem, length, if◌then◌else◌,
}
use pycallocs.LibraryLoader.{
  Name, same_name, object, Attrs, set_attr, Kind, TypeTable, Loader, then_load,
}
use pycallocs.LibraryLoader.Types.{AddsAt, AddsAt-trans, Adds, missing-le}
use pycallocs.LibraryLoader.Useful.{IsRanked, add_useful-Loads, times-le}
use pycallocs.LibraryLoader.Symbols.{
  Symbol, is_exported, is_public, bind_object, bind_symbol, add_typed, add_symbol, add_symbols,
}

module _ (types : TypeTable) (uniqtype_name : ℕ → Name) (getfrom : ℕ → ℕ → Option ℕ)
    (kinds : ℕ → Kind) (alloc_type : ℕ → ℕ) (load_address : ℕ) where
  -- The object of a symbol at an address of the type `k`: there is one if the type is handled and
  -- `ft_getfrom` gives it.
  abbrev pub object_at : ℕ → ℕ → Option ℕ
  object_at a zero = none
  object_at a (suc k) = if types.handles (suc k) then getfrom (suc k) a else none

  -- The object that a symbol is to be bound to.
  abbrev pub symbol_object : Symbol → Option ℕ
  symbol_object y =
      if is_exported y && is_public y.name
      then object_at (load_address + y.value) (alloc_type (load_address + y.value))
      else none

  abbrev pub or_else : Option ℕ → Option ℕ → Option ℕ
  or_else none later = later
  or_else (some o) later = some o

  -- The object of the last symbol of the name that has one.
  abbrev pub binding : Name → List Symbol → Option ℕ
  binding n [] = none
  binding n (y ∷ ys) = or_else (binding n ys) (if same_name y.name n then symbol_object y else none)

  -- The attribute is the object, or, without one, as it was or a new type.
  abbrev pub BoundAt : Name → Attrs → Attrs → Option ℕ → Type 0
  BoundAt n attrs attrs' none = AddsAt types uniqtype_name n attrs attrs'
  BoundAt n attrs attrs' (some o) = attrs' n ≡ some (object o)

  BoundAt-trans :
      (n : Name) (a b c : Attrs) (first later : Option ℕ)
      → BoundAt n a b first
      → BoundAt n b c later
      → BoundAt n a c (or_else later first)
  BoundAt-trans n a b c first (some o) h h' = h'
  BoundAt-trans n a b c none none h h' = AddsAt-trans types uniqtype_name n a b c h h'
  BoundAt-trans n a b c (some o) none h (inl same) = same ∙ h
  BoundAt-trans n a b c (some o) none h (inr (free, found)) = absurd cc

  -- A call that ended with a good table and bound the names as given.
  pub record Binds (s : Loader types uniqtype_name) (r : Option (Loader types uniqtype_name))
      (bound : Name → Option ℕ) : Type 0 where
    pub after : Loader types uniqtype_name
    pub ended : r ≡ some after
    pub good : types.IsGood after.table
    pub binds : (n : Name) → BoundAt n s.attrs after.attrs (bound n)

  abbrev of_name : Name → Option ℕ → Name → Option ℕ
  of_name name o n = if same_name name n then o else none

  -- Nothing is bound where there is no object.
  of_name-none :
      (name n : Name) (a b : Attrs)
      → AddsAt types uniqtype_name n a b
      → BoundAt n a b (of_name name none n)
  of_name-none name n a b h = elim (Bool-cases (same_name name n)) [
    | inl eq ↦ rw eq h
    | inr ne ↦ rw ne h
  ]

  bind_object-Binds :
      (name : Name) (before s : Loader types uniqtype_name) (o : Option ℕ)
      → types.IsGood s.table
      → Adds types uniqtype_name before.attrs s.attrs
      → Binds before (some (bind_object types uniqtype_name name s o)) (of_name name o)
  unfolding bind_object
  bind_object-Binds name before s none good adds = record {
    after = s;
    ended = refl;
    good = good;
    binds = λ n. of_name-none name n before.attrs s.attrs (adds n);
  }
  bind_object-Binds name before s (some o) good adds = record {
    after = record s { attrs = set_attr name (object o) s.attrs };
    ended = refl;
    good = good;
    binds = λ n. elim (Bool-cases (same_name name n)) [
      | inl eq ↦ rw (eq, eq) refl
      | inr ne ↦ rw (ne, ne) (adds n)
    ];
  }

  got-Binds :
      (k : ℕ) (name : Name) (a : ℕ) (before s : Loader types uniqtype_name) (c : types.State)
      (handled : Bool)
      → types.IsGood c
      → Adds types uniqtype_name before.attrs s.attrs
      → Binds before
          (bind_symbol types uniqtype_name getfrom name a s
            (some (c, if handled then some k else none)))
          (of_name name (if handled then getfrom k a else none))
  unfolding bind_symbol
  got-Binds k name a before s c false good adds =
      bind_object-Binds name before (record s { table = c }) none good adds
  got-Binds k name a before s c true good adds =
      bind_object-Binds name before (record s { table = c }) (getfrom k a) good adds

  -- All types are known to the table, and every step but those into a composite goes down in rank.
  module _ (known : List ℕ) (rank : ℕ → ℕ) (top : ℕ)
      (all_known : (k : ℕ) → Elem k known → types.Known k)
      (ranked : (k : ℕ)
        → Elem k known
        → IsRanked types uniqtype_name kinds known rank top k (kinds k))
      (n : ℕ) (fuel : length known * suc top + top < n) where
    add_typed-Binds :
        (name : Name) (a k : ℕ) (s : Loader types uniqtype_name)
        → Elem k known
        → rank k ≤ top
        → types.IsGood s.table
        → Binds s
            (add_typed types uniqtype_name getfrom kinds alloc_type load_address n name a s k)
            (of_name name (object_at a k))
    unfolding add_typed then_load
    add_typed-Binds name a zero s of_known low good = record {
      after = s;
      ended = refl;
      good = good;
      binds = λ m. of_name-none name m s.attrs s.attrs (inl refl);
    }
    add_typed-Binds name a (suc k) s of_known low good =
        let fewer = times-le _ _ (suc top) (missing-le types uniqtype_name known s.attrs) in
        let added =
          add_useful-Loads types uniqtype_name kinds known rank top all_known ranked n (suc k) s
            of_known good (omega arith) in
        let (c, got, good') =
          types.get_handled (suc k) added.after.table (all_known (suc k) of_known) added.good in
        rw (added.ended, got)
          (got-Binds (suc k) name a s added.after c (types.handles (suc k)) good' added.adds)

    -- The types of the library's symbols are known too.
    abbrev pub HasType : Symbol → Type 0
    HasType y = let k = alloc_type (load_address + y.value) in Elem k known × (rank k ≤ top)

    add_symbol-Binds :
        (y : Symbol) (s : Loader types uniqtype_name)
        → HasType y
        → types.IsGood s.table
        → Binds s
            (add_symbol types uniqtype_name getfrom kinds alloc_type load_address n y s)
            (of_name y.name (symbol_object y))
    unfolding add_symbol
    add_symbol-Binds y s (of_known, low) good =
        elim (Bool-cases (is_exported y && is_public y.name)) [
          | inl wanted ↦ rw wanted (add_typed-Binds y.name _ _ s of_known low good)
          | inr other ↦ rw other (record {
            after = s;
            ended = refl;
            good = good;
            binds = λ m. of_name-none y.name m s.attrs s.attrs (inl refl);
          })
        ]

    -- Adding a library's symbols ends. Behind it, each name is bound to the object of the last
    -- symbol of that name that has one: an exported function or object whose name does not begin
    -- with an underscore, of a type that the table handles and that reads. Any other attribute is as
    -- it was, or is new and a type that the table handles, under the type's name. The types are
    -- known to the table, and every step between them but those into a composite goes to a type of
    -- lower rank; the fuel is greater than one round through the ranks for each type and one more.
    pub add_symbols-Binds :
        (ys : List Symbol) (s : Loader types uniqtype_name)
        → All HasType ys
        → types.IsGood s.table
        → Binds s
            (add_symbols types uniqtype_name getfrom kinds alloc_type load_address n ys s)
            (λ m. binding m ys)
    unfolding add_symbols then_load
    add_symbols-Binds [] s typed good = record {
      after = s;
      ended = refl;
      good = good;
      binds = λ m. inl refl;
    }
    add_symbols-Binds (y ∷ ys) s (typed_y, typed) good =
        let first = add_symbol-Binds y s typed_y good in
        let rest = add_symbols-Binds ys first.after typed first.good in
        record {
          after = rest.after;
          ended = rw first.ended rest.ended;
          good = rest.good;
          binds = λ m.
              BoundAt-trans m s.attrs first.after.attrs rest.after.attrs _ (binding m ys)
                (first.binds m) (rest.binds m);
        }
