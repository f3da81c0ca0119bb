-- ===== src/LibraryLoader/Types.antt =====
-- `add_type_to_module` of library_loader.c.
use pycallocs.Prelude.{
  ℕ, ◌+◌, ◌≡◌, ◌≢◌, ◌≤◌, ◌<◌, refl, sym, ap, ◌∙◌, ◌⊎◌, inl, inr, arith, Bool, true, false, Option,
  none, some, List, [], ◌∷◌, Elem, length, if◌then◌else◌,
}
use pycallocs.LibraryLoader.{
  Name, Item, type_item, Attrs, set_attr, module_name, TypeTable, Added, added, clash, refused,
  Loader, add_created, add_unless, add_type,
}
use pycallocs.LibraryLoader.Names.{set_attr_self, set_attr_cases}

module _ (types : TypeTable) (uniqtype_name : ℕ → Name) where
  abbrev pub name_of : ℕ → Name
  name_of k = module_name (uniqtype_name k)

  -- An attribute stays as it was, or is new: a type that the table handles, under its name.
  abbrev pub AddsAt : Name → Attrs → Attrs → Type 0
  AddsAt n attrs attrs' =
      (attrs' n ≡ attrs n)
      ⊎ ((attrs n ≡ none)
          × ((k : ℕ) × (attrs' n ≡ some (type_item k))
              × (n ≡ name_of k)
              × (types.handles k ≡ true)))

  abbrev pub Adds : Attrs → Attrs → Type 0
  Adds attrs attrs' = (n : Name) → AddsAt n attrs attrs'

  pub Adds-refl : (attrs : Attrs) → Adds attrs attrs
  Adds-refl attrs n = inl refl

  pub AddsAt-trans : (n : Name) (a b c : Attrs) → AddsAt n a b → AddsAt n b c → AddsAt n a c
  AddsAt-trans n a b c (inl same') (inl same) = inl (same ∙ same')
  AddsAt-trans n a b c (inr (free, (k, item, named, handled))) (inl same) =
      inr (free, (k, same ∙ item, named, handled))
  AddsAt-trans n a b c (inl same') (inr (free, found)) = inr (sym same' ∙ free, found)
  AddsAt-trans n a b c (inr (free', (k, item, named, handled))) (inr (free, found)) = absurd cc

  pub Adds-trans : (a b c : Attrs) → Adds a b → Adds b c → Adds a c
  Adds-trans a b c h h' n = AddsAt-trans n a b c (h n) (h' n)

  -- A call that ended with a good table, and only added to the module.
  pub record Loads (s : Loader types uniqtype_name) (r : Option (Loader types uniqtype_name))
      : Type 0 where
    pub after : Loader types uniqtype_name
    pub ended : r ≡ some after
    pub good : types.IsGood after.table
    pub adds : Adds s.attrs after.attrs

  -- What add_type_to_module is to leave.
  pub data AddsType (k : ℕ) (s : Loader types uniqtype_name)
      : Option (Loader types uniqtype_name × Added) → Type 0 where
    was_added :
        (s' : Loader types uniqtype_name)
        → types.IsGood s'.table
        → s.attrs (name_of k) ≡ none
        → s'.attrs (name_of k) ≡ some (type_item k)
        → Adds s.attrs s'.attrs
        → AddsType k s (some (s', added))
    had_name : s.attrs (name_of k) ≢ none → AddsType k s (some (s, clash))
    not_handled :
        (s' : Loader types uniqtype_name)
        → types.IsGood s'.table
        → types.handles k ≡ false
        → s'.attrs ≡ s.attrs
        → AddsType k s (some (s', refused))

  add_created-AddsType :
      (k : ℕ) (s : Loader types uniqtype_name) (c : types.State) (b : Bool)
      → types.IsGood c
      → types.handles k ≡ b
      → s.attrs (name_of k) ≡ none
      → AddsType k s
          (add_created types uniqtype_name k s.attrs (some (c, if b then some k else none)))
  unfolding add_created
  add_created-AddsType k s c false good handled free =
      not_handled (record { table = c; attrs = s.attrs }) good handled refl
  add_created-AddsType k s c true good handled free =
      let attrs' = set_attr (name_of k) (type_item k) s.attrs in
      let here = set_attr_self (name_of k) (type_item k) s.attrs in
      was_added (record { table = c; attrs = attrs' }) good free here
        (λ n. elim (set_attr_cases (name_of k) (type_item k) s.attrs n) [
          | inl (eq, item) ↦ inr (ap s.attrs (sym eq) ∙ free, (k, item, sym eq, handled))
          | inr same ↦ inl same
        ])

  add_unless-AddsType :
      (k : ℕ) (s : Loader types uniqtype_name) (o : Option Item)
      → types.Known k
      → types.IsGood s.table
      → s.attrs (name_of k) ≡ o
      → AddsType k s (add_unless types uniqtype_name k s o)
  unfolding add_unless
  add_unless-AddsType k s (some item) known good eq = had_name (λ free. cc)
  add_unless-AddsType k s none known good eq =
      let (c, got, good') = types.get_handled k s.table known good in
      rw got (add_created-AddsType k s c (types.handles k) good' refl eq)

  pub add_type-AddsType :
      (k : ℕ) (s : Loader types uniqtype_name)
      → types.Known k
      → types.IsGood s.table
      → AddsType k s (add_type types uniqtype_name k s)
  unfolding add_type
  add_type-AddsType k s known good = add_unless-AddsType k s (s.attrs (name_of k)) known good refl

  -- How many of the types have no attribute of their name.
  abbrev pub lacks : Option Item → ℕ
  lacks none = 1
  lacks (some item) = 0

  abbrev pub missing : List ℕ → Attrs → ℕ
  missing [] attrs = 0
  missing (k ∷ ks) attrs = lacks (attrs (name_of k)) + missing ks attrs

  lacks-le : (o : Option Item) → lacks o ≤ 1
  lacks-le none = omega arith
  lacks-le (some item) = omega arith

  pub missing-le : (ks : List ℕ) (attrs : Attrs) → missing ks attrs ≤ length ks
  missing-le [] attrs = omega arith
  missing-le (k ∷ ks) attrs = omega (arith, lacks-le (attrs (name_of k)), missing-le ks attrs)

  lacks-Adds : (k : ℕ) (a b : Attrs) → Adds a b → lacks (b (name_of k)) ≤ lacks (a (name_of k))
  lacks-Adds k a b h = elim (h (name_of k)) [
    | inl same ↦ rw same (omega arith)
    | inr (free, (j, item, named, handled)) ↦ rw (free, item) (omega arith)
  ]

  pub missing-Adds : (ks : List ℕ) (a b : Attrs) → Adds a b → missing ks b ≤ missing ks a
  missing-Adds [] a b h = omega arith
  missing-Adds (k ∷ ks) a b h = omega (arith, lacks-Adds k a b h, missing-Adds ks a b h)

  pub missing-added :
      (ks : List ℕ) (k : ℕ) (a b : Attrs)
      → Elem k ks
      → a (name_of k) ≡ none
      → b (name_of k) ≡ some (type_item k)
      → Adds a b
      → missing ks b < missing ks a
  missing-added [] k a b never free item h = absurd never
  missing-added (j ∷ js) k a b (inl eq) free item h =
      let free' : a (name_of j) ≡ none = ap (λ i. a (name_of i)) (sym eq) ∙ free in
      let item' : b (name_of j) ≡ some (type_item k) = ap (λ i. b (name_of i)) (sym eq) ∙ item in
      rw (free', item') (omega (arith, missing-Adds js a b h))
  missing-added (j ∷ js) k a b (inr later) free item h =
      omega (arith, lacks-Adds j a b h, missing-added js k a b later free item h)
