-- ===== src/LibraryLoader/Useful.antt =====
-- `recursively_add_useful_types` of library_loader.c ends, and only adds types to the module.
use pycallocs.Prelude.{
  ℕ, zero, suc, ◌+◌, ◌*◌, ◌≤◌, ◌<◌, refl, ap, inl, inr, arith, Bool-cases, Option, some, List, [],
  ◌∷◌, All, Elem, ◌==◌,
}
use pycallocs.LibraryLoader.{
  Name, Attrs, Kind, void, base, composite, enumeration, array, subrange, address, subprogram,
  TypeTable, Added, Loader, discard, then_load, add_each, add_members, add_kind, add_useful,
}
use pycallocs.LibraryLoader.Types.{
  Adds-refl, Adds-trans, Loads, AddsType, was_added, had_name, not_handled, add_type-AddsType,
  missing, missing-Adds, missing-added,
}

pub times-le : (a b c : ℕ) → a ≤ b → a * c ≤ b * c
times-le a b c le = grind arith

times-lt : (a b c : ℕ) → a < b → a * c + c ≤ b * c
times-lt a b c lt = grind arith

module _ (types : TypeTable) (uniqtype_name : ℕ → Name) where
  stays :
      (s : Loader types uniqtype_name) → types.IsGood s.table → Loads types uniqtype_name s (some s)
  stays s good = record {
    after = s;
    ended = refl;
    good = good;
    adds = Adds-refl types uniqtype_name s.attrs;
  }

  discard-Loads :
      (k : ℕ) (s : Loader types uniqtype_name) (r : Option (Loader types uniqtype_name × Added))
      → types.IsGood s.table
      → AddsType types uniqtype_name k s r
      → Loads types uniqtype_name s (discard types uniqtype_name r)
  unfolding discard
  discard-Loads k s _ good (was_added s' good' free here adds) = record {
    after = s';
    ended = refl;
    good = good';
    adds = adds;
  }
  discard-Loads k s _ good (had_name there) = stays s good
  discard-Loads k s _ good (not_handled s' good' not same) = record {
    after = s';
    ended = refl;
    good = good';
    adds = λ n. inl (ap (λ f. f n) same);
  }

  then_load-Loads :
      (s : Loader types uniqtype_name) (r : Option (Loader types uniqtype_name))
      (f : Loader types uniqtype_name → Option (Loader types uniqtype_name))
      (first : Loads types uniqtype_name s r)
      → Loads types uniqtype_name first.after (f first.after)
      → Loads types uniqtype_name s (then_load types uniqtype_name r f)
  unfolding then_load
  then_load-Loads s r f first second = record {
    after = second.after;
    ended = rw first.ended second.ended;
    good = second.good;
    adds =
        Adds-trans types uniqtype_name s.attrs first.after.attrs second.after.attrs first.adds
          second.adds;
  }

  -- Types that the loader can come to: all known to the table. `rank` falls along every step but
  -- those into a composite, as C types can refer to themselves only through a composite.
  module _ (kinds : ℕ → Kind) (known : List ℕ) (rank : ℕ → ℕ) (top : ℕ) where
    abbrev pub Below : ℕ → ℕ → Type 0
    Below r j = Elem j known × (rank j < r)

    abbrev pub IsRanked : ℕ → Kind → Type 0
    IsRanked k void = Unit
    IsRanked k (base t) = Unit
    IsRanked k (composite ks) = All (λ j. Below (suc top) j) ks
    IsRanked k enumeration = Unit
    IsRanked k (array j) = Below (rank k) j
    IsRanked k (subrange j) = Below (rank k) j
    IsRanked k (address j) = Below (rank k) j
    IsRanked k (subprogram ks) = All (λ j. Below (rank k) j) ks

    -- The depth that is left: a composite's members are looked at once for each new name.
    abbrev pub depth : ℕ → Attrs → ℕ
    depth r attrs = missing types uniqtype_name known attrs * suc top + r

    module _ (all_known : (k : ℕ) → Elem k known → types.Known k) (n : ℕ)
        (add : ℕ → Loader types uniqtype_name → Option (Loader types uniqtype_name))
        (call : (j : ℕ) (s : Loader types uniqtype_name)
          → Elem j known
          → types.IsGood s.table
          → depth (rank j) s.attrs < n
          → Loads types uniqtype_name s (add j s)) where
      add_each-Loads :
          (r : ℕ) (ks : List ℕ) (s : Loader types uniqtype_name)
          → All (λ j. Below r j) ks
          → types.IsGood s.table
          → depth r s.attrs ≤ n
          → Loads types uniqtype_name s (add_each types uniqtype_name add ks s)
      unfolding add_each
      add_each-Loads r [] s below good fuel = stays s good
      add_each-Loads r (k ∷ ks) s ((of_known, lower), below) good fuel =
          let first = call k s of_known good (omega arith) in
          let fewer = missing-Adds types uniqtype_name known s.attrs first.after.attrs first.adds in
          let less = times-le _ _ (suc top) fewer in
          then_load-Loads s (add k s) (add_each types uniqtype_name add ks) first
            (add_each-Loads r ks first.after below first.good (omega arith))

      add_members-Loads :
          (k : ℕ) (ks : List ℕ) (s : Loader types uniqtype_name)
          (r : Option (Loader types uniqtype_name × Added))
          → Elem k known
          → All (λ j. Below (suc top) j) ks
          → types.IsGood s.table
          → depth 0 s.attrs ≤ n
          → AddsType types uniqtype_name k s r
          → Loads types uniqtype_name s (add_members types uniqtype_name add ks r)
      unfolding add_members
      add_members-Loads k ks s _ of_known below good fuel (was_added s' good' free here adds) =
          let fewer =
            missing-added types uniqtype_name known k s.attrs s'.attrs of_known free here adds in
          let less = times-lt _ _ (suc top) fewer in
          let rest = add_each-Loads (suc top) ks s' below good' (omega arith) in
          record {
            after = rest.after;
            ended = rest.ended;
            good = rest.good;
            adds = Adds-trans types uniqtype_name s.attrs s'.attrs rest.after.attrs adds rest.adds;
          }
      add_members-Loads k ks s _ of_known below good fuel (had_name there) = stays s good
      add_members-Loads k ks s _ of_known below good fuel (not_handled s' good' not same) = record {
        after = s';
        ended = refl;
        good = good';
        adds = λ n. inl (ap (λ f. f n) same);
      }

      add_kind-Loads :
          (k : ℕ) (s : Loader types uniqtype_name) (kind : Kind)
          → Elem k known
          → IsRanked k kind
          → types.IsGood s.table
          → depth (rank k) s.attrs < suc n
          → Loads types uniqtype_name s (add_kind types uniqtype_name add k s kind)
      unfolding add_kind
      add_kind-Loads k s void of_known ranked good fuel =
          discard-Loads k s _ good
            (add_type-AddsType types uniqtype_name k s (all_known k of_known) good)
      add_kind-Loads k s (base t) of_known ranked good fuel =
          elim (Bool-cases (t.bit_size == 8 * t.size)) [
            | inl whole ↦ rw whole (
                discard-Loads k s _ good
                  (add_type-AddsType types uniqtype_name k s (all_known k of_known) good))
            | inr bit_field ↦ rw bit_field (stays s good)
          ]
      add_kind-Loads k s (composite ks) of_known ranked good fuel =
          add_members-Loads k ks s _ of_known ranked good (omega arith)
            (add_type-AddsType types uniqtype_name k s (all_known k of_known) good)
      add_kind-Loads k s enumeration of_known ranked good fuel = stays s good
      add_kind-Loads k s (array j) of_known (known_j, lower) good fuel =
          call j s known_j good (omega arith)
      add_kind-Loads k s (subrange j) of_known (known_j, lower) good fuel =
          call j s known_j good (omega arith)
      add_kind-Loads k s (address j) of_known (known_j, lower) good fuel =
          call j s known_j good (omega arith)
      add_kind-Loads k s (subprogram ks) of_known ranked good fuel =
          add_each-Loads (rank k) ks s ranked good (omega arith)

    module _ (all_known : (k : ℕ) → Elem k known → types.Known k)
        (ranked : (k : ℕ) → Elem k known → IsRanked k (kinds k)) where
      -- The recursion through the types that a symbol uses ends: fuel for its depth is enough, a
      -- number that the names still missing and the rank of the type bound. It only adds to the
      -- module: an attribute that is there stays, and a new one is a type that the table handles,
      -- under the type's name. The table stays good. Every step but those into a composite goes to
      -- a type of lower rank, and all types are known to the table.
      pub add_useful-Loads :
          (n k : ℕ) (s : Loader types uniqtype_name)
          → Elem k known
          → types.IsGood s.table
          → depth (rank k) s.attrs < n
          → Loads types uniqtype_name s (add_useful types uniqtype_name kinds n k s)
      unfolding add_useful
      add_useful-Loads zero k s of_known good fuel = absurd (omega arith)
      add_useful-Loads (suc n) zero s of_known good fuel = stays s good
      add_useful-Loads (suc n) (suc k) s of_known good fuel =
          add_kind-Loads all_known n (add_useful types uniqtype_name kinds n) (add_useful-Loads n)
            (suc k) s (kinds (suc k)) of_known (ranked (suc k) of_known) good fuel
