-- ===== src/TypeSetup/Counted/Ends.antt =====
-- What the whole of ForeignType_GetOrCreate does with the reference counts.
use mathlib.Core.Option.{some-injective}
use pycallocs.Prelude.{
  ℕ, zero, suc, ◌+◌, ◌≡◌, ◌<◌, refl, sym, ap, ◌∙◌, subst, arith, Option, none, some, List, [], ◌∷◌,
  All, Elem, length, if◌then◌else◌,
}
use pycallocs.ForeignType.{
  Kind, Table, LookedIn, AllLookedIn, get_all, init_types, foreign_type_new,
}
use pycallocs.ForeignType.Complete.{IsSettled}
use pycallocs.ForeignType.Table.{NonePending}
use pycallocs.ForeignType.Creation.{get_or_create_cases}
use pycallocs.TypeSetup.Typdict.Refines.{entries, looked, get_object-get_or_create}
use pycallocs.TypeSetup.Counted.Refines.{uncounted, get_counted-get_object}
use pycallocs.TypeSetup.Objects.{ForeignTypeObject}
use pycallocs.TypeSetup.Typdict.{TypeEntry, new_type}
use pycallocs.TypeSetup.Counted.{
  Counted, finish_counted, create_counted, look_up_counted, get_counted,
}
use pycallocs.TypeSetup.Counted.Balance.{
  is_type, IsCounted, Leaves, LeavesAll, IsCounted-same, settle-IsCounted, change_object-IsCounted,
  enter_object-IsCounted, share-IsCounted, get_next-LeavesAll,
}

module _ (kinds : ℕ → Kind) (get : ℕ → Counted → LookedIn Counted)
    (leaves : (k : ℕ) (owned : ℕ → ℕ) (s : Counted)
      → IsCounted owned s
      → Leaves owned (get k s)) where
  get_all-LeavesAll :
      (ks : List ℕ) (owned : ℕ → ℕ) (s : Counted)
      → IsCounted owned s
      → LeavesAll owned (get_all get ks s)
  unfolding get_all
  get_all-LeavesAll [] owned s v = IsCounted-same _ _ s (λ j. omega arith) v
  get_all-LeavesAll (k ∷ ks) owned s v =
      get_next-LeavesAll owned (get k s) (get_all get ks) (leaves k owned s v)
        (get_all-LeavesAll ks)

  finish_counted-Leaves :
      (owned : ℕ → ℕ) (k : ℕ) (o : ForeignTypeObject) (x : AllLookedIn Counted)
      → LeavesAll (λ j. owned j + is_type (some k) j) x
      → Leaves owned (finish_counted kinds k o x)
  unfolding finish_counted
  finish_counted-Leaves owned k o none v = tt
  finish_counted-Leaves owned k o (some (s, rs)) v =
      change_object-IsCounted _ k _ _ (settle-IsCounted _ (kinds k) rs s v)

  create_counted-Leaves :
      (owned : ℕ → ℕ) (k : ℕ) (s : Counted) (made : Option ForeignTypeObject)
      → s.table k ≡ none
      → IsCounted owned s
      → Leaves owned (create_counted kinds get k s made)
  unfolding create_counted
  create_counted-Leaves owned k s none lacking v = IsCounted-same _ _ s (λ j. omega arith) v
  create_counted-Leaves owned k s (some o) lacking v =
      finish_counted-Leaves owned k o _ (
        get_all-LeavesAll (init_types (kinds k)) _ _ (enter_object-IsCounted owned k o s lacking v))

  look_up_counted-Leaves :
      (owned : ℕ → ℕ) (k : ℕ) (s : Counted) (found : Option TypeEntry)
      → s.table k ≡ found
      → IsCounted owned s
      → Leaves owned (look_up_counted kinds get k s found)
  unfolding look_up_counted
  look_up_counted-Leaves owned k s none eq v =
      create_counted-Leaves owned k s (new_type kinds k) eq v
  look_up_counted-Leaves owned k s (some e) eq v = share-IsCounted owned k s e eq v

get_counted-Leaves :
    (kinds : ℕ → Kind) (n k : ℕ) (owned : ℕ → ℕ) (s : Counted)
    → IsCounted owned s
    → Leaves owned (get_counted kinds n k s)
unfolding get_counted
get_counted-Leaves kinds zero k owned s v = tt
get_counted-Leaves kinds (suc n) k owned s v =
    look_up_counted-Leaves kinds (get_counted kinds n) (get_counted-Leaves kinds n) owned k s
      (s.table k) refl v

-- A result with counts, from that of the bare table.
counted-some :
    (x : LookedIn Counted) (t : Table) (r : Option ℕ)
    → looked (uncounted x) ≡ some (t, r)
    → (s : Counted) × (x ≡ some (s, r)) × (entries s.table ≡ t)
counted-some none t r eq = absurd cc
counted-some (some (s, r')) t r eq =
    let pair = some-injective _ _ eq in
    (
      s,
      ap (λ (o : Option ℕ). some (s, o)) (ap (λ (p : Table × Option ℕ). p.1) pair),
      ap (λ (p : Table × Option ℕ). p.0) pair,
    )

-- The references of foreign types. `types` are finitely many types, with all that initialising one of
-- them asks for; those that a pointer or an array among them asks for can be created, so that no
-- exception stays set behind NULL, and none is set at the start. The table holds only complete types, each type has as many references as the table,
-- the proxy types and the callers hold of it, and those not in the table have none. Then a call for
-- one of `types`, with fuel for more calls inside each other than there are types, ends. It returns
-- the type if it can be created, else NULL; the table again holds only complete types; and the
-- counts are again right, with one more reference, the caller's, of the type that was returned.
pub get_counted_cases :
    (kinds : ℕ → Kind) (types : List ℕ)
    (closed : (k : ℕ) → Elem k types → All (λ j. Elem j types) (init_types (kinds k))) (k : ℕ)
    (owned : ℕ → ℕ) (s : Counted) (n : ℕ)
    → Elem k types
    → NonePending kinds types
    → IsSettled kinds (entries s.table)
    → IsCounted owned s
    → length types < n
    → let r : Option ℕ = if foreign_type_new kinds k then some k else none in
      (s' : Counted) × (get_counted kinds n k s ≡ some (s', r))
      × IsSettled kinds (entries s'.table)
      × IsCounted (λ j. owned j + is_type r j) s'
get_counted_cases kinds types closed k owned s n of_type quiet settled v fuel =
    let (t, result, settled', kept, held, pointed) =
      get_or_create_cases kinds types closed k (entries s.table) n of_type quiet settled fuel in
    let (s', got, same) = counted-some (get_counted kinds n k s) t _ (
      ap looked (get_counted-get_object kinds n k s)
      ∙ get_object-get_or_create kinds n k s.table
      ∙ result) in
    (
      s',
      got,
      subst (IsSettled kinds) (sym same) settled',
      subst (Leaves owned) got (get_counted-Leaves kinds n k owned s v),
    )
