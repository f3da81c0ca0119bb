-- ===== src/Tests/Typdict.antt =====
-- The table of foreign type objects at a concrete input: a struct of type 1, which has a pointer to such a
-- struct (2) and an array of such structs (3).
use pycallocs.Prelude.{
  ℕ, ◌+◌, Option, zero, suc, ◌≡◌, refl, sym, subst, inl, inr, arith, true, none, some, List, [],
  ◌∷◌, All, Elem, if◌then◌else◌,
}
use pycallocs.ForeignType.{
  Kind, void, composite, address, array, init_types, foreign_type_new, creates,
}
use pycallocs.ForeignType.Table.{NonePending, pointees}
use pycallocs.ForeignType.Complete.{IsSettled}
use pycallocs.TypeSetup.Typdict.{ObjectTable}
use pycallocs.TypeSetup.Typdict.Refines.{entries}
use pycallocs.TypeSetup.Counted.{Counted, get_counted}
use pycallocs.TypeSetup.Counted.Balance.{is_type, IsCounted}
use pycallocs.TypeSetup.Counted.Ends.{get_counted_cases}

abbrev kinds : ℕ → Kind
kinds zero = void
kinds (suc zero) = composite (2 ∷ 3 ∷ [])
kinds (suc (suc zero)) = address 1
kinds (suc (suc (suc zero))) = array 2
kinds (suc (suc (suc (suc k)))) = void

abbrev types : List ℕ
types = 1 ∷ 2 ∷ 3 ∷ []

abbrev InTypes : ℕ → Type 0
InTypes k = All (λ j. Elem j types) (init_types (kinds k))

closed : (k : ℕ) → Elem k types → InTypes k
unfolding init_types
closed k (inl e) = subst InTypes (sym e) (inr (inl refl), (inr (inr (inl refl)), tt))
closed k (inr (inl e)) = subst InTypes (sym e) (inl refl, tt)
closed k (inr (inr (inl e))) = subst InTypes (sym e) (inr (inl refl), tt)
closed k (inr (inr (inr never))) = absurd never

abbrev Quiet : ℕ → Type 0
Quiet k = All (λ j. foreign_type_new kinds j ≡ true) (pointees (kinds k))

quiet : NonePending kinds types
unfolding foreign_type_new creates
quiet k (inl e) = subst Quiet (sym e) tt
quiet k (inr (inl e)) = subst Quiet (sym e) (refl, tt)
quiet k (inr (inr (inl e))) = subst Quiet (sym e) (refl, tt)
quiet k (inr (inr (inr never))) = absurd never

abbrev nothing : ObjectTable
nothing k = none

-- No foreign type is there yet.
abbrev start : Counted
start = record { table = nothing; refs = λ k. 0; holds = [] }

get_counted_cases_example :
    let r : Option ℕ = if foreign_type_new kinds 3 then some 3 else none in
    (s : Counted) × (get_counted kinds 4 3 start ≡ some (s, r))
    × IsSettled kinds (entries s.table)
    × IsCounted (λ j. 0 + is_type r j) s
get_counted_cases_example =
    get_counted_cases kinds types closed 3 (λ k. 0) start 4 (inr (inr (inl refl))) quiet
      (λ j. inl refl) (record { counted = λ j. refl; absent = λ j lacking. refl }) (omega arith)
