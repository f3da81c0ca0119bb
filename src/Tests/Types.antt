-- ===== src/Tests/Types.antt =====
-- foreign_type.c at a concrete input: `struct list { int head; struct list *tail; }`, where 1 is the
-- struct, 2 is int, 3 is the pointer to the struct.
use pycallocs.Prelude.{
  Elem, ℕ, ◌≡◌, ◌≢◌, true, ◌⊎◌, ◌==◌, subst, sym, inl, inr, refl, arith, false, none, some, ok,
  List, [], ◌∷◌, All, if◌then◌else◌,
}
use pycallocs.BaseType.Types.{
  signed, foreign_base_type_new, foreign_base_type_called, unless_pending, foreign_base_type,
  conversions_for, check_sizes,
}
use pycallocs.ForeignType.{
  Kind, base, composite, subprogram, address, void, initialised, created, Table, set_item,
  init_types, foreign_type_new, creates, create, look_up, finish_type, get_all, get_next,
  add_looked, get_or_create,
}
use pycallocs.ForeignType.Requests.{
  argument_uniqtypes, cons_type, answered, request, request_fun, foreigntype_fun,
}
use pycallocs.ForeignType.Repeated.{foreigntype_fun-again}
use pycallocs.ForeignType.Table.{NonePending, FoundPointee, pointees}
use pycallocs.ForeignType.Complete.{IsSettled}
use pycallocs.ForeignType.Creation.{get_or_create_cases}

abbrev pub int : Kind
int = base (record { enc = signed; size = 4; bit_size = 32 })

abbrev pub list_kinds : ℕ → Kind
list_kinds k =
    if k == 1
    then composite (2 ∷ 3 ∷ [])
    else if k == 2
    then int
    else if k == 3
    then address 1
    else void

abbrev pub empty : Table
empty k = none

abbrev pub list_types : List ℕ
list_types = 1 ∷ 2 ∷ 3 ∷ []

-- The table behind the call for the struct.
abbrev list_table : Table
list_table = set_item 1 (initialised (some 2 ∷ some 3 ∷ [])) (
    set_item 3 (initialised (some 1 ∷ [])) (
      set_item 3 created
        (set_item 2 (initialised []) (set_item 2 created (set_item 1 created empty)))))

abbrev InTypes : ℕ → Type 0
InTypes k = All (λ j. Elem j list_types) (init_types (list_kinds k))

pub closed : (k : ℕ) → Elem k list_types → InTypes k
unfolding init_types
closed k (inl e) = subst InTypes (sym e) (inr (inl refl), (inr (inr (inl refl)), tt))
closed k (inr (inl e)) = subst InTypes (sym e) tt
closed k (inr (inr (inl e))) = subst InTypes (sym e) (inl refl, tt)
closed k (inr (inr (inr never))) = absurd never

abbrev Quiet : ℕ → Type 0
Quiet k = All (λ j. foreign_type_new list_kinds j ≡ true) (pointees (list_kinds k))

quiet : NonePending list_kinds list_types
unfolding foreign_type_new creates
quiet k (inl e) = subst Quiet (sym e) tt
quiet k (inr (inl e)) = subst Quiet (sym e) tt
quiet k (inr (inr (inl e))) = subst Quiet (sym e) (refl, tt)
quiet k (inr (inr (inr never))) = absurd never

create_list : get_or_create list_kinds 4 1 empty ≡ some (list_table, some 1)
unfolding get_or_create look_up create finish_type get_all get_next add_looked init_types
    foreign_type_new creates foreign_base_type_new foreign_base_type_called unless_pending
    foreign_base_type conversions_for check_sizes
create_list = refl

get_or_create_cases_example :
    (c' : Table) × (get_or_create list_kinds 4 1 empty
      ≡ some (c', if foreign_type_new list_kinds 1 then some 1 else none))
    × IsSettled list_kinds c'
    × ((j : ℕ) → empty j ≢ none → c' j ≡ empty j)
    × ((c' 1 ≢ none) ⊎ (foreign_type_new list_kinds 1 ≡ false))
    × ((j : ℕ) → Elem j list_types → (c' j ≡ none) ⊎ FoundPointee list_kinds (c' j) (list_kinds j))
get_or_create_cases_example =
    get_or_create_cases list_kinds list_types closed 1 empty 4 (inl refl) quiet (λ j. inl refl)
      (omega arith)

-- The function type 4, which liballocs makes of every return type.
abbrev fun_kinds : ℕ → Kind
fun_kinds k = if k == 4 then subprogram else void

abbrev fun_table : Table
fun_table = set_item 4 (initialised []) (set_item 4 created empty)

only_fun : (k : ℕ) → Elem k (4 ∷ []) → All (λ j. Elem j (4 ∷ [])) (init_types (fun_kinds k))
unfolding init_types
only_fun k (inl e) = subst (λ j. All (λ i. Elem i (4 ∷ [])) (init_types (fun_kinds j))) (sym e) tt
only_fun k (inr never) = absurd never

made_fun :
    foreigntype_fun fun_kinds (λ self ts. 4) 2 2 (some 1 ∷ []) empty ≡ some (fun_table, ok (some 4))
unfolding foreigntype_fun request_fun request answered argument_uniqtypes cons_type get_or_create
    look_up create finish_type get_all init_types foreign_type_new creates
made_fun = refl

checked_types : argument_uniqtypes (some 1 ∷ []) ≡ some (1 ∷ [])
unfolding argument_uniqtypes cons_type
checked_types = refl

foreigntype_fun-again_example :
    foreigntype_fun fun_kinds (λ self ts. 4) 1 2 (some 1 ∷ []) fun_table
    ≡ some (fun_table, ok (some 4))
foreigntype_fun-again_example =
    foreigntype_fun-again fun_kinds (4 ∷ []) only_fun (λ self ts. 4) 2 (some 1 ∷ []) (1 ∷ []) empty
      fun_table (some 4) 2 0 checked_types (inl refl) (λ j. inl refl) (omega arith) made_fun
