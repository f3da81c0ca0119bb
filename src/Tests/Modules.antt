-- ===== src/Tests/Modules.antt =====
-- The initialisation of the module at a concrete input: the basic types are 1 to 11, on a machine
-- with 64-bit longs.
use pycallocs.Prelude.{
  Elem, ℕ, ◌≡◌, ◌*◌, refl, inl, arith, true, none, some, List, [], ◌∷◌, All, ◌==◌, if◌then◌else◌,
}
use pycallocs.BaseType.Types
use pycallocs.BaseType.Types.{
  foreign_base_type_new, foreign_base_type_called, unless_pending, foreign_base_type,
  conversions_for, check_sizes,
}
use pycallocs.ForeignType
use pycallocs.ForeignType.{Kind, Table, init_types, foreign_type_new, creates}
use pycallocs.AllocsModule.{BasicType, Answers, Initialized, init_allocs}
use pycallocs.AllocsModule.Bound.{InitCases, init_allocs_cases}

abbrev number : BasicType → ℕ
number BasicType.void = 1
number BasicType.int = 2
number BasicType.unsigned_int = 3
number BasicType.signed_char = 4
number BasicType.unsigned_char = 5
number BasicType.long_int = 6
number BasicType.unsigned_long_int = 7
number BasicType.short_int = 8
number BasicType.short_unsigned_int = 9
number BasicType.float = 10
number BasicType.double = 11

abbrev sized : Types.Encoding → ℕ → Kind
sized enc size = ForeignType.base (record { enc = enc; size = size; bit_size = 8 * size })

abbrev basic_kinds : ℕ → Kind
basic_kinds k =
    if k == 2
    then sized Types.signed 4
    else if k == 3
    then sized Types.unsigned 4
    else if k == 4
    then sized Types.signed_char 1
    else if k == 5
    then sized Types.unsigned_char 1
    else if k == 6
    then sized Types.signed 8
    else if k == 7
    then sized Types.unsigned 8
    else if k == 8
    then sized Types.signed 2
    else if k == 9
    then sized Types.unsigned 2
    else if k == 10
    then sized Types.float 4
    else if k == 11
    then sized Types.float 8
    else ForeignType.void

abbrev all_types : List ℕ
all_types = 1 ∷ 2 ∷ 3 ∷ 4 ∷ 5 ∷ 6 ∷ 7 ∷ 8 ∷ 9 ∷ 10 ∷ 11 ∷ []

abbrev InTypes : ℕ → Type 0
InTypes k = All (λ j. Elem j all_types) (init_types (basic_kinds k))

closed : (k : ℕ) → Elem k all_types → InTypes k
unfolding init_types
closed k known = ground arith

known : (t : BasicType) → Elem (number t) all_types
known BasicType.void = inl refl
known t = ground arith

handled : (t : BasicType) → foreign_type_new basic_kinds (number t) ≡ true
unfolding foreign_type_new creates foreign_base_type_new foreign_base_type_called unless_pending
    foreign_base_type conversions_for check_sizes
handled BasicType.void = refl
handled BasicType.int = refl
handled BasicType.unsigned_int = refl
handled BasicType.signed_char = refl
handled BasicType.unsigned_char = refl
handled BasicType.long_int = refl
handled BasicType.unsigned_long_int = refl
handled BasicType.short_int = refl
handled BasicType.short_unsigned_int = refl
handled BasicType.float = refl
handled BasicType.double = refl

abbrev no_types : Table
no_types k = none

abbrev all_answered : Answers
all_answered = record { ready = λ c. true; created = true }

init_allocs_cases_example :
    (r : Initialized) × (init_allocs basic_kinds number 12 all_answered true no_types ≡ some r)
    × InitCases basic_kinds number all_answered true no_types r
init_allocs_cases_example =
    init_allocs_cases basic_kinds number all_types closed known handled 12 (omega arith)
      all_answered true no_types (λ j. inl refl)
