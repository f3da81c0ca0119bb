-- ===== src/Tests/Libraries.antt =====
-- library_loader.c at a concrete input: a library with one object `x`, a `struct list` at 100.
use pycallocs.Prelude.{
  ℕ, inl, inr, refl, sym, subst, arith, Option, none, some, List, [], ◌∷◌, Elem, ◌==◌,
  if◌then◌else◌,
}
use pycallocs.BaseType.Types.{signed}
use pycallocs.LibraryLoader.{Name, Kind, base, composite, address, void, TypeTable, Loading, Loader}
use pycallocs.LibraryLoader.Useful.{IsRanked, add_useful-Loads}
use pycallocs.LibraryLoader.Types.{Loads}
use pycallocs.LibraryLoader.Symbols.{Symbol}
use pycallocs.LibraryLoader.Table.{type_table}
use pycallocs.LibraryLoader
use pycallocs.Tests.Types.{list_kinds, list_types, empty, closed}

abbrev table : TypeTable
table = type_table list_kinds list_types closed

abbrev kinds : ℕ → Kind
kinds k =
    if k == 1
    then composite (2 ∷ 3 ∷ [])
    else if k == 2
    then base (record { enc = signed; size = 4; bit_size = 32 })
    else if k == 3
    then address 1
    else void

abbrev rank : ℕ → ℕ
rank k = if k == 3 then 1 else 0

abbrev uniqtype_name : ℕ → Name
uniqtype_name k = k ∷ []

abbrev start : Loader table uniqtype_name
start = record { table = empty; attrs = λ name. none }

abbrev Ranked : ℕ → Type 0
Ranked k = IsRanked table uniqtype_name kinds list_types rank 1 k (kinds k)

ranked : (k : ℕ) → Elem k list_types → Ranked k
ranked k (inl e) =
    subst Ranked (sym e) ((inr (inl refl), omega arith), ((inr (inr (inl refl)), omega arith), tt))
ranked k (inr (inl e)) = subst Ranked (sym e) tt
ranked k (inr (inr (inl e))) = subst Ranked (sym e) (inl refl, omega arith)
ranked k (inr (inr (inr never))) = absurd never

abbrev exported : ℕ → Symbol
exported a = record { name = b'x' ∷ []; type = 1; bind = 1; shndx = 5; value = 100 }

abbrev all_structs : ℕ → ℕ
all_structs a = 1

abbrev at : ℕ → ℕ → Option ℕ
at k a = some a

abbrev dynamic : List (ℕ × ℕ)
dynamic = (5, 64) ∷ (6, 40) ∷ []

add_useful-Loads_example :
    Loads table uniqtype_name start (LibraryLoader.add_useful table uniqtype_name kinds 8 1 start)
add_useful-Loads_example =
    add_useful-Loads table uniqtype_name kinds list_types rank 1 (λ k h. h) ranked 8 1 start
      (inl refl) (λ j. inl refl) (omega arith)
