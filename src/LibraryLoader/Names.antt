-- ===== src/LibraryLoader/Names.antt =====
-- Names and attributes in library_loader.c.
use pycallocs.Prelude.{◌≡◌, refl, ◌⊎◌, inl, inr, arith, true, some, [], ◌∷◌, Bool-cases}
use pycallocs.LibraryLoader.{Name, same_name, Item, Attrs, set_attr}

pub same_name→eq : (a b : Name) → same_name a b ≡ true → a ≡ b
same_name→eq [] [] h = refl
same_name→eq [] (c ∷ cs) h = cc
same_name→eq (b ∷ bs) [] h = cc
same_name→eq (b ∷ bs) (c ∷ cs) h = ground (arith, same_name→eq bs cs)

pub same_name_self : (a : Name) → same_name a a ≡ true
same_name_self [] = refl
same_name_self (b ∷ bs) = ground (arith, same_name_self bs)

pub set_attr_self : (n : Name) (i : Item) (attrs : Attrs) → set_attr n i attrs n ≡ some i
set_attr_self n i attrs = rw (same_name_self n) refl

-- Setting an attribute leaves the module without no name that it had.
pub set_attr_cases :
    (n : Name) (i : Item) (attrs : Attrs) (m : Name)
    → ((n ≡ m) × (set_attr n i attrs m ≡ some i)) ⊎ (set_attr n i attrs m ≡ attrs m)
set_attr_cases n i attrs m = elim (Bool-cases (same_name n m)) [
  | inl eq ↦ inl (same_name→eq n m eq, rw eq refl)
  | inr ne ↦ inr (rw ne refl)
]
