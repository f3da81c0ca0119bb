-- ===== src/TypeSetup/Typdict/Refines.antt =====
-- The table with objects does what the table of ForeignType does.
use std.Path.{fun_ext}
use pycallocs.Prelude.{
  ℕ, zero, suc, ◌≡◌, refl, ap, ◌∙◌, inl, inr, Bool-cases, Option, none, some, List, [], ◌∷◌, ◌==◌,
}
use pycallocs.ForeignType.{
  Kind, Entry, Table, set_item, LookedIn, AllLookedIn, Looked, AllLooked, add_looked, get_next,
  get_all, init_types, foreign_type_new, finish_type, create, look_up, get_or_create,
}
use pycallocs.TypeSetup.Objects.{ForeignTypeObject}
use pycallocs.TypeSetup.Contract.{is_some, new_object-creates}
use pycallocs.TypeSetup.Typdict.{
  TypeEntry, ObjectTable, set_object, new_type, finish_object, create_object, look_up_object,
  get_object,
}

abbrev pub entry_of : Option TypeEntry → Option Entry
entry_of none = none
entry_of (some e) = some e.entry

-- The table without its objects.
abbrev pub entries : ObjectTable → Table
entries c j = entry_of (c j)

abbrev pub looked : LookedIn ObjectTable → Looked
looked none = none
looked (some (c, r)) = some (entries c, r)

abbrev pub all_looked : AllLookedIn ObjectTable → AllLooked
all_looked none = none
all_looked (some (c, rs)) = some (entries c, rs)

entries-set_object :
    (k : ℕ) (e : TypeEntry) (c : ObjectTable)
    → entries (set_object k e c) ≡ set_item k e.entry (entries c)
entries-set_object k e c =
    fun_ext
      (λ j. elim (Bool-cases (j == k)) [ inl here ↦ rw here refl | inr other ↦ rw other refl ])

add_looked-looked :
    (r : Option ℕ) (x : AllLookedIn ObjectTable)
    → all_looked (add_looked r x) ≡ add_looked r (all_looked x)
unfolding add_looked
add_looked-looked r none = refl
add_looked-looked r (some (c, rs)) = refl

get_next-looked :
    (x : LookedIn ObjectTable) (rest : ObjectTable → AllLookedIn ObjectTable)
    (rest' : Table → AllLooked)
    → ((c : ObjectTable) → all_looked (rest c) ≡ rest' (entries c))
    → all_looked (get_next x rest) ≡ get_next (looked x) rest'
unfolding get_next
get_next-looked none rest rest' h = refl
get_next-looked (some (c, r)) rest rest' h = add_looked-looked r (rest c) ∙ ap (add_looked r) (h c)

-- ForeignType_New makes an object for the types that ForeignType says.
new_type-creates :
    (kinds : ℕ → Kind) (k : ℕ) → is_some (new_type kinds k) ≡ foreign_type_new kinds k
unfolding new_type foreign_type_new
new_type-creates kinds zero = refl
new_type-creates kinds (suc k) = new_object-creates (kinds (suc k)) (suc k)

module _ (get : ℕ → ObjectTable → LookedIn ObjectTable) (get' : ℕ → Table → Looked)
    (same : (k : ℕ) (c : ObjectTable) → looked (get k c) ≡ get' k (entries c)) where
  get_all-looked :
      (ks : List ℕ) (c : ObjectTable) → all_looked (get_all get ks c) ≡ get_all get' ks (entries c)
  unfolding get_all
  get_all-looked [] c = refl
  get_all-looked (k ∷ ks) c =
      get_next-looked (get k c) (get_all get ks) (get_all get' ks) (get_all-looked ks)
      ∙ ap (λ (x : Looked). get_next x (get_all get' ks)) (same k c)

  module _ (kinds : ℕ → Kind) where
    finish_object-looked :
        (k : ℕ) (o : ForeignTypeObject) (x : AllLookedIn ObjectTable)
        → looked (finish_object kinds k o x) ≡ finish_type kinds k (all_looked x)
    unfolding finish_object finish_type
    finish_object-looked k o none = refl
    finish_object-looked k o (some (c, rs)) =
        ap (λ (t : Table). some (t, some k)) (entries-set_object k _ c)

    create_object-looked :
        (k : ℕ) (c : ObjectTable) (made : Option ForeignTypeObject)
        → looked (create_object kinds get k c made) ≡ create kinds get' k (entries c) (is_some made)
    unfolding create_object create
    create_object-looked k c none = refl
    create_object-looked k c (some o) =
        finish_object-looked k o _
        ∙ ap (finish_type kinds k) (
            get_all-looked (init_types (kinds k)) _
            ∙ ap (get_all get' (init_types (kinds k))) (entries-set_object k _ c))

    look_up_object-looked :
        (k : ℕ) (c : ObjectTable) (e : Option TypeEntry)
        → looked (look_up_object kinds get k c e) ≡ look_up kinds get' k (entries c) (entry_of e)
    unfolding look_up_object look_up
    look_up_object-looked k c (some e) = refl
    look_up_object-looked k c none =
        create_object-looked k c (new_type kinds k)
        ∙ ap (create kinds get' k (entries c)) (new_type-creates kinds k)

-- ForeignType_GetOrCreate with the objects of the table is a refinement of the one without: for any
-- types, table and fuel, it ends if and only if that one does, with the same result, and the table
-- that it leaves is, its objects put aside, the table that that one leaves.
pub get_object-get_or_create :
    (kinds : ℕ → Kind) (n k : ℕ) (c : ObjectTable)
    → looked (get_object kinds n k c) ≡ get_or_create kinds n k (entries c)
unfolding get_object get_or_create
get_object-get_or_create kinds zero k c = refl
get_object-get_or_create kinds (suc n) k c =
    look_up_object-looked (get_object kinds n) (get_or_create kinds n)
      (get_object-get_or_create kinds n) kinds k c (c k)
