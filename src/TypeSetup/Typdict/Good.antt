-- ===== src/TypeSetup/Typdict/Good.antt =====
-- ForeignType_GetOrCreate keeps the objects of the table as they are made.
use pycallocs.Prelude.{
  ℕ, zero, suc, ◌≡◌, ◌≢◌, refl, sym, ap, ◌∙◌, Option, none, some, [], ◌∷◌, List,
}
use pycallocs.ForeignType.{
  Kind, void, base, composite, subprogram, address, array, enumeration, subrange, created,
  initialised, LookedIn, AllLookedIn, add_looked, get_next, get_all, init_types,
}
use pycallocs.TypeSetup.Objects.{ForeignTypeObject, new_object, init_object}
use pycallocs.TypeSetup.Contract.{IsInitialisable}
use pycallocs.TypeSetup.Typdict.{
  TypeEntry, ObjectTable, object_of, first_object, new_type, finish_object, create_object,
  look_up_object, get_object,
}
use pycallocs.TypeSetup.Typdict.Made.{
  new_type-nonzero, ArraysHaveAddresses, IsMade, AllMade, set_object-AllMade, set_object-same, Good,
  none_made, address_unchanged, Found, LeavesMade-Found, get_all-LeavesMade,
}

module _ (kinds : ℕ → Kind) (get : ℕ → ObjectTable → LookedIn ObjectTable)
    (good : (k : ℕ) (c : ObjectTable) → AllMade kinds c → Good kinds k (get k c))
    (arrays : ArraysHaveAddresses kinds) where
  -- The object of the address type, made at any time, is that of its creation.
  address_made :
      (j e : ℕ) (made : TypeEntry)
      → j ≢ 0
      → kinds j ≡ address (suc e)
      → IsMade kinds j made
      → some made.object ≡ new_object (address (suc e)) j
  address_made j e made ne kind (o, new, changed) =
      let created_as : new_type kinds j ≡ new_object (address (suc e)) j =
        new_type-nonzero kinds j ne ∙ ap (λ k. new_object k j) kind in
      ap some (address_unchanged kinds j e o made.object made.entry kind changed)
      ∙ sym new
      ∙ created_as

  array-Found :
      (k j : ℕ) (x : LookedIn ObjectTable)
      → kinds k ≡ array j
      → Good kinds j x
      → Found kinds (array j) (get_next x (get_all get []))
  unfolding get_next get_all add_looked
  array-Found k j none kind good = tt
  array-Found k j (some (c, none)) kind (made, refused) =
      let (ne, (e, address_kind)) = arrays k j kind in
      let made_some = new_type-nonzero kinds j ne ∙ ap (λ i. new_object i j) address_kind in
      absurd (none_made j e (sym refused ∙ made_some))
  array-Found k j (some (c, some i)) kind (made, same, (entry, there)) =
      let (ne, (e, address_kind)) = arrays k j kind in
      (
        made,
        (
          e,
          j,
          ap (λ i. object_of (c i)) same
              ∙ ap object_of there
              ∙ address_made j e entry ne address_kind (made j entry there),
        ),
      )

  calls-Found :
      (kind : Kind) (ks : List ℕ) (c : ObjectTable)
      → ((addr : Option ForeignTypeObject) → IsInitialisable kind addr)
      → AllMade kinds c
      → Found kinds kind (get_all get ks c)
  calls-Found kind ks c any made =
      LeavesMade-Found kinds kind (get_all get ks c) any
        (get_all-LeavesMade kinds get good ks c made)

  init_types-Found :
      (k : ℕ) (kind : Kind) (c : ObjectTable)
      → kinds k ≡ kind
      → AllMade kinds c
      → Found kinds kind (get_all get (init_types kind) c)
  unfolding init_types get_all
  init_types-Found k void c eq made = calls-Found void [] c (λ addr. tt) made
  init_types-Found k (base t) c eq made = calls-Found (base t) [] c (λ addr. tt) made
  init_types-Found k (composite ks) c eq made = calls-Found (composite ks) ks c (λ addr. tt) made
  init_types-Found k subprogram c eq made = calls-Found subprogram [] c (λ addr. tt) made
  init_types-Found k (address j) c eq made = calls-Found (address j) (j ∷ []) c (λ addr. tt) made
  init_types-Found k enumeration c eq made = calls-Found enumeration [] c (λ addr. tt) made
  init_types-Found k subrange c eq made = calls-Found subrange [] c (λ addr. tt) made
  init_types-Found k (array j) c eq made = array-Found k j (get j c) eq (good j c made)

  finish_object-Good :
      (k : ℕ) (o : ForeignTypeObject) (x : AllLookedIn ObjectTable)
      → new_type kinds k ≡ some o
      → Found kinds (kinds k) x
      → Good kinds k (finish_object kinds k o x)
  unfolding finish_object
  finish_object-Good k o none new found = tt
  finish_object-Good k o (some (c, rs)) new (made, initialisable) =
      let e : TypeEntry = record {
        object = init_object o (first_object rs c) (kinds k);
        entry = initialised rs;
      } in
      (
        set_object-AllMade kinds k e c (o, new, (first_object rs c, initialisable, refl)) made,
        refl,
        (e, set_object-same k e c),
      )

  create_object-Good :
      (k : ℕ) (c : ObjectTable) (made : Option ForeignTypeObject)
      → new_type kinds k ≡ made
      → AllMade kinds c
      → Good kinds k (create_object kinds get k c made)
  unfolding create_object
  create_object-Good k c none new made = (made, new)
  create_object-Good k c (some o) new made = finish_object-Good k o _ new (
      init_types-Found k (kinds k) _ refl
        (set_object-AllMade kinds k (record { object = o; entry = created }) c (o, new, refl) made))

  look_up_object-Good :
      (k : ℕ) (c : ObjectTable) (found : Option TypeEntry)
      → c k ≡ found
      → AllMade kinds c
      → Good kinds k (look_up_object kinds get k c found)
  unfolding look_up_object
  look_up_object-Good k c none eq made = create_object-Good k c _ refl made
  look_up_object-Good k c (some e) eq made = (made, refl, (e, eq))

pub get_object-Good :
    (kinds : ℕ → Kind) (arrays : ArraysHaveAddresses kinds) (n k : ℕ) (c : ObjectTable)
    → AllMade kinds c
    → Good kinds k (get_object kinds n k c)
unfolding get_object
get_object-Good kinds arrays zero k c made = tt
get_object-Good kinds arrays (suc n) k c made =
    look_up_object-Good kinds (get_object kinds n) (get_object-Good kinds arrays n) arrays k c (c k)
      refl made
