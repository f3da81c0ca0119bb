-- ===== src/ForeignType/Creation.antt =====
-- `ForeignType_GetOrCreate` of foreign_type.c: it ends, what it leaves in the table, and that asking
-- again changes nothing.
use pycallocs.Prelude.{
  Elem, ℕ, suc, ◌≡◌, ◌≢◌, ◌<◌, refl, sym, subst, ◌∙◌, ◌⊎◌, inl, inr, arith, false, Option, none,
  some, List, All, length, if◌then◌else◌,
}
use pycallocs.ForeignType.{
  Kind, Entry, Table, Looked, init_types, foreign_type_new, create, look_up, get_or_create,
}
use pycallocs.ForeignType.Table.{
  NonePending, FoundPointee, IsComplete-FoundPointee, returned, Extends, missing-le,
}
use pycallocs.ForeignType.Complete.{IsSound, IsSettled, Extends-IsSound, get_or_create-Gives}

module _ (kinds : ℕ → Kind) (types : List ℕ)
    (closed : (k : ℕ) → Elem k types → All (λ j. Elem j types) (init_types (kinds k))) where
  IsSettled-IsSound : (c : Table) → IsSettled kinds c → IsSound kinds c
  IsSettled-IsSound c settled j = elim (settled j) [
    | inl lacking ↦ inl lacking
    | inr (makes, entry) ↦ inr makes
  ]

  Extends-IsSettled : (c c' : Table) → Extends kinds c c' → IsSettled kinds c → IsSettled kinds c'
  Extends-IsSettled c c' h settled j = elim (h j) [
    | inl same ↦ elim (settled j) [
      | inl lacking ↦ inl (same ∙ lacking)
      | inr (makes, entry) ↦ inr (makes, same ∙ entry)
    ]
    | inr (lacking, complete) ↦ inr complete
  ]

  Extends-same : (c c' : Table) → Extends kinds c c' → (j : ℕ) → c j ≢ none → c' j ≡ c j
  Extends-same c c' h j there = elim (h j) [
    | inl same ↦ same
    | inr (lacking, complete) ↦ absurd (there lacking)
  ]

  pub get_or_create_settles :
      (k : ℕ) (c : Table) (n : ℕ)
      → Elem k types
      → IsSettled kinds c
      → length types < n
      → (c' : Table) × (get_or_create kinds n k c
          ≡ some (c', if foreign_type_new kinds k then some k else none))
        × IsSettled kinds c'
        × ((j : ℕ) → c j ≢ none → c' j ≡ c j)
        × ((c' k ≢ none) ⊎ (foreign_type_new kinds k ≡ false))
  get_or_create_settles k c n of_type settled fuel =
      let small = missing-le types c in
      let sound = IsSettled-IsSound c settled in
      let g = get_or_create-Gives kinds types closed n k of_type c sound (omega arith) in
      (
        g.table,
        g.looked_up,
        Extends-IsSettled c g.table g.extends settled,
        Extends-same c g.table g.extends,
        g.held,
      )

  IsSettled-FoundPointee :
      (c : Table)
      → IsSettled kinds c
      → NonePending kinds types
      → (j : ℕ) → Elem j types
      → (c j ≡ none) ⊎ FoundPointee kinds (c j) (kinds j)
  IsSettled-FoundPointee c settled quiet j of_type = elim (settled j) [
    | inl lacking ↦ inl lacking
    | inr (makes, entry) ↦
        inr (IsComplete-FoundPointee kinds (kinds j) (c j) (quiet j of_type) entry)
  ]

  -- `types` are finitely many types, with all types that initialising one of them asks for; they
  -- may refer to each other in circles. Those that a pointer or an array among them asks for can be
  -- created, so that no exception stays set behind NULL, and none is set at the start. The table
  -- holds only complete types: each can be created, and was initialised with what asking for its own
  -- types gives, the type or NULL. Then the call for one of `types`, with fuel for more calls inside
  -- each other than there are types, ends. It returns the type if it can be created, else NULL.
  -- Behind the call the table again holds only complete types, the old entries are as they were, a
  -- type that was returned is in it, and each pointer or array of `types` that is in it has its
  -- pointee or its items' address type.
  pub get_or_create_cases :
      (k : ℕ) (c : Table) (n : ℕ)
      → Elem k types
      → NonePending kinds types
      → IsSettled kinds c
      → length types < n
      → (c' : Table) × (get_or_create kinds n k c
          ≡ some (c', if foreign_type_new kinds k then some k else none))
        × IsSettled kinds c'
        × ((j : ℕ) → c j ≢ none → c' j ≡ c j)
        × ((c' k ≢ none) ⊎ (foreign_type_new kinds k ≡ false))
        × ((j : ℕ) → Elem j types → (c' j ≡ none) ⊎ FoundPointee kinds (c' j) (kinds j))
  get_or_create_cases k c n of_type quiet settled fuel =
      let (c', got, settled', kept, held) = get_or_create_settles k c n of_type settled fuel in
      (c', got, settled', kept, held, IsSettled-FoundPointee c' settled' quiet)

  abbrev asked_again : ℕ → ℕ → Looked → Looked
  asked_again m k none = none
  asked_again m k (some (c, r)) = get_or_create kinds (suc m) k c

  look_up-again :
      (n k : ℕ) (c : Table) (o : Option Entry)
      → c k ≡ o
      → (c k ≢ none) ⊎ (foreign_type_new kinds k ≡ false)
      → IsSound kinds c
      → look_up kinds (get_or_create kinds n) k c o ≡ some (c, returned kinds k)
  unfolding look_up create
  look_up-again n k c none eq (inl there) sound = absurd (there eq)
  look_up-again n k c none eq (inr refuses) sound = rw refuses refl
  look_up-again n k c (some e) eq held sound = elim (sound k) [
    | inl lacking ↦ absurd cc
    | inr makes ↦ rw makes refl
  ]

  -- Each type is created once: under the same conditions, asking for the type again, with any
  -- fuel but none, gives the same result and leaves the table as the first call left it.
  pub get_or_create-again :
      (k : ℕ) (c c' : Table) (r : Option ℕ) (n m : ℕ)
      → Elem k types
      → IsSettled kinds c
      → length types < n
      → get_or_create kinds n k c ≡ some (c', r)
      → get_or_create kinds (suc m) k c' ≡ some (c', r)
  unfolding get_or_create
  get_or_create-again k c c' r n m of_type settled fuel eq =
      let small = missing-le types c in
      let sound = IsSettled-IsSound c settled in
      let g = get_or_create-Gives kinds types closed n k of_type c sound (omega arith) in
      let again =
        look_up-again m k g.table (g.table k) refl g.held
          (Extends-IsSound kinds c g.table g.extends sound) in
      subst (λ l. asked_again m k l ≡ l) (sym g.looked_up ∙ eq) again
