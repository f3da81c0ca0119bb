-- ===== src/ForeignType/Complete.antt =====
-- `ForeignType_GetOrCreate` of foreign_type.c: the recursion through the types, with enough fuel.
use pycallocs.Prelude.{
  Elem, ℕ, zero, suc, ◌≡◌, ◌≢◌, ◌<◌, refl, sym, ap, subst, ◌∙◌, ◌⊎◌, inl, inr, arith, Bool, true,
  false, Option, none, some, List, [], ◌∷◌, ◌==◌, Bool-cases, map, All,
}
use pycallocs.ForeignType.{
  Kind, Entry, created, initialised, Table, Looked, AllLooked, set_item, init_types,
  foreign_type_new, add_looked, get_next, get_all, finish_type, create, look_up, get_or_create,
}
use pycallocs.ForeignType.Table.{
  returned, IsComplete, Extends, Extends-refl, Extends-trans, missing, missing-created,
  missing-Extends, set_item-same, set_item-other,
}

module _ (kinds : ℕ → Kind) where
  -- The table holds only types that can be created.
  abbrev pub IsSound : Table → Type 0
  IsSound c = (j : ℕ) → (c j ≡ none) ⊎ (foreign_type_new kinds j ≡ true)

  -- Every type of the table is complete.
  abbrev pub IsSettled : Table → Type 0
  IsSettled c = (j : ℕ) → (c j ≡ none) ⊎ IsComplete kinds c j

  -- What a call for the type `k` is to leave of the table `c`.
  pub record Gives (k : ℕ) (c : Table) (looked : Looked) : Type 0 where
    pub table : Table
    pub looked_up : looked ≡ some (table, returned kinds k)
    pub extends : Extends kinds c table
    pub held : (table k ≢ none) ⊎ (foreign_type_new kinds k ≡ false)

  pub Extends-IsSound : (c c' : Table) → Extends kinds c c' → IsSound c → IsSound c'
  Extends-IsSound c c' h sound j = elim (h j) [
    | inl same ↦ elim (sound j) [ inl lacking ↦ inl (same ∙ lacking) | inr makes ↦ inr makes ]
    | inr (lacking, (makes, entry)) ↦ inr makes
  ]

  created-IsSound :
      (k : ℕ) (c : Table)
      → foreign_type_new kinds k ≡ true
      → IsSound c
      → IsSound (set_item k created c)
  created-IsSound k c makes sound j = elim (Bool-cases (j == k)) [
    | inl here ↦
        let same : k ≡ j = ground arith in inr (ap (foreign_type_new kinds) (sym same) ∙ makes)
    | inr other ↦ elim (sound j) [
      | inl lacking ↦ inl (set_item-other j k created c (ground arith) ∙ lacking)
      | inr makes' ↦ inr makes'
    ]
  ]

  module _ (types : List ℕ) (get : ℕ → Table → Looked) (n : ℕ)
      (call : (k : ℕ)
        → Elem k types
        → (c : Table) → IsSound c
        → missing types c < n
        → Gives k c (get k c)) where
    get_all-Extends :
        (ks : List ℕ) (c : Table)
        → All (λ k. Elem k types) ks
        → IsSound c
        → missing types c < n
        → (c' : Table) × (get_all get ks c ≡ some (c', map (returned kinds) ks))
          × Extends kinds c c'
    unfolding get_all get_next add_looked
    get_all-Extends [] c of_types sound fuel = (c, refl, Extends-refl kinds c)
    get_all-Extends (k ∷ ks) c (of_type, of_types) sound fuel =
        let first = call k of_type c sound fuel in
        let grown = missing-Extends kinds types c first.table first.extends in
        let sound' = Extends-IsSound c first.table first.extends sound in
        let (c', rest, extends) = get_all-Extends ks first.table of_types sound' (omega arith) in
        (
          c',
          rw (first.looked_up, rest) refl,
          Extends-trans kinds c first.table c' first.extends extends,
        )

  -- The new type is initialised last.
  finish_type-Extends :
      (k : ℕ) (c c' : Table)
      → foreign_type_new kinds k ≡ true
      → c k ≡ none
      → Extends kinds (set_item k created c) c'
      → Extends kinds c (set_item k (initialised (map (returned kinds) (init_types (kinds k)))) c')
  finish_type-Extends k c c' makes lacking h j =
      let e = initialised (map (returned kinds) (init_types (kinds k))) in
      elim (Bool-cases (j == k)) [
        | inl here ↦
            let same : k ≡ j = ground arith in
            inr (
              ap c (sym same) ∙ lacking,
              subst (IsComplete kinds (set_item k e c')) same (makes, set_item-same k e c'),
            )
        | inr other ↦
            let ne : j ≢ k = ground arith in
            let old = set_item-other j k e c' ne in
            let old' = set_item-other j k created c ne in
            elim (h j) [
              | inl kept ↦ inl (old ∙ kept ∙ old')
              | inr (lacking', (makes', entry)) ↦ inr (sym old' ∙ lacking', (makes', old ∙ entry))
            ]
      ]

  finish_type-Gives :
      (k : ℕ) (c : Table) (all : AllLooked)
      → foreign_type_new kinds k ≡ true
      → c k ≡ none
      → (c' : Table) × (all ≡ some (c', map (returned kinds) (init_types (kinds k))))
        × Extends kinds (set_item k created c) c'
      → Gives k c (finish_type kinds k all)
  unfolding finish_type
  finish_type-Gives k c all makes lacking (c', got, extends) =
      let e = initialised (map (returned kinds) (init_types (kinds k))) in
      record {
        table = set_item k e c';
        looked_up = rw (got, makes) refl;
        extends = finish_type-Extends k c c' makes lacking extends;
        held = inl (λ h. let there = set_item-same k e c' in cc);
      }

  module _ (types : List ℕ)
      (closed : (k : ℕ) → Elem k types → All (λ j. Elem j types) (init_types (kinds k))) where
    create-Gives :
        (n k : ℕ) (c : Table) (makes : Bool)
        → ((j : ℕ)
            → Elem j types
            → (c' : Table) → IsSound c'
            → missing types c' < n
            → Gives j c' (get_or_create kinds n j c'))
        → foreign_type_new kinds k ≡ makes
        → Elem k types
        → IsSound c
        → missing types c < suc n
        → c k ≡ none
        → Gives k c (create kinds (get_or_create kinds n) k c makes)
    unfolding create
    create-Gives n k c false call eq of_type sound fuel lacking = record {
      table = c;
      looked_up = rw eq refl;
      extends = Extends-refl kinds c;
      held = inr eq;
    }
    create-Gives n k c true call eq of_type sound fuel lacking =
        let fewer = missing-created types k created c of_type lacking in
        finish_type-Gives k c _ eq lacking (
          get_all-Extends types (get_or_create kinds n) n call (init_types (kinds k))
            (set_item k created c) (closed k of_type) (created-IsSound k c eq sound) (omega arith))

    look_up-Gives :
        (n k : ℕ) (c : Table) (o : Option Entry)
        → ((j : ℕ)
            → Elem j types
            → (c' : Table) → IsSound c'
            → missing types c' < n
            → Gives j c' (get_or_create kinds n j c'))
        → Elem k types
        → IsSound c
        → missing types c < suc n
        → c k ≡ o
        → Gives k c (look_up kinds (get_or_create kinds n) k c o)
    unfolding look_up
    look_up-Gives n k c none call of_type sound fuel eq =
        create-Gives n k c (foreign_type_new kinds k) call refl of_type sound fuel eq
    look_up-Gives n k c (some e) call of_type sound fuel eq = elim (sound k) [
      | inl lacking ↦ absurd cc
      | inr makes ↦ record {
        table = c;
        looked_up = rw makes refl;
        extends = Extends-refl kinds c;
        held = inl (λ h. cc);
      }
    ]

    -- Fuel for one call more than there are types missing is enough.
    pub get_or_create-Gives :
        (n k : ℕ)
        → Elem k types
        → (c : Table) → IsSound c
        → missing types c < n
        → Gives k c (get_or_create kinds n k c)
    unfolding get_or_create
    get_or_create-Gives zero k of_type c sound fuel = absurd (omega arith)
    get_or_create-Gives (suc n) k of_type c sound fuel =
        look_up-Gives n k c (c k) (get_or_create-Gives n) of_type sound fuel refl
