-- ===== src/ForeignType/Table.antt =====
-- How the table of foreign_type.c grows.
use pycallocs.Prelude.{
  ℕ, ◌+◌, ◌≡◌, ◌≢◌, ◌≤◌, ◌<◌, refl, sym, ap, ◌∙◌, ◌⊎◌, inl, inr, arith, true, Option, none, some,
  List, [], ◌∷◌, ◌==◌, Bool-cases, map, All, Elem, length, if◌then◌else◌,
}
use pycallocs.ForeignType.{
  void, base, composite, subprogram, address, array, enumeration, subrange, Kind, Entry,
  initialised, Table, set_item, init_types, foreign_type_new,
}

-- The types that AddressProxy_InitType and ArrayProxy_InitType ask for.
abbrev pub pointees : Kind → List ℕ
pointees (address k) = k ∷ []
pointees (array k) = k ∷ []
pointees void = []
pointees (base t) = []
pointees (composite ks) = []
pointees subprogram = []
pointees enumeration = []
pointees subrange = []

module _ (kinds : ℕ → Kind) where
  -- What asking for a type gives, whatever the table holds.
  abbrev pub returned : ℕ → Option ℕ
  returned k = if foreign_type_new kinds k then some k else none

  -- The type can be created, and it was initialised with what asking for each of its types gives.
  abbrev pub IsComplete : Table → ℕ → Type 0
  IsComplete c k =
      (foreign_type_new kinds k ≡ true)
      × (c k ≡ some (initialised (map returned (init_types (kinds k)))))

  -- No initialisation of one of the types leaves an exception set: each type that a pointer or an
  -- array asks for can be created.
  abbrev pub NonePending : List ℕ → Type 0
  NonePending types =
      (k : ℕ) → Elem k types → All (λ j. foreign_type_new kinds j ≡ true) (pointees (kinds k))

  -- A pointer or an array was initialised with its pointee or the address of its items, not NULL.
  abbrev pub FoundPointee : Option Entry → Kind → Type 0
  FoundPointee e (address k) = e ≡ some (initialised (some k ∷ []))
  FoundPointee e (array k) = e ≡ some (initialised (some k ∷ []))
  FoundPointee e void = Unit
  FoundPointee e (base t) = Unit
  FoundPointee e (composite ks) = Unit
  FoundPointee e subprogram = Unit
  FoundPointee e enumeration = Unit
  FoundPointee e subrange = Unit

  pub IsComplete-FoundPointee :
      (t : Kind) (e : Option Entry)
      → All (λ j. foreign_type_new kinds j ≡ true) (pointees t)
      → e ≡ some (initialised (map returned (init_types t)))
      → FoundPointee e t
  unfolding init_types
  IsComplete-FoundPointee (address k) e (makes, none_left) eq = eq ∙ rw makes refl
  IsComplete-FoundPointee (array k) e (makes, none_left) eq = eq ∙ rw makes refl
  IsComplete-FoundPointee void e none_left eq = tt
  IsComplete-FoundPointee (base t) e none_left eq = tt
  IsComplete-FoundPointee (composite ks) e none_left eq = tt
  IsComplete-FoundPointee subprogram e none_left eq = tt
  IsComplete-FoundPointee enumeration e none_left eq = tt
  IsComplete-FoundPointee subrange e none_left eq = tt

  -- Old entries are as they were, and new ones are complete.
  abbrev pub Extends : Table → Table → Type 0
  Extends c c' = (j : ℕ) → (c' j ≡ c j) ⊎ ((c j ≡ none) × IsComplete c' j)

  pub Extends-refl : (c : Table) → Extends c c
  Extends-refl c j = inl refl

  pub Extends-trans : (c c' c'' : Table) → Extends c c' → Extends c' c'' → Extends c c''
  Extends-trans c c' c'' h h' j = elim (h j) [
    | inl same ↦ elim (h' j) [
      | inl same' ↦ inl (same' ∙ same)
      | inr (missing, complete) ↦ inr (sym same ∙ missing, complete)
    ]
    | inr (missing, complete) ↦ elim (h' j) [
      | inl same' ↦ inr (missing, (complete.0, same' ∙ complete.1))
      | inr (missing', complete') ↦ let entry = complete.1 in absurd cc
    ]
  ]

-- How many of the given types the table lacks.
abbrev pub lacks : Option Entry → ℕ
lacks none = 1
lacks (some e) = 0

abbrev pub missing : List ℕ → Table → ℕ
missing [] c = 0
missing (k ∷ ks) c = lacks (c k) + missing ks c

lacks-le : (o : Option Entry) → lacks o ≤ 1
lacks-le none = omega arith
lacks-le (some e) = omega arith

pub missing-le : (ks : List ℕ) (c : Table) → missing ks c ≤ length ks
missing-le [] c = omega arith
missing-le (k ∷ ks) c = omega (arith, lacks-le (c k), missing-le ks c)

pub set_item-same : (k : ℕ) (e : Entry) (c : Table) → set_item k e c k ≡ some e
set_item-same k e c = ground arith

pub set_item-other : (j k : ℕ) (e : Entry) (c : Table) → j ≢ k → set_item k e c j ≡ c j
set_item-other j k e c ne = ground arith

missing-set_item :
    (ks : List ℕ) (k : ℕ) (e : Entry) (c : Table) → missing ks (set_item k e c) ≤ missing ks c
missing-set_item [] k e c = omega arith
missing-set_item (j ∷ js) k e c = elim (Bool-cases (j == k)) [
  | inl here ↦ rw here (omega (arith, missing-set_item js k e c))
  | inr other ↦ rw other (omega (arith, missing-set_item js k e c))
]

-- A new entry for one of the types leaves fewer of them missing.
pub missing-created :
    (ks : List ℕ) (k : ℕ) (e : Entry) (c : Table)
    → Elem k ks
    → c k ≡ none
    → missing ks (set_item k e c) < missing ks c
missing-created [] k e c never lacking = absurd never
missing-created (j ∷ js) k e c (inl same) lacking =
    let test : (j == k) ≡ true = ground arith in
    let empty : c j ≡ none = ap c (sym same) ∙ lacking in
    rw (test, empty) (omega (arith, missing-set_item js k e c))
missing-created (j ∷ js) k e c (inr later) lacking = elim (Bool-cases (j == k)) [
  | inl here ↦
      let empty : c j ≡ none = ap c (ground arith) ∙ lacking in
      rw (here, empty) (omega (arith, missing-set_item js k e c))
  | inr other ↦ rw other (omega (arith, missing-created js k e c later lacking))
]

module _ (kinds : ℕ → Kind) where
  pub missing-Extends :
      (ks : List ℕ) (c c' : Table) → Extends kinds c c' → missing ks c' ≤ missing ks c
  missing-Extends [] c c' h = omega arith
  missing-Extends (k ∷ ks) c c' h = elim (h k) [
    | inl same ↦ rw same (omega (arith, missing-Extends ks c c' h))
    | inr (lacking, (made, complete)) ↦
        rw (lacking, complete) (omega (arith, missing-Extends ks c c' h))
  ]
