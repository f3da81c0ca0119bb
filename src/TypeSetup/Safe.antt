-- ===== src/TypeSetup/Safe.antt =====
-- What holds of a composite's proxy type once it is set up.
use pycallocs.Prelude.{
  ℕ, ◌≡◌, refl, sym, ap, ◌⊎◌, inl, inr, arith, true, false, ◌==◌, Bool-cases, Option, none, some,
  List, [], ◌∷◌, map,
}
use Prim.Native.String.{String}
use pycallocs.TypeSetup.{
  Found, is_composite, is_trivially_copiable, Member, getinvalidfield, getfield, Getset, new_getset,
  new_getsets, composite_new_type, init_field, base_after, init_getsets, init_base,
  composite_init_type,
}

-- The entry of a member: it has the member's offset and foreign type, and can be used. Its getter and
-- its setter need a type, which is there if they are, and a setter copies a plain value only.
pub record IsSafe (get : ℕ → Option Found) (mb : Member) (g : Getset) : Type 0 where
  pub placed : g.offset ≡ mb.offset
  pub typed : g.type ≡ get mb.type
  pub read :
      ((g.get ≡ getinvalidfield) × (g.type ≡ none) × (g.has_set ≡ false))
      ⊎ ((g.get ≡ getfield)
          × ((t : Found) × (g.type ≡ some t) × (g.has_set ≡ is_trivially_copiable t)))

-- An entry that was not initialised.
abbrev pub IsUntouched : Getset → Type 0
IsUntouched g = (g.get ≡ getinvalidfield) × (g.type ≡ none) × (g.has_set ≡ false)

-- Each entry is that of its member; one without a member is not initialised.
abbrev pub AllSafe : (ℕ → Option Found) → List Getset → List Member → Type 0
AllSafe get [] mbs = Unit
AllSafe get (g ∷ gs) [] = IsUntouched g × AllSafe get gs []
AllSafe get (g ∷ gs) (mb ∷ mbs) = IsSafe get mb g × AllSafe get gs mbs

-- The type is that of a composite member at the address of the whole.
abbrev pub IsFirstMember : (ℕ → Option Found) → List Member → ℕ → Type 0
IsFirstMember get [] b = ⊥
IsFirstMember get (mb ∷ mbs) b =
    ((t : Found) × (get mb.type ≡ some t)
      × (mb.offset ≡ 0)
      × (is_composite t.kind ≡ true)
      × (b ≡ t.ft_proxy_type))
    ⊎ IsFirstMember get mbs b

abbrev pub names_of : Option (List String) → List String
names_of none = []
names_of (some ns) = ns

untouched-AllSafe :
    (get : ℕ → Option Found) (ns : List String) → AllSafe get (new_getsets (some ns)) []
unfolding new_getsets
untouched-AllSafe get [] = tt
untouched-AllSafe get (n ∷ ns) = ((refl, refl, refl), untouched-AllSafe get ns)

init_field-IsSafe :
    (get : ℕ → Option Found) (g : Getset) (mb : Member) (o : Option Found)
    → get mb.type ≡ o
    → g.get ≡ getinvalidfield
    → g.has_set ≡ false
    → IsSafe get mb (init_field g mb o)
unfolding init_field
init_field-IsSafe get g mb none found eq no_set = record {
  placed = refl;
  typed = sym found;
  read = inl (eq, refl, no_set);
}
init_field-IsSafe get g mb (some t) found eq no_set = record {
  placed = refl;
  typed = sym found;
  read = inr (
    refl,
    (
      t,
      refl,
      elim (Bool-cases (is_trivially_copiable t)) [
        | inl copiable ↦ rw copiable refl
        | inr other ↦ rw other no_set
      ],
    ),
  );
}

untouched_names : (ns : List String) → map (λ (g : Getset). g.name) (new_getsets (some ns)) ≡ ns
unfolding new_getsets
untouched_names [] = refl
untouched_names (n ∷ ns) = ap (λ ms. n ∷ ms) (untouched_names ns)

init_field-name : (g : Getset) (mb : Member) (o : Option Found) → (init_field g mb o).name ≡ g.name
unfolding init_field
init_field-name g mb none = refl
init_field-name g mb (some t) = refl

module _ (get : ℕ → Option Found) where
  init_getsets-AllSafe :
      (ns : List String) (mbs : List Member)
      → AllSafe get (init_getsets get (new_getsets (some ns)) mbs) mbs
  unfolding init_getsets new_getsets
  init_getsets-AllSafe [] mbs = tt
  init_getsets-AllSafe (n ∷ ns) [] = ((refl, refl, refl), untouched-AllSafe get ns)
  init_getsets-AllSafe (n ∷ ns) (mb ∷ mbs) = (
    init_field-IsSafe get (new_getset n) mb (get mb.type) refl refl refl,
    init_getsets-AllSafe ns mbs,
  )

  getset_names :
      (ns : List String) (mbs : List Member)
      → map (λ (g : Getset). g.name) (init_getsets get (new_getsets (some ns)) mbs) ≡ ns
  unfolding init_getsets new_getsets
  getset_names [] mbs = refl
  getset_names (n ∷ ns) [] = ap (λ ms. n ∷ ms) (untouched_names ns)
  getset_names (n ∷ ns) (mb ∷ mbs) =
      rw (init_field-name (new_getset n) mb (get mb.type), getset_names ns mbs) refl

  base_after-cases :
      (b : ℕ) (mb : Member) (mbs : List Member) (o : Option Found)
      → get mb.type ≡ o
      → (base_after b mb o ≡ b) ⊎ IsFirstMember get (mb ∷ mbs) (base_after b mb o)
  unfolding base_after
  base_after-cases b mb mbs none eq = inl refl
  base_after-cases b mb mbs (some t) eq = elim (Bool-cases (mb.offset == 0)) [
    | inr other ↦ inl (rw other refl)
    | inl first ↦ elim (Bool-cases (is_composite t.kind)) [
      | inr plain ↦ inl (rw (first, plain) refl)
      | inl struct ↦ inr (rw (first, struct) (inl (t, eq, ground arith, struct, refl)))
    ]
  ]

  init_base-cases :
      (b : ℕ) (gs : List Getset) (mbs : List Member)
      → (init_base get b gs mbs ≡ b) ⊎ IsFirstMember get mbs (init_base get b gs mbs)
  unfolding init_base
  init_base-cases b [] mbs = inl refl
  init_base-cases b (g ∷ gs) [] = inl refl
  init_base-cases b (g ∷ gs) (mb ∷ mbs) =
      let b' = base_after b mb (get mb.type) in
      elim (init_base-cases b' gs mbs) [
        | inr later ↦ inr (inr later)
        | inl same ↦ rw same (base_after-cases b mb mbs (get mb.type) refl)
      ]

  -- A composite's proxy type after both phases, for any types of its members. There is one entry for
  -- each field name, in order, and none for an incomplete type. The entries and the members are
  -- matched in order: an entry has the offset and the foreign type of its member; it reads through
  -- the type if that is handled, and else raises; it has a setter exactly if the type is handled and
  -- its values can be copied by storing them; an entry without a member raises. And the base type is
  -- `allocs.Proxy`, or the proxy type of a composite member that has the address of the whole.
  pub composite_init_type-AllSafe :
      (proxy : ℕ) (names : Option (List String)) (mbs : List Member)
      → let c = composite_init_type get mbs (composite_new_type proxy names) in
        (map (λ (g : Getset). g.name) c.tp_getset ≡ names_of names)
        × AllSafe get c.tp_getset mbs
        × ((c.tp_base ≡ proxy) ⊎ IsFirstMember get mbs c.tp_base)
  unfolding composite_init_type composite_new_type init_getsets new_getsets
  composite_init_type-AllSafe proxy none mbs = (refl, tt, init_base-cases proxy [] mbs)
  composite_init_type-AllSafe proxy (some ns) mbs = (
    getset_names ns mbs,
    init_getsets-AllSafe ns mbs,
    init_base-cases proxy (new_getsets (some ns)) mbs,
  )
