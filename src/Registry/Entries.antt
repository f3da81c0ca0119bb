-- ===== src/Registry/Entries.antt =====
-- The entries of `proxy_pointing_addr_dict` in proxy.c: look-up, deletion, and how many refer to one
-- proxy.
use pycallocs.Prelude.{
  ℕ, suc, ◌+◌, ◌≡◌, ◌<◌, refl, sym, ap, ◌∙◌, inl, inr, arith, true, false, none, some, [], ◌∷◌,
  ◌==◌, Bool-cases, if◌then◌else◌, length,
}
use pycallocs.Registry.{From, foreign, field, same, Entries, lookup, erase}

pub same→eq : (f g : From) → same f g ≡ true → f ≡ g
same→eq (foreign a) (foreign b) h = ground arith
same→eq (field a) (field b) h = ground arith
same→eq (foreign a) (field b) h = cc
same→eq (field a) (foreign b) h = cc

pub same_self : (f : From) → same f f ≡ true
same_self (foreign a) = ground arith
same_self (field a) = ground arith

-- How many entries own a reference to the proxy.
abbrev pub entries : ℕ → Entries → ℕ
entries o [] = 0
entries o ((f, p) ∷ es) = (if p == o then 1 else 0) + entries o es

-- No two entries have one key.
abbrev pub IsUnique : Entries → Type 0
IsUnique [] = Unit
IsUnique ((f, o) ∷ es) = (lookup f es ≡ none) × IsUnique es

-- An entry that is found is one of the proxy's.
pub entries-lookup : (f : From) (es : Entries) (o : ℕ) → lookup f es ≡ some o → 0 < entries o es
entries-lookup f [] o h = cc
entries-lookup f ((g, p) ∷ es) o h = elim (Bool-cases (same f g)) [
  | inl eq ↦ let found : some p ≡ some o = simp eq at h in ground arith
  | inr ne ↦
      let later : lookup f es ≡ some o = simp ne at h in omega (arith, entries-lookup f es o later)
]

-- Deleting an entry takes one reference from its proxy, and none from others.
pub entries-erase :
    (f : From) (es : Entries) (p : ℕ)
    → lookup f es ≡ some p
    → (o : ℕ) → entries o es ≡ entries o (erase f es) + (if p == o then 1 else 0)
entries-erase f [] p h o = cc
entries-erase f ((g, q) ∷ es) p h o = elim (Bool-cases (same f g)) [
  | inl eq ↦
      let found : some q ≡ some p = simp eq at h in
      let same_proxy : q ≡ p = cc in rw (eq, same_proxy) (omega arith)
  | inr ne ↦
      let later : lookup f es ≡ some p = simp ne at h in
      rw ne (omega (arith, entries-erase f es p later o))
]

pub length-erase :
    (f : From) (es : Entries) (p : ℕ) → lookup f es ≡ some p → length es ≡ suc (length (erase f es))
length-erase f [] p h = cc
length-erase f ((g, q) ∷ es) p h = elim (Bool-cases (same f g)) [
  | inl eq ↦ rw eq refl
  | inr ne ↦
      let later : lookup f es ≡ some p = simp ne at h in
      rw ne (omega (arith, length-erase f es p later))
]

same_comm : (f g : From) → same f g ≡ same g f
same_comm (foreign a) (foreign b) = ground arith
same_comm (field a) (field b) = ground arith
same_comm (foreign a) (field b) = refl
same_comm (field a) (foreign b) = refl

-- Deleting an entry leaves every other key as it was.
pub lookup-erase_ne :
    (f g : From) (es : Entries) → same f g ≡ false → lookup g (erase f es) ≡ lookup g es
lookup-erase_ne f g [] ne = refl
lookup-erase_ne f g ((h, o) ∷ es) ne = elim (Bool-cases (same f h)) [
  | inl eq ↦
      let other : same g h ≡ false = ap (same g) (sym (same→eq f h eq)) ∙ same_comm g f ∙ ne in
      rw (eq, other) refl
  | inr ne' ↦ rw (ne', lookup-erase_ne f g es ne) refl
]

-- It brings no key in.
pub lookup-erase-none :
    (f g : From) (es : Entries) → lookup g es ≡ none → lookup g (erase f es) ≡ none
lookup-erase-none f g [] h = refl
lookup-erase-none f g ((k, o) ∷ es) h = elim (Bool-cases (same g k)) [
  | inl eq ↦ let found : some o ≡ none = simp eq at h in cc
  | inr ne ↦
      let later : lookup g es ≡ none = simp ne at h in
      elim (Bool-cases (same f k)) [
        | inl eq ↦ rw eq later
        | inr ne' ↦ rw (ne', ne) (lookup-erase-none f g es later)
      ]
]

pub lookup-erase_self : (f : From) (es : Entries) → IsUnique es → lookup f (erase f es) ≡ none
lookup-erase_self f [] u = refl
lookup-erase_self f ((g, o) ∷ es) (fresh, u) = elim (Bool-cases (same f g)) [
  | inl eq ↦ rw eq (ap (λ h. lookup h es) (same→eq f g eq) ∙ fresh)
  | inr ne ↦ rw (ne, ne) (lookup-erase_self f es u)
]

pub erase-IsUnique : (f : From) (es : Entries) → IsUnique es → IsUnique (erase f es)
erase-IsUnique f [] u = tt
erase-IsUnique f ((g, o) ∷ es) (fresh, u) = elim (Bool-cases (same f g)) [
  | inl eq ↦ rw eq u
  | inr ne ↦ rw ne (lookup-erase-none f g es fresh, erase-IsUnique f es u)
]

-- A new key leaves the others as they were.
pub lookup-insert :
    (f g : From) (es : Entries) (b c : ℕ)
    → lookup g es ≡ none
    → lookup f es ≡ some c
    → lookup f ((g, b) ∷ es) ≡ some c
lookup-insert f g es b c fresh h = elim (Bool-cases (same f g)) [
  | inl eq ↦
      let found : lookup g es ≡ some c = ap (λ k. lookup k es) (sym (same→eq f g eq)) ∙ h in
      absurd cc
  | inr ne ↦ rw ne h
]
