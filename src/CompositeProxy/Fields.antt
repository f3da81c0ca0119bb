-- ===== src/CompositeProxy/Fields.antt =====
-- The loop over the fields in `compositeproxy_init` of composite_proxy.c: what it leaves in a struct.
use pycallocs.Prelude.{
  ℕ, ◌+◌, ◌≡◌, ◌≢◌, ◌≤◌, ◌<◌, refl, ◌⊎◌, inl, inr, arith, Option, none, some, List, [], ◌∷◌, Error,
  ◌∙◌,
}
use pycallocs.Memory.{Mem, zero_fill}
use pycallocs.Memory.Frame.{SameOutside-zero_fill}
use pycallocs.CompositeProxy.{
  FieldType, FieldInfo, Dict, Initialized, after_store, init_field, init_one, init_fields,
  field_value,
}

-- `m'` differs from `m` at most at the addresses from `lo` on and below `hi`.
abbrev pub SameBeyond : ℕ → ℕ → Mem → Mem → Type 0
SameBeyond lo hi m m' = (q : ℕ) → (q < lo) ⊎ (hi ≤ q) → m' q ≡ m q

-- The loop wrote all fields, or stopped at a store that raised.
abbrev pub LoopCases : (Mem → Type 0) → ℕ → ℕ → Mem → Initialized → Type 0
LoopCases held lo hi m r =
    (((r.result.status ≡ none) × held r.result.mem) ⊎ (r.result.status ≢ none))
    × SameBeyond lo hi m r.result.mem

module _ {Obj : Type 0} where
  -- The bytes of a field that is not handled are not looked at.
  abbrev pub size_of : Option (FieldType Obj) → ℕ
  size_of none = 0
  size_of (some t) = t.size

  -- A struct's fields stand one behind the other in the bytes from `lo` to `hi`.
  abbrev pub IsLaidOut : List (FieldInfo Obj) → ℕ → ℕ → Type 0
  IsLaidOut [] lo hi = lo ≤ hi
  IsLaidOut (f ∷ fs) lo hi = (lo ≤ f.offset) × IsLaidOut fs (f.offset + size_of f.type) hi

  -- What storing a value into a field leaves, and what clearing one without a value leaves.
  abbrev pub written : Option (FieldType Obj) → Option Obj → ℕ → Mem → Mem
  written none value a m = m
  written (some t) none a m = zero_fill t.size m a
  written (some t) (some value) a m = (t.storeinto value a m).mem

  abbrev pub Holds : Option (FieldType Obj) → Option Obj → ℕ → Mem → Mem → Type 0
  Holds o value a m' m = (q : ℕ) → a ≤ q → q < a + size_of o → m' q ≡ written o value a m q

  -- Each field of the final memory `m'` holds what was written for it; `m` is the memory when the
  -- first of them is initialised.
  abbrev pub FieldsHold : ℕ → List Obj → Dict Obj → List (FieldInfo Obj) → ℕ → Mem → Mem → Type 0
  FieldsHold p args kwargs [] i m' m = Unit
  FieldsHold p args kwargs (f ∷ fs) i m' m =
      let value = field_value args kwargs i f.name in
      Holds f.type value (p + f.offset) m' m
      × FieldsHold p args kwargs fs (i + 1) m' (written f.type value (p + f.offset) m)

  written-SameBeyond :
      (o : Option (FieldType Obj)) (value : Option Obj) (a : ℕ) (m : Mem)
      → SameBeyond a (a + size_of o) m (written o value a m)
  written-SameBeyond none value a m q out = refl
  written-SameBeyond (some t) none a m q out = SameOutside-zero_fill t.size m a q out
  written-SameBeyond (some t) (some value) a m q out = t.contained value a m q out

  after_store-LoopCases :
      (t : FieldType Obj) (value : Obj) (a lo hi : ℕ) (m : Mem) (rest : Mem → Initialized)
      (held : Mem → Type 0) (o : Option Error)
      → let s = t.storeinto value a m in
        s.status ≡ o
        → lo ≤ a
        → a + t.size ≤ hi
        → LoopCases held (a + t.size) hi s.mem (rest s.mem)
        → LoopCases
            (λ m'. ((q : ℕ) → a ≤ q → q < a + t.size → m' q ≡ s.mem q) × held m')
            lo
            hi
            m
            (after_store o s rest)
  unfolding after_store
  after_store-LoopCases t value a lo hi m rest held (some e) eq low high later =
      (inr (λ h. cc), λ q out. t.contained value a m q (omega arith))
  after_store-LoopCases t value a lo hi m rest held none eq low high (cases, same) = (
    elim cases [
      | inl (e, h) ↦ inl (e, (λ q from to. same q (omega arith), h))
      | inr failed ↦ inr failed
    ],
    λ q out. same q (omega arith) ∙ t.contained value a m q (omega arith),
  )

  init_one-LoopCases :
      (p : ℕ) (o : Option (FieldType Obj)) (offset : ℕ) (value : Option Obj) (lo hi : ℕ) (m : Mem)
      (rest : Mem → Initialized) (held : Mem → Type 0)
      → lo ≤ p + offset
      → p + offset + size_of o ≤ hi
      → let m' = written o value (p + offset) m in
        LoopCases held (p + offset + size_of o) hi m' (rest m')
        → LoopCases
            (λ m''. Holds o value (p + offset) m'' m × held m'')
            lo
            hi
            m
            (init_one p o offset value m rest)
  unfolding init_one init_field
  init_one-LoopCases p none offset value lo hi m rest held low high (cases, same) = (
    elim cases [
      | inl (e, h) ↦ inl (e, (λ q from to. absurd (omega arith), h))
      | inr failed ↦ inr failed
    ],
    λ q out. same q (omega arith),
  )
  init_one-LoopCases p (some t) offset none lo hi m rest held low high (cases, same) = (
    elim cases [
      | inl (e, h) ↦ inl (e, (λ q from to. same q (omega arith), h))
      | inr failed ↦ inr failed
    ],
    λ q out. same q (omega arith) ∙ SameOutside-zero_fill t.size m (p + offset) q (omega arith),
  )
  init_one-LoopCases p (some t) offset (some value) lo hi m rest held low high later =
      after_store-LoopCases t value (p + offset) lo hi m rest held _ refl low high later

  pub IsLaidOut-le : (fs : List (FieldInfo Obj)) (lo hi : ℕ) → IsLaidOut fs lo hi → lo ≤ hi
  IsLaidOut-le [] lo hi laid = laid
  IsLaidOut-le (f ∷ fs) lo hi (low, laid) =
      omega (arith, IsLaidOut-le fs (f.offset + size_of f.type) hi laid)

  pub init_fields-LoopCases :
      (p : ℕ) (args : List Obj) (kwargs : Dict Obj) (fs : List (FieldInfo Obj)) (i lo hi : ℕ)
      (m : Mem)
      → IsLaidOut fs lo hi
      → LoopCases
          (λ m'. FieldsHold p args kwargs fs i m' m)
          (p + lo)
          (p + hi)
          m
          (init_fields p args kwargs fs i m)
  unfolding init_fields
  init_fields-LoopCases p args kwargs [] i lo hi m laid = (inl (refl, tt), λ q out. refl)
  init_fields-LoopCases p args kwargs (f ∷ fs) i lo hi m (low, laid) =
      let value = field_value args kwargs i f.name in
      let m' = written f.type value (p + f.offset) m in
      let end = f.offset + size_of f.type in
      let fits = IsLaidOut-le fs end hi laid in
      let (cases, same) = init_fields-LoopCases p args kwargs fs (i + 1) end hi m' laid in
      init_one-LoopCases p f.type f.offset value (p + lo) (p + hi) m
        (init_fields p args kwargs fs (i + 1)) (λ m''. FieldsHold p args kwargs fs (i + 1) m'' m')
        (omega arith) (omega arith) (cases, λ q out. same q (omega arith))
