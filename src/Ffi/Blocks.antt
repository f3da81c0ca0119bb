-- ===== src/Ffi/Blocks.antt =====
-- The blocks that building a libffi type takes (function_proxy.c): none is lost.
use pycallocs.Prelude.{
  ℕ, ◌+◌, ◌-◌, ◌≡◌, refl, arith, Bool, Option, none, some, ◌∙◌, ap, ◌==◌, Bool-cases, ◌⊎◌,
  Option-cases, inl, inr,
}
use pycallocs.Ffi.{
  CType, Members, void, pointer, enumeration, base, composite, subrange, end, member, FfiType,
  Elements, scalar, struct, stop, element, ffi_base, ffi_enumeration, free_ffi_type, free_elements,
  free_ffi_type_arr, Libffi, BuiltElements, patch_struct, finish_struct, add_element, ffi_type_for,
  ffi_members,
}
use pycallocs.BaseType.Types.{BaseUniqtype, Encoding, boolean}

-- The blocks that a type holds: two for each struct, its descriptor and its array.
unfoldable mutual
  pub blocks : FfiType → ℕ
  blocks (scalar s) = 0
  blocks (struct size align es) = 2 + blocks_elements es

  pub blocks_elements : Elements → ℕ
  blocks_elements stop = 0
  blocks_elements (element e es) = blocks e + blocks_elements es

mutual
  unfolding blocks free_ffi_type

  pub free_ffi_type_lem : (t : FfiType) (n : ℕ) → free_ffi_type t n ≡ n - blocks t
  free_ffi_type_lem (scalar s) n = omega arith
  free_ffi_type_lem (struct size align es) n = omega (arith, free_elements_lem es n)

  pub free_elements_lem : (es : Elements) (n : ℕ) → free_elements es n ≡ n - blocks_elements es
  free_elements_lem stop n = omega arith
  free_elements_lem (element e es) n =
      omega (arith, free_ffi_type_lem e n, free_elements_lem es (free_ffi_type e n))

-- The blocks of what was built, none for NULL.
abbrev pub held : Option FfiType → ℕ
held none = 0
held (some t) = blocks t

ffi_base-held : (c : Bool) (enc : Encoding) (size : ℕ) → held (ffi_base c enc size) ≡ 0
unfolding ffi_base blocks
ffi_base-held c boolean size = refl
ffi_base-held c _ size = ground arith

ffi_enumeration-held : (c : Bool) (b : Option BaseUniqtype) → held (ffi_enumeration c b) ≡ 0
unfolding ffi_enumeration
ffi_enumeration-held c none = refl
ffi_enumeration-held c (some b) = ffi_base-held c b.enc b.size

module _ (lib : Libffi) where
  patch_struct-held :
      (size : ℕ) (es : Elements) (layout : ℕ × ℕ)
      → blocks (patch_struct lib size es layout) ≡ 2 + blocks_elements es
  unfolding patch_struct blocks
  patch_struct-held size es (s, align) = elim (Bool-cases (s == size)) [
    | inl same ↦ rw same
    | inr other ↦ rw other
  ]

  finish_struct-held :
      (size live : ℕ) (b : BuiltElements) (layout : Option (ℕ × ℕ))
      → b.live ≡ live + 1 + blocks_elements b.result.0
      → (finish_struct lib size b layout).live
        ≡ live + held (finish_struct lib size b layout).result
  unfolding finish_struct free_ffi_type_arr blocks
  finish_struct-held size live b none e = elim (Bool-cases b.result.1) [
    | inl all ↦ simp all (omega (arith, free_ffi_type_lem (struct 0 0 b.result.0) (b.live + 1)))
    | inr part ↦ simp part (omega (arith, free_elements_lem b.result.0 b.live))
  ]
  finish_struct-held size live b (some layout) e = elim (Bool-cases b.result.1) [
    | inl all ↦ simp all (omega (arith, patch_struct-held size b.result.0 layout))
    | inr part ↦ simp part (omega (arith, free_elements_lem b.result.0 b.live))
  ]

  add_element-held :
      (o : Option FfiType) (live n : ℕ) (rest : ℕ → BuiltElements)
      → n ≡ live + held o
      → (rest n).live ≡ n + blocks_elements (rest n).result.0
      → (add_element lib o n rest).live ≡ live + blocks_elements (add_element lib o n rest).result.0
  unfolding add_element blocks
  add_element-held none live n rest e more = omega arith
  add_element-held (some t) live n rest e more = omega arith

  mutual
    unfolding ffi_type_for blocks

    pub ffi_type_for-held :
        (t : CType) (live : ℕ)
        → (ffi_type_for lib t live).live ≡ live + held (ffi_type_for lib t live).result
    ffi_type_for-held void live = omega arith
    ffi_type_for-held pointer live = omega arith
    ffi_type_for-held (enumeration b) live = omega (arith, ffi_enumeration-held lib.has_complex b)
    ffi_type_for-held (base b) live = omega (arith, ffi_base-held lib.has_complex b.enc b.size)
    ffi_type_for-held (composite size ms) live =
        finish_struct-held size live _ _ (ffi_members-held ms (live + 1))
    ffi_type_for-held subrange live = omega arith

    ffi_members-held :
        (ms : Members) (live : ℕ)
        → (ffi_members lib ms live).live ≡ live + blocks_elements (ffi_members lib ms live).result.0
    ffi_members-held end live = omega arith
    ffi_members-held (member t ms) live =
        let b = ffi_type_for lib t live in
        add_element-held b.result live b.live (ffi_members lib ms) (ffi_type_for-held t live)
          (ffi_members-held ms b.live)

  -- What `free_ffi_type` returns to: a failed call has given back every block that it took, at
  -- whatever field and for whatever reason it failed, and the type that a successful call returns
  -- holds all that it took, so that freeing it leaves none.
  pub ffi_type_for_balanced :
      (t : CType) (live : ℕ)
      → (((ffi_type_for lib t live).result ≡ none) × ((ffi_type_for lib t live).live ≡ live))
        ⊎ ((f : FfiType) × ((ffi_type_for lib t live).result ≡ some f)
            × (free_ffi_type f (ffi_type_for lib t live).live ≡ live))
  ffi_type_for_balanced t live = elim (Option-cases (ffi_type_for lib t live).result) [
    | inl null ↦ inl (null, ffi_type_for-held t live ∙ ap (λ o. live + held o) null ∙ omega arith)
    | inr (f, got) ↦
        let total = ffi_type_for-held t live ∙ ap (λ o. live + held o) got in
        inr (f, got, omega (arith, free_ffi_type_lem f (ffi_type_for lib t live).live, total))
  ]
