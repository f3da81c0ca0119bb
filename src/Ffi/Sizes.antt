-- ===== src/Ffi/Sizes.antt =====
-- The sizes of libffi types (function_proxy.c) agree with those of the types they stand for.
use pycallocs.Prelude.{
  ℕ, ◌+◌, ◌≡◌, ◌≢◌, refl, arith, Bool, true, Option, none, ap, ◌∙◌, some, ok, ◌==◌, Bool-cases, inl,
  inr, ltb, ◌≤◌, if◌then◌else◌, ◌⊎◌,
}
use mathlib.Core.Path.{subst}
use pycallocs.BaseType.Types.{
  BaseUniqtype, BaseForeignType, Encoding, boolean, signed, signed_char, float, complex_float,
  foreign_base_type_new,
}
use pycallocs.BaseType.Frames.{store_size}
use pycallocs.Ffi.{
  Members, composite, FfiType, Elements, Scalar, scalar, struct, stop, element, ffi_base, ffi_void,
  ffi_pointer, ffi_uint, ffi_sint, ffi_float, ffi_complex, Libffi, alignment, raise_alignment,
  patch_struct, ffi_type_for, ffi_members, finish_struct, BuiltElements,
}

-- The size of a static descriptor on a 64-bit platform.
abbrev pub scalar_size : Scalar → ℕ
scalar_size ffi_void = 0
scalar_size ffi_pointer = 8
scalar_size (ffi_uint w) = w
scalar_size (ffi_sint w) = w
scalar_size (ffi_float w) = w
scalar_size (ffi_complex w) = w

-- The descriptor of an encoding at a size.
expected : Encoding → ℕ → Scalar
expected boolean size = ffi_uint 1
expected signed size = ffi_sint size
expected signed_char size = ffi_sint size
expected float size = ffi_float size
expected complex_float size = ffi_complex size
expected _ size = ffi_uint size

accepted_parts :
    (c : Bool) (enc : Encoding) (size bit_size : ℕ) (f : BaseForeignType)
    → foreign_base_type_new (record { enc = enc; size = size; bit_size = bit_size }) ≡ ok f
    → (enc ≢ complex_float) ⊎ (c ≡ true)
    → (ffi_base c enc size ≡ some (scalar (expected enc size)))
      × (scalar_size (expected enc size) ≡ store_size f.ft_storeinto)
unfolding foreign_base_type_new ffi_base expected
accepted_parts c boolean size bit_size f got complex = ground arith
accepted_parts c complex_float size bit_size f got (inl ne) = absurd (ne refl)
accepted_parts c complex_float size bit_size f got (inr yes_complex) = rw yes_complex (ground arith)
accepted_parts c _ size bit_size f got complex = ground arith

-- A base type that `ForeignBaseType_New` accepts has a libffi descriptor, and it is of the size
-- that the conversion into memory writes. (A complex type has one if libffi has complex types.)
pub accepted-ffi_base :
    (has_complex : Bool) (t : BaseUniqtype) (f : BaseForeignType)
    → foreign_base_type_new t ≡ ok f
    → (t.enc ≢ complex_float) ⊎ (has_complex ≡ true)
    → (s : Scalar) × (ffi_base has_complex t.enc t.size ≡ some (scalar s))
      × (scalar_size s ≡ store_size f.ft_storeinto)
accepted-ffi_base c t f got complex =
    let (same, size) = accepted_parts c t.enc t.size t.bit_size f got complex in
    (expected t.enc t.size, same, size)

-- Every element of a struct is aligned at least as weakly as the struct.
abbrev pub AlignedBy : Libffi → ℕ → Elements → Type 0
AlignedBy lib n stop = Unit
AlignedBy lib n (element e es) = (alignment lib e ≤ n) × AlignedBy lib n es

module _ (lib : Libffi) where
  AlignedBy-mono : (m n : ℕ) (es : Elements) → m ≤ n → AlignedBy lib m es → AlignedBy lib n es
  AlignedBy-mono m n stop le h = tt
  AlignedBy-mono m n (element e es) le (h, hs) = (omega arith, AlignedBy-mono m n es le hs)

  le-raise_alignment : (es : Elements) (align : ℕ) → align ≤ raise_alignment lib es align
  unfolding raise_alignment
  le-raise_alignment stop align = omega arith
  le-raise_alignment (element e es) align = ground (
    arith,
    le-raise_alignment es (if ltb align (alignment lib e) then alignment lib e else align),
  )

  raise_alignment-AlignedBy :
      (es : Elements) (align : ℕ) → AlignedBy lib (raise_alignment lib es align) es
  unfolding raise_alignment
  raise_alignment-AlignedBy stop align = tt
  raise_alignment-AlignedBy (element e es) align =
      let next = if ltb align (alignment lib e) then alignment lib e else align in
      (ground (arith, le-raise_alignment es next), raise_alignment-AlignedBy es next)

  -- What a struct descriptor is after patching.
  abbrev IsSized : ℕ → FfiType → Type 0
  IsSized size f =
      (align : ℕ) × (es : Elements) × (f ≡ struct size align es)
      × ((lib.prep_struct es ≡ some (size, align)) ⊎ AlignedBy lib align es)

  patch_struct-IsSized :
      (size : ℕ) (es : Elements) (layout : ℕ × ℕ)
      → lib.prep_struct es ≡ some layout
      → IsSized size (patch_struct lib size es layout)
  unfolding patch_struct
  patch_struct-IsSized size es (s, align) prep = elim (Bool-cases (s == size)) [
    | inl same ↦
        let e : s ≡ size = ground arith in
        rw same (align, es, ap (λ k. struct k align es) e, inl (prep ∙ ap (λ k. some (k, align)) e))
    | inr other ↦
        rw other (raise_alignment lib es align, es, refl, inr (raise_alignment-AlignedBy es align))
  ]

  finish_struct-IsSized :
      (size : ℕ) (b : BuiltElements) (layout : Option (ℕ × ℕ)) (f : FfiType)
      → lib.prep_struct b.result.0 ≡ layout
      → (finish_struct lib size b layout).result ≡ some f
      → IsSized size f
  unfolding finish_struct
  finish_struct-IsSized size b none f prep got = cc
  finish_struct-IsSized size b (some layout) f prep got = elim (Bool-cases b.result.1) [
    | inl all ↦
        let e : some (patch_struct lib size b.result.0 layout) ≡ some f = simp all at got in
        let same : patch_struct lib size b.result.0 layout ≡ f = cc e in
        subst (IsSized size) same (patch_struct-IsSized size b.result.0 layout prep)
    | inr part ↦ let e : Option.none ≡ some f = simp part at got in cc
  ]

  -- The libffi type of a struct or union has the size of the C type, whatever `ffi_prep_cif`
  -- computed, and where that size had to be patched no element is aligned more strictly than it.
  pub struct_size :
      (size live : ℕ) (ms : Members) (f : FfiType)
      → (ffi_type_for lib (composite size ms) live).result ≡ some f
      → (align : ℕ) × (es : Elements) × (f ≡ struct size align es)
        × ((lib.prep_struct es ≡ some (size, align)) ⊎ AlignedBy lib align es)
  unfolding ffi_type_for
  struct_size size live ms f got =
      finish_struct-IsSized size (ffi_members lib ms (live + 1)) _ f refl got
