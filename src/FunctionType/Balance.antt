-- ===== src/FunctionType/Balance.antt =====
-- A failed `funproxytype_setup` of function_proxy.c gives back all that it took, and
-- `funproxytype_dealloc` gives back all that a successful one took, if there are arguments.
use pycallocs.Prelude.{
  ℕ, ◌+◌, ◌-◌, ◌≡◌, ◌≢◌, refl, ◌⊎◌, inl, inr, arith, Bool-cases, Option, none, some, List, [], ◌∷◌,
  Error, ◌==◌,
}
use pycallocs.Ffi.{CType, FfiType, Elements, free_ffi_type, free_ffi_type_arr}
use pycallocs.Ffi.Blocks.{
  blocks, blocks_elements, held, free_ffi_type_lem, free_elements_lem, ffi_type_for-held,
}
use pycallocs.FunctionType.{
  Usage, Runtime, FunctionType, ArgTypes, Setup, add_argument, argument_types, release,
  argument_blocks, descriptor_array, type_array, prepare, finish_setup, setup_arguments,
  setup_result, setup_new, setup_once, setup, dealloc_cif, dealloc, add_ref,
}

free_ffi_type_arr_lem :
    (es : Elements) (n : ℕ) → free_ffi_type_arr es n ≡ n - blocks_elements es - 1
unfolding free_ffi_type_arr
free_ffi_type_arr_lem es n = omega (arith, free_elements_lem es n)

abbrev pub IsNonempty : List CType → Type 0
IsNonempty [] = ⊥
IsNonempty (t ∷ ts) = Unit

-- What the loop over the arguments has taken so far.
abbrev Taken : Usage → ArgTypes → Type 0
Taken u a =
    (a.usage.live ≡ u.live + blocks_elements a.descriptors) × (a.usage.refs ≡ u.refs + a.types)

module _ (rt : Runtime) where
  add_argument-Taken :
      (d : Option FfiType) (e : Option Error) (u v : Usage) (rest : Usage → ArgTypes)
      → v.live ≡ u.live + held d
      → v.refs ≡ u.refs
      → ((w : Usage) → Taken w (rest w))
      → Taken u (add_argument d e v rest)
  unfolding add_argument blocks
  add_argument-Taken none none u v rest l r more = omega arith
  add_argument-Taken none (some e) u v rest l r more = omega arith
  add_argument-Taken (some d) (some e) u v rest l r more = omega arith
  add_argument-Taken (some d) none u v rest l r more = omega (arith, more (add_ref v))

  argument_types-Taken : (ts : List CType) (u : Usage) → Taken u (argument_types rt ts u)
  unfolding argument_types blocks
  argument_types-Taken [] u = omega arith
  argument_types-Taken (t ∷ ts) u =
      add_argument-Taken _ _ u _ (argument_types rt ts) (ffi_type_for-held rt.lib t u.live) refl
        (argument_types-Taken ts)

  -- With no arguments the loop has done nothing.
  abbrev Bare : List CType → ArgTypes → Type 0
  Bare [] a = (a.types ≡ 0) × (blocks_elements a.descriptors ≡ 0)
  Bare (t ∷ ts) a = Unit

  argument_types-Bare : (ts : List CType) (u : Usage) → Bare ts (argument_types rt ts u)
  unfolding argument_types blocks
  argument_types-Bare [] u = (refl, refl)
  argument_types-Bare (t ∷ ts) u = tt

  -- The usage inside the loop, when `u` is that before the result's type and descriptor were made.
  abbrev Inside : List CType → FfiType → Usage → ArgTypes → Type 0
  Inside args ret u a =
      (a.usage.live ≡ u.live + blocks ret + argument_blocks rt args + blocks_elements a.descriptors)
      × (a.usage.refs ≡ u.refs + 1 + a.types)

  release_lem :
      (args : List CType) (ret : FfiType) (a : ArgTypes) (u : Usage)
      → Inside args ret u a
      → Bare args a
      → release rt args ret a ≡ u
  unfolding release argument_blocks
  release_lem [] ret a u inside bare = ground (arith, free_ffi_type_lem ret a.usage.live)
  release_lem (t ∷ ts) ret a u inside bare =
      let n = a.usage.live - 1 in
      ground (
        arith,
        free_ffi_type_arr_lem a.descriptors n,
        free_ffi_type_lem ret (free_ffi_type_arr a.descriptors n),
      )

  -- A setup that failed left everything as it was, and no cif; one that succeeded can be undone.
  Balanced : Usage → Setup → Type 0
  Balanced u r =
      ((r.status ≢ none) × (r.usage ≡ u) × (r.self.ff_cif ≡ none))
      ⊎ ((r.status ≡ none) × (dealloc r.self r.usage ≡ some u))

  dealloc_lem :
      (args : List CType) (ret : FfiType) (a : ArgTypes) (u : Usage) (old : Option ℕ)
      → IsNonempty args
      → Inside args ret u a
      → dealloc_cif
          (some (ret, descriptor_array rt args a.descriptors))
          (type_array rt args a.types old)
          (record { live = a.usage.live + 1; refs = a.usage.refs })
        ≡ some u
  unfolding dealloc_cif argument_blocks
  dealloc_lem [] ret a u old full inside = absurd full
  dealloc_lem (t ∷ ts) ret a u old full inside =
      let n = free_ffi_type ret (a.usage.live + 1) in
      ground
        (arith, free_ffi_type_lem ret (a.usage.live + 1), free_ffi_type_arr_lem a.descriptors n)

  prepare-Balanced :
      (self : FunctionType) (ret : FfiType) (a : ArgTypes) (u : Usage)
      → IsNonempty self.ff_type.arg_types
      → self.ff_cif ≡ none
      → Inside self.ff_type.arg_types ret u a
      → Bare self.ff_type.arg_types a
      → Balanced u (prepare rt self ret a)
  unfolding prepare Balanced dealloc
  prepare-Balanced self ret a u full fresh inside bare =
      let args = self.ff_type.arg_types in
      elim (Bool-cases (rt.prep_cif ret (descriptor_array rt args a.descriptors))) [
        | inl good ↦ rw good (inr (refl, dealloc_lem args ret a u self.ff_argtypes full inside))
        | inr bad ↦ rw bad (inl (ground arith, release_lem args ret a u inside bare, fresh))
      ]

  finish_setup-Balanced :
      (self : FunctionType) (ret : FfiType) (a : ArgTypes) (u : Usage) (failure : Option Error)
      → IsNonempty self.ff_type.arg_types
      → self.ff_cif ≡ none
      → Inside self.ff_type.arg_types ret u a
      → Bare self.ff_type.arg_types a
      → Balanced u (finish_setup rt self ret a failure)
  unfolding finish_setup Balanced
  finish_setup-Balanced self ret a u none full fresh inside bare =
      unfold Balanced in prepare-Balanced self ret a u full fresh inside bare
  finish_setup-Balanced self ret a u (some e) full fresh inside bare =
      inl (ground arith, release_lem self.ff_type.arg_types ret a u inside bare, fresh)

  setup_arguments-Balanced :
      (self : FunctionType) (d : Option FfiType) (v u : Usage)
      → IsNonempty self.ff_type.arg_types
      → self.ff_cif ≡ none
      → v.live ≡ u.live + held d
      → v.refs ≡ u.refs + 1
      → Balanced u (setup_arguments rt self d v)
  unfolding setup_arguments Balanced
  setup_arguments-Balanced self none v u full fresh l r = inl (ground arith, ground arith, fresh)
  setup_arguments-Balanced self (some ret) v u full fresh l r =
      let args = self.ff_type.arg_types in
      let w : Usage = record v { live = v.live + argument_blocks rt args } in
      unfold Balanced in
      finish_setup-Balanced self ret (argument_types rt args w) u _ full fresh
        (omega (arith, argument_types-Taken args w)) (argument_types-Bare args w)

  setup_result-Balanced :
      (self : FunctionType) (u : Usage) (failure : Option Error)
      → IsNonempty self.ff_type.arg_types
      → self.ff_cif ≡ none
      → Balanced u (setup_result rt self u failure)
  unfolding setup_result Balanced
  setup_result-Balanced self u (some e) full fresh = inl (ground arith, refl, fresh)
  setup_result-Balanced self u none full fresh =
      unfold Balanced in
      setup_arguments-Balanced self _ _ u full fresh
        (ffi_type_for-held rt.lib self.ff_type.ret_type u.live) refl

  setup_once-Balanced :
      (self : FunctionType) (u : Usage) (cif : Option (FfiType × Option Elements))
      → IsNonempty self.ff_type.arg_types
      → self.ff_cif ≡ none
      → cif ≡ none
      → Balanced u (setup_once rt self u cif)
  unfolding setup_once setup_new Balanced
  setup_once-Balanced self u (some cif) full fresh e = cc
  setup_once-Balanced self u none full fresh e = elim (Bool-cases (self.ff_type.nret == 1)) [
    | inl one ↦ rw one (unfold Balanced in setup_result-Balanced self u _ full fresh)
    | inr other ↦ rw other (inl (ground arith, refl, fresh))
  ]

  -- Setting up the type of a function with arguments for the first time either fails, sets an
  -- exception, leaves no call interface and gives back every block and reference that it took, or
  -- succeeds, and then deallocating the type gives them all back.
  pub setup_balanced :
      (self : FunctionType) (u : Usage)
      → IsNonempty self.ff_type.arg_types
      → self.ff_cif ≡ none
      → let r = setup rt self u in
        ((r.status ≢ none) × (r.usage ≡ u) × (r.self.ff_cif ≡ none))
        ⊎ ((r.status ≡ none) × (dealloc r.self r.usage ≡ some u))
  unfolding setup Balanced
  setup_balanced self u full fresh =
      unfold Balanced in setup_once-Balanced self u self.ff_cif full fresh fresh
