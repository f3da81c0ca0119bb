-- ===== src/FunctionType/NoArguments.antt =====
-- A function without arguments (function_proxy.c): `funproxytype_setup` leaves `ff_argtypes`
-- unassigned, and `funproxytype_dealloc` reads it.
use pycallocs.Prelude.{
  ℕ, ◌≡◌, refl, inl, inr, Bool-cases, Option, none, some, List, [], ◌∷◌, Error, ◌==◌,
}
use pycallocs.Ffi.{FfiType, Elements}
use pycallocs.FunctionType.{
  Usage, Runtime, FunctionType, ArgTypes, Setup, prepare, finish_setup, setup_arguments,
  setup_result, setup_new, setup_once, setup, dealloc_cif, dealloc, type_array, descriptor_array,
}

-- The field holds what it held before: with no arguments the loop assigns nothing.
type_array-none :
    (rt : Runtime) (args : List _) (n : ℕ) (old : Option ℕ)
    → args ≡ []
    → old ≡ none
    → type_array rt args n old ≡ none
type_array-none rt [] n old e f = f
type_array-none rt (t ∷ ts) n old e f = cc

dealloc_unassigned :
    (cif : FfiType × Option Elements) (types : Option ℕ) (u : Usage)
    → types ≡ none
    → dealloc_cif (some cif) types u ≡ none
unfolding dealloc_cif
dealloc_unassigned (ret, array) none u e = refl
dealloc_unassigned (ret, array) (some n) u e = cc

module _ (rt : Runtime) (self : FunctionType) (bare : self.ff_type.arg_types ≡ [])
    (unassigned : self.ff_argtypes ≡ none) where
  Faults : Setup → Type 0
  Faults r = r.status ≡ none → dealloc r.self r.usage ≡ none

  prepare-Faults : (ret : FfiType) (a : ArgTypes) → Faults (prepare rt self ret a)
  unfolding prepare Faults dealloc
  prepare-Faults ret a =
      let args = self.ff_type.arg_types in
      elim (Bool-cases (rt.prep_cif ret (descriptor_array rt args a.descriptors))) [
        | inl good ↦ rw good (λ done.
            dealloc_unassigned _ _ _
              (type_array-none rt args a.types self.ff_argtypes bare unassigned))
        | inr bad ↦ rw bad (λ done. cc)
      ]

  finish_setup-Faults :
      (ret : FfiType) (a : ArgTypes) (failure : Option Error)
      → Faults (finish_setup rt self ret a failure)
  unfolding finish_setup Faults
  finish_setup-Faults ret a none = unfold Faults in prepare-Faults ret a
  finish_setup-Faults ret a (some e) = λ done. cc

  setup_arguments-Faults : (d : Option FfiType) (v : Usage) → Faults (setup_arguments rt self d v)
  unfolding setup_arguments Faults
  setup_arguments-Faults none v = λ done. cc
  setup_arguments-Faults (some ret) v = unfold Faults in finish_setup-Faults ret _ _

  setup_result-Faults :
      (u : Usage) (failure : Option Error) → Faults (setup_result rt self u failure)
  unfolding setup_result Faults
  setup_result-Faults u (some e) = λ done. cc
  setup_result-Faults u none = unfold Faults in setup_arguments-Faults _ _

  setup_once-Faults :
      (u : Usage) (cif : Option (FfiType × Option Elements))
      → cif ≡ none
      → Faults (setup_once rt self u cif)
  unfolding setup_once setup_new Faults
  setup_once-Faults u (some cif) e = cc
  setup_once-Faults u none e = elim (Bool-cases (self.ff_type.nret == 1)) [
    | inl one ↦ rw one (unfold Faults in setup_result-Faults u _)
    | inr other ↦ rw other (λ done. cc)
  ]

  -- Whenever the first setup of a function type without arguments succeeds, and `ff_argtypes` was
  -- not assigned before, deallocating the type afterwards reads the unassigned field.
  pub dealloc-setup_no_arguments :
      (u : Usage)
      → self.ff_cif ≡ none
      → (setup rt self u).status ≡ none
      → dealloc (setup rt self u).self (setup rt self u).usage ≡ none
  unfolding setup Faults
  dealloc-setup_no_arguments u fresh = unfold Faults in setup_once-Faults u self.ff_cif fresh
