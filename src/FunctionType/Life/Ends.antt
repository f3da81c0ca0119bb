-- ===== src/FunctionType/Life/Ends.antt =====
-- What is left at the end of the life of a function's proxy type.
use pycallocs.Prelude.{
  ℕ, ◌≡◌, refl, sym, ap, ◌∙◌, subst, ◌⊎◌, inl, inr, arith, Bool-cases, Option, none, some, List, [],
  ◌∷◌, Error, ◌==◌,
}
use mathlib.Core.Option.{some-injective}
use pycallocs.Ffi.{FfiType, Elements}
use pycallocs.FunctionType.{
  Usage, Runtime, Subprogram, FunctionType, ArgTypes, prepare, finish_setup, setup_arguments,
  setup_result, setup_new, setup_once, setup, dealloc, dealloc_cif, descriptor_array,
}
use pycallocs.FunctionType.Balance.{IsNonempty, setup_balanced}
use pycallocs.FunctionType.Life.{
  Objects, Readied, closureproxy_newtype, new_fun, with_closure_type, funproxy_newproxytype, setups,
  drop_types, funproxytype_dealloc, dealloc_after, live_on, whole_life,
}

-- A set-up leaves the function's uniqtype alone.
module _ (rt : Runtime) (self : FunctionType) where
  prepare-ff_type :
      (ret : FfiType) (a : ArgTypes) → (prepare rt self ret a).self.ff_type ≡ self.ff_type
  unfolding prepare
  prepare-ff_type ret a =
      elim (Bool-cases
        (rt.prep_cif ret (descriptor_array rt self.ff_type.arg_types a.descriptors))) [
          | inl good ↦ rw good refl
          | inr bad ↦ rw bad refl
        ]

  finish_setup-ff_type :
      (ret : FfiType) (a : ArgTypes) (failure : Option Error)
      → (finish_setup rt self ret a failure).self.ff_type ≡ self.ff_type
  unfolding finish_setup
  finish_setup-ff_type ret a none = prepare-ff_type ret a
  finish_setup-ff_type ret a (some e) = refl

  setup_arguments-ff_type :
      (d : Option FfiType) (u : Usage) → (setup_arguments rt self d u).self.ff_type ≡ self.ff_type
  unfolding setup_arguments
  setup_arguments-ff_type none u = refl
  setup_arguments-ff_type (some ret) u = finish_setup-ff_type ret _ _

  setup_result-ff_type :
      (u : Usage) (failure : Option Error)
      → (setup_result rt self u failure).self.ff_type ≡ self.ff_type
  unfolding setup_result
  setup_result-ff_type u (some e) = refl
  setup_result-ff_type u none = setup_arguments-ff_type _ _

  setup_once-ff_type :
      (u : Usage) (cif : Option (FfiType × Option Elements))
      → (setup_once rt self u cif).self.ff_type ≡ self.ff_type
  unfolding setup_once setup_new
  setup_once-ff_type u (some cif) = refl
  setup_once-ff_type u none = elim (Bool-cases (self.ff_type.nret == 1)) [
    | inl one ↦ rw one (setup_result-ff_type u _)
    | inr other ↦ rw other refl
  ]

  setup-ff_type : (u : Usage) → (setup rt self u).self.ff_type ≡ self.ff_type
  unfolding setup
  setup-ff_type u = setup_once-ff_type u self.ff_cif

-- Without a call interface nothing is taken; with one, deallocating gives all back.
abbrev Returns : Usage → FunctionType → Usage → Type 0
Returns u self v =
    ((self.ff_cif ≡ none) × (v ≡ u))
    ⊎ ((c : FfiType × Option Elements) × (self.ff_cif ≡ some c) × (dealloc self v ≡ some u))

Returns-dealloc :
    (u : Usage) (self : FunctionType) (v : Usage) → Returns u self v → dealloc self v ≡ some u
unfolding dealloc dealloc_cif
Returns-dealloc u self v (inl (fresh, same)) = rw (fresh, same) refl
Returns-dealloc u self v (inr (c, made, back)) = back

-- A type that gives all back has a call interface, or took nothing.
dealloc-Returns :
    (u : Usage) (self : FunctionType) (v : Usage) (cif : Option (FfiType × Option Elements))
    → self.ff_cif ≡ cif
    → dealloc self v ≡ some u
    → Returns u self v
unfolding dealloc dealloc_cif
dealloc-Returns u self v none eq back =
    let same : some v ≡ some u = simp eq at back in inl (eq, some-injective _ _ same)
dealloc-Returns u self v (some c) eq back = inr (c, eq, back)

-- With a call interface, a set-up does nothing.
setup_once-Returns :
    (rt : Runtime) (u : Usage) (self : FunctionType) (v : Usage)
    (cif : Option (FfiType × Option Elements)) (c : FfiType × Option Elements)
    → cif ≡ some c
    → Returns u self v
    → Returns u (setup_once rt self v cif).self (setup_once rt self v cif).usage
unfolding setup_once
setup_once-Returns rt u self v none c eq returns = absurd cc
setup_once-Returns rt u self v (some d) c eq returns = returns

setup-Returns :
    (rt : Runtime) (u : Usage) (self : FunctionType) (v : Usage)
    → IsNonempty self.ff_type.arg_types
    → Returns u self v
    → Returns u (setup rt self v).self (setup rt self v).usage
unfolding setup
setup-Returns rt u self v full (inl (fresh, same)) = elim (setup_balanced rt self v full fresh) [
  | inl (failed, usage, none_yet) ↦ inl (none_yet, usage ∙ same)
  | inr (done, back) ↦ dealloc-Returns u _ _ _ refl (back ∙ ap some same)
]
setup-Returns rt u self v full (inr (c, made, back)) =
    setup_once-Returns rt u self v self.ff_cif c made (inr (c, made, back))

setups-dealloc :
    (rts : List Runtime) (u : Usage) (self : FunctionType) (v : Usage)
    → IsNonempty self.ff_type.arg_types
    → Returns u self v
    → dealloc (setups rts self v).0 (setups rts self v).1 ≡ some u
unfolding setups
setups-dealloc [] u self v full returns = Returns-dealloc u self v returns
setups-dealloc (rt ∷ rts) u self v full returns =
    setups-dealloc rts u _ _
      (subst (λ (t : Subprogram). IsNonempty t.arg_types) (sym (setup-ff_type rt self v)) full)
      (setup-Returns rt u self v full returns)

same_types :
    (s : Objects) (n : ℕ) → n ≡ s.types → some (record { usage = s.usage; types = n }) ≡ some s
same_types s n eq = ap (λ (k : ℕ). some (record s { types = k })) eq

-- The life of the proxy type of a function with arguments, from its creation over any number of
-- set-ups, each of which may fail at any place or succeed, to its deallocation: whatever Python and
-- libffi answer, no field is read before it is assigned, and at the end there are as many blocks,
-- references and references to type objects as at the beginning.
pub whole_life-IsBalanced :
    (type : Subprogram) (ready : Readied) (rts : List Runtime) (s : Objects)
    → IsNonempty type.arg_types
    → whole_life type ready rts s ≡ some s
unfolding whole_life live_on dealloc_after funproxytype_dealloc drop_types funproxy_newproxytype
    with_closure_type closureproxy_newtype
whole_life-IsBalanced type ready rts s full =
    let back = setups-dealloc rts s.usage (new_fun type) s.usage full (inl (refl, refl)) in
    elim (Bool-cases ready.proxy_type) [
      | inl proxy ↦ elim (Bool-cases ready.closure_type) [
        | inl closure ↦ rw (proxy, closure) (rw back (same_types s _ (omega arith)))
        | inr no_closure ↦ rw (proxy, no_closure) (rw back (same_types s _ (omega arith)))
      ]
      | inr unready ↦ rw unready (same_types s _ (omega arith))
    ]
