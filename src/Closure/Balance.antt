-- ===== src/Closure/Balance.antt =====
-- What the constructor of a closure takes is given back: by its own error exits, or when the closure
-- is freed.
use pycallocs.Prelude.{
  ℕ, ◌+◌, ◌-◌, ◌≡◌, refl, subst, ◌⊎◌, inl, inr, arith, Bool, true, false, Bool-cases, Option, none,
  some, Error, type_error, value_error, raised,
}
use pycallocs.Closure.{
  Held, Answers, Constructed, closure, raises, null_result, crashed, closureproxy_dealloc,
  new_closure, make_closure, with_arguments, after_setup, closureproxy_ctor,
}

-- The constructor's outcome: a closure that holds one of each, whose freeing gives them back; or an
-- exception, and nothing is held; or NULL alone, without a closure type; or a crash.
abbrev pub IsBalanced : Answers → Held → Constructed → Type 0
IsBalanced a s r =
    ((r.result ≡ closure)
      × (r.held.closures ≡ s.closures + 1)
      × (r.held.callables ≡ s.callables + 1)
      × (r.held.registered ≡ s.registered + 1)
      × (closureproxy_dealloc true r.held ≡ s))
    ⊎ (((e : Error) × (r.result ≡ raises e)) × (r.held ≡ s))
    ⊎ ((r.result ≡ null_result) × (a.closure_type ≡ false) × (r.held ≡ s))
    ⊎ ((r.result ≡ crashed) × (a.closure_allocated ≡ false))

given_back : (n : ℕ) → n + 1 - 1 ≡ n
given_back n = omega arith

freed : (s : Held) → closureproxy_dealloc false (new_closure s) ≡ s
unfolding closureproxy_dealloc new_closure
freed s = rw (given_back s.closures, given_back s.callables, given_back s.objects) refl

freed_registered :
    (s : Held)
    → closureproxy_dealloc true (record (new_closure s) { registered = s.registered + 1 }) ≡ s
unfolding closureproxy_dealloc new_closure
freed_registered s =
    rw
      (given_back s.closures, given_back s.callables, given_back s.objects, given_back s.registered)
      refl

module _ (a : Answers) (s : Held) where
  make_closure-IsBalanced :
      (allocated closure_allocated prepared : Bool)
      → a.allocated ≡ allocated
      → a.closure_allocated ≡ closure_allocated
      → a.prepared ≡ prepared
      → IsBalanced a s (make_closure a s)
  unfolding make_closure new_closure
  make_closure-IsBalanced false there prepared no_memory room eq =
      simp no_memory (inr (inl ((raised, refl), refl)))
  make_closure-IsBalanced true false prepared memory no_room eq =
      simp (memory, no_room) (inr (inr (inr (refl, refl))))
  make_closure-IsBalanced true true true memory room ready =
      simp (memory, room, ready) (inl (refl, refl, refl, refl, freed_registered s))
  make_closure-IsBalanced true true false memory room ready =
      simp (memory, room, ready) (inr (inl ((value_error, refl), freed s)))

  with_arguments-IsBalanced : (o : Option Error) → IsBalanced a s (with_arguments a s o)
  unfolding with_arguments
  with_arguments-IsBalanced (some e) = inr (inl ((e, refl), refl))
  with_arguments-IsBalanced none = elim (Bool-cases a.callable) [
    | inl callable ↦
        simp callable
          (make_closure-IsBalanced a.allocated a.closure_allocated a.prepared refl refl refl)
    | inr other ↦ simp other (inr (inl ((type_error, refl), refl)))
  ]

  after_setup-IsBalanced : (o : Option Error) → IsBalanced a s (after_setup a s o)
  unfolding after_setup
  after_setup-IsBalanced (some e) = inr (inl ((e, refl), refl))
  after_setup-IsBalanced none = with_arguments-IsBalanced a.parsed

  -- Making a closure, whatever Python and libffi answer. Either it succeeds, holds one closure of
  -- libffi, one reference to the Python function and one registration more than before, and freeing
  -- it leaves all counts as they were before it was made; or it raises an exception, or
  -- returns NULL without one where there is no closure type, and all counts are as before; or it
  -- crashes, where libffi has no memory for the closure.
  pub closureproxy_ctor-IsBalanced : IsBalanced a s (closureproxy_ctor a s)
  unfolding closureproxy_ctor
  closureproxy_ctor-IsBalanced = elim (Bool-cases a.closure_type) [
    | inl here ↦
        let same : after_setup a s a.setup_status ≡ closureproxy_ctor a s = rw here refl in
        subst (IsBalanced a s) same (after_setup-IsBalanced a.setup_status)
    | inr missing ↦ simp missing (inr (inr (inl (refl, refl, refl))))
  ]
