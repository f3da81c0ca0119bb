-- ===== src/FunctionCall/Invocation.antt =====
-- What `funproxy_call` (function_proxy.c) does with its arguments as a whole.
use pycallocs.Prelude.{
  ℕ, ◌+◌, ◌^◌, ◌≡◌, ◌<◌, ◌≢◌, refl, ◌⊎◌, inl, inr, arith, Option, none, some, List, Error,
  type_error, err, All, length, ◌==◌, Bool-cases,
}
use pycallocs.Memory.{Mem}
use pycallocs.Memory.Frame.{SameOutside}
use pycallocs.FunctionCall.{
  Argument, stack_size, Placed, place, Foreign, Called, invoke_placed, call_ready, funproxy_call,
}
use pycallocs.FunctionCall.Layout.{
  IsContained, total, stack_size-eq-total, InSlots, Kept, Outcome, place_cases,
}

-- The call went through: libffi was given one pointer for each argument, into the buffer that the
-- first loop sized, and the result is read from `retval` afterwards.
pub record Invoked {Obj : Type 0} (foreign : Foreign Obj) (fn : ℕ) (args : List Argument)
    (argvals retval : ℕ) (m : Mem) (c : Called Obj) : Type 0 where
  pub pointers : List ℕ
  pub before : Mem
  pub in_slots : InSlots args pointers argvals (argvals + stack_size args 0)
  pub kept : Kept args before argvals m
  pub same : SameOutside argvals (stack_size args 0) m before
  pub after : c.mem ≡ foreign.invoke fn retval pointers before
  pub result : c.result ≡ foreign.copyfrom (foreign.invoke fn retval pointers before) retval

-- A conversion was refused, and libffi not reached: nothing outside the buffer was written.
pub record Unconverted {Obj : Type 0} (args : List Argument) (argvals : ℕ) (m : Mem)
    (c : Called Obj) : Type 0 where
  pub error : Error
  pub result : c.result ≡ err error
  pub same : SameOutside argvals (stack_size args 0) m c.mem

module _ {Obj : Type 0} (foreign : Foreign Obj) (fn : ℕ) (args : List Argument) (argvals retval : ℕ)
    (m : Mem) where
  abbrev Converted : Called Obj → Type 0
  Converted c = Invoked foreign fn args argvals retval m c ⊎ Unconverted args argvals m c

  invoke_placed-Converted :
      (status : Option Error) (r : Placed)
      → r.status ≡ status
      → stack_size args 0 ≡ total args
      → Outcome args argvals m r
      → Converted (invoke_placed foreign fn retval r.mem status r.ff_args)
  unfolding invoke_placed
  invoke_placed-Converted none r e size (inl (done, p)) = inl (record {
    pointers = r.ff_args;
    before = r.mem;
    in_slots = rw size p.in_slots;
    kept = p.kept;
    same = rw size p.same;
    after = refl;
    result = refl;
  })
  invoke_placed-Converted none r e size (inr p) = absurd (p.failed e)
  invoke_placed-Converted (some x) r e size (inl (done, p)) = absurd (cc)
  invoke_placed-Converted (some x) r e size (inr p) =
      inr (record { error = x; result = refl; same = rw size p.same })

  -- Every outcome of a call whose arguments take less than 4 GB. If setup failed, its exception is
  -- raised; if the number of arguments is wrong, TypeError is; neither touches memory. Else the
  -- arguments are converted into a buffer of the size computed before. Either the function is
  -- invoked with one pointer for each argument, each converted argument whole in a slot of its own,
  -- nothing written but the slots, or a conversion raised, and nothing outside the buffer changed.
  pub funproxy_call_cases :
      (setup_status : Option Error) (narg : ℕ)
      → total args < 2 ^ 32
      → All IsContained args
      → let c = funproxy_call foreign setup_status fn narg args argvals retval m in
        ((setup_status ≡ none) × (length args ≡ narg) × Converted c)
        ⊎ ((c.mem ≡ m)
            × (((e : Error) × (setup_status ≡ some e) × (c.result ≡ err e))
                ⊎ ((length args ≢ narg) × (c.result ≡ err type_error))))
  unfolding funproxy_call call_ready
  funproxy_call_cases (some e) narg lt all = inr (refl, inl (e, refl, refl))
  funproxy_call_cases none narg lt all = elim (Bool-cases (length args == narg)) [
    | inl same ↦ rw same (
        inl (
          refl,
          ground arith,
          invoke_placed-Converted _ (place args argvals m) refl
              (omega (arith, stack_size-eq-total args 0 (omega arith)))
              (place_cases args argvals m all),
        ))
    | inr other ↦ rw other (inr (refl, inr (ground arith, refl)))
  ]
