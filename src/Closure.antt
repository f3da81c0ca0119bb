-- ===== src/Closure.antt =====
-- function_proxy.c, the closures: a Python function that C code can call. `closureproxy_ctor` makes
-- one, `closureproxy_dealloc` frees it, and libffi calls `closureproxy_call` with the addresses of
-- the arguments and of the result.
pub mod Balance
use pycallocs.Prelude.{
  ℕ, ◌+◌, ◌-◌, Bool, true, false, not, Option, none, some, List, [], ◌∷◌, Error, type_error,
  value_error, raised, system_error, Result, ok, err, if◌then◌else◌,
}
use pycallocs.Memory.{Mem}
use pycallocs.Python.{Stored}

-- The function type of a closure: `ft_copyfrom` of each argument, none for NULL, and `ft_storeinto`
-- of the result.
pub record ClosureType (Obj : Type 0) : Type 0 where
  pub ff_argtypes : List (Mem → ℕ → Option Obj)
  pub store_result : Obj → ℕ → Mem → Stored

module _ {Obj : Type 0} where
  unfoldable pub cons_object : Option Obj → Option (List Obj) → Option (List Obj)
  cons_object none objs = none
  cons_object (some obj) none = none
  cons_object (some obj) (some objs) = some (obj ∷ objs)

  -- The tuple of arguments; none if one of its items is NULL, or an address is missing.
  unfoldable pub copy_arguments : List (Mem → ℕ → Option Obj) → List ℕ → Mem → Option (List Obj)
  unfolding cons_object
  copy_arguments [] args m = some []
  copy_arguments (copy ∷ copies) [] m = none
  copy_arguments (copy ∷ copies) (a ∷ args) m =
      cons_object (copy m a) (copy_arguments copies args m)

  -- What the function returns, none for NULL, is stored; its store's failure is not looked at.
  unfoldable pub store_returned : ClosureType Obj → ℕ → Mem × Option Obj → Option Stored
  store_returned type ret (m, none) = none
  store_returned type ret (m, some obj) = some (type.store_result obj ret m)

  -- PyObject_CallObject
  unfoldable pub call_callable :
      ClosureType Obj
      → (List Obj → Mem → Mem × Option Obj)
      → ℕ
      → Mem
      → Option (List Obj)
      → Option Stored
  unfolding store_returned
  call_callable type callable ret m none = none
  call_callable type callable ret m (some pargs) = store_returned type ret (callable pargs m)

  -- closureproxy_call; `none` where the C code uses NULL.
  unfoldable pub closureproxy_call :
      ClosureType Obj → (List Obj → Mem → Mem × Option Obj) → ℕ → List ℕ → Mem → Option Stored
  unfolding call_callable copy_arguments
  closureproxy_call type callable ret args m =
      call_callable type callable ret m (copy_arguments type.ff_argtypes args m)

-- What a closure holds: closures of libffi, references to Python functions, proxy objects, and
-- registrations.
pub record Held : Type 0 where
  pub closures : ℕ
  pub callables : ℕ
  pub objects : ℕ
  pub registered : ℕ

-- What the constructor asks of others: whether there is a closure type, what funproxytype_setup
-- returns, whether the arguments are one callable, and what PyObject_New, ffi_closure_alloc and
-- ffi_prep_closure_loc answer.
pub record Answers : Type 0 where
  pub closure_type : Bool
  pub setup_status : Option Error
  pub parsed : Option Error
  pub callable : Bool
  pub allocated : Bool
  pub closure_allocated : Bool
  pub prepared : Bool

-- A new closure; NULL with an exception, and without one, if there is no closure type; or a crash in
-- ffi_prep_closure_loc, given the NULL of a failed ffi_closure_alloc.
pub data Outcome : Type 0 where
  closure : Outcome
  raises : Error → Outcome
  null_result : Outcome
  crashed : Outcome

pub record Constructed : Type 0 where
  pub held : Held
  pub result : Outcome

abbrev failed : Held → Error → Constructed
failed s e = record { held = s; result = raises e }

-- Proxy_Unregister, of a proxy that was registered or not
abbrev pub registrations_left : Bool → ℕ → ℕ
registrations_left true n = n - 1
registrations_left false n = n

-- closureproxy_dealloc
unfoldable pub closureproxy_dealloc : Bool → Held → Held
closureproxy_dealloc was_registered s = record {
  closures = s.closures - 1;
  callables = s.callables - 1;
  objects = s.objects - 1;
  registered = registrations_left was_registered s.registered;
}

unfoldable pub new_closure : Held → Held
new_closure s = record s {
  closures = s.closures + 1;
  callables = s.callables + 1;
  objects = s.objects + 1;
}

-- The object is made, then prepared; if that fails it is freed again, else registered.
unfoldable pub make_closure : Answers → Held → Constructed
unfolding closureproxy_dealloc new_closure
make_closure a s =
    if not a.allocated
    then failed s raised
    else if not a.closure_allocated
    then record { held = new_closure s; result = crashed }
    else if a.prepared
    then record {
      held = record (new_closure s) { registered = s.registered + 1 };
      result = closure;
    }
    else failed (closureproxy_dealloc false (new_closure s)) value_error

unfoldable pub with_arguments : Answers → Held → Option Error → Constructed
unfolding make_closure
with_arguments a s (some e) = failed s e
with_arguments a s none = if a.callable then make_closure a s else failed s type_error

unfoldable pub after_setup : Answers → Held → Option Error → Constructed
unfolding with_arguments
after_setup a s (some e) = failed s e
after_setup a s none = with_arguments a s a.parsed

-- closureproxy_ctor
unfoldable pub closureproxy_ctor : Answers → Held → Constructed
unfolding after_setup
closureproxy_ctor a s =
    if a.closure_type
    then after_setup a s a.setup_status
    else record { held = s; result = null_result }
