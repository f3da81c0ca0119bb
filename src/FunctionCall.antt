-- ===== src/FunctionCall.antt =====
-- function_proxy.c: `funproxy_call`. An `Argument` is a Python object with the foreign type of its
-- position: the type's size, what `ft_getdataptr` returns (none for NULL or no such function), and
-- its `ft_storeinto` on the object. The stack buffers `argvals` and `retval` are given by their
-- addresses; `ffi_call` is a parameter.
pub mod Layout
pub mod Invocation
use pycallocs.Prelude.{
  ℕ, ◌+◌, ◌%◌, ◌^◌, Option, none, some, List, [], ◌∷◌, Error, type_error, Result, ok, err, ◌==◌,
  ltb, if◌then◌else◌, length,
}
use pycallocs.Memory.{Mem}
use pycallocs.Python.{Stored}

pub record Argument : Type 0 where
  pub size : ℕ
  pub data_ptr : Option ℕ
  pub storeinto : ℕ → Mem → Stored

-- The first loop: the bytes of stack that the arguments without data pointer need, an `unsigned`.
unfoldable pub add_size : Option ℕ → ℕ → ℕ → ℕ
add_size (some p) size acc = acc
add_size none size acc = (acc + size) % 2 ^ 32

unfoldable pub stack_size : List Argument → ℕ → ℕ
unfolding add_size
stack_size [] acc = acc
stack_size (a ∷ args) acc = stack_size args (add_size a.data_ptr a.size acc)

-- The second loop: the memory, the exception if a conversion failed, and `ff_args`.
pub record Placed : Type 0 where
  pub mem : Mem
  pub status : Option Error
  pub ff_args : List ℕ

abbrev pub cons_pointer : ℕ → Placed → Placed
cons_pointer p r = record r { ff_args = p ∷ r.ff_args }

unfoldable pub place_stored : Option Error → ℕ → ℕ → Mem → (ℕ → Mem → Placed) → Placed
place_stored (some e) size cur m rest = record { mem = m; status = some e; ff_args = [] }
place_stored none size cur m rest = cons_pointer cur (rest (cur + size) m)

-- One argument, given what `ft_getdataptr` returned and what storing it would leave.
unfoldable pub place_one : Option ℕ → ℕ → ℕ → Mem → Stored → (ℕ → Mem → Placed) → Placed
unfolding place_stored
place_one (some p) size cur m s rest = cons_pointer p (rest cur m)
place_one none size cur m s rest = place_stored s.status size cur s.mem rest

unfoldable pub place : List Argument → ℕ → Mem → Placed
unfolding place_one
place [] cur m = record { mem = m; status = none; ff_args = [] }
place (a ∷ args) cur m = place_one a.data_ptr a.size cur m (a.storeinto cur m) (place args)

-- libffi's `ffi_call` of the function at an address: where the result goes, the argument pointers.
pub record Foreign (Obj : Type 0) : Type 0 where
  pub invoke : ℕ → ℕ → List ℕ → Mem → Mem
  -- `ft_copyfrom` of the result type
  pub copyfrom : Mem → ℕ → Result Obj

-- The memory after the call and the Python object or exception.
pub record Called (Obj : Type 0) : Type 0 where
  pub mem : Mem
  pub result : Result Obj

-- The size of `retval`: libffi may widen a result to an `ffi_arg`.
unfoldable pub return_size : ℕ → ℕ
return_size size = if ltb size 8 then 8 else size

module _ {Obj : Type 0} (foreign : Foreign Obj) where
  unfoldable pub invoke_placed : ℕ → ℕ → Mem → Option Error → List ℕ → Called Obj
  invoke_placed fn retval m (some e) pointers = record { mem = m; result = err e }
  invoke_placed fn retval m none pointers =
      let m' = foreign.invoke fn retval pointers m in
      record { mem = m'; result = foreign.copyfrom m' retval }

  unfoldable pub call_ready : ℕ → ℕ → List Argument → ℕ → ℕ → Mem → Called Obj
  unfolding invoke_placed place
  call_ready fn narg args argvals retval m =
      if length args == narg
      then (let p = place args argvals m in invoke_placed fn retval p.mem p.status p.ff_args)
      else record { mem = m; result = err type_error }

  -- `setup_status` is what `funproxytype_setup` returned.
  unfoldable pub funproxy_call : Option Error → ℕ → ℕ → List Argument → ℕ → ℕ → Mem → Called Obj
  unfolding call_ready
  funproxy_call none fn narg args argvals retval m = call_ready fn narg args argvals retval m
  funproxy_call (some e) fn narg args argvals retval m = record { mem = m; result = err e }
