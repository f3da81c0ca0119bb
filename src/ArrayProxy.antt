-- ===== src/ArrayProxy.antt =====
-- The array type of address_proxy.c: the constructor that allocates an array, and the length that a
-- proxy of an array in foreign memory gets. What an array proxy then does is in AddressProxy.
pub mod Blocks
pub mod Create
use pycallocs.Prelude.{
  ℕ, zero, suc, ◌+◌, ◌%◌, ◌^◌, Bool, true, false, ◌||◌, not, Option, none, some, List, ℤ, pos, ◌+ℤ◌,
  Error, type_error, Result, ok, err, ◌==◌, if◌then◌else◌, ltb,
}
use pycallocs.Memory.{Mem, zero_fill}
use pycallocs.Python.{Stored, refused}
use pycallocs.Bounds.{Visit, AllocInfo}
use pycallocs.AddressProxy.{
  ItemType, AddressProxy, InitArgs, item_address, byte_count, addrproxy_init,
}
use pycallocs.AddressProxy.Length.{Pointee, addrproxy_initlength}

-- What Python says of the first argument: its size by PySequence_Size and its items by
-- PySequence_Fast; or, if it has no size, its value by PyLong_AsSsize_t, if it is a `PyLong`.
pub data Initializer (Obj : Type 0) : Type 0 where
  sized : ℕ → Result (List Obj) → Initializer Obj
  integer : Result ℤ → Initializer Obj
  unsized : Initializer Obj

-- A call: how many arguments are positional, how many named, and the first.
pub record ArrayArgs (Obj : Type 0) : Type 0 where
  pub nargs : ℕ
  pub nkwargs : ℕ
  pub first : Initializer Obj

-- What the constructor leaves: the memory, the new proxy or none for NULL, and the exception.
pub record ArrayMade : Type 0 where
  pub mem : Mem
  pub proxy : Option AddressProxy
  pub error : Option Error

unfoldable pub no_array : Mem → Error → ArrayMade
no_array m e = record { mem = m; proxy = none; error = some e }

-- The proxy is dropped where the initialisation failed.
unfoldable pub made_array : AddressProxy → Mem → Option Error → ArrayMade
unfolding no_array
made_array self m none = record { mem = m; proxy = some self; error = none }
made_array self m (some e) = no_array m e

-- How many bytes `malloc` is asked for: a string has a terminator.
unfoldable pub block_bytes : Bool → ℤ → ℕ → ℕ
unfolding byte_count
block_bytes is_char len size = byte_count (if is_char then len +ℤ pos 1 else len) size % 2 ^ 64

module _ {Obj : Type 0} (item : ItemType Obj) (is_char : Bool) (malloc : ℕ → ℕ) where
  -- The block is allocated, a terminator is written into it, and `addrproxy_init` does the rest. The
  -- type that liballocs is told and the registration are not the memory's.
  unfoldable pub create_array : ℤ → InitArgs Obj → Mem → ArrayMade
  unfolding made_array block_bytes
  create_array len args m =
      let p = malloc (block_bytes is_char len item.size) in
      let self : AddressProxy = record { p_ptr = p; ap_length = len } in
      let s =
        addrproxy_init item self args
          (if is_char then zero_fill item.size m (item_address p len item.size) else m) in
      made_array self s.mem s.status

  unfoldable pub array_by : ArrayArgs Obj → Initializer Obj → Mem → ArrayMade
  unfolding create_array no_array
  array_by args (sized n sequence) m =
      create_array (pos n)
        (record { nargs = args.nargs; nkwargs = args.nkwargs; sequence = sequence }) m
  array_by args (integer (err e)) m = no_array m e
  array_by args (integer (ok len)) m =
      create_array len (record { nargs = 0; nkwargs = args.nkwargs; sequence = err type_error }) m
  array_by args unsized m = no_array m type_error

  -- arrayproxy_ctor, when Python has memory for the proxy
  unfoldable pub arrayproxy_ctor : ArrayArgs Obj → Mem → ArrayMade
  unfolding array_by no_array
  arrayproxy_ctor args m =
      if not (args.nargs == 1) || ltb 0 args.nkwargs
      then no_array m type_error
      else array_by args args.first m

  -- arrayproxy_storeinto
  unfoldable pub arrayproxy_storeinto : Obj → ℕ → Mem → Stored
  arrayproxy_storeinto obj dest m = refused m type_error

-- The length of the proxy at an address, in arrayproxy_getfrom and arrayproxy_traverse: that of the
-- type, if known, or the one that liballocs gives.
unfoldable pub array_at : ℕ → Option ℕ → Pointee → AllocInfo → List Visit → AddressProxy
unfolding addrproxy_initlength
array_at p (some n) t info visits = record { p_ptr = p; ap_length = pos n }
array_at p none t info visits = addrproxy_initlength p t info visits
