-- ===== src/Proxy.antt =====
-- proxy.c, `Proxy_StoreInto` and `Proxy_GetDataPtr`: a proxied value is stored by copying its bytes,
-- and an object of another type is first converted by the type's `ft_constructor`. For composites
-- that is `compositeproxy_ctor` of composite_proxy.c.
pub mod Store
use pycallocs.Prelude.{ℕ, ◌+◌, List, Option, none, some, Error, type_error}
use pycallocs.Memory.{Mem, memcpy}
use pycallocs.Python.{Stored, stored, refused}
use pycallocs.CompositeProxy.{
  CompositeProxy, Dict, Objects, InitArgs, tuple, convert, compositeproxy_init,
}

-- What a constructor leaves: the memory, the address of the new value or none for NULL, and the
-- exception that is set.
pub record Made : Type 0 where
  pub mem : Mem
  pub p_ptr : Option ℕ
  pub error : Option Error

-- The foreign type of a proxied C type, as far as storing uses it.
pub record ProxyType (Obj : Type 0) : Type 0 where
  pub size : ℕ
  -- PyObject_TypeCheck with `ft_proxy_type`, with the proxy's `p_ptr`
  pub type_check : Obj → Option ℕ
  -- `ft_constructor`, on an object to convert; the outer `none` is a crash
  pub ft_constructor : Option (Obj → Mem → Option Made)

unfoldable pub or_type_error : Option Error → Error
or_type_error none = type_error
or_type_error (some e) = e

-- The temporary object's bytes are copied, then it is released.
unfoldable pub store_made : ℕ → ℕ → Mem → Option ℕ → Option Error → Stored
unfolding or_type_error
store_made size dest m (some p) e = stored (memcpy size m dest p)
store_made size dest m none e = refused m (or_type_error e)

unfoldable pub store_call : ℕ → ℕ → Option Made → Option Stored
unfolding store_made
store_call size dest none = none
store_call size dest (some made) = some (store_made size dest made.mem made.p_ptr made.error)

unfoldable pub made_by : ℕ → Option Error → Mem → Made
made_by block none m = record { mem = m; p_ptr = some block; error = none }
made_by block (some e) m = record { mem = m; p_ptr = none; error = some e }

unfoldable pub made : ℕ → Option Stored → Option Made
unfolding made_by
made block none = none
made block (some s) = some (made_by block s.status s.mem)

module _ {Obj : Type 0} where
  unfoldable pub store_converted :
      ℕ → Obj → ℕ → Mem → Option (Obj → Mem → Option Made) → Option Stored
  unfolding store_call
  store_converted size obj dest m none = some (refused m type_error)
  store_converted size obj dest m (some constructor) = store_call size dest (constructor obj m)

  unfoldable pub store_proxy : ProxyType Obj → Obj → ℕ → Mem → Option ℕ → Option Stored
  unfolding store_converted
  store_proxy type obj dest m (some p) = some (stored (memcpy type.size m dest p))
  store_proxy type obj dest m none = store_converted type.size obj dest m type.ft_constructor

  -- Proxy_StoreInto
  unfoldable pub proxy_store_into : ProxyType Obj → Obj → ℕ → Mem → Option Stored
  unfolding store_proxy
  proxy_store_into type obj dest m = store_proxy type obj dest m (type.type_check obj)

  -- Proxy_GetDataPtr
  unfoldable pub proxy_get_data_ptr : ProxyType Obj → Obj → Option ℕ
  proxy_get_data_ptr type obj = type.type_check obj

  -- compositeproxy_ctor; `malloc` gives the block.
  unfoldable pub compositeproxy_ctor :
      Objects Obj → CompositeProxy Obj → ℕ → InitArgs Obj → Option (Dict Obj) → Mem → Option Made
  unfolding made
  compositeproxy_ctor py type block args kwargs m =
      made block (compositeproxy_init py (record type { p_ptr = block }) args kwargs m)

  -- The arguments that a constructor called on one object gets: a tuple is taken for positional ones.
  unfoldable pub arguments_of : Obj → Option (List Obj) → InitArgs Obj
  arguments_of obj (some items) = tuple items
  arguments_of obj none = convert obj

  -- The foreign type of a composite, with the block that `malloc` gives for the next value.
  unfoldable pub composite_type : Objects Obj → CompositeProxy Obj → ℕ → ProxyType Obj
  unfolding compositeproxy_ctor arguments_of
  composite_type py type block = record {
    size = type.tp_itemsize;
    type_check = py.same_type;
    ft_constructor =
        some
          (λ obj m. compositeproxy_ctor py type block (arguments_of obj (py.as_tuple obj)) none m);
  }
