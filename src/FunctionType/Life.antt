-- ===== src/FunctionType/Life.antt =====
-- The life of a function's proxy type in function_proxy.c: `FunctionProxy_NewType`, with
-- `funproxy_newproxytype` and `closureproxy_newtype`, then the set-ups that the calls of its functions
-- and its closures start, and at the end `funproxytype_dealloc`. Allocations are taken to succeed;
-- whether PyType_Ready does is an argument.
pub mod Ends
use pycallocs.Prelude.{
  ℕ, ◌+◌, ◌-◌, Bool, true, false, Option, none, some, List, [], ◌∷◌, if◌then◌else◌,
}
use pycallocs.FunctionType.{Usage, Runtime, Subprogram, FunctionType, Setup, setup, dealloc}

-- The blocks and references of the set-up, and how many references this code holds to the type
-- objects that are made here.
pub record Objects : Type 0 where
  pub usage : Usage
  pub types : ℕ

-- A FunctionProxyTypeObject; `ff_closure_type` is false for NULL.
pub record FunctionProxyType : Type 0 where
  pub fun : FunctionType
  pub ff_closure_type : Bool

-- Whether PyType_Ready accepts the proxy type and its closure type.
pub record Readied : Type 0 where
  pub proxy_type : Bool
  pub closure_type : Bool

-- closureproxy_newtype, with the number of references to type objects
unfoldable pub closureproxy_newtype : Bool → ℕ → Bool × ℕ
closureproxy_newtype ready n = if ready then (true, n + 1) else (false, n + 1 - 1)

-- The fields as funproxy_newproxytype leaves them; it does not assign `ff_argtypes`.
abbrev pub new_fun : Subprogram → FunctionType
new_fun type = record { ff_type = type; ff_cif = none; ff_argtypes = none }

unfoldable pub with_closure_type : Subprogram → Bool × ℕ → Option FunctionProxyType × ℕ
with_closure_type type (closure, n) =
    (some (record { fun = new_fun type; ff_closure_type = closure }), n)

-- funproxy_newproxytype
unfoldable pub funproxy_newproxytype : Subprogram → Readied → ℕ → Option FunctionProxyType × ℕ
unfolding with_closure_type closureproxy_newtype
funproxy_newproxytype type ready n =
    if ready.proxy_type
    then with_closure_type type (closureproxy_newtype ready.closure_type (n + 1))
    else (none, n + 1 - 1)

-- The set-ups in turn, each with what Python and libffi answer then
unfoldable pub setups : List Runtime → FunctionType → Usage → FunctionType × Usage
setups [] self u = (self, u)
setups (rt ∷ rts) self u = let r = setup rt self u in setups rts r.self r.usage

abbrev pub closure_types : Bool → ℕ
closure_types true = 1
closure_types false = 0

-- The end of funproxytype_dealloc: its own memory, and its reference to the closure type. The number
-- counts the references to type objects that this code holds; a closure type that others still hold
-- lives on.
unfoldable pub drop_types : Bool → ℕ → Option Usage → Option Objects
drop_types closure n none = none
drop_types closure n (some u) = some (record { usage = u; types = n - closure_types closure - 1 })

-- funproxytype_dealloc
unfoldable pub funproxytype_dealloc : FunctionProxyType → Objects → Option Objects
unfolding drop_types
funproxytype_dealloc t s = drop_types t.ff_closure_type s.types (dealloc t.fun s.usage)

unfoldable pub dealloc_after : FunctionProxyType → ℕ → FunctionType × Usage → Option Objects
unfolding funproxytype_dealloc
dealloc_after t n (self, u) =
    funproxytype_dealloc (record t { fun = self }) (record { usage = u; types = n })

-- The set-ups and the end, if there is a proxy type
unfoldable pub live_on : List Runtime → Usage → Option FunctionProxyType × ℕ → Option Objects
unfolding dealloc_after setups
live_on rts u (none, n) = some (record { usage = u; types = n })
live_on rts u (some t, n) = dealloc_after t n (setups rts t.fun u)

-- From the creation to the end; none: a field is read that was not assigned.
unfoldable pub whole_life : Subprogram → Readied → List Runtime → Objects → Option Objects
unfolding live_on funproxy_newproxytype
whole_life type ready rts s = live_on rts s.usage (funproxy_newproxytype type ready s.types)
