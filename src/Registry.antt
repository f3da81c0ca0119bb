-- ===== src/Registry.antt =====
-- proxy.c: the registry of proxies. `proxy_dict` finds the base proxy of an allocation without owning
-- it; `proxy_pointing_addr_dict` owns one reference for each known pointer to an allocation. A
-- reference that is dropped may free a proxy, which drops further ones. The program's flag
-- `creating_base` is set only while one base is created, whose own look-up is then refused.
pub mod Entries
pub mod State
pub mod Shrinks
pub mod Release
pub mod Drop
pub mod Create
pub mod Base
pub mod Get
pub mod Kept
pub mod Pointers
pub mod Decoded
pub mod Copies
pub mod Arrays
pub mod Slices
pub mod Steps
use pycallocs.Prelude.{
  ℕ, zero, suc, ◌-◌, ◌+◌, Bool, true, false, ◌&&◌, Option, none, some, List, [], ◌∷◌, ◌==◌,
  if◌then◌else◌, length,
}

-- The key of an entry: the address of a pointer in foreign memory, or of a proxy's field `p_ptr`.
pub data From : Type 0 where
  foreign : ℕ → From
  field : ℕ → From

abbrev pub same : From → From → Bool
same (foreign a) (foreign b) = a == b
same (field a) (field b) = a == b
same (foreign a) (field b) = false
same (field a) (foreign b) = false

abbrev pub Entries : Type 0
Entries = List (From × ℕ)

-- PyDict_GetItem, PyDict_DelItem
abbrev pub lookup : From → Entries → Option ℕ
lookup f [] = none
lookup f ((g, o) ∷ es) = if same f g then some o else lookup f es

abbrev pub erase : From → Entries → Entries
erase f [] = []
erase f ((g, o) ∷ es) = if same f g then es else (g, o) ∷ erase f es

-- The Python objects that are proxies, by their addresses: reference count (0 of what is no object),
-- `p_ptr` and type; and the two dictionaries.
pub record Registry : Type 0 where
  pub refs : ℕ → ℕ
  pub p_ptr : ℕ → ℕ
  pub types : ℕ → ℕ
  pub proxy_dict : ℕ → Option ℕ
  pub pointing : Entries

abbrev pub update {ℓ} : {A : Type ℓ} → (ℕ → A) → ℕ → A → ℕ → A
update f a v b = if a == b then v else f b

abbrev pub is_this : Option ℕ → ℕ → Bool
is_this none o = false
is_this (some p) o = p == o

-- Py_INCREF
abbrev pub incref : ℕ → Registry → Registry
incref o s = record s { refs = update s.refs o (s.refs o + 1) }

-- Proxy_AddRefTo: `none` where the assertion fails.
unfoldable pub insert_new : ℕ → From → Registry → Option ℕ → Option Registry
insert_new o from s (some p) = none
insert_new o from s none = some (record (incref o s) { pointing = (from, o) ∷ s.pointing })

unfoldable pub add_ref_to : ℕ → From → Registry → Option Registry
unfolding insert_new
add_ref_to o from s = insert_new o from s (lookup from s.pointing)

-- proxy_addref, of the pointer at `from` to `target`
unfoldable pub add_ref_found : ℕ → ℕ → Registry → Option ℕ → Option Registry
unfolding add_ref_to
add_ref_found target from s none = none
add_ref_found target from s (some o) =
    if s.p_ptr o == target then add_ref_to o (foreign from) s else none

unfoldable pub proxy_addref : ℕ → ℕ → Registry → Option Registry
unfolding add_ref_found
proxy_addref target from s = add_ref_found target from s (s.proxy_dict target)

unfoldable pub then_do : Option Registry → (Registry → Option Registry) → Option Registry
then_do none f = none
then_do (some s) f = f s

abbrev pub unregistered : ℕ → Registry → Registry
unregistered a s = record s { proxy_dict = update s.proxy_dict a none }

unfoldable pub forget : ℕ → Option Registry → Option Registry
forget a none = none
forget a (some s) = some (unregistered a s)

-- The pointers in the allocation at an address that liballocs reports as deleted when the proxies'
-- lifetime policy is detached from it: none, if another policy keeps the allocation.
module _ (detached : ℕ → List ℕ) where
  unfoldable pub del_refs :
      (From → Registry → Option Registry) → List ℕ → Registry → Option Registry
  unfolding then_do
  del_refs del [] s = some s
  del_refs del (a ∷ more) s = then_do (del (foreign a) s) (del_refs del more)

  -- Proxy_Unregister, by whether the dictionary finds this very proxy
  unfoldable pub unregister :
      (From → Registry → Option Registry) → ℕ → Registry → Bool → Option Registry
  unfolding del_refs forget
  unregister del o s false = some s
  unregister del o s true = forget (s.p_ptr o) (del_refs del (detached (s.p_ptr o)) s)

  -- proxy_dealloc; the object itself is free once its count is 0.
  unfoldable pub proxy_dealloc :
      (From → Registry → Option Registry) → ℕ → Registry → Option Registry
  unfolding unregister then_do
  proxy_dealloc del o s =
      then_do (unregister del o s (is_this (s.proxy_dict (s.p_ptr o)) o)) (del (field o))

  -- Py_DECREF, with the count that is left
  unfoldable pub released : (From → Registry → Option Registry) → ℕ → Registry → ℕ → Option Registry
  unfolding proxy_dealloc
  released del o s zero = proxy_dealloc del o (record s { refs = update s.refs o 0 })
  released del o s (suc n) = some (record s { refs = update s.refs o (suc n) })

  -- The entry goes first, then the reference that it held.
  unfoldable pub del_found :
      (From → Registry → Option Registry) → From → Registry → Option ℕ → Option Registry
  unfolding released
  del_found del from s none = some s
  del_found del from s (some o) =
      released del o (record s { pointing = erase from s.pointing }) (s.refs o - 1)

  -- proxy_delref, with fuel for the proxies that it frees in turn: `none` without fuel.
  unfoldable pub del_ref : ℕ → From → Registry → Option Registry
  unfolding del_found
  del_ref zero from s = none
  del_ref (suc n) from s = del_found (del_ref n) from s (lookup from s.pointing)

  -- proxy_delref and Py_DECREF: fuel for each entry, and one call more.
  unfoldable pub proxy_delref : From → Registry → Option Registry
  proxy_delref from s = del_ref (suc (length s.pointing)) from s

  unfoldable pub decref : ℕ → Registry → Option Registry
  unfolding released
  decref o s = released (del_ref (suc (length s.pointing))) o s (s.refs o - 1)

-- The foreign type of an allocation: none (NULL), one without a proxy type, one whose `ft_getfrom` is
-- Proxy_GetFrom or rests on it, with its proxy type, or that of a pointer, whose `ft_getfrom` is
-- addrproxy_getfrom.
pub data AllocatedType : Type 0 where
  unhandled : AllocatedType
  unproxied : AllocatedType
  proxied : ℕ → AllocatedType
  pointer : AllocatedType

-- What `__liballocs_get_alloc_info` says of an address, and the rest of the tests in
-- Proxy_GetOrCreateBase: where the allocation starts and its foreign type, if there is no error, its
-- allocator takes lifetime policies, and it has a type.
pub record Allocation : Type 0 where
  pub start : ℕ
  pub type : AllocatedType

-- A look-up or a creation: `some (s, none)` is NULL; `none` is a failed assertion, or the creation of
-- a base for an allocation of pointer type, where the code takes None, or a proxy of what the pointer
-- points to, for the proxy of the allocation: the model ends there.
abbrev pub Got : Type 0
Got = Option (Registry × Option ℕ)

-- A new object, of one reference.
unfoldable pub allocated : ℕ → ℕ → Registry → ℕ → Registry
allocated addr type s o = record s {
  refs = update s.refs o 1;
  p_ptr = update s.p_ptr o addr;
  types = update s.types o type;
}

-- Proxy_GetFrom while `creating_base` is set
unfoldable pub create : ℕ → ℕ → Registry → Option ℕ → Got
unfolding allocated
create addr type s none = some (s, none)
create addr type s (some o) = some (allocated addr type s o, some o)

-- Proxy_Register: the policy that it attaches to the allocation is liballocs' own.
unfoldable pub register_new : ℕ → Registry → Option ℕ → Option Registry
register_new o s (some p) = none
register_new o s none = some (record s { proxy_dict = update s.proxy_dict (s.p_ptr o) (some o) })

unfoldable pub proxy_register : ℕ → Registry → Option Registry
unfolding register_new
proxy_register o s = register_new o s (s.proxy_dict (s.p_ptr o))

unfoldable pub with_result : Option ℕ → Option Registry → Got
with_result r none = none
with_result r (some s) = some (s, r)

-- The new base is asserted to be there, and registered.
unfoldable pub register_base : Got → Got
unfolding with_result proxy_register
register_base none = none
register_base (some (s, none)) = none
register_base (some (s, some o)) = with_result (some o) (proxy_register o s)

module _ (detached : ℕ → List ℕ) where
  -- A new proxy takes a reference on its base; the reference of the look-up is dropped.
  unfoldable pub derive : ℕ → ℕ → Registry → ℕ → Option ℕ → Got
  unfolding with_result then_do add_ref_to decref allocated
  derive addr type s base none = with_result none (decref detached base s)
  derive addr type s base (some o) =
      with_result (some o)
        (then_do (add_ref_to base (field o) (allocated addr type s o)) (decref detached base))

-- Proxy_CopyFrom, and likewise the constructors of composites and arrays: the block that malloc
-- gave is the new proxy's own, and the copy of the bytes into it is not the registry's.
unfoldable pub register_copy : Got → Got
unfolding with_result proxy_register
register_copy none = none
register_copy (some (s, none)) = some (s, none)
register_copy (some (s, some o)) = with_result (some o) (proxy_register o s)

-- PyObject_New gives the address of the new object, if any.
module _ (new : Registry → Option ℕ) where
  unfoldable pub proxy_copy_from : ℕ → ℕ → Registry → Got
  unfolding register_copy create
  proxy_copy_from block type s = register_copy (create block type s (new s))

  unfoldable pub create_base : ℕ → Registry → AllocatedType → Got
  unfolding register_base create
  create_base start s unhandled = none
  create_base start s unproxied = some (s, none)
  create_base start s pointer = none
  create_base start s (proxied type) = register_base (create start type s (new s))

  unfoldable pub base_found : Allocation → Registry → Option ℕ → Got
  unfolding create_base
  base_found a s (some o) = some (incref o s, some o)
  base_found a s none = create_base a.start s a.type

  -- Proxy_GetOrCreateBase
  unfoldable pub get_or_create_base : Option Allocation → Registry → Got
  unfolding base_found
  get_or_create_base none s = some (s, none)
  get_or_create_base (some a) s = base_found a s (s.proxy_dict a.start)

  module _ (detached : ℕ → List ℕ) where
    unfoldable pub reuse : ℕ → ℕ → Registry → ℕ → Bool → Got
    unfolding derive
    reuse addr type s base true = some (s, some base)
    reuse addr type s base false = derive detached addr type s base (new s)

    unfoldable pub get_with_base : ℕ → ℕ → Got → Got
    unfolding reuse create
    get_with_base addr type none = none
    get_with_base addr type (some (s, none)) = create addr type s (new s)
    get_with_base addr type (some (s, some base)) =
        reuse addr type s base (s.types base == type && s.p_ptr base == addr)

    -- Proxy_GetFrom, with what liballocs says of the address
    unfoldable pub get_from : ℕ → ℕ → Option Allocation → Registry → Got
    unfolding get_with_base get_or_create_base
    get_from addr type a s = get_with_base addr type (get_or_create_base a s)
