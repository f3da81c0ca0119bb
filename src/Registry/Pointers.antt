-- ===== src/Registry/Pointers.antt =====
-- `addrproxy_getfrom` of address_proxy.c: what Python is given for a pointer in foreign memory.
use pycallocs.Prelude.{
  ℕ, ◌^◌, ◌≡◌, ◌≢◌, ◌<◌, refl, ap, ◌∙◌, sym, inl, inr, true, false, Bool-cases, Option, none, some,
  List, arith, Bool, subst, type_error, ◌==◌, if◌then◌else◌,
}
use mathlib.Core.Option.{some-injective}
use pycallocs.Memory.{Mem, load}
use pycallocs.AddressProxy.Pointers.{
  Types, Value, PointerType, accepts_base, IsHierarchy, pointer_of, addrproxy_storeinto,
  PointerStored, addrproxy_storeinto_cases,
}
use pycallocs.Registry.{
  field, lookup, Registry, Allocation, Got, create, derive, get_or_create_base,
}
use pycallocs.Registry.State.{Owned, one_more}
use pycallocs.Registry.Drop.{IsSound}
use pycallocs.Registry.Base.{
  FailsBase, start_of, GotBase, nothing, base, no_memory, get_or_create_base-GotBase,
}
use pycallocs.Registry.Get.{
  KeepsFields, GotProxy, Gets, proxy, no_proxy, base_failed, create-GotProxy, derive-GotProxy,
}

-- None, or the use of a NULL pointer, or what the registry gives.
pub data Decoded : Type 0 where
  null_pointer : Decoded
  crashed : Decoded
  object : Got → Decoded

module _ (types : Types) (new : Registry → Option ℕ) (detached : ℕ → List ℕ)
    (type : PointerType) where
  -- A new address proxy; if there is no memory for it, the reference of the look-up is not dropped.
  unfoldable pub point_from : ℕ → Registry → ℕ → Option ℕ → Got
  unfolding derive
  point_from ptr s b none = some (s, none)
  point_from ptr s b (some o) = derive detached ptr type.ft_proxy_type s b (some o)

  unfoldable pub point_with_base : ℕ → Got → Got
  unfolding point_from create accepts_base
  point_with_base ptr none = none
  point_with_base ptr (some (s, none)) = create ptr type.ft_proxy_type s (new s)
  point_with_base ptr (some (s, some b)) =
      if accepts_base types type (s.types b) then some (s, some b) else point_from ptr s b (new s)

  -- Without a foreign type of the pointee, which a base proxy is compared with, and which a new object
  -- asks for its length.
  unfoldable pub unhandled_object : Registry → Option ℕ → Decoded
  unhandled_object s none = object (some (s, none))
  unhandled_object s (some o) = crashed

  unfoldable pub point_unhandled : Got → Decoded
  unfolding unhandled_object
  point_unhandled none = object none
  point_unhandled (some (s, none)) = unhandled_object s (new s)
  point_unhandled (some (s, some b)) = crashed

  -- addrproxy_getfrom of the pointer at `addr`, with what liballocs says of each address; the
  -- length that `addrproxy_initlength` gives a new proxy is not in the registry.
  unfoldable pub addrproxy_getfrom : ℕ → (ℕ → Option Allocation) → Mem → Registry → Decoded
  unfolding point_with_base point_unhandled get_or_create_base
  addrproxy_getfrom addr alloc m s =
      let ptr = load 8 m addr in
      if ptr == 0
      then null_pointer
      else if type.has_pointee
      then object (point_with_base ptr (get_or_create_base new (alloc ptr) s))
      else point_unhandled (get_or_create_base new (alloc ptr) s)

-- What is to be left for a pointer that is not NULL: the base proxy of its allocation, if the pointer
-- type accepts that, or an address proxy of the pointer; or no object, as Python has no memory, and
-- then the base, if it is there, keeps a reference too many; or the base is not to be had.
pub data GotPointer (types : Types) (new : Registry → Option ℕ) (type : PointerType) (ptr : ℕ)
    (w : Owned) (a : Option Allocation) (before : Registry) : Got → Type 0 where
  the_base :
      (s : Registry) (b : ℕ)
      → IsSound (one_more b w) s
      → s.proxy_dict (start_of a) ≡ some b
      → accepts_base types type (s.types b) ≡ true
      → KeepsFields before s
      → GotPointer types new type ptr w a before (some (s, some b))
  an_address :
      (s : Registry) (o : ℕ)
      → Gets ptr type.ft_proxy_type w a before s o
      → GotPointer types new type ptr w a before (some (s, some o))
  no_object :
      (s s' : Registry)
      → new s' ≡ none
      → IsSound w s
      → KeepsFields before s
      → GotPointer types new type ptr w a before (some (s, none))
  leaked :
      (s : Registry) (b : ℕ)
      → new s ≡ none
      → IsSound (one_more b w) s
      → KeepsFields before s
      → GotPointer types new type ptr w a before (some (s, none))
  no_base : FailsBase new a before → GotPointer types new type ptr w a before none

module _ (types : Types) (new : Registry → Option ℕ)
    (fresh : (s : Registry) (o : ℕ) → new s ≡ some o → s.refs o ≡ 0) (detached : ℕ → List ℕ)
    (type : PointerType) (ptr : ℕ) (w : Owned) (a : Option Allocation) (before : Registry) where
  GotProxy-GotPointer :
      (got : Got)
      → GotProxy new ptr type.ft_proxy_type w a before got
      → GotPointer types new type ptr w a before got
  GotProxy-GotPointer _ (proxy s o g) = an_address s o g
  GotProxy-GotPointer _ (no_proxy s s' full v fields) = no_object s s' full v fields
  GotProxy-GotPointer _ (base_failed full) = no_base full

  point_from-GotPointer :
      (s : Registry) (b : ℕ)
      → IsSound (one_more b w) s
      → s.proxy_dict (start_of a) ≡ some b
      → s.pointing ≡ before.pointing
      → (m : Option ℕ) → new s ≡ m
      → GotPointer types new type ptr w a before (point_from types new detached type ptr s b m)
  unfolding point_from
  point_from-GotPointer s b v found same none eq =
      leaked s b eq v (λ p c alive h. ap (lookup (field p)) same ∙ h)
  point_from-GotPointer s b v found same (some o) eq = GotProxy-GotPointer _ (
      derive-GotProxy new fresh detached ptr type.ft_proxy_type w a before s b v found same (some o)
        eq)

  point_with_base-GotPointer :
      (got : Got)
      → IsSound w before
      → GotBase new w a before got
      → GotPointer types new type ptr w a before (point_with_base types new detached type ptr got)
  unfolding point_with_base
  point_with_base-GotPointer _ v (nothing lacking) = GotProxy-GotPointer _ (
      create-GotProxy new fresh detached ptr type.ft_proxy_type w a before (new before) refl v
        lacking)
  point_with_base-GotPointer _ v (base s b sound found same) =
      elim (Bool-cases (accepts_base types type (s.types b))) [
        | inl accepted ↦
            rw accepted
              (the_base s b sound found accepted (λ p c alive h. ap (lookup (field p)) same ∙ h))
        | inr other ↦ rw other (point_from-GotPointer s b sound found same (new s) refl)
      ]
  point_with_base-GotPointer _ v (no_memory eq) = no_base eq

-- What reading a pointer of value `ptr` is to give.
pub data Decodes (types : Types) (new : Registry → Option ℕ) (type : PointerType) (ptr : ℕ)
    (w : Owned) (a : Option Allocation) (before : Registry) : Decoded → Type 0 where
  null : ptr ≡ 0 → Decodes types new type ptr w a before null_pointer
  points :
      (got : Got)
      → ptr ≢ 0
      → GotPointer types new type ptr w a before got
      → Decodes types new type ptr w a before (object got)
  uses_null : ptr ≢ 0 → type.has_pointee ≡ false → Decodes types new type ptr w a before crashed

module _ (types : Types) (new : Registry → Option ℕ)
    (fresh : (s : Registry) (o : ℕ) → new s ≡ some o → s.refs o ≡ 0) (detached : ℕ → List ℕ)
    (type : PointerType) (alloc : ℕ → Option Allocation) (w : Owned) (before : Registry) where
  unhandled_object-Decodes :
      (ptr : ℕ) (a : Option Allocation) (made : Option ℕ)
      → new before ≡ made
      → ptr ≢ 0
      → type.has_pointee ≡ false
      → IsSound w before
      → Decodes types new type ptr w a before (unhandled_object types new detached type before made)
  unfolding unhandled_object
  unhandled_object-Decodes ptr a none full ne missing v =
      points _ ne (no_object before before full v (λ p c alive h. h))
  unhandled_object-Decodes ptr a (some o) eq ne missing v = uses_null ne missing

  point_unhandled-Decodes :
      (ptr : ℕ) (a : Option Allocation) (got : Got)
      → ptr ≢ 0
      → type.has_pointee ≡ false
      → IsSound w before
      → GotBase new w a before got
      → Decodes types new type ptr w a before (point_unhandled types new detached type got)
  unfolding point_unhandled
  point_unhandled-Decodes ptr a _ ne missing v (nothing lacking) =
      unhandled_object-Decodes ptr a (new before) refl ne missing v
  point_unhandled-Decodes ptr a _ ne missing v (base s b sound found same) = uses_null ne missing
  point_unhandled-Decodes ptr a _ ne missing v (no_memory why) = points _ ne (no_base why)

  pointed-Decodes :
      (ptr : ℕ) (a : Option Allocation)
      → ptr ≢ 0
      → IsSound w before
      → (handled : Bool) → type.has_pointee ≡ handled
      → Decodes types new type ptr w a before (
          if handled
          then object
              (point_with_base types new detached type ptr (get_or_create_base new a before))
          else point_unhandled types new detached type (get_or_create_base new a before))
  pointed-Decodes ptr a ne v true there = points _ ne (
      point_with_base-GotPointer types new fresh detached type ptr w a before
        (get_or_create_base new a before) v (get_or_create_base-GotBase new fresh w before v a))
  pointed-Decodes ptr a ne v false missing =
      point_unhandled-Decodes ptr a (get_or_create_base new a before) ne missing v
        (get_or_create_base-GotBase new fresh w before v a)

  -- Reading a pointer of foreign memory, for all of these. NULL is None. For another pointer Python
  -- gets one more reference, either of the registered base proxy of the allocation that it points
  -- into, if the type of that is the pointee's or the pointer is `void *`, or of a proxy that has
  -- the pointer and the pointer type, and keeps the base alive; all reference counts stay right. It
  -- gives NULL only if Python has no memory, and then the base may keep one reference too many. A
  -- NULL pointer is used only if the pointee's type is not handled. Otherwise there is no result only
  -- if Python has no memory for the base, or if the type of the allocation is not handled or is a
  -- pointer type. The memory that Python gives is not in use.
  pub addrproxy_getfrom-Decodes :
      (addr : ℕ) (m : Mem)
      → IsSound w before
      → let ptr = load 8 m addr in
        Decodes types new type ptr w
          (alloc ptr)
          before
          (addrproxy_getfrom types new detached type addr alloc m before)
  unfolding addrproxy_getfrom
  addrproxy_getfrom-Decodes addr m v =
      let ptr = load 8 m addr in
      let a = alloc ptr in
      elim (Bool-cases (ptr == 0)) [
        | inl zero_ptr ↦ rw zero_ptr (null (ground arith))
        | inr some_ptr ↦
            rw some_ptr (pointed-Decodes ptr a (λ e. ground arith) v type.has_pointee refl)
      ]

  -- What was stored as a pointer is read back. After storing None, reading gives None; after storing
  -- a proxy with a 64-bit pointer, reading that pointer gives what reading any pointer gives: None if
  -- it is NULL, else the base proxy of its allocation, of an accepted type, or a proxy with the very
  -- same pointer, or one of the failures of reading a pointer.
  pub addrproxy_getfrom-storeinto :
      (v : Value) (dest : ℕ) (m : Mem) (s : PointerStored)
      → IsHierarchy types type
      → pointer_of v < 2 ^ 64
      → addrproxy_storeinto types v dest type m ≡ some s
      → s.result.status ≡ none
      → IsSound w before
      → Decodes types new type
          (pointer_of v)
          w
          (alloc (pointer_of v))
          before
          (addrproxy_getfrom types new detached type dest alloc s.result.mem before)
  addrproxy_getfrom-storeinto v dest m s h small did succeeded sound =
      elim (addrproxy_storeinto_cases types v dest type m h small) [
        | inl done ↦
            let same : done.stored_as ≡ s = some-injective _ _ (sym done.given ∙ did) in
            let loaded =
              ap (λ (r : PointerStored). load 8 r.result.mem dest) (sym same)
              ∙ done.pointed.loaded in
            subst
              (λ (q : ℕ).
                Decodes types new type q w (alloc q) before
                  (addrproxy_getfrom types new detached type dest alloc s.result.mem before))
              loaded (addrproxy_getfrom-Decodes dest s.result.mem sound)
        | inr (inl (cell, failed)) ↦
            let same = some-injective _ _ (sym failed ∙ did) in
            let never : some type_error ≡ none =
              ap (λ (r : PointerStored). r.result.status) same ∙ succeeded in
            absurd cc
        | inr (inr (cell, crash, why)) ↦ let never : none ≡ some s = sym crash ∙ did in absurd cc
      ]
