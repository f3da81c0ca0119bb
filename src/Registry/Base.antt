-- ===== src/Registry/Base.antt =====
-- `Proxy_GetOrCreateBase` of proxy.c.
use pycallocs.Prelude.{ℕ, ◌≡◌, refl, ◌⊎◌, inl, inr, ap, ◌∙◌, arith, true, Option, none, some, ◌==◌}
use pycallocs.Registry.{
  Registry, update, incref, AllocatedType, unhandled, unproxied, proxied, pointer, Allocation, Got,
  allocated, create, register_new, proxy_register, with_result, register_base, create_base,
  base_found, get_or_create_base,
}
use pycallocs.Registry.State.{Owned, one_more}
use pycallocs.Registry.Drop.{IsSound}
use pycallocs.Registry.Create.{incref-IsSound, allocated-IsSound, registered-IsSound}

-- There is nothing to proxy: no usable allocation, or one of a type without proxies and without a
-- base proxy.
abbrev pub NoBase : Option Allocation → Registry → Type 0
NoBase none s = Unit
NoBase (some a) s = (a.type ≡ unproxied) × (s.proxy_dict a.start ≡ none)

abbrev pub start_of : Option Allocation → ℕ
start_of none = 0
start_of (some a) = a.start

-- Where there is no base to be had: Python has no memory for it, or the allocation's type is not
-- handled, or is a pointer type.
abbrev pub IsUnusable : Option Allocation → Type 0
IsUnusable none = ⊥
IsUnusable (some a) = (a.type ≡ unhandled) ⊎ (a.type ≡ pointer)

abbrev pub FailsBase : (Registry → Option ℕ) → Option Allocation → Registry → Type 0
FailsBase new a s = (new s ≡ none) ⊎ IsUnusable a

-- What the call is to leave: NULL and the registry as it was, or the registered base proxy of the
-- allocation and one more reference of it; or it ends with no base to be had.
pub data GotBase (new : Registry → Option ℕ) (w : Owned) (a : Option Allocation) (s : Registry)
    : Got → Type 0 where
  nothing : NoBase a s → GotBase new w a s (some (s, none))
  base :
      (s' : Registry) (b : ℕ)
      → IsSound (one_more b w) s'
      → s'.proxy_dict (start_of a) ≡ some b
      → s'.pointing ≡ s.pointing
      → GotBase new w a s (some (s', some b))
  no_memory : FailsBase new a s → GotBase new w a s none

module _ (new : Registry → Option ℕ)
    (fresh : (s : Registry) (o : ℕ) → new s ≡ some o → s.refs o ≡ 0) (w : Owned) (s : Registry)
    (v : IsSound w s) where
  registered-GotBase :
      (a : Allocation) (type o : ℕ) (m : Option ℕ)
      → s.refs o ≡ 0
      → m ≡ none
      → GotBase new w
          (some a)
          s
          (with_result (some o) (register_new o (allocated a.start type s o) m))
  unfolding with_result register_new allocated
  registered-GotBase a type o (some b) free lacking = cc
  registered-GotBase a type o none free lacking =
      let s' = allocated a.start type s o in
      let at : s'.p_ptr o ≡ a.start = ground arith in
      let here : (s'.p_ptr o == a.start) ≡ true = ground arith in
      base (record s' { proxy_dict = update s'.proxy_dict (s'.p_ptr o) (some o) }) o
        (registered-IsSound (one_more o w) s' o (allocated-IsSound w s a.start type o v free)
          (ground arith))
        (simp here) refl

  create-GotBase :
      (a : Allocation) (type : ℕ) (m : Option ℕ)
      → new s ≡ m
      → s.proxy_dict a.start ≡ none
      → GotBase new w (some a) s (register_base (create a.start type s m))
  unfolding register_base create proxy_register allocated
  create-GotBase a type none eq lacking = no_memory (inl eq)
  create-GotBase a type (some o) eq lacking =
      let s' = allocated a.start type s o in
      let at : s'.p_ptr o ≡ a.start = ground arith in
      registered-GotBase a type o (s'.proxy_dict (s'.p_ptr o)) (fresh s o eq)
        (ap s.proxy_dict at ∙ lacking)

  create_base-GotBase :
      (a : Allocation) (m : AllocatedType)
      → a.type ≡ m
      → s.proxy_dict a.start ≡ none
      → GotBase new w (some a) s (create_base new a.start s m)
  unfolding create_base
  create_base-GotBase a unhandled eq lacking = no_memory (inr (inl eq))
  create_base-GotBase a unproxied eq lacking = nothing (eq, lacking)
  create_base-GotBase a pointer eq lacking = no_memory (inr (inr eq))
  create_base-GotBase a (proxied type) eq lacking = create-GotBase a type (new s) refl lacking

  found-GotBase :
      (a : Allocation) (m : Option ℕ)
      → s.proxy_dict a.start ≡ m
      → GotBase new w (some a) s (base_found new a s m)
  unfolding base_found
  found-GotBase a none eq = create_base-GotBase a a.type refl eq
  found-GotBase a (some b) eq = base (incref b s) b (incref-IsSound w s b v) eq refl

  pub get_or_create_base-GotBase :
      (a : Option Allocation) → GotBase new w a s (get_or_create_base new a s)
  unfolding get_or_create_base
  get_or_create_base-GotBase none = nothing tt
  get_or_create_base-GotBase (some a) = found-GotBase a (s.proxy_dict a.start) refl
