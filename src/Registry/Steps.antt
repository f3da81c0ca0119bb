-- ===== src/Registry/Steps.antt =====
-- The registry of proxy.c as a state machine: what Python and liballocs may do, in any order.
use pycallocs.Prelude.{ap, ◌∙◌, ℕ, ◌≡◌, ◌<◌, refl, sym, subst, inl, Option, none, some, List, []}
use pycallocs.Registry.{
  foreign, field, lookup, Registry, incref, Allocation, proxy_addref, proxy_copy_from, get_from,
  decref, proxy_delref, get_or_create_base,
}
use pycallocs.Registry.State.{Owned, one_more, lookup-alive}
use pycallocs.Registry.Drop.{IsSound}
use pycallocs.Registry.Create.{incref-IsSound}
use pycallocs.Registry.Base.{get_or_create_base-GotBase}
use pycallocs.Registry.Slices.{slice_from, slice_from-After}
use pycallocs.Registry.Kept.{
  base-After, got-After, addref-kept, copied-After, decref-After, delref-After,
}
use pycallocs.Memory.{Mem, load}
use pycallocs.AddressProxy.Pointers.{Types, PointerType}
use pycallocs.Registry.Pointers.{object, addrproxy_getfrom, addrproxy_getfrom-Decodes}
use pycallocs.Registry.Decoded.{decoded-After}
use mathlib.Core.Option.{some-injective}
use pycallocs.Traversal.{Shape, proxy_clear}
use pycallocs.Traversal.Clear.{proxy_clear_cases}
use pycallocs.Registry.Get.{KeepsFields, Shrinks-KeepsFields, get_from-GotProxy}

-- The references that the rest of the program owns, or has lost without releasing them, and the
-- registry.
pub record World : Type 0 where
  pub owned : Owned
  pub registry : Registry

-- The start, by Proxy_InitGCPolicy: no proxies, two empty dictionaries.
abbrev pub empty : World
empty = record {
  owned = λ o. 0;
  registry = record {
    refs = λ o. 0;
    p_ptr = λ o. 0;
    types = λ o. 0;
    proxy_dict = λ a. none;
    pointing = [];
  };
}

module _ (new : Registry → Option ℕ) where
  -- One call, given what liballocs answers in it.
  pub data Step (x y : World) : Type 0 where
    -- Proxy_GetFrom
    get :
        (detached : ℕ → List ℕ) (addr type o : ℕ) (a : Option Allocation)
        → get_from new detached addr type a x.registry ≡ some (y.registry, some o)
        → y.owned ≡ one_more o x.owned
        → Step x y
    get_null :
        (detached : ℕ → List ℕ) (addr type : ℕ) (a : Option Allocation)
        → get_from new detached addr type a x.registry ≡ some (y.registry, none)
        → y.owned ≡ x.owned
        → Step x y
    -- addrproxy_getfrom, when it gives a proxy
    read_pointer :
        (types : Types) (detached : ℕ → List ℕ) (type : PointerType) (addr o : ℕ)
        (alloc : ℕ → Option Allocation) (m : Mem)
        → addrproxy_getfrom types new detached type addr alloc m x.registry
          ≡ object (some (y.registry, some o))
        → y.owned ≡ one_more o x.owned
        → Step x y
    -- addrproxy_getfrom, when it finds no memory: without a base, and with one, whose reference is lost
    read_nothing :
        (types : Types) (detached : ℕ → List ℕ) (type : PointerType) (addr : ℕ)
        (alloc : ℕ → Option Allocation) (m : Mem)
        → get_or_create_base new (alloc (load 8 m addr)) x.registry ≡ some (y.registry, none)
        → addrproxy_getfrom types new detached type addr alloc m x.registry
          ≡ object (some (y.registry, none))
        → y.owned ≡ x.owned
        → Step x y
    read_loses :
        (types : Types) (detached : ℕ → List ℕ) (type : PointerType) (addr b : ℕ)
        (alloc : ℕ → Option Allocation) (m : Mem)
        → get_or_create_base new (alloc (load 8 m addr)) x.registry ≡ some (y.registry, some b)
        → addrproxy_getfrom types new detached type addr alloc m x.registry
          ≡ object (some (y.registry, none))
        → y.owned ≡ one_more b x.owned
        → Step x y
    -- addrproxy_subscript of a slice
    slice :
        (detached : ℕ → List ℕ) (addr type o : ℕ) (a : Option Allocation)
        → slice_from new detached addr type a x.registry ≡ some (y.registry, some o)
        → y.owned ≡ one_more o x.owned
        → Step x y
    slice_null :
        (detached : ℕ → List ℕ) (addr type : ℕ) (a : Option Allocation)
        → slice_from new detached addr type a x.registry ≡ some (y.registry, none)
        → y.owned ≡ x.owned
        → Step x y
    -- Proxy_CopyFrom, and the constructors, which register their new blocks alike
    copy :
        (block type o : ℕ)
        → proxy_copy_from new block type x.registry ≡ some (y.registry, some o)
        → y.owned ≡ one_more o x.owned
        → Step x y
    -- Py_INCREF and Py_DECREF of a reference that the program owns
    share :
        (o : ℕ)
        → y ≡ record { owned = one_more o x.owned; registry = incref o x.registry }
        → Step x y
    drop :
        (detached : ℕ → List ℕ) (o : ℕ)
        → x.owned ≡ one_more o y.owned
        → decref detached o x.registry ≡ some y.registry
        → Step x y
    -- proxy_addref and proxy_delref, called by liballocs
    pointer_written :
        (target from : ℕ)
        → proxy_addref target from x.registry ≡ some y.registry
        → y.owned ≡ x.owned
        → Step x y
    pointer_deleted :
        (detached : ℕ → List ℕ) (from : ℕ)
        → proxy_delref detached (foreign from) x.registry ≡ some y.registry
        → y.owned ≡ x.owned
        → Step x y
    -- tp_clear, called by Python's collector on the value at `p`
    clear :
        (detached : ℕ → List ℕ) (shape : Shape) (p : ℕ)
        → proxy_clear shape p detached x.registry ≡ (some y.registry, 0)
        → y.owned ≡ x.owned
        → Step x y

  pub data Reach (x : World) : World → Type 0 where
    here : Reach x x
    next : {y z : World} → Reach x y → Step y z → Reach x z

  -- A run during which the proxy is never freed.
  pub data Lives (o : ℕ) (x : World) : World → Type 0 where
    now : Lives o x x
    longer : {y z : World} → Lives o x y → Step y z → 0 < z.registry.refs o → Lives o x z

pub empty-IsSound : IsSound empty.owned empty.registry
empty-IsSound = record {
  counted = λ o. refl;
  unique = tt;
  registered = λ a o found. absurd cc;
  keyed = λ o. inl refl;
}

module _ (new : Registry → Option ℕ)
    (fresh : (s : Registry) (o : ℕ) → new s ≡ some o → s.refs o ≡ 0) where
  Step-IsKept :
      {x y : World}
      → Step new x y
      → IsSound x.owned x.registry
      → IsSound y.owned y.registry × KeepsFields x.registry y.registry
  unfolding proxy_addref proxy_copy_from
  Step-IsKept {x} {y} (get detached addr type o a eq own) v =
      let after =
        got-After new addr type x.owned a x.registry _ (y.registry, some o)
          (get_from-GotProxy new fresh detached addr type x.owned a x.registry v) eq in
      rw own after
  Step-IsKept {x} {y} (get_null detached addr type a eq own) v =
      let after =
        got-After new addr type x.owned a x.registry _ (y.registry, none)
          (get_from-GotProxy new fresh detached addr type x.owned a x.registry v) eq in
      rw own after
  Step-IsKept {x} {y} (read_pointer types detached type addr o alloc m eq own) v =
      let ptr = load 8 m addr in
      let after =
        decoded-After types new type ptr x.owned (alloc ptr) x.registry y.registry o _
          (addrproxy_getfrom-Decodes types new fresh detached type alloc x.owned x.registry addr m
            v)
          eq in
      rw own after
  Step-IsKept {x} {y} (read_nothing types detached type addr alloc m got eq own) v =
      let a = alloc (load 8 m addr) in
      let after =
        base-After new x.owned a x.registry _ (y.registry, none) v
          (get_or_create_base-GotBase new fresh x.owned x.registry v a) got in
      rw own after
  Step-IsKept {x} {y} (read_loses types detached type addr b alloc m got eq own) v =
      let a = alloc (load 8 m addr) in
      let after =
        base-After new x.owned a x.registry _ (y.registry, some b) v
          (get_or_create_base-GotBase new fresh x.owned x.registry v a) got in
      rw own after
  Step-IsKept {x} {y} (slice detached addr type o a eq own) v =
      let after =
        slice_from-After new fresh detached addr type x.owned a x.registry v (y.registry, some o)
          eq in
      rw own after
  Step-IsKept {x} {y} (slice_null detached addr type a eq own) v =
      let after =
        slice_from-After new fresh detached addr type x.owned a x.registry v (y.registry, none)
          eq in
      rw own after
  Step-IsKept {x} {y} (copy block type o eq own) v =
      let after =
        copied-After x.owned x.registry v block type (new x.registry) (y.registry, some o)
          (fresh x.registry) eq in
      rw own after
  Step-IsKept {x} {y} (share o eq) v =
      subst (λ (z : World). IsSound z.owned z.registry × KeepsFields x.registry z.registry) (sym eq)
        (incref-IsSound x.owned x.registry o v, λ p b alive h. h)
  Step-IsKept {x} {y} (drop detached o own eq) v =
      decref-After x.owned x.registry v detached o y.owned y.registry own eq
  Step-IsKept {x} {y} (pointer_written target from eq own) v =
      let after = addref-kept x.owned x.registry v target from _ y.registry eq in rw own after
  Step-IsKept {x} {y} (pointer_deleted detached from eq own) v =
      let after = delref-After x.owned x.registry v detached from y.registry eq in rw own after
  Step-IsKept {x} {y} (clear detached shape p eq own) v =
      let (s', ended, sound, shrinks, visits) =
        proxy_clear_cases detached x.owned shape p x.registry v in
      let same : s' ≡ y.registry =
        some-injective _ _ (ap (λ (r : Option Registry × ℕ). r.0) (sym ended ∙ eq)) in
      rw own (
        subst (λ (r : Registry). IsSound x.owned r × KeepsFields x.registry r) same
          (sound, Shrinks-KeepsFields x.registry s' shrinks))

  -- In every state that these calls can reach from the start, in any order and whatever liballocs
  -- answers, as long as none of them ends the run by a failed assertion, a NULL pointer or an
  -- allocation of pointer type: each reference count is the number of the program's references, the
  -- lost ones included, and of the entries that there are; so no proxy in use is freed and none
  -- without use is kept, but those whose reference a failed read of a pointer has lost; a registered
  -- proxy is alive, and is found at its own address. Python's memory is taken to be free when it is
  -- given.
  pub Reach-IsSound : {x : World} → Reach new empty x → IsSound x.owned x.registry
  Reach-IsSound here = empty-IsSound
  Reach-IsSound (next r st) = (Step-IsKept st (Reach-IsSound r)).0

  Lives-IsSound :
      {o : ℕ} {x y : World}
      → IsSound x.owned x.registry
      → Lives new o x y
      → IsSound y.owned y.registry
  Lives-IsSound v now = v
  Lives-IsSound v (longer l st alive) = (Step-IsKept st (Lives-IsSound v l)).0

  Lives-field :
      {o : ℕ} {x y : World} (b : ℕ)
      → IsSound x.owned x.registry
      → lookup (field o) x.registry.pointing ≡ some b
      → Lives new o x y
      → lookup (field o) y.registry.pointing ≡ some b
  Lives-field b v found now = found
  Lives-field {o} b v found (longer l st alive) =
      (Step-IsKept st (Lives-IsSound v l)).1 o b alive (Lives-field b v found l)

  -- A proxy keeps the base proxy of its allocation alive. In any run from a reachable state, in
  -- which the proxy is never freed, the entry of its field stays as it is and its base has a
  -- reference throughout.
  pub Lives-base :
      {o : ℕ} {x y : World} (b : ℕ)
      → Reach new empty x
      → lookup (field o) x.registry.pointing ≡ some b
      → Lives new o x y
      → (lookup (field o) y.registry.pointing ≡ some b) × (0 < y.registry.refs b)
  Lives-base {o} {x} {y} b r found l =
      let kept = Lives-field b (Reach-IsSound r) found l in
      let sound = Lives-IsSound (Reach-IsSound r) l in
      (kept, lookup-alive [] y.owned y.registry (field o) b kept sound)
