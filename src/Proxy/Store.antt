-- ===== src/Proxy/Store.antt =====
-- `Proxy_StoreInto` of proxy.c for a composite type, whose constructor is `compositeproxy_ctor`.
use pycallocs.Prelude.{
  ℕ, ◌+◌, ◌≡◌, ◌≢◌, ◌<◌, refl, ap, ◌∙◌, ◌⊎◌, inl, inr, arith, Option, none, some, Error,
}
use pycallocs.Memory.{Mem, memcpy}
use pycallocs.Memory.Frame.{Outside, SameOutside, SameOutside-memcpy, memcpy-inside}
use pycallocs.Python.{Stored, stored}
use pycallocs.CompositeProxy.{CompositeProxy, Objects, compositeproxy_init}
use pycallocs.CompositeProxy.Fields.{IsLaidOut}
use pycallocs.CompositeProxy.Contained.{Keeps, compositeproxy_init-Keeps}
use pycallocs.Proxy.{
  store_made, store_call, store_converted, store_proxy, proxy_store_into, made_by, made,
  compositeproxy_ctor, composite_type, arguments_of,
}

module _ {Obj : Type 0} (py : Objects Obj) (type : CompositeProxy Obj) (block dest : ℕ) (obj : Obj)
    (m : Mem) where
  -- The bytes at `p` in `m'`, which `obj` stands for: a proxy's own, or those of a new struct that
  -- was initialised from it.
  abbrev pub StandsFor : ℕ → Mem → Type 0
  StandsFor p m' =
      ((py.same_type obj ≡ some p) × (m' ≡ m))
      ⊎ ((p ≡ block)
          × (compositeproxy_init py (record type { p_ptr = block })
                (arguments_of obj (py.as_tuple obj)) none m
              ≡ some (stored m')))

  abbrev pub IsStored : Mem → Type 0
  IsStored after =
      (p : ℕ) × (m' : Mem) × StandsFor p m'
      × ((k : ℕ) → k < type.tp_itemsize → after (dest + k) ≡ m' (p + k))

  abbrev pub StoreCases : Option Stored → Type 0
  StoreCases none = Unit
  StoreCases (some s) =
      (((s.status ≡ none) × IsStored s.mem)
        ⊎ ((s.status ≢ none) × SameOutside block type.tp_itemsize m s.mem))
      × ((q : ℕ)
          → Outside dest type.tp_itemsize q
          → Outside block type.tp_itemsize q
          → s.mem q ≡ m q)

  memcpy-StoreCases :
      (p : ℕ) (m' : Mem)
      → StandsFor p m'
      → SameOutside block type.tp_itemsize m m'
      → StoreCases (some (stored (memcpy type.tp_itemsize m' dest p)))
  memcpy-StoreCases p m' stands same = (
    inl (
      refl,
      (
        p,
        m',
        stands,
        λ k lt.
            memcpy-inside type.tp_itemsize m' dest p (dest + k) (omega arith) (omega arith)
            ∙ ap m' (omega arith),
      ),
    ),
    λ q out out'. SameOutside-memcpy type.tp_itemsize m' dest p q out ∙ same q out',
  )

  made_by-StoreCases :
      (o : Option Error) (m' : Mem)
      → compositeproxy_init py
          (record type { p_ptr = block })
          (arguments_of obj (py.as_tuple obj))
          none
          m
        ≡ some (record { mem = m'; status = o })
      → SameOutside block type.tp_itemsize m m'
      → StoreCases (store_call type.tp_itemsize dest (some (made_by block o m')))
  unfolding store_call store_made made_by
  made_by-StoreCases none m' eq same = memcpy-StoreCases block m' (inr (refl, eq)) same
  made_by-StoreCases (some e) m' eq same = (inr (λ h. cc, same), λ q out out'. same q out')

  made-StoreCases :
      (o : Option Stored)
      → compositeproxy_init py
          (record type { p_ptr = block })
          (arguments_of obj (py.as_tuple obj))
          none
          m
        ≡ o
      → Keeps block type.tp_itemsize m o
      → StoreCases (store_call type.tp_itemsize dest (made block o))
  unfolding made store_call
  made-StoreCases none eq same = tt
  made-StoreCases (some s) eq same = made_by-StoreCases s.status s.mem eq same

  store_proxy-StoreCases :
      (o : Option ℕ)
      → IsLaidOut type.fields 0 type.tp_itemsize
      → py.same_type obj ≡ o
      → StoreCases (store_proxy (composite_type py type block) obj dest m o)
  unfolding store_proxy store_converted composite_type compositeproxy_ctor
  store_proxy-StoreCases (some p) laid eq = memcpy-StoreCases p m (inl (eq, refl)) (λ q out. refl)
  store_proxy-StoreCases none laid eq = made-StoreCases _ refl (
      compositeproxy_init-Keeps (record type { p_ptr = block }) laid py
        (arguments_of obj (py.as_tuple obj)) none m)

  -- Storing an object into a struct's place at `dest`, for a struct whose fields stand one behind
  -- the other, unless it crashes. Either it succeeds, and each byte at `dest` becomes the byte at
  -- its place in the proxy that was given or in the new struct at `block` that was initialised from
  -- the object, by its items if it is a tuple; or it raises, and nothing outside the new struct changes. In no case do bytes
  -- outside the two change.
  pub proxy_store_into_cases :
      IsLaidOut type.fields 0 type.tp_itemsize
      → StoreCases (proxy_store_into (composite_type py type block) obj dest m)
  unfolding proxy_store_into composite_type
  proxy_store_into_cases laid = store_proxy-StoreCases (py.same_type obj) laid refl
