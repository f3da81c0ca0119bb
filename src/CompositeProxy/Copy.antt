-- ===== src/CompositeProxy/Copy.antt =====
-- `compositeproxy_init` of composite_proxy.c without values, and from a proxy of the same type.
use pycallocs.Prelude.{
  ℕ, ◌+◌, ◌≡◌, ◌≢◌, ◌≤◌, ◌<◌, refl, inl, inr, arith, none, some, [], ◌∷◌, value_error, ◌∙◌, ◌==◌,
  Bool-cases, ap, false,
}
use pycallocs.Memory.{Mem, zero_fill, memcpy}
use pycallocs.Memory.Frame.{
  SameOutside, SameOutside-zero_fill, zero_fill-inside, SameOutside-memcpy, memcpy-inside,
}
use pycallocs.Python.{Stored, stored, refused}
use pycallocs.CompositeProxy.{
  Dict, Objects, init_by_other, init_by_dict, CompositeProxy, tuple, convert, compositeproxy_init,
  init_by_tuple, init_by_object, init_by_type, copy_proxy, keywords,
}

module _ {Obj : Type 0} (py : Objects Obj) (self : CompositeProxy Obj) where
  -- A constructor call without arguments succeeds, sets every byte of the struct to zero, and
  -- changes nothing else.
  pub compositeproxy_init-clears :
      (m : Mem)
      → (m' : Mem) × (compositeproxy_init py self (tuple []) none m ≡ some (stored m'))
        × ((q : ℕ) → self.p_ptr ≤ q → q < self.p_ptr + self.tp_itemsize → m' q ≡ 0)
        × SameOutside self.p_ptr self.tp_itemsize m m'
  unfolding compositeproxy_init init_by_tuple keywords
  compositeproxy_init-clears m = (
    zero_fill self.tp_itemsize m self.p_ptr,
    refl,
    zero_fill-inside self.tp_itemsize m self.p_ptr,
    SameOutside-zero_fill self.tp_itemsize m self.p_ptr,
  )

  -- What initialising from the proxy of the same type at `q` is to leave.
  pub data IsCopied (q : ℕ) (m : Mem) : Stored → Type 0 where
    same_object : q ≡ self.p_ptr → IsCopied q m (refused m value_error)
    other_object :
        (m' : Mem)
        → q ≢ self.p_ptr
        → ((k : ℕ) → k < self.tp_itemsize → m' (self.p_ptr + k) ≡ m (q + k))
        → SameOutside self.p_ptr self.tp_itemsize m m'
        → IsCopied q m (stored m')

  copy_proxy-IsCopied : (q : ℕ) (m : Mem) → IsCopied q m (copy_proxy self q m)
  unfolding copy_proxy
  copy_proxy-IsCopied q m = elim (Bool-cases (self.p_ptr == q)) [
    | inl same ↦ rw same (same_object (ground arith))
    | inr other ↦
        let copied = memcpy self.tp_itemsize m self.p_ptr q in
        rw other (
          other_object copied (ground arith)
            (λ k lt.
              memcpy-inside self.tp_itemsize m self.p_ptr q (self.p_ptr + k) (omega arith)
                (omega arith)
              ∙ ap m (omega arith))
            (SameOutside-memcpy self.tp_itemsize m self.p_ptr q))
  ]

  -- Initialising from a proxy of the same type, in a constructor call and in a conversion alike: a
  -- proxy of the very same address is refused with ValueError and nothing changes; from any other,
  -- each byte of the struct becomes the byte at its place there, and nothing else changes.
  pub compositeproxy_init-IsCopied :
      (arg : Obj) (q : ℕ) (m : Mem)
      → py.same_type arg ≡ some q
      → (s : Stored) × (compositeproxy_init py self (tuple (arg ∷ [])) none m ≡ some s)
        × (compositeproxy_init py self (convert arg) none m ≡ some s)
        × IsCopied q m s
  unfolding compositeproxy_init init_by_tuple init_by_object init_by_type keywords
  compositeproxy_init-IsCopied arg q m eq =
      (copy_proxy self q m, rw eq refl, rw eq refl, copy_proxy-IsCopied q m)

  -- A dictionary that is not empty: as the only argument of a constructor call, as keyword
  -- arguments, and as an object to convert, it initialises the struct in the same way.
  pub compositeproxy_init-dict :
      (arg : Obj) (d : Dict Obj) (m : Mem)
      → py.same_type arg ≡ none
      → py.as_dict arg ≡ some d
      → 0 < d.size
      → (compositeproxy_init py self (tuple (arg ∷ [])) none m
          ≡ compositeproxy_init py self (tuple []) (some d) m)
        × (compositeproxy_init py self (convert arg) none m
            ≡ compositeproxy_init py self (tuple []) (some d) m)
  unfolding compositeproxy_init init_by_tuple init_by_object init_by_type init_by_other init_by_dict
      keywords
  compositeproxy_init-dict arg d m other dict lt =
      let test : (d.size == 0) ≡ false = ground arith in
      (rw (other, dict, test) refl, rw (other, dict, test) refl)
