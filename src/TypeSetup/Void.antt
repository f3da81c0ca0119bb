-- ===== src/TypeSetup/Void.antt =====
-- The conversions of void in foreign_type.c: only None is given and accepted, and no memory is read or
-- written. Python's None, and the test for it, are parameters.
use pycallocs.Prelude.{
  ℕ, ◌≡◌, refl, ap, inl, inr, Bool, true, Bool-cases, type_error, ok, if◌then◌else◌,
}
use pycallocs.Memory.{Mem}
use pycallocs.Python.{Stored, stored, refused}
use pycallocs.AddressProxy.{ItemType}

module _ {Obj : Type 0} (py_none : Obj) (is_none : Obj → Bool) where
  unfoldable pub void_getfrom : Mem → ℕ → Obj
  void_getfrom m a = py_none

  unfoldable pub void_storeinto : Obj → ℕ → Mem → Stored
  void_storeinto obj dest m = if is_none obj then stored m else refused m type_error

  pub void_storeinto-same : (obj : Obj) (dest : ℕ) (m : Mem) → (void_storeinto obj dest m).mem ≡ m
  unfolding void_storeinto
  void_storeinto-same obj dest m = elim (Bool-cases (is_none obj)) [
    | inl accepted ↦ rw accepted refl
    | inr other ↦ rw other refl
  ]

  -- What is read of a void can be stored again, without a change of memory.
  pub void_storeinto-getfrom :
      (a dest : ℕ) (m : Mem)
      → is_none py_none ≡ true
      → void_storeinto (void_getfrom m a) dest m ≡ stored m
  unfolding void_storeinto void_getfrom
  void_storeinto-getfrom a dest m same = rw same refl

  -- The items of a `void *` proxy.
  abbrev pub void_item : ℕ → ItemType Obj
  void_item size = record {
    size = size;
    getfrom = λ m a. ok (void_getfrom m a);
    storeinto = void_storeinto;
    contained = λ obj dest m q out. ap (λ (m' : Mem). m' q) (void_storeinto-same obj dest m);
  }
