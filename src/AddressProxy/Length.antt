-- ===== src/AddressProxy/Length.antt =====
-- `addrproxy_initlength` of address_proxy.c: how many items an address proxy has.
use pycallocs.Prelude.{
  ℕ, ◌+◌, ◌*◌, ◌/◌, ◌≡◌, ◌≤◌, ◌<◌, arith, Bool, ◌||◌, not, List, pos, ◌==◌, if◌then◌else◌,
  Bool-cases, inl, inr,
}
use native.Mathlib.Nat.{le-div_iff_mul-le}
use pycallocs.Bounds.{Uniqtype, Visit, AllocInfo, Bounds, fetch_bounds}
use pycallocs.Bounds.Containment.{Holds}
use pycallocs.AddressProxy.{AddressProxy}

-- What the pointee's uniqtype says: UNIQTYPE_SIZE_IN_BYTES, UNIQTYPE_HAS_KNOWN_LENGTH, and what
-- minicrunch.c reads of it.
pub record Pointee : Type 0 where
  pub size : ℕ
  pub known_length : Bool
  pub uniq : Uniqtype

unfoldable pub length_from_bounds : ℕ → ℕ → Bounds → ℕ
length_from_bounds ptr size b = if b.base == ptr then b.size / size else 1

-- addrproxy_initlength
unfoldable pub addrproxy_initlength : ℕ → Pointee → AllocInfo → List Visit → AddressProxy
unfolding length_from_bounds
addrproxy_initlength ptr t info visits = record {
  p_ptr = ptr;
  ap_length = pos (
      if t.size == 0 || not t.known_length
      then 0
      else length_from_bounds ptr t.size (fetch_bounds ptr t.uniq info visits));
}

whole_items : (n size k : ℕ) → 0 < size → k < n / size → k * size + size ≤ n
whole_items n size k some_size lt =
    let bytes = (le-div_iff_mul-le some_size).0 lt in omega (arith, bytes)

-- With bounds that hold one item at the pointer, all items of the length lie in the bounds.
pub length_from_bounds-Holds :
    (ptr size : ℕ) (b : Bounds) (k : ℕ)
    → 0 < size
    → Holds b ptr size
    → k < length_from_bounds ptr size b
    → Holds b (ptr + k * size) size
unfolding length_from_bounds
length_from_bounds-Holds ptr size b k some_size (low, high) lt = elim (Bool-cases (b.base == ptr)) [
  | inl base ↦
      let items = whole_items b.size size k some_size (simp base at lt) in
      (ground arith, ground arith)
  | inr inner ↦
      let one : k < 1 = simp inner at lt in
      let none : k ≡ 0 = omega arith in rw none (omega arith, omega arith)
]
