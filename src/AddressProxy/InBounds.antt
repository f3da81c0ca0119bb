-- ===== src/AddressProxy/InBounds.antt =====
-- Indexing a fresh address proxy of address_proxy.c, whose length minicrunch.c's bounds gave.
use pycallocs.Prelude.{
  ℕ, ◌+◌, ◌-◌, ◌*◌, ◌^◌, ◌≡◌, ◌≢◌, ◌≤◌, ◌<◌, refl, arith, true, false, List, All, pos, inl, inr,
  ◌==◌, sym,
}
use pycallocs.Memory.{Mem}
use pycallocs.Memory.Frame.{SameOutside}
use pycallocs.Bounds.{Visit, AllocInfo, maxoff_unbounded, fetch_bounds}
use pycallocs.Bounds.Search.{HasHit}
use pycallocs.Bounds.Containment.{IsSubobject, Holds, fetch_bounds-Holds}
use pycallocs.AddressProxy.{ItemType, addrproxy_ass_item}
use pycallocs.AddressProxy.Items.{proxy, addrproxy_ass_item_cases}
use pycallocs.AddressProxy.Length.{
  Pointee, length_from_bounds, addrproxy_initlength, length_from_bounds-Holds,
}

module _ {Obj : Type 0} (item : ItemType Obj) (ptr : ℕ) (t : Pointee) (info : AllocInfo)
    (visits : List Visit) where
  initlength-known :
      0 < t.size
      → t.known_length ≡ true
      → addrproxy_initlength ptr t info visits
        ≡ proxy ptr (length_from_bounds ptr t.size (fetch_bounds ptr t.uniq info visits))
  unfolding addrproxy_initlength
  initlength-known some_size known =
      let sized : (t.size == 0) ≡ false = ground arith in simp (sized, known)

  ass_item-SameOutside :
      (n k base size : ℕ) (value : Obj) (m : Mem)
      → (k < n → (base ≤ ptr + k * item.size) × (ptr + k * item.size + item.size ≤ base + size))
      → SameOutside base size m (addrproxy_ass_item item (proxy ptr n) (pos k) value m).mem
  ass_item-SameOutside n k base size value m inside =
      elim (addrproxy_ass_item_cases item ptr n m k value) [
        | inl (lt, same, others) ↦
            let (low, high) = inside lt in
            rw same (λ q out. item.contained value (ptr + k * item.size) m q (omega arith))
        | inr (le, same) ↦ rw same (λ q out. refl)
      ]

  -- No assignment through a fresh proxy leaves the array's bounds. The proxy's pointer is one that
  -- liballocs knows, into an allocation below 4 GB; its pointee is complete, not empty, of known
  -- length and no character; and liballocs visits the subobjects that span the pointer, one of
  -- which starts there and has the pointee's size. Then an assignment to any index from 0 on,
  -- within the length or not, changes no byte outside the bounds that minicrunch returns.
  pub addrproxy_initlength-InBounds :
      t.size ≡ item.size
      → t.size ≡ t.uniq.pos_maxoff
      → 0 < t.size
      → t.known_length ≡ true
      → ptr ≢ 0
      → info.failed ≡ false
      → t.uniq.is_char ≡ false
      → t.uniq.pos_maxoff < maxoff_unbounded
      → info.alloc_start ≤ ptr
      → ptr < info.alloc_start + 2 ^ 32
      → info.alloc_size_bytes < 2 ^ 32
      → All (IsSubobject info.alloc_size_bytes) visits
      → All (λ v. v.offset ≤ ptr - info.alloc_start) visits
      → HasHit t.uniq (ptr - info.alloc_start) visits
      → (k : ℕ) (value : Obj) (m : Mem)
      → let b = fetch_bounds ptr t.uniq info visits in
        SameOutside b.base b.size m
          (addrproxy_ass_item item (addrproxy_initlength ptr t info visits) (pos k) value m).mem
  addrproxy_initlength-InBounds item_size uniq_size some_size known ne good no_char finite after
        near small subs before hit k value m =
      let b = fetch_bounds ptr t.uniq info visits in
      let one =
        fetch_bounds-Holds ptr t.uniq info visits ne good no_char finite after near small subs
          before hit in
      let held : Holds b ptr t.size = rw uniq_size one in
      rw (initlength-known some_size known) (
        ass_item-SameOutside (length_from_bounds ptr t.size b) k b.base b.size value m (λ lt.
          let all = length_from_bounds-Holds ptr t.size b k some_size held lt in
          simp (sym item_size) all))
