-- ===== src/AddressProxy/Slices.antt =====
-- Slices of an address proxy (address_proxy.c): a window onto the same items.
use pycallocs.Prelude.{ℕ, ◌+◌, ◌*◌, ◌≡◌, ◌<◌, refl, arith, ℤ, pos, ok, memory_error, ap, ◌∙◌, sym}
use pycallocs.Memory.{Mem}
use pycallocs.AddressProxy.{
  ItemType, AddressProxy, addrproxy_item, slice, window, no_result, aborted, Subscript, SliceObject,
  no_room, no_base, both_there, Clip, addrproxy_subscript,
}
use pycallocs.AddressProxy.Items.{proxy, addrproxy_item-pos}

module _ {Obj : Type 0} (item : ItemType Obj) (clip : Clip) (p n : ℕ) (i j : ℤ) (m : Mem) where
  abbrev first : ℕ
  first = clip.start (pos n) i j

  abbrev count : ℕ
  count = clip.count (pos n) i j

  -- What a slice is to give.
  abbrev pub SliceCases : SliceObject → Subscript Obj → Type 0
  SliceCases no_room r = r ≡ no_result memory_error
  SliceCases no_base r = r ≡ aborted
  SliceCases both_there r =
      (w : AddressProxy) × (r ≡ window w)
      × (w.ap_length ≡ pos count)
      × ((k : ℕ)
          → k < count
          → (first + k < n)
            × (addrproxy_item item w (pos k) m
                ≡ addrproxy_item item (proxy p n) (pos (first + k)) m))

  -- A slice with step 1. If there is no room for the new proxy, it raises MemoryError; if there is
  -- and the registry has no base proxy for the sliced proxy's address, an assertion fails; else it
  -- makes a proxy of `count` items whose item k is item `first + k` of the array, and all of them
  -- are items of the array.
  pub addrproxy_subscript-slice :
      (found : SliceObject)
      → SliceCases found
          (addrproxy_subscript item clip (proxy p n) found (slice (ok (i, j, pos 1))) m)
  unfolding addrproxy_subscript
  addrproxy_subscript-slice no_room = refl
  addrproxy_subscript-slice no_base = refl
  addrproxy_subscript-slice both_there = (
    proxy (p + first * item.size) count,
    refl,
    refl,
    λ k lt.
        let inside : first + k < n = omega (arith, clip.in_range n i j) in
        let place : p + first * item.size + k * item.size ≡ p + (first + k) * item.size =
          omega arith in
        (
          inside,
          addrproxy_item-pos item (p + first * item.size) count m k lt
              ∙ ap (item.getfrom m) place
              ∙ sym (addrproxy_item-pos item p n m (first + k) inside),
        ),
  )
