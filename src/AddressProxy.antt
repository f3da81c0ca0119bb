-- ===== src/AddressProxy.antt =====
-- address_proxy.c: indexing, slicing and initialising the array that an address proxy points to.
-- What the proxied type does is an `ItemType`: its `ft_getfrom`, its `ft_storeinto`, and its size,
-- the proxy type's `tp_itemsize`. Addresses are 64-bit words.
pub mod Items
pub mod Slices
pub mod Fill
pub mod Length
pub mod InBounds
pub mod Pointers
use pycallocs.Prelude.{
  ℕ, zero, suc, ◌+◌, ◌-◌, ◌*◌, ◌/◌, ◌%◌, ◌^◌, ◌≤◌, not, Bool, true, false, ◌||◌, Option, none, some,
  List, [], ◌∷◌, ℤ, pos, negsuc, ltb_ℤ, ◌+ℤ◌, Error, index_error, type_error, value_error,
  overflow_error, memory_error, Result, ok, err, ◌==◌, ltb, if◌then◌else◌, length,
}
use pycallocs.Memory.{Mem, zero_fill}
use pycallocs.Memory.Frame.{SameOutside}
use pycallocs.Python.{Stored, stored, refused}

pub record ItemType (Obj : Type 0) : Type 0 where
  pub size : ℕ
  pub getfrom : Mem → ℕ → Result Obj
  pub storeinto : Obj → ℕ → Mem → Stored
  -- A store writes the bytes of one item only.
  pub contained :
      (obj : Obj) (dest : ℕ) (m : Mem) → SameOutside dest size m (storeinto obj dest m).mem

-- `ap_length` is a Py_ssize_t.
pub record AddressProxy : Type 0 where
  pub p_ptr : ℕ
  pub ap_length : ℤ

-- `p + index * itemsize`; below `p` on 64-bit addresses.
unfoldable pub item_address : ℕ → ℤ → ℕ → ℕ
item_address p (pos i) size = p + i * size
item_address p (negsuc i) size = (p + 2 ^ 64 - suc i * size % 2 ^ 64) % 2 ^ 64

-- -n
abbrev pub neg : ℕ → ℤ
neg zero = pos 0
neg (suc n) = negsuc n

module _ {Obj : Type 0} (item : ItemType Obj) where
  -- addrproxy_item
  unfoldable pub addrproxy_item : AddressProxy → ℤ → Mem → Result Obj
  addrproxy_item self index m =
      if ltb_ℤ index (pos 0) || not (ltb_ℤ index self.ap_length)
      then err index_error
      else item.getfrom m (item_address self.p_ptr index item.size)

  -- addrproxy_ass_item
  unfoldable pub addrproxy_ass_item : AddressProxy → ℤ → Obj → Mem → Stored
  addrproxy_ass_item self index value m =
      if not (ltb_ℤ index self.ap_length)
      then refused m index_error
      else item.storeinto value (item_address self.p_ptr index item.size) m

-- What `addrproxy_subscript` learns of an index. A `PyLong` goes through `PyLong_AsSsize_t`: its
-- value, or -1 with an exception set, which is not looked at. A slice goes through
-- `PySlice_Unpack`, an exception or start, stop and step.
pub data Index : Type 0 where
  integer : ℤ → Index
  too_large : Index
  slice : Result (ℤ × ℤ × ℤ) → Index
  other_index : Index

-- What a subscript gives: an item with the exception that is still set, a new proxy, NULL, or the
-- end of the program by a failed assertion.
pub data Subscript (Obj : Type 0) : Type 0 where
  item_result : Result Obj → Option Error → Subscript Obj
  window : AddressProxy → Subscript Obj
  no_result : Error → Subscript Obj
  aborted : Subscript Obj

-- An item that was found while an exception was set; another exception replaces it.
unfoldable pub with_pending : {Obj : Type 0} → Error → Result Obj → Subscript Obj
with_pending e (ok v) = item_result (ok v) (some e)
with_pending e (err e') = item_result (err e') none

-- What a slice finds in Python's memory and the registry: no room for the new proxy, no base proxy of
-- the sliced proxy's address, or both, and then it takes its reference on the base.
pub data SliceObject : Type 0 where
  no_room : SliceObject
  no_base : SliceObject
  both_there : SliceObject

-- `PySlice_AdjustIndices` for the step 1: the clipped start and the number of items, which lie
-- inside the sequence.
pub record Clip : Type 0 where
  pub start : ℤ → ℤ → ℤ → ℕ
  pub count : ℤ → ℤ → ℤ → ℕ
  pub in_range : (n : ℕ) (i j : ℤ) → start (pos n) i j + count (pos n) i j ≤ n

module _ {Obj : Type 0} (item : ItemType Obj) (clip : Clip) where
  unfoldable pub window_of : AddressProxy → ℤ → ℤ → SliceObject → Subscript Obj
  window_of self start stop no_room = no_result memory_error
  window_of self start stop no_base = aborted
  window_of self start stop both_there = window (record {
    p_ptr = self.p_ptr + clip.start self.ap_length start stop * item.size;
    ap_length = pos (clip.count self.ap_length start stop);
  })

  -- The slice's window; the reference that it takes on the base proxy is the registry's.
  unfoldable pub slice_window : AddressProxy → SliceObject → ℤ × ℤ × ℤ → Subscript Obj
  unfolding window_of
  slice_window self found (start, stop, pos (suc zero)) = window_of self start stop found
  slice_window self found (start, stop, pos zero) = no_result index_error
  slice_window self found (start, stop, pos (suc (suc n))) = no_result index_error
  slice_window self found (start, stop, negsuc n) = no_result index_error

  -- addrproxy_subscript, with what a slice finds
  unfoldable pub addrproxy_subscript : AddressProxy → SliceObject → Index → Mem → Subscript Obj
  unfolding slice_window with_pending
  addrproxy_subscript self found (integer i) m =
      let j = if ltb_ℤ i (pos 0) then i +ℤ self.ap_length else i in
      item_result (addrproxy_item item self j m) none
  addrproxy_subscript self found too_large m =
      with_pending overflow_error (addrproxy_item item self (negsuc 0 +ℤ self.ap_length) m)
  addrproxy_subscript self found (slice (err e)) m = no_result e
  addrproxy_subscript self found (slice (ok s)) m = slice_window self found s
  addrproxy_subscript self found other_index m = no_result type_error

-- The arguments of a constructor call: how many are positional, how many named, and what
-- `PySequence_Fast` makes of the first.
pub record InitArgs (Obj : Type 0) : Type 0 where
  pub nargs : ℕ
  pub nkwargs : ℕ
  pub sequence : Result (List Obj)

-- A failed step is the last one.
unfoldable pub on_success : Option Error → Stored → Stored → Stored
on_success none s next = next
on_success (some e) s next = s

-- A byte count, as the `size_t` that `memset` and `malloc` take.
unfoldable pub byte_count : ℤ → ℕ → ℕ
byte_count (pos n) size = n * size
byte_count (negsuc n) size = (2 ^ 64 - suc n * size % 2 ^ 64) % 2 ^ 64

module _ {Obj : Type 0} (item : ItemType Obj) where
  -- The loop that stores the given items; `unsigned i`, and `i * itemsize` is cut to 32 bits.
  unfoldable pub init_loop : List Obj → ℕ → ℕ → Mem → Stored
  unfolding on_success
  init_loop [] i p m = stored m
  init_loop (value ∷ values) i p m =
      let s = item.storeinto value (p + i * item.size % 2 ^ 32) m in
      on_success s.status s (init_loop values (i + 1) p s.mem)

  unfoldable pub zero_rest : AddressProxy → ℕ → Mem → Stored
  zero_rest self arglen m =
      let first = self.p_ptr + arglen * item.size % 2 ^ 32 in
      if ltb_ℤ (pos arglen) self.ap_length
      then stored (zero_fill (byte_count (self.ap_length +ℤ neg arglen) item.size) m first)
      else stored m

  unfoldable pub init_values : AddressProxy → List Obj → Mem → Stored
  unfolding init_loop zero_rest
  init_values self values m =
      let arglen = length values % 2 ^ 32 in
      if ltb_ℤ self.ap_length (pos arglen)
      then refused m value_error
      else (let s = init_loop values 0 self.p_ptr m in
          on_success s.status s (zero_rest self arglen s.mem))

  unfoldable pub init_sequence : AddressProxy → Result (List Obj) → Mem → Stored
  unfolding init_values
  init_sequence self (err e) m = refused m e
  init_sequence self (ok values) m = init_values self values m

  -- addrproxy_init
  unfoldable pub addrproxy_init : AddressProxy → InitArgs Obj → Mem → Stored
  unfolding init_sequence
  addrproxy_init self args m =
      if ltb 1 args.nargs || ltb 0 args.nkwargs
      then refused m type_error
      else if args.nargs == 0
      then stored (zero_fill (byte_count self.ap_length item.size) m self.p_ptr)
      else init_sequence self args.sequence m
