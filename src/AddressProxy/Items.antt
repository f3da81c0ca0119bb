-- ===== src/AddressProxy/Items.antt =====
-- Single items of an address proxy (address_proxy.c).
use pycallocs.Prelude.{
  ℕ, suc, ◌+◌, ◌-◌, ◌*◌, ◌^◌, ◌≡◌, ◌≢◌, ◌≤◌, ◌<◌, ◌⊎◌, inl, inr, arith, Option, none, some, ℤ, pos,
  negsuc, ◌+ℤ◌, sub_ℕ, index_error, overflow_error, err, Bool-cases, ltb, ltb→lt, ltb→le, ◌∙◌, ap,
}
use pycallocs.Memory.{Mem}
use pycallocs.Memory.Frame.{Outside}
use pycallocs.Python.{refused}
use pycallocs.AddressProxy.{
  ItemType, AddressProxy, item_address, addrproxy_item, addrproxy_ass_item, integer, too_large,
  item_result, Index, Subscript, with_pending, SliceObject, Clip, addrproxy_subscript,
}

abbrev pub proxy : ℕ → ℕ → AddressProxy
proxy p n = record { p_ptr = p; ap_length = pos n }

-- The index as Python reads it on `n` items: from the end where it is negative.
pub data Reads (n : ℕ) : ℤ → ℕ → Type 0 where
  from_start : {j : ℕ} → j < n → Reads n (pos j) j
  from_end : {k j : ℕ} → j + suc k ≡ n → Reads n (negsuc k) j

abbrev pub index_of : Option ℤ → Index
index_of (some i) = integer i
index_of none = too_large

-- Neither way of counting gives an item.
abbrev pub Beyond : ℕ → ℤ → Type 0
Beyond n (pos i) = n ≤ i
Beyond n (negsuc k) = n ≤ k

module _ {Obj : Type 0} (item : ItemType Obj) (p n : ℕ) (m : Mem) where
  pub addrproxy_item-pos :
      (i : ℕ)
      → i < n
      → addrproxy_item item (proxy p n) (pos i) m ≡ item.getfrom m (p + i * item.size)
  unfolding addrproxy_item item_address
  addrproxy_item-pos i lt = ground arith

  addrproxy_item-past :
      (i : ℕ) → n ≤ i → addrproxy_item item (proxy p n) (pos i) m ≡ err index_error
  unfolding addrproxy_item
  addrproxy_item-past i le = ground arith

  addrproxy_item-negsuc : (k : ℕ) → addrproxy_item item (proxy p n) (negsuc k) m ≡ err index_error
  unfolding addrproxy_item
  addrproxy_item-negsuc k = ground arith

  subscript-pos :
      (clip : Clip) (found : SliceObject) (i : ℕ)
      → addrproxy_subscript item clip (proxy p n) found (integer (pos i)) m
        ≡ item_result (addrproxy_item item (proxy p n) (pos i) m) none
  unfolding addrproxy_subscript
  subscript-pos clip found i = ground arith

  subscript-negsuc :
      (clip : Clip) (found : SliceObject) (k : ℕ)
      → addrproxy_subscript item clip (proxy p n) found (integer (negsuc k)) m
        ≡ item_result (addrproxy_item item (proxy p n) (sub_ℕ n (suc k)) m) none
  unfolding addrproxy_subscript ◌+ℤ◌
  subscript-negsuc clip found k = ground arith

  from_end_index : (k : ℕ) → k < n → sub_ℕ n (suc k) ≡ pos (n - suc k)
  from_end_index k lt = ground arith

  before_start_index : (k : ℕ) → n ≤ k → sub_ℕ n (suc k) ≡ negsuc (k - n)
  before_start_index k le = ground arith

  -- What an integer index is to give; `none` is an integer too large for a Py_ssize_t.
  abbrev pub IntegerCases : Option ℤ → Subscript Obj → Type 0
  IntegerCases (some i) r =
      ((j : ℕ) × Reads n i j × (r ≡ item_result (item.getfrom m (p + j * item.size)) none))
      ⊎ (Beyond n i × (r ≡ item_result (err index_error) none))
  IntegerCases none r =
      ((0 < n) × (r ≡ with_pending overflow_error (item.getfrom m (p + (n - 1) * item.size))))
      ⊎ ((n ≡ 0) × (r ≡ item_result (err index_error) none))

  subscript_cases :
      (clip : Clip) (found : SliceObject) (i : ℤ)
      → IntegerCases (some i) (addrproxy_subscript item clip (proxy p n) found (integer i) m)
  subscript_cases clip found (pos i) = elim (Bool-cases (ltb i n)) [
    | inl inside ↦
        let lt = ltb→lt i n inside in
        let read = ap (λ r. item_result r none) (addrproxy_item-pos i lt) in
        inl (i, from_start lt, subscript-pos clip found i ∙ read)
    | inr outside ↦
        let le = ltb→le i n outside in
        inr
          (le, subscript-pos clip found i ∙ ap (λ r. item_result r none) (addrproxy_item-past i le))
  ]
  subscript_cases clip found (negsuc k) = elim (Bool-cases (ltb k n)) [
    | inl inside ↦
        let lt = ltb→lt k n inside in
        let read =
          ap (λ j. addrproxy_item item (proxy p n) j m) (from_end_index k lt)
          ∙ addrproxy_item-pos (n - suc k) (omega arith) in
        inl (
          n - suc k,
          from_end (omega arith),
          subscript-negsuc clip found k ∙ ap (λ r. item_result r none) read,
        )
    | inr outside ↦
        let le = ltb→le k n outside in
        let refuse =
          ap (λ j. addrproxy_item item (proxy p n) j m) (before_start_index k le)
          ∙ addrproxy_item-negsuc (k - n) in
        inr (le, subscript-negsuc clip found k ∙ ap (λ r. item_result r none) refuse)
  ]

  last_index : 0 < n → negsuc 0 +ℤ pos n ≡ pos (n - 1)
  unfolding ◌+ℤ◌
  last_index h = ground arith

  no_index : n ≡ 0 → negsuc 0 +ℤ pos n ≡ negsuc 0
  unfolding ◌+ℤ◌
  no_index h = ground arith

  subscript-too_large :
      (clip : Clip) (found : SliceObject)
      → 0 < n
      → addrproxy_subscript item clip (proxy p n) found too_large m
        ≡ with_pending overflow_error (item.getfrom m (p + (n - 1) * item.size))
  unfolding addrproxy_subscript
  subscript-too_large clip found h =
      let read = ap (λ j. addrproxy_item item (proxy p n) j m) (last_index h) in
      ap (with_pending overflow_error) (read ∙ addrproxy_item-pos (n - 1) (omega arith))

  subscript-nothing :
      (clip : Clip) (found : SliceObject)
      → n ≡ 0
      → addrproxy_subscript item clip (proxy p n) found too_large m
        ≡ item_result (err index_error) none
  unfolding addrproxy_subscript with_pending
  subscript-nothing clip found eq =
      let refuse =
        ap (λ j. addrproxy_item item (proxy p n) j m) (no_index eq) ∙ addrproxy_item-negsuc 0 in
      ap (with_pending overflow_error) refuse

  -- Subscripting by an integer. An index from -n to n - 1 gives the item at its place, counted from
  -- the end if it is negative, as Python does on a sequence, and any other that fits a Py_ssize_t
  -- IndexError. An integer too large for that gives IndexError on an empty array and else the last
  -- item, while OverflowError is still set.
  pub addrproxy_subscript_cases :
      (clip : Clip) (found : SliceObject) (i : Option ℤ)
      → IntegerCases i (addrproxy_subscript item clip (proxy p n) found (index_of i) m)
  addrproxy_subscript_cases clip found (some i) = subscript_cases clip found i
  addrproxy_subscript_cases clip found none = elim (Bool-cases (ltb 0 n)) [
    | inl some_items ↦ let h = ltb→lt 0 n some_items in inl (h, subscript-too_large clip found h)
    | inr empty ↦
        let h : n ≡ 0 = omega (arith, ltb→le 0 n empty) in inr (h, subscript-nothing clip found h)
  ]

  addrproxy_ass_item-inside :
      (i : ℕ) (value : Obj)
      → i < n
      → addrproxy_ass_item item (proxy p n) (pos i) value m
        ≡ item.storeinto value (p + i * item.size) m
  unfolding addrproxy_ass_item item_address
  addrproxy_ass_item-inside i value lt = ground arith

  addrproxy_ass_item-past :
      (i : ℕ) (value : Obj)
      → n ≤ i
      → addrproxy_ass_item item (proxy p n) (pos i) value m ≡ refused m index_error
  unfolding addrproxy_ass_item
  addrproxy_ass_item-past i value le = ground arith

  -- A byte of item `j` is no byte of item `i`.
  other_item : (i j b size : ℕ) → j ≢ i → b < size → Outside (p + i * size) size (p + j * size + b)
  other_item i j b size ne lt = elim (Bool-cases (ltb i j)) [
    | inl above ↦
        let below : i * size + size ≤ j * size = grind (arith, ltb→lt i j above) in
        inr (omega arith)
    | inr not_above ↦
        let less : j < i = omega (arith, ltb→le i j not_above) in
        let below : j * size + size ≤ i * size = grind arith in inl (omega arith)
  ]

  -- Assigning to an item within the length stores at its place, and no byte of another item changes;
  -- past the length IndexError is raised and nothing is written.
  pub addrproxy_ass_item_cases :
      (i : ℕ) (value : Obj)
      → let s = addrproxy_ass_item item (proxy p n) (pos i) value m in
        ((i < n)
          × (s ≡ item.storeinto value (p + i * item.size) m)
          × ((j b : ℕ)
              → j ≢ i
              → b < item.size
              → s.mem (p + j * item.size + b) ≡ m (p + j * item.size + b)))
        ⊎ ((n ≤ i) × (s ≡ refused m index_error))
  addrproxy_ass_item_cases i value = elim (Bool-cases (ltb i n)) [
    | inl inside ↦
        let lt = ltb→lt i n inside in
        let same = addrproxy_ass_item-inside i value lt in
        inl (
          lt,
          same,
          λ j b ne small.
              ap (λ s. s.mem (p + j * item.size + b)) same
              ∙ item.contained value (p + i * item.size) m _ (other_item i j b item.size ne small),
        )
    | inr outside ↦ let le = ltb→le i n outside in inr (le, addrproxy_ass_item-past i value le)
  ]

  -- A negative index is not refused: the value is stored that many items before the array, at an
  -- address below it.
  pub addrproxy_ass_item-negsuc :
      (k : ℕ) (value : Obj)
      → 0 < item.size
      → suc k * item.size ≤ p
      → p < 2 ^ 64
      → let a = item_address p (negsuc k) item.size in
        (addrproxy_ass_item item (proxy p n) (negsuc k) value m ≡ item.storeinto value a m)
        × (a + suc k * item.size ≡ p)
  unfolding addrproxy_ass_item item_address
  addrproxy_ass_item-negsuc k value size below lt = (ground arith, omega arith)
