-- ===== src/ArrayProxy/Blocks.antt =====
-- The block of a new array of address_proxy.c, and the terminator of a string in it.
use pycallocs.Prelude.{
  ℕ, ◌+◌, ◌*◌, ◌^◌, ◌≡◌, ◌≤◌, ◌<◌, refl, ◌⊎◌, inl, inr, arith, Bool, true, false, pos, ◌+ℤ◌, ◌∙◌,
  Bool-cases, ltb, ltb→lt, ltb→le,
}
use pycallocs.Memory.{Mem, zero_fill}
use pycallocs.Memory.Frame.{SameOutside, SameOutside-zero_fill, zero_fill-inside}
use pycallocs.AddressProxy.{ItemType, InitArgs, byte_count, item_address, addrproxy_init}
use pycallocs.AddressProxy.Items.{proxy}
use native.Mathlib.Nat.{mod-eq_of_lt}
use pycallocs.ArrayProxy.{made_array, block_bytes, create_array}

-- The bytes of an array of n items of a size, with a string's terminator.
abbrev pub array_bytes : Bool → ℕ → ℕ → ℕ
array_bytes true n size = (n + 1) * size
array_bytes false n size = n * size

-- The memory when the items are stored.
abbrev pub with_terminator : Bool → ℕ → ℕ → ℕ → Mem → Mem
with_terminator true p n size m = zero_fill size m (p + n * size)
with_terminator false p n size m = m

-- A string's terminator.
abbrev pub IsTerminated : Bool → ℕ → ℕ → ℕ → Mem → Type 0
IsTerminated false p n size m = Unit
IsTerminated true p n size m = (q : ℕ) → p + n * size ≤ q → q < p + (n + 1) * size → m q ≡ 0

pub one_more_item : (n size : ℕ) → (n + 1) * size ≡ n * size + size
one_more_item n size = grind arith

one_longer : (n : ℕ) → pos n +ℤ pos 1 ≡ pos (n + 1)
unfolding ◌+ℤ◌
one_longer n = ground arith

-- The length is not negative, and the bytes do not overflow.
block_bytes_lem :
    (is_char : Bool) (n size : ℕ)
    → (n + 1) * size < 2 ^ 64
    → block_bytes is_char (pos n) size ≡ array_bytes is_char n size
unfolding block_bytes byte_count
block_bytes_lem true n size small = rw (one_longer n) (mod-eq_of_lt small)
block_bytes_lem false n size small = let step = one_more_item n size in mod-eq_of_lt (omega arith)

-- Storing the items leaves the terminator and the rest of the memory alone.
pub items-SameOutside :
    (is_char : Bool) (p n size : ℕ) (m m' : Mem)
    → SameOutside p (n * size) (with_terminator is_char p n size m) m'
    → SameOutside p (array_bytes is_char n size) m m'
items-SameOutside true p n size m m' same q out =
    let step = one_more_item n size in
    same q (omega arith) ∙ SameOutside-zero_fill size m (p + n * size) q (omega arith)
items-SameOutside false p n size m m' same q out = same q out

pub items-IsTerminated :
    (is_char : Bool) (p n size : ℕ) (m m' : Mem)
    → SameOutside p (n * size) (with_terminator is_char p n size m) m'
    → IsTerminated is_char p n size m'
items-IsTerminated true p n size m m' same = λ q low high.
    let step = one_more_item n size in
    same q (omega arith) ∙ zero_fill-inside size m (p + n * size) q low (omega arith)
items-IsTerminated false p n size m m' same = tt

le_or_lt : (a b : ℕ) → (a ≤ b) ⊎ (b < a)
le_or_lt a b = elim (Bool-cases (ltb b a)) [
  | inl lt ↦ inr (ltb→lt b a lt)
  | inr le ↦ inl (ltb→le b a le)
]

-- Zero items and a terminator are a block of zeros.
pub all_zero :
    (is_char : Bool) (p n size : ℕ) (m : Mem)
    → ((q : ℕ) → p ≤ q → q < p + n * size → m q ≡ 0)
    → IsTerminated is_char p n size m
    → (q : ℕ) → p ≤ q
    → q < p + array_bytes is_char n size
    → m q ≡ 0
all_zero true p n size m items terminated q low high = elim (le_or_lt (p + n * size) q) [
  | inl behind ↦ terminated q behind high
  | inr inside ↦ items q low inside
]
all_zero false p n size m items terminated q low high = items q low high

pub create_array_lem :
    {Obj : Type 0} (item : ItemType Obj) (malloc : ℕ → ℕ) (is_char : Bool) (n : ℕ)
    (args : InitArgs Obj) (m : Mem)
    → (n + 1) * item.size < 2 ^ 64
    → let p = malloc (array_bytes is_char n item.size) in
      let s = addrproxy_init item (proxy p n) args (with_terminator is_char p n item.size m) in
      create_array item is_char malloc (pos n) args m ≡ made_array (proxy p n) s.mem s.status
unfolding create_array item_address
create_array_lem item malloc true n args m small = rw (block_bytes_lem true n item.size small) refl
create_array_lem item malloc false n args m small =
    rw (block_bytes_lem false n item.size small) refl
