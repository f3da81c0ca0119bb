-- ===== src/Memory.antt =====
-- The bytes that C code reads and writes: memory as a function from addresses to bytes, the
-- little-endian loads and stores of an integer of `w` bytes, `memcpy` and `memset`.
pub mod Frame
pub mod RoundTrip
use pycallocs.Prelude.{ℕ, zero, suc, ◌+◌, ◌*◌, ◌/◌, ◌%◌, ◌==◌, if◌then◌else◌}

abbrev pub Mem : Type 0
Mem = ℕ → ℕ

abbrev pub write : Mem → ℕ → ℕ → Mem
write m a b q = if a == q then b else m q

-- `*(uintN_t *) a`, with N = 8 * w
pub load : ℕ → Mem → ℕ → ℕ
load zero m a = 0
load (suc w) m a = m a + 256 * load w m (a + 1)

-- `*(uintN_t *) a = v`
pub store : ℕ → Mem → ℕ → ℕ → Mem
store zero m a v = m
store (suc w) m a v = store w (write m a (v % 256)) (a + 1) (v / 256)

-- `memset(a, 0, n)`
pub zero_fill : ℕ → Mem → ℕ → Mem
zero_fill zero m a = m
zero_fill (suc n) m a = zero_fill n (write m a 0) (a + 1)

-- `memcpy(dest, src, n)`; the bytes are read from `from`, the memory before the copy
pub copy_from : ℕ → Mem → Mem → ℕ → ℕ → Mem
copy_from zero from m dest src = m
copy_from (suc n) from m dest src = copy_from n from (write m dest (from src)) (dest + 1) (src + 1)

pub memcpy : ℕ → Mem → ℕ → ℕ → Mem
unfolding copy_from
memcpy n m dest src = copy_from n m m dest src
