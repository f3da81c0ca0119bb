-- ===== src/Memory/RoundTrip.antt =====
-- A load sees what a store of the same width wrote, modulo the width.
use pycallocs.Prelude.{ℕ, zero, suc, ◌+◌, ◌/◌, ◌%◌, ◌^◌, ◌≤◌, ◌<◌, ◌≡◌, refl, inl, arith}
use pycallocs.Memory.{Mem, write, load, store}
use pycallocs.Memory.Frame.{SameOutside-store}
use native.Mathlib.Nat.{pow-suc}

-- Every cell holds a byte.
abbrev pub IsBytes : Mem → Type 0
IsBytes m = (q : ℕ) → m q < 256

-- A load depends on its own cells only.
pub load_ext :
    (w : ℕ) (m m' : Mem) (a : ℕ)
    → ((q : ℕ) → a ≤ q → q < a + w → m q ≡ m' q)
    → load w m a ≡ load w m' a
unfolding load
load_ext zero m m' a same = refl
load_ext (suc w) m m' a same = omega (
  arith,
  same a (omega arith) (omega arith),
  load_ext w m m' (a + 1) (λ q lo hi. same q (omega arith) (omega arith)),
)

pub load-lt : (w : ℕ) (m : Mem) (a : ℕ) → IsBytes m → load w m a < 256 ^ w
unfolding load
load-lt zero m a bytes = omega arith
load-lt (suc w) m a bytes = omega (arith, bytes a, load-lt w m (a + 1) bytes, pow-suc 256 w)

pub load-store : (w : ℕ) (m : Mem) (a v : ℕ) → v < 256 ^ w → load w (store w m a v) a ≡ v
unfolding load store
load-store zero m a v h = omega arith
load-store (suc w) m a v h =
    let low : v / 256 < 256 ^ w = omega (arith, pow-suc 256 w) in
    ground (
      arith,
      SameOutside-store w (write m a (v % 256)) (a + 1) (v / 256) a (inl (omega arith)),
      load-store w (write m a (v % 256)) (a + 1) (v / 256) low,
    )

pub store-IsBytes : (w : ℕ) (m : Mem) (a v : ℕ) → IsBytes m → IsBytes (store w m a v)
unfolding store
store-IsBytes zero m a v bytes = bytes
store-IsBytes (suc w) m a v bytes =
    store-IsBytes w (write m a (v % 256)) (a + 1) (v / 256) (λ q. ground (arith, bytes q))
