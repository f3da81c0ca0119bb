-- ===== src/Memory/Frame.antt =====
-- What the writes of `Memory` leave alone.
use pycallocs.Prelude.{
  ℕ, zero, suc, ◌+◌, ◌/◌, ◌%◌, ◌≤◌, ◌<◌, ◌≡◌, refl, ◌⊎◌, inl, inr, arith, ◌-◌, ◌==◌, Bool-cases, ap,
  ◌∙◌,
}
use pycallocs.Memory.{Mem, write, store, zero_fill, copy_from, memcpy}

-- `q` is not one of the `n` addresses from `a` on
abbrev pub Outside : ℕ → ℕ → ℕ → Type 0
Outside a n q = (q < a) ⊎ (a + n ≤ q)

-- `m'` differs from `m` at most at the `n` addresses from `a` on
abbrev pub SameOutside : ℕ → ℕ → Mem → Mem → Type 0
SameOutside a n m m' = (q : ℕ) → Outside a n q → m' q ≡ m q

pub SameOutside-store : (w : ℕ) (m : Mem) (a v : ℕ) → SameOutside a w m (store w m a v)
unfolding store
SameOutside-store zero m a v q out = refl
SameOutside-store (suc w) m a v q out =
    ground (arith, SameOutside-store w (write m a (v % 256)) (a + 1) (v / 256) q)

pub SameOutside-zero_fill : (n : ℕ) (m : Mem) (a : ℕ) → SameOutside a n m (zero_fill n m a)
unfolding zero_fill
SameOutside-zero_fill zero m a q out = refl
SameOutside-zero_fill (suc n) m a q out =
    ground (arith, SameOutside-zero_fill n (write m a 0) (a + 1) q)

pub zero_fill-none : (m : Mem) (a : ℕ) → zero_fill 0 m a ≡ m
unfolding zero_fill
zero_fill-none m a = refl

pub zero_fill-inside : (n : ℕ) (m : Mem) (a q : ℕ) → a ≤ q → q < a + n → zero_fill n m a q ≡ 0
unfolding zero_fill
zero_fill-inside zero m a q lo hi = absurd (omega arith)
zero_fill-inside (suc n) m a q lo hi = ground (
  arith,
  zero_fill-inside n (write m a 0) (a + 1) q,
  SameOutside-zero_fill n (write m a 0) (a + 1) q,
)

SameOutside-copy_from :
    (n : ℕ) (from m : Mem) (dest src : ℕ) → SameOutside dest n m (copy_from n from m dest src)
unfolding copy_from
SameOutside-copy_from zero from m dest src q out = refl
SameOutside-copy_from (suc n) from m dest src q out =
    ground (arith, SameOutside-copy_from n from (write m dest (from src)) (dest + 1) (src + 1) q)

copy_from-inside :
    (n : ℕ) (from m : Mem) (dest src q : ℕ)
    → dest ≤ q
    → q < dest + n
    → copy_from n from m dest src q ≡ from (src + (q - dest))
unfolding copy_from
copy_from-inside zero from m dest src q lo hi = absurd (omega arith)
copy_from-inside (suc n) from m dest src q lo hi = elim (Bool-cases (dest == q)) [
  | inl here ↦
      let at : src ≡ src + (q - dest) = ground arith in
      ground (
        arith,
        ap from at,
        SameOutside-copy_from n from (write m dest (from src)) (dest + 1) (src + 1) q,
      )
  | inr there ↦
      let at : src + 1 + (q - (dest + 1)) ≡ src + (q - dest) = ground arith in
      copy_from-inside n from (write m dest (from src)) (dest + 1) (src + 1) q (ground arith)
        (omega arith)
      ∙ ap from at
]

pub SameOutside-memcpy :
    (n : ℕ) (m : Mem) (dest src : ℕ) → SameOutside dest n m (memcpy n m dest src)
unfolding memcpy
SameOutside-memcpy n m dest src = SameOutside-copy_from n m m dest src

pub memcpy-inside :
    (n : ℕ) (m : Mem) (dest src q : ℕ)
    → dest ≤ q
    → q < dest + n
    → memcpy n m dest src q ≡ m (src + (q - dest))
unfolding memcpy
memcpy-inside n m dest src q lo hi = copy_from-inside n m m dest src q lo hi
