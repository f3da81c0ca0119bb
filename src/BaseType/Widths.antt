-- ===== src/BaseType/Widths.antt =====
-- Powers of 256: the ranges of the C integers of `w` bytes.
use pycallocs.Prelude.{
  ℕ, zero, suc, ◌-◌, ◌*◌, ◌^◌, ◌≤◌, ◌<◌, ◌≡◌, arith, ℤ, pos, negsuc, ltb, Bool-cases, ◌⊎◌, inl, inr,
  ltb→lt, ltb→le,
}
use pycallocs.BaseType.{int_half, to_signed, of_signed}
use native.Mathlib.Nat.{pow-suc, one-le-pow, mod-eq_of_lt, mod-lt, pow-le-pow_right}

pub pow_range : (w : ℕ) → 1 ≤ w → w ≤ 8 → (256 ≤ 256 ^ w) × (256 ^ w ≤ 2 ^ 64)
pow_range w lo hi = (
  pow-le-pow_right {n = 256} (omega arith) {i = 1} lo,
  pow-le-pow_right {n = 256} (omega arith) {j = 8} hi,
)

-- The range splits into two halves.
pub pow_halves : (w : ℕ) → 1 ≤ w → 256 ^ w ≡ 2 * int_half w
pow_halves zero h = absurd (omega arith)
pow_halves (suc w) h = omega (arith, pow-suc 256 w)

pub of_signed-lt : (w : ℕ) (i : ℤ) → of_signed w i < 256 ^ w
unfolding of_signed
of_signed-lt w (pos n) = mod-lt n (one-le-pow w 256 (omega arith))
of_signed-lt w (negsuc n) = omega (arith, one-le-pow w 256)

-- The pattern of the value of a pattern is that pattern.
pub of_signed-to_signed : (w v : ℕ) → 1 ≤ w → v < 256 ^ w → of_signed w (to_signed w v) ≡ v
unfolding of_signed to_signed
of_signed-to_signed w v h lt =
    ground
      (arith, mod-eq_of_lt {n = v} {m = 256 ^ w}, mod-eq_of_lt {n = 256 ^ w - 1 - v} {m = 256 ^ w})

-- Is the integer one of the type of `w` bytes?
abbrev pub InRange : ℕ → ℤ → Type 0
InRange w (pos n) = n < int_half w
InRange w (negsuc n) = n < int_half w

abbrev pub OutOfRange : ℕ → ℤ → Type 0
OutOfRange w (pos n) = int_half w ≤ n
OutOfRange w (negsuc n) = int_half w ≤ n

pub InRange-cases : (w : ℕ) (i : ℤ) → InRange w i ⊎ OutOfRange w i
InRange-cases w (pos n) = omega arith
InRange-cases w (negsuc n) = omega arith

pub to_signed-of_signed : (w : ℕ) (i : ℤ) → 1 ≤ w → InRange w i → to_signed w (of_signed w i) ≡ i
unfolding of_signed to_signed
to_signed-of_signed w (pos n) h range =
    ground (arith, pow_halves w h, mod-eq_of_lt {n = n} {m = 256 ^ w})
to_signed-of_signed w (negsuc n) h range =
    ground (arith, pow_halves w h, mod-eq_of_lt {n = n} {m = 256 ^ w})

pub to_signed-InRange : (w v : ℕ) → 1 ≤ w → v < 256 ^ w → InRange w (to_signed w v)
unfolding to_signed
to_signed-InRange w v h lt = elim (Bool-cases (ltb v (int_half w))) [
  | inl small ↦ rw small (ltb→lt _ _ small)
  | inr large ↦ rw large (omega (arith, pow_halves w h, ltb→le _ _ large))
]
