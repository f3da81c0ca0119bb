-- ===== src/BaseType/Integers.antt =====
-- The integer conversions of foreign_basetype.c (`uintN_*`, `intN_*`) for every width up to eight
-- bytes.
use pycallocs.Prelude.{
  ℕ, ◌-◌, ◌^◌, ◌≤◌, ◌<◌, ◌≡◌, refl, ◌⊎◌, inl, inr, arith, true, false, ◌||◌, ℤ, pos, negsuc, ltb,
  ltb_ℤ, ltb→lt, ltb→le, Bool-cases, none, ok, overflow_error,
}
use pycallocs.Memory.{Mem, load, store}
use pycallocs.Memory.Frame.{SameOutside, SameOutside-store}
use pycallocs.Memory.RoundTrip.{IsBytes, load-lt, load-store}
use pycallocs.Python.{Python, Stored, stored, refused}
use pycallocs.BaseType.{
  uint_max, int_half, to_signed, of_signed, uint_getfrom, uint_storeinto, int_getfrom,
  int_storeinto,
}
use pycallocs.BaseType.Widths.{
  pow_range, pow_halves, of_signed-lt, of_signed-to_signed, InRange, OutOfRange, InRange-cases,
  to_signed-of_signed, to_signed-InRange,
}
use mathlib.Core.Path.{subst}
use native.Mathlib.Nat.{mod-eq_of_lt, one-le-pow}

-- A store succeeded, the `w` bytes at `dest` now hold `v`, and no other byte changed.
pub record Holds (w dest v : ℕ) (m : Mem) (s : Stored) : Type 0 where
  pub succeeded : s.status ≡ none
  pub holds : load w s.mem dest ≡ v
  pub same : SameOutside dest w m s.mem

Holds-store : (w dest v : ℕ) (m : Mem) → v < 256 ^ w → Holds w dest v m (stored (store w m dest v))
Holds-store w dest v m lt = record {
  succeeded = refl;
  holds = load-store w m dest v lt;
  same = SameOutside-store w m dest v;
}

module _ (py : Python) (w : ℕ) (obj : py.Obj) (dest : ℕ) (m : Mem) where
  pub uint_storeinto-fits :
      (u : ℕ)
      → py.as_ulonglong obj ≡ ok u
      → u < 256 ^ w
      → Holds w dest u m (uint_storeinto py w obj dest m)
  unfolding uint_storeinto
  uint_storeinto-fits u got fits =
      let test : ltb (uint_max w) u ≡ false = ground arith in
      rw (got, test, mod-eq_of_lt fits) (Holds-store w dest u m fits)

  pub uint_storeinto-overflow :
      (u : ℕ)
      → py.as_ulonglong obj ≡ ok u
      → 256 ^ w ≤ u
      → uint_storeinto py w obj dest m ≡ refused m overflow_error
  unfolding uint_storeinto
  uint_storeinto-overflow u got large =
      let test : ltb (uint_max w) u ≡ true = ground (arith, one-le-pow w 256) in rw (got, test)

  pub int_storeinto-fits :
      (i : ℤ)
      → py.as_longlong obj ≡ ok i
      → 1 ≤ w
      → InRange w i
      → Holds w dest (of_signed w i) m (int_storeinto py w obj dest m)
  unfolding int_storeinto
  int_storeinto-fits i got pos_w fits =
      rw (got, in_range i fits) (Holds-store w dest (of_signed w i) m (of_signed-lt w i))
    where
      in_range :
          (i : ℤ)
          → InRange w i
          → (ltb_ℤ i (negsuc (int_half w - 1)) || ltb_ℤ (pos (int_half w - 1)) i) ≡ false
      in_range (pos n) h = ground arith
      in_range (negsuc n) h = ground arith

  pub int_storeinto-overflow :
      (i : ℤ)
      → py.as_longlong obj ≡ ok i
      → 1 ≤ w
      → OutOfRange w i
      → int_storeinto py w obj dest m ≡ refused m overflow_error
  unfolding int_storeinto
  int_storeinto-overflow i got pos_w large = rw (got, out_of_range i large) refl
    where
      out_of_range :
          (i : ℤ)
          → OutOfRange w i
          → (ltb_ℤ i (negsuc (int_half w - 1)) || ltb_ℤ (pos (int_half w - 1)) i) ≡ true
      out_of_range (pos n) h = ground (arith, one-le-pow w 256, pow_halves w pos_w)
      out_of_range (negsuc n) h = ground (arith, one-le-pow w 256, pow_halves w pos_w)

-- Storing an unsigned integer of `w` bytes: a value below 256 ^ w is written whole, little end
-- first, and nothing else changes; a larger one raises OverflowError and writes nothing.
pub uint_storeinto_cases :
    (py : Python) (w : ℕ) (obj : py.Obj) (dest : ℕ) (m : Mem) (u : ℕ)
    → py.as_ulonglong obj ≡ ok u
    → ((u < 256 ^ w) × Holds w dest u m (uint_storeinto py w obj dest m))
      ⊎ ((256 ^ w ≤ u) × (uint_storeinto py w obj dest m ≡ refused m overflow_error))
uint_storeinto_cases py w obj dest m u got = elim (Bool-cases (ltb u (256 ^ w))) [
  | inl small ↦ inl (ltb→lt _ _ small, uint_storeinto-fits py w obj dest m u got (ltb→lt _ _ small))
  | inr large ↦
      inr (ltb→le _ _ large, uint_storeinto-overflow py w obj dest m u got (ltb→le _ _ large))
]

-- What is read back after a store of a signed integer of `w` bytes is that integer.
pub record HoldsSigned (w dest : ℕ) (i : ℤ) (m : Mem) (s : Stored) : Type 0 where
  pub succeeded : s.status ≡ none
  pub value : to_signed w (load w s.mem dest) ≡ i
  pub same : SameOutside dest w m s.mem

-- Storing a signed integer of `w` bytes: a value from -256 ^ w / 2 up to 256 ^ w / 2 - 1 is written
-- in two's complement, so that it is what the cell then stands for, and nothing else changes; any
-- other value raises OverflowError and writes nothing.
pub int_storeinto_cases :
    (py : Python) (w : ℕ) (obj : py.Obj) (dest : ℕ) (m : Mem) (i : ℤ)
    → 1 ≤ w
    → py.as_longlong obj ≡ ok i
    → (InRange w i × HoldsSigned w dest i m (int_storeinto py w obj dest m))
      ⊎ (OutOfRange w i × (int_storeinto py w obj dest m ≡ refused m overflow_error))
int_storeinto_cases py w obj dest m i pos_w got = elim (InRange-cases w i) [
  | inl fits ↦
      let h = int_storeinto-fits py w obj dest m i got pos_w fits in
      inl (
        fits,
        record {
          succeeded = h.succeeded;
          value = rw h.holds (to_signed-of_signed w i pos_w fits);
          same = h.same;
        },
      )
  | inr large ↦ inr (large, int_storeinto-overflow py w obj dest m i got pos_w large)
]

module _ (py : Python) (w a dest : ℕ) (m : Mem) (lo : 1 ≤ w) (hi : w ≤ 8) (bytes : IsBytes m) where
  pub uint_round_trip :
      Holds w dest (load w m a) m (uint_storeinto py w (uint_getfrom py w m a) dest m)
  unfolding uint_getfrom
  uint_round_trip =
      let lt = load-lt w m a bytes in
      uint_storeinto-fits py w _ dest m (load w m a)
        (py.as_ulonglong-from_int (load w m a) (omega (arith, pow_range w lo hi))) lt

  as_longlong-InRange : (i : ℤ) → InRange w i → py.as_longlong (py.from_int i) ≡ ok i
  as_longlong-InRange (pos n) h =
      py.as_longlong-from_pos n (omega (arith, pow_range w lo hi, pow_halves w lo))
  as_longlong-InRange (negsuc n) h =
      py.as_longlong-from_negsuc n (omega (arith, pow_range w lo hi, pow_halves w lo))

  pub int_round_trip :
      Holds w dest (load w m a) m (int_storeinto py w (int_getfrom py w m a) dest m)
  unfolding int_getfrom
  int_round_trip =
      let lt = load-lt w m a bytes in
      let fits = to_signed-InRange w (load w m a) lo lt in
      subst (λ v. Holds w dest v m (int_storeinto py w (int_getfrom py w m a) dest m))
        (of_signed-to_signed w (load w m a) lo lt)
        (int_storeinto-fits py w _ dest m (to_signed w (load w m a)) (as_longlong-InRange _ fits) lo
          fits)
