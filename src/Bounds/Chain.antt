-- ===== src/Bounds/Chain.antt =====
-- Arrays of arrays: what the callback of minicrunch.c accumulates while it descends through array
-- types that nest directly.
use pycallocs.Prelude.{
  ℕ, ◌+◌, ◌/◌, ◌*◌, ◌<◌, ◌%◌, ◌^◌, ◌≡◌, refl, arith, none, some, List, [], ◌∷◌, ◌∙◌, ap,
}
use native.Mathlib.Nat.{mul_assoc}
use pycallocs.Bounds.{ArrayType, Visit, BoundsCbArg, note_container, note_outermost, sub32}

-- The visits below an object, each with the array type that contains it directly.
pub descend : List (Visit × ArrayType) → BoundsCbArg → BoundsCbArg
descend [] arg = arg
descend ((v, a) ∷ rest) arg = descend rest (note_container (some a) v arg)

-- The number of innermost elements that the nested arrays hold together.
pub elements : List (Visit × ArrayType) → ℕ
elements [] = 1
elements ((v, a) ∷ rest) = a.length * elements rest

note_inside :
    (v : Visit) (a outer : ArrayType) (arg : BoundsCbArg)
    → arg.outermost ≡ some outer
    → let r = note_container (some a) v arg in
      (r.outermost ≡ some outer)
      × (r.outermost_start ≡ arg.outermost_start)
      × (r.accum_array_bounds ≡ arg.accum_array_bounds * a.length % 2 ^ 64)
unfolding note_container note_outermost
note_inside v a outer arg e = simp e (refl, refl, refl)

note_first :
    (v : Visit) (a : ArrayType) (arg : BoundsCbArg)
    → arg.outermost ≡ none
    → let r = note_container (some a) v arg in
      (r.outermost ≡ some a)
      × (r.outermost_start ≡ sub32 v.offset v.offset_within)
      × (r.accum_array_bounds ≡ a.length)
unfolding note_container note_outermost
note_first v a arg e = simp e (refl, refl, refl)

mul_mod : (x y : ℕ) → x % 2 ^ 64 * y % 2 ^ 64 ≡ x * y % 2 ^ 64
mul_mod x y =
    let split : x ≡ 2 ^ 64 * (x / 2 ^ 64) + x % 2 ^ 64 = omega arith in
    omega (arith, ap (λ (n : ℕ). n * y) split)

-- Once an array is remembered, descending further multiplies the lengths, modulo the word.
descend_inside :
    (chain : List (Visit × ArrayType)) (outer : ArrayType) (arg : BoundsCbArg)
    → arg.outermost ≡ some outer
    → arg.accum_array_bounds < 2 ^ 64
    → let r = descend chain arg in
      (r.outermost ≡ some outer)
      × (r.outermost_start ≡ arg.outermost_start)
      × (r.accum_array_bounds ≡ arg.accum_array_bounds * elements chain % 2 ^ 64)
unfolding descend elements
descend_inside [] outer arg e lt = (e, refl, omega arith)
descend_inside ((v, a) ∷ rest) outer arg e lt =
    let (q, s, n) = note_inside v a outer arg e in
    let (q', s', n') =
      descend_inside rest outer (note_container (some a) v arg) q (omega (arith, n)) in
    (
      q',
      s' ∙ s,
      n'
          ∙ ap (λ k. k * elements rest % 2 ^ 64) n
          ∙ mul_mod _ _
          ∙ ap (λ k. k % 2 ^ 64) (mul_assoc arg.accum_array_bounds a.length (elements rest)),
    )

-- Descending through arrays that nest directly, from an object that is no array element: the
-- outermost array stays remembered with its start, and `accum_array_bounds` is the number of
-- innermost elements of the whole nest, modulo 2 ^ 64.
pub descend_nested :
    (v : Visit) (a : ArrayType) (chain : List (Visit × ArrayType)) (arg : BoundsCbArg)
    → arg.outermost ≡ none
    → a.length < 2 ^ 64
    → let r = descend ((v, a) ∷ chain) arg in
      (r.outermost ≡ some a)
      × (r.outermost_start ≡ sub32 v.offset v.offset_within)
      × (r.accum_array_bounds ≡ elements ((v, a) ∷ chain) % 2 ^ 64)
unfolding descend elements
descend_nested v a chain arg e lt =
    let (q, s, n) = note_first v a arg e in
    let (q', s', n') =
      descend_inside chain a (note_container (some a) v arg) q (omega (arith, n)) in
    (q', s' ∙ s, n' ∙ ap (λ k. k * elements chain % 2 ^ 64) n)
