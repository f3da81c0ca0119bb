-- ===== src/Bounds/Containment.antt =====
-- The bounds that `__fetch_bounds_internal` of minicrunch.c returns hold the object asked about.
use pycallocs.Prelude.{
  ℕ, ◌+◌, ◌-◌, ◌*◌, ◌%◌, ◌^◌, ◌≡◌, ◌≢◌, refl, arith, true, false, Bool-cases, inl, inr, Option,
  none, some, List, All, ◌==◌, ltb, ◌<◌, ◌≤◌, ◌⊎◌, ap,
}
use pycallocs.Bounds.{
  ArrayType, Uniqtype, Visit, AllocInfo, Bounds, make_bounds, array_bounds, search_bounds,
  fetch_bounds, maxoff_unbounded, search, initial_arg, target_offset_in,
}
use pycallocs.Bounds.Search.{array_start, Asks, HasHit, search-IsMatch, search_success}

-- An element of the array `a`, inside an allocation of `size` bytes: it stands whole among the
-- array's elements, or in the allocation if the array's length is not known.
abbrev pub InArray : ℕ → Visit → Option ArrayType → Type 0
InArray size v none = Unit
InArray size v (some a) =
    (v.u.pos_maxoff ≡ a.elem_maxoff)
    × (a.known_length ≡ true
        → (v.offset_within + a.elem_maxoff ≤ a.length * a.elem_maxoff)
          × (a.length * a.elem_maxoff < 2 ^ 32))
    × (a.known_length ≡ false → v.offset + a.elem_maxoff ≤ size)

-- What liballocs promises of each subobject that it visits.
pub record IsSubobject (size : ℕ) (v : Visit) : Type 0 where
  pub within : v.offset_within ≤ v.offset
  pub offset_lt : v.offset < 2 ^ 32
  pub in_array : InArray size v v.container

-- The bytes from `obj` on that an object of type `t` takes lie between the bounds.
abbrev pub Holds : Bounds → ℕ → ℕ → Type 0
Holds b obj n = (b.base ≤ obj) × (obj + n ≤ b.base + b.size)

module _ (obj : ℕ) (t : Uniqtype) (info : AllocInfo) (after : info.alloc_start ≤ obj)
    (small : info.alloc_size_bytes < 2 ^ 32) (finite : t.pos_maxoff < maxoff_unbounded) where
  array_bounds-Holds :
      (c : Option ArrayType) (v : Visit)
      → obj ≡ info.alloc_start + v.offset
      → v.u.pos_maxoff ≡ t.pos_maxoff
      → v.offset_within ≤ v.offset
      → v.offset < 2 ^ 32
      → InArray info.alloc_size_bytes v c
      → Holds (array_bounds c (array_start c v) obj t info) obj t.pos_maxoff
  unfolding array_bounds make_bounds
  array_bounds-Holds none v at size within lt tt = ground arith
  array_bounds-Holds (some a) v at size within lt (elem, known, unknown) =
      let same : a.elem_maxoff ≡ t.pos_maxoff = omega arith in
      let bytes : a.length * a.elem_maxoff ≡ a.length * t.pos_maxoff =
        ap (λ n. a.length * n) same in
      elim (Bool-cases a.known_length) [
        | inl yes_known ↦ let (fits, lt32) = known yes_known in rw yes_known (omega arith)
        | inr not_known ↦ let fits = unknown not_known in rw not_known (omega arith)
      ]

  start-Asks : (target : ℕ) → Asks t target (initial_arg t target)
  unfolding initial_arg
  start-Asks target = (refl, refl, refl)

  -- The pointer's offset in its allocation, when it fits an `unsigned`.
  offset_of :
      obj < info.alloc_start + 2 ^ 32
      → target_offset_in obj info.alloc_start ≡ obj - info.alloc_start
  offset_of near = omega arith

  search_bounds-Holds :
      (visits : List Visit)
      → obj < info.alloc_start + 2 ^ 32
      → All (IsSubobject info.alloc_size_bytes) visits
      → All (λ v. v.offset ≤ obj - info.alloc_start) visits
      → HasHit t (obj - info.alloc_start) visits
      → Holds
          (search_bounds
            (search visits (initial_arg t (target_offset_in obj info.alloc_start)))
            obj
            t
            info)
          obj
          t.pos_maxoff
  unfolding search_bounds
  search_bounds-Holds visits near good before hit =
      let target = obj - info.alloc_start in
      let found =
        search_success t target visits (initial_arg t target) (start-Asks target) before hit in
      let (v, sub, match) =
        search-IsMatch (IsSubobject info.alloc_size_bytes) t target visits (initial_arg t target)
          (start-Asks target) good found in
      rw (offset_of near, found, match.innermost, match.start)
        (array_bounds-Holds v.container v (omega (arith, match.at_target)) match.same_size
          sub.within sub.offset_lt sub.in_array)

-- The bounds hold the object. For a pointer that liballocs knows, into an allocation below 4 GB,
-- and a complete type other than a character: if liballocs visits the subobjects that span the
-- pointer, and one of them starts there and has the size of the type, then the bytes of an object
-- of that type at the pointer lie between the bounds returned.
pub fetch_bounds-Holds :
    (obj : ℕ) (t : Uniqtype) (info : AllocInfo) (visits : List Visit)
    → obj ≢ 0
    → info.failed ≡ false
    → t.is_char ≡ false
    → t.pos_maxoff < maxoff_unbounded
    → info.alloc_start ≤ obj
    → obj < info.alloc_start + 2 ^ 32
    → info.alloc_size_bytes < 2 ^ 32
    → All (IsSubobject info.alloc_size_bytes) visits
    → All (λ v. v.offset ≤ obj - info.alloc_start) visits
    → HasHit t (obj - info.alloc_start) visits
    → Holds (fetch_bounds obj t info visits) obj t.pos_maxoff
unfolding fetch_bounds
fetch_bounds-Holds obj t info visits ne known no_char finite after near small good before hit =
    let not_null : (obj == 0) ≡ false = ground arith in
    let complete : (t.pos_maxoff == maxoff_unbounded) ≡ false = ground arith in
    simp (not_null, known, no_char, complete)
      (search_bounds-Holds obj t info after small finite visits near good before hit)

-- For a character type the bounds are the whole allocation, if it holds the pointer; if it does
-- not, or if liballocs reports an error, they start at 0 and say nothing.
pub fetch_bounds-char :
    (obj : ℕ) (t : Uniqtype) (info : AllocInfo) (visits : List Visit)
    → obj ≢ 0
    → obj < 2 ^ 64
    → t.is_char ≡ true
    → info.alloc_start ≤ obj
    → info.alloc_size_bytes < 2 ^ 32
    → ((info.failed ≡ false)
        × (obj ≤ info.alloc_start + info.alloc_size_bytes)
        × (fetch_bounds obj t info visits
            ≡ record { base = info.alloc_start; size = info.alloc_size_bytes }))
      ⊎ (((info.failed ≡ true) ⊎ (info.alloc_start + info.alloc_size_bytes < obj))
          × (fetch_bounds obj t info visits ≡ record { base = 0; size = 2 ^ 32 - 1 }))
unfolding fetch_bounds make_bounds
fetch_bounds-char obj t info visits ne lt char after small =
    let not_null : (obj == 0) ≡ false = ground arith in
    elim (Bool-cases info.failed) [
      | inl bad ↦ inr (inl bad, simp (not_null, char, bad))
      | inr good ↦
          elim (Bool-cases
            (ltb info.alloc_size_bytes ((obj + 2 ^ 64 - info.alloc_start) % 2 ^ 64))) [
              | inl out ↦ inr (inr (ground arith), simp (not_null, char, good, out))
              | inr inside ↦
                  inl (good, ground arith, simp (not_null, char, good, inside) (ground arith))
            ]
    ]
