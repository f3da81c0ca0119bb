-- ===== src/Bounds/Search.antt =====
-- What a successful search of minicrunch.c has found.
use pycallocs.Prelude.{
  ℕ, ◌≡◌, refl, arith, Bool, true, false, Bool-cases, ◌∙◌, inl, inr, Option, none, some, List, [],
  ◌∷◌, All, ◌==◌, ltb, ◌<◌, ◌≤◌, ◌⊎◌,
}
use pycallocs.Bounds.{
  ArrayType, Uniqtype, Visit, BoundsCbArg, sub32, note_outermost, note_container, match_visit,
  bounds_cb, search,
}

-- The start that the callback records for a visit.
abbrev pub array_start : Option ArrayType → Visit → ℕ
array_start none v = 0
array_start (some a) v = sub32 v.offset v.offset_within

-- The search ended at the visit `v`: it starts at the target offset, has the size of the type asked
-- for, and its direct container is what the result remembers.
pub record IsMatch (t : Uniqtype) (target : ℕ) (v : Visit) (r : BoundsCbArg) : Type 0 where
  pub success : r.success ≡ true
  pub at_target : v.offset ≡ target
  pub same_size : v.u.pos_maxoff ≡ t.pos_maxoff
  pub innermost : r.innermost ≡ v.container
  pub start : r.innermost_start ≡ array_start v.container v

note_container_lem :
    (c : Option ArrayType) (v : Visit) (arg : BoundsCbArg)
    → let r = note_container c v arg in
      (r.passed_in_t ≡ arg.passed_in_t)
      × (r.target_offset ≡ arg.target_offset)
      × (r.success ≡ arg.success)
      × (r.innermost ≡ c)
      × (r.innermost_start ≡ array_start c v)
unfolding note_container note_outermost
note_container_lem none v arg = (refl, refl, refl, refl, refl)
note_container_lem (some a) v arg = parts arg.outermost a _ _ refl refl refl
  where
    parts :
        (o : Option ArrayType) (a : ArrayType) (start : ℕ) (b : BoundsCbArg)
        → b.innermost ≡ some a
        → b.innermost_start ≡ start
        → b.outermost ≡ o
        → let r = note_outermost o a start b in
          (r.passed_in_t ≡ b.passed_in_t)
          × (r.target_offset ≡ b.target_offset)
          × (r.success ≡ b.success)
          × (r.innermost ≡ some a)
          × (r.innermost_start ≡ start)
    parts none a start b p q e = (refl, refl, refl, p, q)
    parts (some o) a start b p q e = (refl, refl, refl, p, q)

-- A call of the callback that does not succeed keeps the question and does not claim success.
abbrev pub Asks : Uniqtype → ℕ → BoundsCbArg → Type 0
Asks t target arg = (arg.passed_in_t ≡ t) × (arg.target_offset ≡ target) × (arg.success ≡ false)

-- A subobject that starts at the target offset and has the size asked for.
abbrev pub IsHit : Uniqtype → ℕ → Visit → Type 0
IsHit t target v = (v.offset ≡ target) × (v.u.pos_maxoff ≡ t.pos_maxoff)

-- One call either asks on, or ends the search: with success at a match, or past the target.
data Outcome (t : Uniqtype) (target : ℕ) (v : Visit) (r : BoundsCbArg × Bool) : Type 0 where
  asks_on : Asks t target r.0 → r.1 ≡ false → ¬ IsHit t target v → Outcome t target v r
  overshot : Asks t target r.0 → r.1 ≡ true → target < v.offset → Outcome t target v r
  matched : IsMatch t target v r.0 → r.1 ≡ true → Outcome t target v r

match_visit_cases :
    (t : Uniqtype) (target : ℕ) (v : Visit) (arg : BoundsCbArg)
    → Asks t target arg
    → arg.innermost ≡ v.container
    → arg.innermost_start ≡ array_start v.container v
    → Outcome t target v (match_visit v arg)
unfolding match_visit
match_visit_cases t target v arg (pt, pg, ps) i s =
    elim (Bool-cases (ltb v.offset arg.target_offset)) [
      | inl before ↦ rw before (asks_on (pt, pg, ps) refl (λ hit. ground arith))
      | inr reached ↦ elim (Bool-cases (ltb arg.target_offset v.offset)) [
        | inl past ↦ rw (reached, past) (overshot (pt, pg, ps) refl (ground arith))
        | inr here ↦ elim (Bool-cases (v.u.pos_maxoff == arg.passed_in_t.pos_maxoff)) [
          | inl fits ↦
              rw (reached, here, fits)
                (matched
                  (record {
                    success = refl;
                    at_target = ground arith;
                    same_size = ground arith;
                    innermost = i;
                    start = s;
                  })
                  refl)
          | inr other ↦ rw (reached, here, other) (asks_on (pt, pg, ps) refl (λ hit. ground arith))
        ]
      ]
    ]

bounds_cb_cases :
    (t : Uniqtype) (target : ℕ) (v : Visit) (arg : BoundsCbArg)
    → Asks t target arg
    → Outcome t target v (bounds_cb v arg)
unfolding bounds_cb
bounds_cb_cases t target v arg (pt, pg, ps) =
    let (qt, qg, qs, qi, qstart) = note_container_lem v.container v arg in
    match_visit_cases t target v _ (qt ∙ pt, qg ∙ pg, qs ∙ ps) qi qstart

-- If the search succeeds it ended at a match among the visits.
pub search-IsMatch :
    (P : Visit → Type 0) (t : Uniqtype) (target : ℕ) (visits : List Visit) (arg : BoundsCbArg)
    → Asks t target arg
    → All P visits
    → (search visits arg).success ≡ true
    → (v : Visit) × P v × IsMatch t target v (search visits arg)
unfolding search
search-IsMatch P t target [] arg (pt, pg, ps) all found = cc
search-IsMatch P t target (v ∷ vs) arg asks (pv, all) found =
    elim (bounds_cb_cases t target v arg asks) [
      | matched match ends ↦ rw ends (v, pv, match)
      | overshot more ends past ↦
          let out : (bounds_cb v arg).0.success ≡ true = rw ends at found in cc more.2
      | asks_on more on miss ↦
          rw on (search-IsMatch P t target vs (bounds_cb v arg).0 more all (rw on at found))
    ]

abbrev pub HasHit : Uniqtype → ℕ → List Visit → Type 0
HasHit t target [] = ⊥
HasHit t target (v ∷ vs) = IsHit t target v ⊎ HasHit t target vs

-- If no visit lies past the target, a hit among them makes the search succeed.
pub search_success :
    (t : Uniqtype) (target : ℕ) (visits : List Visit) (arg : BoundsCbArg)
    → Asks t target arg
    → All (λ v. v.offset ≤ target) visits
    → HasHit t target visits
    → (search visits arg).success ≡ true
unfolding search
search_success t target [] arg asks before hit = absurd hit
search_success t target (v ∷ vs) arg asks (here, before) hit =
    elim (bounds_cb_cases t target v arg asks) [
      | matched match ends ↦ rw ends match.success
      | overshot more ends past ↦ absurd (omega arith)
      | asks_on more on miss ↦
          let later : HasHit t target vs = elim hit [ inl h ↦ absurd (miss h) | inr h ↦ h ] in
          rw on (search_success t target vs (bounds_cb v arg).0 more before later)
    ]
