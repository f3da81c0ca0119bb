-- ===== src/AddressProxy/Fill.antt =====
-- `addrproxy_init` of address_proxy.c: what it leaves in the array.
use pycallocs.Prelude.{
  ℕ, zero, suc, ◌+◌, ◌-◌, ◌*◌, ◌^◌, ◌≡◌, ◌≢◌, ◌≤◌, ◌<◌, refl, ◌⊎◌, inl, inr, arith, Option, none,
  some, List, [], ◌∷◌, pos, ltb_ℤ, ◌+ℤ◌, Error, value_error, Bool-cases, ltb, ltb→lt, ltb→le, true,
  false, ◌∙◌, ap, length, sym,
}
use pycallocs.Memory.{Mem, zero_fill}
use pycallocs.Memory.Frame.{SameOutside, SameOutside-zero_fill, zero_fill-inside, zero_fill-none}
use pycallocs.Python.{Stored, stored, refused}
use native.Mathlib.Nat.{mod-eq_of_lt}
use pycallocs.AddressProxy.{
  ItemType, on_success, init_loop, zero_rest, init_values, byte_count, neg,
}
use pycallocs.AddressProxy.Items.{proxy}

module _ {Obj : Type 0} (item : ItemType Obj) (p : ℕ) where
  -- Each item of the final memory `m'` from item `i` on holds what storing its value wrote; `m` is
  -- the memory when the first of them is stored.
  abbrev pub Filled : List Obj → Mem → ℕ → Mem → Type 0
  Filled [] m' i m = Unit
  Filled (v ∷ vs) m' i m =
      let s = item.storeinto v (p + i * item.size) m in
      ((q : ℕ) → p + i * item.size ≤ q → q < p + i * item.size + item.size → m' q ≡ s.mem q)
      × Filled vs m' (i + 1) s.mem

  -- A later change past the last of these items leaves them filled.
  Filled-later :
      (vs : List Obj) (i : ℕ) (m m' m'' : Mem)
      → ((q : ℕ) → q < p + (i + length vs) * item.size → m'' q ≡ m' q)
      → Filled vs m' i m
      → Filled vs m'' i m
  Filled-later [] i m m' m'' same h = tt
  Filled-later (v ∷ vs) i m m' m'' same (here, rest) = (
    λ q lo hi.
        let inside : i * item.size + item.size ≤ (i + suc (length vs)) * item.size = grind arith in
        same q (omega arith) ∙ here q lo hi,
    Filled-later vs (i + 1) _ m' m''
        (λ q lt.
          let step : (i + 1 + length vs) * item.size ≡ (i + suc (length vs)) * item.size =
            ap (λ k. k * item.size) (omega arith) in
          same q (omega arith))
        rest,
  )

  -- The loop stores all values, or stops at one that fails; it writes only the items that it
  -- has values for.
  abbrev LoopCases : List Obj → ℕ → Mem → Stored → Type 0
  LoopCases vs i m s =
      (((s.status ≡ none) × Filled vs s.mem i m) ⊎ (s.status ≢ none))
      × SameOutside (p + i * item.size) (length vs * item.size) m s.mem

  on_success-LoopCases :
      (v : Obj) (vs : List Obj) (i : ℕ) (m : Mem) (rest : Stored) (o : Option Error)
      → let s = item.storeinto v (p + i * item.size) m in
        s.status ≡ o
        → LoopCases vs (i + 1) s.mem rest
        → LoopCases (v ∷ vs) i m (on_success o s rest)
  unfolding on_success
  on_success-LoopCases v vs i m rest (some e) eq later =
      (inr (λ h. cc), λ q out. item.contained v (p + i * item.size) m q (omega arith))
  on_success-LoopCases v vs i m rest none eq (cases, same) = (
    elim cases [
      | inl (e, filled) ↦ inl (e, (λ q lo hi. same q (omega arith), filled))
      | inr failed ↦ inr failed
    ],
    λ q out. same q (omega arith) ∙ item.contained v (p + i * item.size) m q (omega arith),
  )

  init_loop-Filled :
      (vs : List Obj) (i : ℕ) (m : Mem)
      → (i + length vs) * item.size < 2 ^ 32
      → LoopCases vs i m (init_loop item vs i p m)
  unfolding init_loop
  init_loop-Filled [] i m lt = (inl (refl, tt), λ q out. refl)
  init_loop-Filled (v ∷ vs) i m lt =
      let same_bound : (i + 1 + length vs) * item.size ≡ (i + suc (length vs)) * item.size =
        ap (λ k. k * item.size) (omega arith) in
      let small : i * item.size < 2 ^ 32 = omega arith in
      rw (mod-eq_of_lt small)
        (on_success-LoopCases v vs i m _ _ refl (init_loop-Filled vs (i + 1) _ (omega arith)))

  minus : (n k : ℕ) → k ≤ n → pos n +ℤ neg k ≡ pos (n - k)
  unfolding ◌+ℤ◌
  minus n zero le = ground arith
  minus n (suc k) le = ground arith

  zero_rest_lem :
      (n k : ℕ) (m : Mem)
      → k ≤ n
      → k * item.size < 2 ^ 32
      → zero_rest item (proxy p n) k m
        ≡ stored (zero_fill ((n - k) * item.size) m (p + k * item.size))
  unfolding zero_rest byte_count
  zero_rest_lem n k m le small = elim (Bool-cases (ltb (k + 0) (n + 0))) [
    | inl less ↦ rw (less, mod-eq_of_lt small, minus n k le) refl
    | inr equal ↦
        let end : n - k ≡ 0 = omega (arith, ltb→le _ _ equal) in
        let none_left : (n - k) * item.size ≡ 0 = rw end (omega arith) in
        rw (equal, none_left) (ap stored (sym (zero_fill-none m (p + k * item.size))))
  ]

  -- The array after a successful initialisation by `vs`, and after a failed one.
  pub record IsFilled (vs : List Obj) (n : ℕ) (m : Mem) (s : Stored) : Type 0 where
    pub succeeded : s.status ≡ none
    pub filled : Filled vs s.mem 0 m
    pub zeros : (q : ℕ) → p + length vs * item.size ≤ q → q < p + n * item.size → s.mem q ≡ 0
    pub same : SameOutside p (n * item.size) m s.mem

  pub record IsHalted (n : ℕ) (m : Mem) (s : Stored) : Type 0 where
    pub failed : s.status ≢ none
    pub same : SameOutside p (n * item.size) m s.mem

  finish :
      (vs : List Obj) (n : ℕ) (m : Mem) (s : Stored) (o : Option Error)
      → length vs ≤ n
      → length vs * item.size < 2 ^ 32
      → s.status ≡ o
      → LoopCases vs 0 m s
      → let r = on_success o s (zero_rest item (proxy p n) (length vs) s.mem) in
        IsFilled vs n m r ⊎ IsHalted n m r
  unfolding on_success
  finish vs n m s (some e) le small eq (cases, same) =
      let wide : length vs * item.size ≤ n * item.size = grind arith in
      inr (record { failed = λ h. cc; same = λ q out. same q (omega arith) })
  finish vs n m s none le small eq (inr failed, same) = absurd (failed eq)
  finish vs n m s none le small eq (inl (e, filled), same) =
      let k = length vs in
      let wide : k * item.size + (n - k) * item.size ≡ n * item.size =
        let split : k + (n - k) ≡ n = omega arith in
        omega (arith, ap (λ (j : ℕ). j * item.size) split) in
      let rest = SameOutside-zero_fill ((n - k) * item.size) s.mem (p + k * item.size) in
      inl (
        rw (zero_rest_lem n k s.mem le small) (record {
          succeeded = refl;
          filled = Filled-later vs 0 m s.mem _ (λ q lt. rest q (omega arith)) filled;
          zeros = λ q lo hi. zero_fill-inside ((n - k) * item.size) s.mem _ q lo (omega arith);
          same = λ q out. rest q (omega arith) ∙ same q (omega arith);
        }))

  -- Initialising an array of n items, of fewer than 4 GB, with fewer than 2 ^ 32 values. Too many
  -- values raise ValueError and write nothing. Else either every item that has a value holds what
  -- storing it wrote and all other items are zero, or a store raised; in both cases nothing outside
  -- the n items changes.
  pub init_values_cases :
      (vs : List Obj) (n : ℕ) (m : Mem)
      → length vs < 2 ^ 32
      → n * item.size < 2 ^ 32
      → let s = init_values item (proxy p n) vs m in
        ((n < length vs) × (s ≡ refused m value_error))
        ⊎ ((length vs ≤ n) × (IsFilled vs n m s ⊎ IsHalted n m s))
  unfolding init_values
  init_values_cases vs n m short small =
      let exact = mod-eq_of_lt short in
      elim (Bool-cases (ltb n (length vs))) [
        | inl more ↦
            let lt = ltb→lt n (length vs) more in
            let test : ltb_ℤ (pos n) (pos (length vs)) ≡ true = ground arith in
            inl (lt, rw (exact, test))
        | inr fits ↦
            let le = ltb→le n (length vs) fits in
            let test : ltb_ℤ (pos n) (pos (length vs)) ≡ false = ground arith in
            let bytes : length vs * item.size ≤ n * item.size = grind arith in
            let s = init_loop item vs 0 p m in
            inr (
              le,
              rw (exact, test)
                  (finish vs n m s s.status le (omega arith) refl
                    (init_loop-Filled vs 0 m (omega arith))),
            )
      ]
