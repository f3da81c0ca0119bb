-- ===== src/FunctionCall/Layout.antt =====
-- The argument buffer of `funproxy_call` (function_proxy.c).
use pycallocs.Prelude.{
  ℕ, ◌+◌, ◌^◌, ◌≡◌, ◌≤◌, ◌<◌, refl, ◌⊎◌, ◌≢◌, inl, inr, arith, Option, none, some, List, [], ◌∷◌,
  Error, All, ◌∙◌,
}
use pycallocs.Memory.{Mem}
use pycallocs.Memory.Frame.{SameOutside}
use pycallocs.Python.{Stored}
use mathlib.Core.Path.{subst₂}
use pycallocs.FunctionCall.{
  Argument, cons_pointer, add_size, place_stored, stack_size, Placed, place_one, place,
}

-- A conversion writes only the bytes of its type.
abbrev pub IsContained : Argument → Type 0
IsContained a = (dest : ℕ) (m : Mem) → SameOutside dest a.size m (a.storeinto dest m).mem

-- The bytes that an argument takes in the buffer.
abbrev pub slot : Option ℕ → ℕ → ℕ
slot (some p) size = 0
slot none size = size

abbrev pub total : List Argument → ℕ
total [] = 0
total (a ∷ args) = slot a.data_ptr a.size + total args

add_size-slot :
    (o : Option ℕ) (size acc : ℕ)
    → acc + slot o size < 2 ^ 32
    → add_size o size acc ≡ acc + slot o size
unfolding add_size
add_size-slot none size acc lt = omega arith
add_size-slot (some p) size acc lt = omega arith

pub stack_size-eq-total :
    (args : List Argument) (acc : ℕ)
    → acc + total args < 2 ^ 32
    → stack_size args acc ≡ acc + total args
unfolding stack_size
stack_size-eq-total [] acc lt = omega arith
stack_size-eq-total (a ∷ args) acc lt =
    let now = add_size-slot a.data_ptr a.size acc (omega arith) in
    omega
      (arith, now, stack_size-eq-total args (add_size a.data_ptr a.size acc) (omega (arith, now)))

-- The pointer handed to libffi for an argument: its own data pointer, or the next free bytes.
abbrev pub PointsTo : Option ℕ → ℕ → ℕ → Type 0
PointsTo (some q) cur p = p ≡ q
PointsTo none cur p = p ≡ cur

-- The slots lie one behind the other from `cur` up to `limit`.
abbrev pub InSlots : List Argument → List ℕ → ℕ → ℕ → Type 0
InSlots [] [] cur limit = cur ≡ limit
InSlots [] (p ∷ ps) cur limit = ⊥
InSlots (a ∷ args) [] cur limit = ⊥
InSlots (a ∷ args) (p ∷ ps) cur limit =
    PointsTo a.data_ptr cur p × InSlots args ps (cur + slot a.data_ptr a.size) limit

-- The `n` bytes from `cur` on are the same in both memories.
abbrev pub SameInside : ℕ → ℕ → Mem → Mem → Type 0
SameInside cur n m m' = (q : ℕ) → cur ≤ q → q < cur + n → m' q ≡ m q

abbrev pub KeptOne : Option ℕ → ℕ → ℕ → Mem → Mem → Mem → (ℕ → Mem → Type 0) → Type 0
KeptOne (some p) size cur m stored m' rest = rest cur m
KeptOne none size cur m stored m' rest = SameInside cur size stored m' × rest (cur + size) stored

-- Each slot of the final memory `m'` holds what the argument's conversion wrote into it; `m` is the
-- memory when the conversion of the first argument starts.
abbrev pub Kept : List Argument → Mem → ℕ → Mem → Type 0
Kept [] m' cur m = Unit
Kept (a ∷ args) m' cur m = KeptOne a.data_ptr a.size cur m (a.storeinto cur m).mem m' (Kept args m')

-- All conversions succeeded: the pointers, the slots' contents, and nothing else written.
pub record IsPlaced (args : List Argument) (cur : ℕ) (m : Mem) (r : Placed) : Type 0 where
  pub in_slots : InSlots args r.ff_args cur (cur + total args)
  pub kept : Kept args r.mem cur m
  pub same : SameOutside cur (total args) m r.mem

-- One failed: nothing is written outside the buffer.
pub record IsRefused (args : List Argument) (cur : ℕ) (m : Mem) (r : Placed) : Type 0 where
  pub failed : r.status ≢ none
  pub same : SameOutside cur (total args) m r.mem

abbrev pub Outcome : List Argument → ℕ → Mem → Placed → Type 0
Outcome args cur m r = ((r.status ≡ none) × IsPlaced args cur m r) ⊎ IsRefused args cur m r

InSlots-cast :
    (args : List Argument) (ps : List ℕ) {c c' l l' : ℕ}
    → c ≡ c'
    → l ≡ l'
    → InSlots args ps c l
    → InSlots args ps c' l'
InSlots-cast args ps e f h = subst₂ (InSlots args ps) e f h

abbrev argument : Option ℕ → ℕ → (ℕ → Mem → Stored) → Argument
argument o size store = record { size = size; data_ptr = o; storeinto = store }

-- What the loop does behind one argument, as a fact about the rest of the loop.
abbrev RestOf : List Argument → Type 0
RestOf args = (cur : ℕ) (m : Mem) → Outcome args cur m (place args cur m)

pointer-Outcome :
    (p size : ℕ) (store : ℕ → Mem → Stored) (args : List Argument) (cur : ℕ) (m : Mem)
    → RestOf args
    → Outcome (argument (some p) size store ∷ args) cur m (cons_pointer p (place args cur m))
pointer-Outcome p size store args cur m rest = elim (rest cur m) [
  | inl (e, r) ↦ inl (
    e,
    record {
      in_slots = (refl, InSlots-cast args _ (omega arith) (omega arith) r.in_slots);
      kept = r.kept;
      same = λ q out. r.same q (omega arith);
    },
  )
  | inr r ↦ inr (record { failed = r.failed; same = λ q out. r.same q (omega arith) })
]

stored-Outcome :
    (size : ℕ) (store : ℕ → Mem → Stored) (args : List Argument) (cur : ℕ) (m : Mem)
    (status : Option Error)
    → SameOutside cur size m (store cur m).mem
    → RestOf args
    → Outcome
        (argument none size store ∷ args)
        cur
        m
        (place_stored status size cur (store cur m).mem (place args))
unfolding place_stored
stored-Outcome size store args cur m (some e) same rest =
    inr (record { failed = λ h. cc; same = λ q out. same q (omega arith) })
stored-Outcome size store args cur m none same rest = elim (rest (cur + size) (store cur m).mem) [
  | inl (e, r) ↦ inl (
    e,
    record {
      in_slots = (refl, InSlots-cast args _ refl (omega arith) r.in_slots);
      kept = (λ q lo hi. r.same q (omega arith), r.kept);
      same = λ q out. r.same q (omega arith) ∙ same q (omega arith);
    },
  )
  | inr r ↦
      inr (record {
        failed = r.failed;
        same = λ q out. r.same q (omega arith) ∙ same q (omega arith);
      })
]

argument-Outcome :
    (o : Option ℕ) (size : ℕ) (store : ℕ → Mem → Stored) (args : List Argument) (cur : ℕ) (m : Mem)
    → SameOutside cur size m (store cur m).mem
    → RestOf args
    → Outcome
        (argument o size store ∷ args)
        cur
        m
        (place_one o size cur m (store cur m) (place args))
unfolding place_one
argument-Outcome none size store args cur m same rest =
    stored-Outcome size store args cur m _ same rest
argument-Outcome (some p) size store args cur m same rest =
    pointer-Outcome p size store args cur m rest

-- Placing the arguments writes only inside a buffer of `total` bytes. If every conversion succeeds,
-- each argument is passed by its own data pointer or by a slot of its own in the buffer, the slots
-- lie one behind the other, and at the end each still holds what its conversion wrote.
pub place_cases :
    (args : List Argument) (cur : ℕ) (m : Mem)
    → All IsContained args
    → Outcome args cur m (place args cur m)
unfolding place
place_cases [] cur m all =
    inl (refl, record { in_slots = omega arith; kept = tt; same = λ q out. refl })
place_cases (a ∷ args) cur m (contained, all) =
    argument-Outcome a.data_ptr a.size a.storeinto args cur m (contained cur m)
      (λ c n. place_cases args c n all)
