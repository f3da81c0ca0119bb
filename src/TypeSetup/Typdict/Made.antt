-- ===== src/TypeSetup/Typdict/Made.antt =====
-- What ForeignType_GetOrCreate leaves of the objects in its table: each was made for its uniqtype, and
-- changed as ForeignType_Init does.
use pycallocs.Prelude.{
  ℕ, zero, suc, ◌≡◌, ◌≢◌, refl, sym, inl, inr, arith, Bool-cases, Option, none, some, [], ◌∷◌, ◌==◌,
  subst, List,
}
use mathlib.Core.Option.{some-injective}
use pycallocs.ForeignType.{
  Kind, address, array, Entry, created, initialised, LookedIn, AllLookedIn, add_looked, get_next,
  get_all,
}
use pycallocs.TypeSetup.Objects.{ForeignTypeObject, address_object, new_object, init_object}
use pycallocs.TypeSetup.Contract.{IsInitialisable}
use pycallocs.TypeSetup.Typdict.{TypeEntry, ObjectTable, set_object, first_object, new_type}

pub new_type-nonzero :
    (kinds : ℕ → Kind) (k : ℕ) → k ≢ 0 → new_type kinds k ≡ new_object (kinds k) k
unfolding new_type
new_type-nonzero kinds zero ne = absurd (ne refl)
new_type-nonzero kinds (suc k) ne = refl

-- For each array type, the type of the addresses of its elements is one, of something.
abbrev pub ArraysHaveAddresses : (ℕ → Kind) → Type 0
ArraysHaveAddresses kinds =
    (k j : ℕ) → kinds k ≡ array j → (j ≢ 0) × ((e : ℕ) × (kinds j ≡ address (suc e)))

pub set_object-same : (k : ℕ) (e : TypeEntry) (c : ObjectTable) → set_object k e c k ≡ some e
set_object-same k e c = ground arith

-- An address type of something is not refused.
pub none_made : (j e : ℕ) → none ≢ new_object (address (suc e)) j
unfolding new_object address_object
none_made j e eq = absurd cc

module _ (kinds : ℕ → Kind) where
  abbrev pub IsChanged : ℕ → ForeignTypeObject → ForeignTypeObject → Entry → Type 0
  IsChanged k o o' created = o' ≡ o
  IsChanged k o o' (initialised rs) =
      (addr : Option ForeignTypeObject) × IsInitialisable (kinds k) addr
      × (o' ≡ init_object o addr (kinds k))

  -- The object is the one that ForeignType_New makes, after the initialisation if it is complete.
  abbrev pub IsMade : ℕ → TypeEntry → Type 0
  IsMade k e =
      (o : ForeignTypeObject) × (new_type kinds k ≡ some o) × IsChanged k o e.object e.entry

  abbrev pub AllMade : ObjectTable → Type 0
  AllMade c = (j : ℕ) (e : TypeEntry) → c j ≡ some e → IsMade j e

  pub set_object-AllMade :
      (k : ℕ) (e : TypeEntry) (c : ObjectTable)
      → IsMade k e
      → AllMade c
      → AllMade (set_object k e c)
  set_object-AllMade k e c made all j e' eq = elim (Bool-cases (j == k)) [
    | inl here ↦
        let same : j ≡ k = ground arith in
        let entry : some e ≡ some e' = simp here at eq in
        subst (IsMade j) (some-injective _ _ entry) (subst (λ i. IsMade i e) (sym same) made)
    | inr other ↦ all j e' (simp other at eq)
  ]

  -- What a call for the type `k` leaves.
  abbrev pub Good : ℕ → LookedIn ObjectTable → Type 0
  Good k none = Unit
  Good k (some (c, none)) = AllMade c × (new_type kinds k ≡ none)
  Good k (some (c, some j)) = AllMade c × (j ≡ k) × ((e : TypeEntry) × (c k ≡ some e))

  abbrev pub LeavesMade : {A : Type 0} → Option (ObjectTable × A) → Type 0
  LeavesMade none = Unit
  LeavesMade (some (c, r)) = AllMade c

  pub Good-LeavesMade : (k : ℕ) (x : LookedIn ObjectTable) → Good k x → LeavesMade x
  Good-LeavesMade k none good = tt
  Good-LeavesMade k (some (c, none)) good = good.0
  Good-LeavesMade k (some (c, some j)) good = good.0

  add_looked-LeavesMade :
      (r : Option ℕ) (x : AllLookedIn ObjectTable) → LeavesMade x → LeavesMade (add_looked r x)
  unfolding add_looked
  add_looked-LeavesMade r none made = tt
  add_looked-LeavesMade r (some (c, rs)) made = made

  get_next-LeavesMade :
      (x : LookedIn ObjectTable) (rest : ObjectTable → AllLookedIn ObjectTable)
      → LeavesMade x
      → ((c : ObjectTable) → AllMade c → LeavesMade (rest c))
      → LeavesMade (get_next x rest)
  unfolding get_next
  get_next-LeavesMade none rest made later = tt
  get_next-LeavesMade (some (c, r)) rest made later =
      add_looked-LeavesMade r (rest c) (later c made)

  pub address_unchanged :
      (j e : ℕ) (o o' : ForeignTypeObject) (entry : Entry)
      → kinds j ≡ address (suc e)
      → IsChanged j o o' entry
      → o' ≡ o
  unfolding init_object
  address_unchanged j e o o' created kind changed = changed
  address_unchanged j e o o' (initialised rs) kind (addr, h, changed) = simp kind at changed

  -- What the calls of ForeignType_Init leave, for a type of the kind.
  abbrev pub Found : Kind → AllLookedIn ObjectTable → Type 0
  Found kind none = Unit
  Found kind (some (c, rs)) = AllMade c × IsInitialisable kind (first_object rs c)

  pub LeavesMade-Found :
      (kind : Kind) (x : AllLookedIn ObjectTable)
      → ((addr : Option ForeignTypeObject) → IsInitialisable kind addr)
      → LeavesMade x
      → Found kind x
  LeavesMade-Found kind none any made = tt
  LeavesMade-Found kind (some (c, rs)) any made = (made, any (first_object rs c))

  module _ (get : ℕ → ObjectTable → LookedIn ObjectTable)
      (good : (k : ℕ) (c : ObjectTable) → AllMade c → Good k (get k c)) where
    pub get_all-LeavesMade :
        (ks : List ℕ) (c : ObjectTable) → AllMade c → LeavesMade (get_all get ks c)
    unfolding get_all
    get_all-LeavesMade [] c made = made
    get_all-LeavesMade (k ∷ ks) c made =
        get_next-LeavesMade (get k c) (get_all get ks) (Good-LeavesMade k _ (good k c made))
          (get_all-LeavesMade ks)
