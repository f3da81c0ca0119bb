-- ===== src/Registry/Get.antt =====
-- `Proxy_GetFrom` of proxy.c: the proxy of an address keeps the proxy of its allocation alive.
use pycallocs.Prelude.{
  ℕ, suc, ◌-◌, ◌≡◌, ◌<◌, refl, ap, ◌∙◌, ◌⊎◌, inl, inr, arith, Bool, true, false, ◌&&◌, Option, none,
  some, List, [], ◌∷◌, ◌==◌,
}
use pycallocs.Registry.{
  From, field, lookup, Registry, update, incref, insert_new, add_ref_to, then_do, released, decref,
  Allocation, Got, allocated, create, with_result, derive, reuse, get_with_base, get_or_create_base,
  get_from,
}
use pycallocs.Registry.Entries.{entries-lookup, same_self, lookup-insert}
use pycallocs.Registry.State.{Owned, one_more, kept-IsValid}
use pycallocs.Registry.Shrinks.{Shrinks}
use pycallocs.Registry.Drop.{IsSound, decref_cases}
use pycallocs.Registry.Create.{allocated-IsSound, inserted-IsSound}
use pycallocs.Registry.Base.{
  NoBase, FailsBase, start_of, GotBase, nothing, base, no_memory, get_or_create_base-GotBase,
}

-- The base proxy of the allocation is registered, and is the proxy itself or is kept alive by the
-- entry of the proxy's field; or there is nothing to proxy.
abbrev pub IsKept : Option Allocation → Registry → Registry → ℕ → Type 0
IsKept a before s o =
    NoBase a before
    ⊎ ((b : ℕ) × (s.proxy_dict (start_of a) ≡ some b)
        × ((o ≡ b) ⊎ (lookup (field o) s.pointing ≡ some b)))

-- The entry of a proxy's field is as it was, while the proxy is alive.
abbrev pub KeepsFields : Registry → Registry → Type 0
KeepsFields s s' =
    (o b : ℕ)
    → 0 < s'.refs o
    → lookup (field o) s.pointing ≡ some b
    → lookup (field o) s'.pointing ≡ some b

pub Shrinks-KeepsFields : (s s' : Registry) → Shrinks s s' → KeepsFields s s'
Shrinks-KeepsFields s s' h o b alive found = elim (h.fields o) [
  | inl same ↦ same ∙ found
  | inr free ↦ absurd (omega arith)
]

-- A proxy of the address and the type, with one more reference of it, which the caller owns.
pub record Gets (addr type : ℕ) (w : Owned) (a : Option Allocation) (before s : Registry) (o : ℕ)
    : Type 0 where
  pub sound : IsSound (one_more o w) s
  pub at : s.p_ptr o ≡ addr
  pub typed : s.types o ≡ type
  pub kept : IsKept a before s o
  pub fields : KeepsFields before s

-- What Proxy_GetFrom is to leave. It gives NULL only if Python has no memory.
pub data GotProxy (new : Registry → Option ℕ) (addr type : ℕ) (w : Owned) (a : Option Allocation)
    (before : Registry) : Got → Type 0 where
  proxy :
      (s : Registry) (o : ℕ)
      → Gets addr type w a before s o
      → GotProxy new addr type w a before (some (s, some o))
  no_proxy :
      (s s' : Registry)
      → new s' ≡ none
      → IsSound w s
      → KeepsFields before s
      → GotProxy new addr type w a before (some (s, none))
  base_failed : FailsBase new a before → GotProxy new addr type w a before none

-- The order of two references in hand does not matter.
one_more_comm :
    (o p : ℕ) (w : Owned) (s : Registry)
    → IsSound (one_more o (one_more p w)) s
    → IsSound (one_more p (one_more o w)) s
one_more_comm o p w s v = record {
  counted = λ q. let count = v.counted q in ground arith;
  unique = v.unique;
  registered = v.registered;
  keyed = v.keyed;
}

-- Dropping the reference of a look-up, where another one is left.
pub decref-kept :
    (detached : ℕ → List ℕ) (b : ℕ) (w : Owned) (s : Registry) (from : From)
    → IsSound (one_more b w) s
    → lookup from s.pointing ≡ some b
    → (refs' : ℕ → ℕ) × (decref detached b s ≡ some (record s { refs = refs' }))
      × IsSound w (record s { refs = refs' })
unfolding decref released
decref-kept detached b w s from v found =
    let count = v.counted b in
    let own = entries-lookup from s.pointing b found in
    let n = s.refs b - 2 in
    let left : s.refs b - 1 ≡ suc n = ground arith in
    (update s.refs b (suc n), rw left refl, kept-IsValid [] w s b n left v)

module _ (new : Registry → Option ℕ)
    (fresh : (s : Registry) (o : ℕ) → new s ≡ some o → s.refs o ≡ 0) (detached : ℕ → List ℕ)
    (addr type : ℕ) (w : Owned) (a : Option Allocation) (before : Registry) where
  -- A proxy without a base.
  pub create-GotProxy :
      (m : Option ℕ)
      → new before ≡ m
      → IsSound w before
      → NoBase a before
      → GotProxy new addr type w a before (create addr type before m)
  unfolding create allocated
  create-GotProxy none eq v no_base = no_proxy before before eq v (λ p b alive h. h)
  create-GotProxy (some o) eq v no_base = proxy (allocated addr type before o) o (record {
    sound = allocated-IsSound w before addr type o v (fresh before o eq);
    at = ground arith;
    typed = ground arith;
    kept = inl no_base;
    fields = λ p b alive h. h;
  })

  module _ (s : Registry) (b : ℕ) (v : IsSound (one_more b w) s)
      (found : s.proxy_dict (start_of a) ≡ some b)
      (same_entries : s.pointing ≡ before.pointing) where
    -- The new proxy with the entry of its field.
    derived-GotProxy :
        (o : ℕ)
        → s.refs o ≡ 0
        → (m : Option ℕ) → lookup (field o) s.pointing ≡ m
        → GotProxy new addr type w a before (
            with_result
              (some o)
              (then_do (insert_new b (field o) (allocated addr type s o) m) (decref detached b)))
    unfolding with_result then_do insert_new allocated
    derived-GotProxy o free (some p) key = elim (v.keyed o) [
      | inl lacking ↦ absurd cc
      | inr (inl some_refs) ↦ absurd (omega arith)
      | inr (inr never) ↦ absurd never
    ]
    derived-GotProxy o free none key =
        let s' = allocated addr type s o in
        let s'' = record (incref b s') { pointing = (field o, b) ∷ s'.pointing } in
        let sound' = allocated-IsSound (one_more b w) s addr type o v free in
        let sound'' =
          inserted-IsSound (one_more o (one_more b w)) s' b (field o) sound' key
            (λ p eq. ground arith) in
        let here : lookup (field o) s''.pointing ≡ some b = rw (same_self (field o)) refl in
        let (refs', ended, sound) =
          decref-kept detached b (one_more o w) s'' (field o) (one_more_comm o b w s'' sound'')
            here in
        rw ended (
          proxy (record s'' { refs = refs' }) o
            (record {
              sound = sound;
              at = ground arith;
              typed = ground arith;
              kept = inr (b, found, inr here);
              fields = λ p c alive h.
                  lookup-insert (field p) (field o) s.pointing b c key
                    (ap (lookup (field p)) same_entries ∙ h);
            }))

    pub derive-GotProxy :
        (m : Option ℕ)
        → new s ≡ m
        → GotProxy new addr type w a before (derive detached addr type s b m)
    unfolding derive add_ref_to with_result allocated
    derive-GotProxy none eq =
        let (s', ended, sound, shrinks, left) = decref_cases detached w s b v in
        rw ended (
          no_proxy s' s eq sound (λ p c alive h.
            Shrinks-KeepsFields s s' shrinks p c alive (ap (lookup (field p)) same_entries ∙ h)))
    derive-GotProxy (some o) eq =
        derived-GotProxy o (fresh s o eq) (lookup (field o) s.pointing) refl

    reuse-GotProxy :
        (same_proxy : Bool)
        → (s.types b == type && s.p_ptr b == addr) ≡ same_proxy
        → GotProxy new addr type w a before (reuse new detached addr type s b same_proxy)
    unfolding reuse
    reuse-GotProxy true eq = proxy s b (record {
      sound = v;
      at = ground arith;
      typed = ground arith;
      kept = inr (b, found, inl refl);
      fields = λ p c alive h. ap (lookup (field p)) same_entries ∙ h;
    })
    reuse-GotProxy false eq = derive-GotProxy (new s) refl

  get_with_base-GotProxy :
      (got : Got)
      → IsSound w before
      → GotBase new w a before got
      → GotProxy new addr type w a before (get_with_base new detached addr type got)
  unfolding get_with_base
  get_with_base-GotProxy _ v (nothing no_base) = create-GotProxy (new before) refl v no_base
  get_with_base-GotProxy _ v (base s b sound found entries_same) =
      reuse-GotProxy s b sound found entries_same _ refl
  get_with_base-GotProxy _ v (no_memory eq) = base_failed eq

  -- The proxy of an address: it has that address and the type asked for, and one more reference, the
  -- caller's; all counts stay right and all registered proxies alive. If the address lies in an
  -- allocation that can be proxied, the allocation's base proxy is registered, and is the result
  -- itself or is owned by the entry of the result's field. NULL comes only from a lack of memory.
  -- There is no result, as an assertion fails or as something else than the base is taken for it,
  -- only if Python has no memory, or if the allocation's own type is not handled or is a pointer
  -- type. The memory that Python gives is not in use.
  pub get_from-GotProxy :
      IsSound w before
      → GotProxy new addr type w a before (get_from new detached addr type a before)
  unfolding get_from
  get_from-GotProxy v =
      get_with_base-GotProxy (get_or_create_base new a before) v
        (get_or_create_base-GotBase new fresh w before v a)
