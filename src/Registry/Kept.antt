-- ===== src/Registry/Kept.antt =====
-- What each call keeps of the registry of proxy.c, given that it gave a result.
use pycallocs.Prelude.{
  ap, ℕ, ◌≡◌, ◌<◌, refl, sym, subst, ◌∙◌, inl, inr, arith, Option, none, some, List, ◌∷◌, ◌==◌,
  Bool-cases,
}
use mathlib.Core.Option.{some-injective}
use pycallocs.Registry.{
  foreign, field, lookup, Registry, incref, Allocation, Got, allocated, create, insert_new,
  add_ref_to, add_ref_found, register_new, proxy_register, with_result, register_copy, decref,
  proxy_delref,
}
use pycallocs.Registry.Entries.{lookup-insert}
use pycallocs.Registry.Base.{GotBase, nothing, base, no_memory}
use pycallocs.Registry.State.{Owned, one_more}
use pycallocs.Registry.Drop.{IsSound, decref_cases, proxy_delref_cases}
use pycallocs.Registry.Create.{allocated-IsSound, inserted-IsSound, registered-IsSound}
use pycallocs.Registry.Get.{
  KeepsFields, Shrinks-KeepsFields, GotProxy, proxy, no_proxy, base_failed,
}

-- The registry behind a call that gives a proxy, whose reference is the program's then, or NULL.
abbrev pub After : Owned → Registry → Registry × Option ℕ → Type 0
After w s (s', none) = IsSound w s' × KeepsFields s s'
After w s (s', some o) = IsSound (one_more o w) s' × KeepsFields s s'

pub got-After :
    (new : Registry → Option ℕ) (addr type : ℕ) (w : Owned) (a : Option Allocation) (s : Registry)
    (got : Got) (t : Registry × Option ℕ)
    → GotProxy new addr type w a s got
    → got ≡ some t
    → After w s t
got-After new addr type w a s _ t (proxy s' o g) eq =
    subst (After w s) (some-injective _ _ eq) (g.sound, g.fields)
got-After new addr type w a s _ t (no_proxy s' s'' full sound fields) eq =
    subst (After w s) (some-injective _ _ eq) (sound, fields)
got-After new addr type w a s _ t (base_failed full) eq = absurd cc

pub base-After :
    (new : Registry → Option ℕ) (w : Owned) (a : Option Allocation) (s : Registry) (got : Got)
    (t : Registry × Option ℕ)
    → IsSound w s
    → GotBase new w a s got
    → got ≡ some t
    → After w s t
base-After new w a s _ t v (nothing lacking) eq =
    subst (After w s) (some-injective _ _ eq) (v, λ p c alive h. h)
base-After new w a s _ t v (base s' b sound found same) eq =
    subst (After w s) (some-injective _ _ eq) (sound, λ p c alive h. ap (lookup (field p)) same ∙ h)
base-After new w a s _ t v (no_memory why) eq = absurd cc

module _ (w : Owned) (s : Registry) (v : IsSound w s) where
  inserted-kept :
      (o a : ℕ) (m : Option ℕ) (s' : Registry)
      → lookup (foreign a) s.pointing ≡ m
      → insert_new o (foreign a) s m ≡ some s'
      → IsSound w s' × KeepsFields s s'
  unfolding insert_new
  inserted-kept o a (some p) s' key eq = absurd cc
  inserted-kept o a none s' key eq =
      let s'' = record (incref o s) { pointing = (foreign a, o) ∷ s.pointing } in
      let sound = inserted-IsSound w s o (foreign a) v key (λ p h. absurd cc) in
      let fields = λ (p b : ℕ) (alive : 0 < s''.refs p) (h : lookup (field p) s.pointing ≡ some b).
        lookup-insert (field p) (foreign a) s.pointing o b key h in
      subst (λ (r : Registry). IsSound w r × KeepsFields s r) (some-injective _ _ eq)
        (sound, fields)

  pub addref-kept :
      (target from : ℕ) (m : Option ℕ) (s' : Registry)
      → add_ref_found target from s m ≡ some s'
      → IsSound w s' × KeepsFields s s'
  unfolding add_ref_found add_ref_to
  addref-kept target from none s' eq = absurd cc
  addref-kept target from (some o) s' eq = elim (Bool-cases (s.p_ptr o == target)) [
    | inl at ↦ inserted-kept o from (lookup (foreign from) s.pointing) s' refl (simp at at eq)
    | inr other ↦ let never : none ≡ some s' = simp other at eq in absurd cc
  ]

  registered-After :
      (block type o : ℕ) (m : Option ℕ) (t : Registry × Option ℕ)
      → s.refs o ≡ 0
      → with_result (some o) (register_new o (allocated block type s o) m) ≡ some t
      → After w s t
  unfolding with_result register_new allocated
  registered-After block type o (some b) t free eq = absurd cc
  registered-After block type o none t free eq = subst (After w s) (some-injective _ _ eq) (
    registered-IsSound (one_more o w) (allocated block type s o) o
        (allocated-IsSound w s block type o v free) (ground arith),
    λ p b alive h. h,
  )

  pub copied-After :
      (block type : ℕ) (m : Option ℕ) (t : Registry × Option ℕ)
      → ((o : ℕ) → m ≡ some o → s.refs o ≡ 0)
      → register_copy (create block type s m) ≡ some t
      → After w s t
  unfolding register_copy create proxy_register
  copied-After block type none t fresh eq =
      subst (After w s) (some-injective _ _ eq) (v, λ p b alive h. h)
  copied-After block type (some o) t fresh eq = registered-After block type o _ t (fresh o refl) eq

  pub decref-After :
      (detached : ℕ → List ℕ) (o : ℕ) (w' : Owned) (s' : Registry)
      → w ≡ one_more o w'
      → decref detached o s ≡ some s'
      → IsSound w' s' × KeepsFields s s'
  decref-After detached o w' s' own eq =
      let (s'', ended, sound, shrinks, left) =
        decref_cases detached w' s o (subst (λ u. IsSound u s) own v) in
      let same : s'' ≡ s' = some-injective _ _ (sym ended ∙ eq) in
      subst (λ (r : Registry). IsSound w' r × KeepsFields s r) same
        (sound, Shrinks-KeepsFields s s'' shrinks)

  pub delref-After :
      (detached : ℕ → List ℕ) (from : ℕ) (s' : Registry)
      → proxy_delref detached (foreign from) s ≡ some s'
      → IsSound w s' × KeepsFields s s'
  delref-After detached from s' eq =
      let (s'', ended, sound, shrinks, gone) = proxy_delref_cases detached w s from v in
      let same : s'' ≡ s' = some-injective _ _ (sym ended ∙ eq) in
      subst (λ (r : Registry). IsSound w r × KeepsFields s r) same
        (sound, Shrinks-KeepsFields s s'' shrinks)
