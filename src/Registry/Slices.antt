-- ===== src/Registry/Slices.antt =====
-- The new proxy that `addrproxy_subscript` of address_proxy.c makes of a slice, as the registry sees it.
use pycallocs.Prelude.{ℕ, ◌≡◌, refl, ap, ◌∙◌, subst, inl, inr, arith, Option, none, some, List, ◌∷◌}
use mathlib.Core.Option.{some-injective}
use pycallocs.Registry.{
  field, lookup, Registry, incref, Allocation, Got, allocated, insert_new, add_ref_to, then_do,
  with_result, decref, get_or_create_base,
}
use pycallocs.Registry.Entries.{same_self, lookup-insert}
use pycallocs.Registry.State.{Owned, one_more}
use pycallocs.Registry.Drop.{IsSound}
use pycallocs.Registry.Create.{allocated-IsSound, inserted-IsSound}
use pycallocs.Registry.Base.{GotBase, nothing, base, no_memory, get_or_create_base-GotBase}
use pycallocs.Registry.Get.{decref-kept}
use pycallocs.Registry.Kept.{After}

module _ (new : Registry → Option ℕ) (detached : ℕ → List ℕ) where
  -- The base proxy is asserted to be there.
  unfoldable pub slice_base : ℕ → Got → Option Registry
  unfolding then_do add_ref_to decref
  slice_base o none = none
  slice_base o (some (s, none)) = none
  slice_base o (some (s, some b)) = then_do (add_ref_to b (field o) s) (decref detached b)

  unfoldable pub slice_object : ℕ → ℕ → Option Allocation → Registry → Option ℕ → Got
  unfolding with_result slice_base allocated get_or_create_base
  slice_object addr type a s none = some (s, none)
  slice_object addr type a s (some o) =
      with_result (some o) (slice_base o (get_or_create_base new a (allocated addr type s o)))

  -- The proxy of the address `addr` in the allocation of the sliced proxy's own address, of the type
  -- of the sliced proxy.
  unfoldable pub slice_from : ℕ → ℕ → Option Allocation → Registry → Got
  unfolding slice_object
  slice_from addr type a s = slice_object addr type a s (new s)

module _ (new : Registry → Option ℕ)
    (fresh : (s : Registry) (o : ℕ) → new s ≡ some o → s.refs o ≡ 0) (detached : ℕ → List ℕ)
    (addr type : ℕ) (w : Owned) (a : Option Allocation) (before : Registry)
    (v : IsSound w before) where
  no_field :
      (o : ℕ) (m : Option ℕ)
      → before.refs o ≡ 0
      → lookup (field o) before.pointing ≡ m
      → lookup (field o) before.pointing ≡ none
  no_field o none free key = key
  no_field o (some p) free key = elim (v.keyed o) [
    | inl lacking ↦ absurd cc
    | inr (inl some_refs) ↦ absurd (omega arith)
    | inr (inr never) ↦ absurd never
  ]

  slice_base-After :
      (o : ℕ) (s : Registry) (got : Got) (t : Registry × Option ℕ)
      → s.pointing ≡ before.pointing
      → lookup (field o) before.pointing ≡ none
      → GotBase new (one_more o w) a s got
      → with_result (some o) (slice_base new detached o got) ≡ some t
      → After w before t
  unfolding slice_base with_result then_do add_ref_to insert_new
  slice_base-After o s _ t kept free (nothing lacking) eq = absurd cc
  slice_base-After o s _ t kept free (no_memory why) eq = absurd cc
  slice_base-After o s _ t kept free (base s' b v' found same) eq =
      let same_entries : s'.pointing ≡ before.pointing = same ∙ kept in
      let key : lookup (field o) s'.pointing ≡ none = ap (lookup (field o)) same_entries ∙ free in
      let s'' = record (incref b s') { pointing = (field o, b) ∷ s'.pointing } in
      let count = v'.counted o in
      let sound'' =
        inserted-IsSound (one_more b (one_more o w)) s' b (field o) v' key (λ p eq. ground arith) in
      let here : lookup (field o) s''.pointing ≡ some b = rw (same_self (field o)) refl in
      let (refs', ended, sound) =
        decref-kept detached b (one_more o w) s'' (field o) sound'' here in
      subst (After w before) (some-injective _ _ (simp (key, ended) at eq)) (
        sound,
        λ p c alive h.
            lookup-insert (field p) (field o) s'.pointing b c key
              (ap (lookup (field p)) same_entries ∙ h),
      )

  slice_object-After :
      (m : Option ℕ) (t : Registry × Option ℕ)
      → new before ≡ m
      → slice_object new detached addr type a before m ≡ some t
      → After w before t
  unfolding slice_object allocated
  slice_object-After none t full eq =
      subst (After w before) (some-injective _ _ eq) (v, λ p b alive h. h)
  slice_object-After (some o) t made eq =
      let free = fresh before o made in
      let s = allocated addr type before o in
      slice_base-After o s (get_or_create_base new a s) t refl (no_field o _ free refl)
        (get_or_create_base-GotBase new fresh (one_more o w) s
          (allocated-IsSound w before addr type o v free) a)
        eq

  -- What a slice keeps, given that it gave a proxy or NULL.
  pub slice_from-After :
      (t : Registry × Option ℕ)
      → slice_from new detached addr type a before ≡ some t
      → After w before t
  unfolding slice_from
  slice_from-After t eq = slice_object-After (new before) t refl eq
