-- ===== src/Registry/Drop.antt =====
-- `proxy_delref` of proxy.c and Py_DECREF: a reference is dropped, with all that it kept alive.
use pycallocs.Prelude.{
  ℕ, zero, suc, ◌+◌, ◌-◌, ◌≡◌, ◌≢◌, ◌<◌, refl, ◌⊎◌, inl, inr, arith, none, some, List, [], length,
}
use pycallocs.Registry.{foreign, field, lookup, Registry, proxy_delref, decref, del_ref}
use pycallocs.Registry.Entries.{entries}
use pycallocs.Registry.State.{Owned, one_more, IsValid}
use pycallocs.Registry.Shrinks.{Shrinks}
use pycallocs.Registry.Release.{released-Ends, del_ref-Deletes}

-- No proxy is being freed.
abbrev pub IsSound : Owned → Registry → Type 0
IsSound w s = IsValid [] w s

-- A proxy without references is free: no dictionary knows it or its field.
pub record IsFreed (o : ℕ) (s : Registry) : Type 0 where
  pub refs : s.refs o ≡ 0
  pub out : (a : ℕ) → s.proxy_dict a ≢ some o
  pub no_key : lookup (field o) s.pointing ≡ none
  pub no_entry : entries o s.pointing ≡ 0

no_refs-IsFreed : (o : ℕ) (w : Owned) (s : Registry) → IsSound w s → s.refs o ≡ 0 → IsFreed o s
no_refs-IsFreed o w s v none_left = record {
  refs = none_left;
  out = λ a found. elim (v.registered a o found).1 [
    | inl alive ↦ absurd (omega arith)
    | inr never ↦ absurd never
  ];
  no_key = elim (v.keyed o) [
    | inl lacking ↦ lacking
    | inr (inl alive) ↦ absurd (omega arith)
    | inr (inr never) ↦ absurd never
  ];
  no_entry = let count = v.counted o in omega arith;
}

left_over :
    (o : ℕ) (w : Owned) (s : Registry)
    → IsSound w s
    → (n : ℕ) → s.refs o ≡ n
    → (0 < w o + entries o s.pointing) ⊎ IsFreed o s
left_over o w s v zero eq = inr (no_refs-IsFreed o w s v eq)
left_over o w s v (suc n) eq = let count = v.counted o in inl (omega arith)

module _ (detached : ℕ → List ℕ) (w : Owned) (s : Registry) where
  -- A reference of the program's own is dropped. Whatever proxies this frees in turn, and whatever
  -- pointers liballocs then reports as deleted, the call ends. Then again each count is the number
  -- of references, every registered proxy is alive, and nothing was added to either dictionary. If
  -- the proxy has no other reference, it is free: neither dictionary knows it, and the entry of its
  -- field, which kept its base alive, is deleted.
  pub decref_cases :
      (o : ℕ)
      → IsSound (one_more o w) s
      → (s' : Registry) × (decref detached o s ≡ some s')
        × IsSound w s'
        × Shrinks s s'
        × ((0 < w o + entries o s'.pointing) ⊎ IsFreed o s')
  unfolding decref
  decref_cases o v =
      let fuel = suc (length s.pointing) in
      let e =
        released-Ends detached (del_ref detached fuel) fuel (del_ref-Deletes detached fuel) o [] w s
          (s.refs o - 1) refl v (omega arith) in
      (e.after, e.ended, e.valid, e.shrinks, left_over o w e.after e.valid (e.after.refs o) refl)

  -- liballocs reports the deletion of a pointer, known or not: the call ends, the pointer has no
  -- entry any more, the registry is as sound as before, and nothing was added.
  pub proxy_delref_cases :
      (a : ℕ)
      → IsSound w s
      → (s' : Registry) × (proxy_delref detached (foreign a) s ≡ some s')
        × IsSound w s'
        × Shrinks s s'
        × (lookup (foreign a) s'.pointing ≡ none)
  unfolding proxy_delref
  proxy_delref_cases a v =
      let d =
        del_ref-Deletes detached (suc (length s.pointing)) [] w (foreign a) s (λ o eq. cc) v
          (omega arith) in
      (d.ends.after, d.ends.ended, d.ends.valid, d.ends.shrinks, d.gone)
