-- ===== src/Registry/State.antt =====
-- What holds of the registry of proxy.c, and how the parts of a release keep it.
use pycallocs.Prelude.{
  ℕ, suc, ◌+◌, ◌-◌, ◌≡◌, ◌≢◌, ◌<◌, ap, ◌∙◌, ◌⊎◌, inl, inr, arith, none, some, List, ◌∷◌, Elem, ◌==◌,
  Bool-cases, if◌then◌else◌,
}
use pycallocs.Registry.{From, field, lookup, erase, Registry, update, unregistered}
use pycallocs.Registry.Entries.{
  entries, IsUnique, entries-lookup, entries-erase, lookup-erase-none, erase-IsUnique,
}

-- References that the rest of the program owns; one more of one proxy.
abbrev pub Owned : Type 0
Owned = ℕ → ℕ

abbrev pub one_more : ℕ → Owned → Owned
one_more o w p = if o == p then w p + 1 else w p

-- A proxy has a reference, or is being freed.
abbrev pub IsAlive : List ℕ → (ℕ → ℕ) → ℕ → Type 0
IsAlive dying refs o = (0 < refs o) ⊎ Elem o dying

-- `dying` are the proxies that are being freed. Each count is the number of the references that
-- there are; a registered proxy, and a proxy whose field has an entry, is alive.
pub record IsValid (dying : List ℕ) (w : Owned) (s : Registry) : Type 0 where
  pub counted : (o : ℕ) → s.refs o ≡ w o + entries o s.pointing
  pub unique : IsUnique s.pointing
  pub registered : (a o : ℕ) → s.proxy_dict a ≡ some o → (s.p_ptr o ≡ a) × IsAlive dying s.refs o
  pub keyed : (o : ℕ) → (lookup (field o) s.pointing ≡ none) ⊎ IsAlive dying s.refs o

module _ (dying : List ℕ) (w : Owned) (s : Registry) where
  -- The reference that a deleted entry held is in hand.
  pub erase-IsValid :
      (f : From) (o : ℕ)
      → lookup f s.pointing ≡ some o
      → IsValid dying w s
      → IsValid dying (one_more o w) (record s { pointing = erase f s.pointing })
  erase-IsValid f o found v = record {
    counted = λ p.
        let before = v.counted p in
        let after = entries-erase f s.pointing o found p in ground arith;
    unique = erase-IsUnique f s.pointing v.unique;
    registered = v.registered;
    keyed = λ p. elim (v.keyed p) [
      | inl none_yet ↦ inl (lookup-erase-none f (field p) s.pointing none_yet)
      | inr alive ↦ inr alive
    ];
  }

  -- New counts that are right, with no proxy lost.
  pub refs-IsValid :
      (dying' : List ℕ) (w' : Owned) (refs' : ℕ → ℕ)
      → ((o : ℕ) → refs' o ≡ w' o + entries o s.pointing)
      → ((o : ℕ) → IsAlive dying s.refs o → IsAlive dying' refs' o)
      → IsValid dying w s
      → IsValid dying' w' (record s { refs = refs' })
  refs-IsValid dying' w' refs' right alive v = record {
    counted = right;
    unique = v.unique;
    registered = λ a o found. let (at, before) = v.registered a o found in (at, alive o before);
    keyed = λ o. elim (v.keyed o) [ inl lacking ↦ inl lacking | inr before ↦ inr (alive o before) ];
  }

module _ (dying : List ℕ) (w : Owned) (s : Registry) where
  -- A reference in hand is dropped, and others are left.
  pub kept-IsValid :
      (o n : ℕ)
      → s.refs o - 1 ≡ suc n
      → IsValid dying (one_more o w) s
      → IsValid dying w (record s { refs = update s.refs o (suc n) })
  kept-IsValid o n left v =
      refs-IsValid dying (one_more o w) s dying w (update s.refs o (suc n))
        (λ p. let before = v.counted p in ground arith)
        (λ p alive. elim alive [ inl some_refs ↦ inl (ground arith) | inr d ↦ inr d ]) v

  -- The last reference is dropped: the proxy is being freed.
  pub dies-IsValid :
      (o : ℕ)
      → s.refs o - 1 ≡ 0
      → IsValid dying (one_more o w) s
      → IsValid (o ∷ dying) w (record s { refs = update s.refs o 0 })
  dies-IsValid o left v =
      let own = v.counted o in
      refs-IsValid dying (one_more o w) s (o ∷ dying) w (update s.refs o 0)
        (λ p. let before = v.counted p in ground arith)
        (λ p alive. elim (Bool-cases (o == p)) [
          | inl here ↦ inr (inl (ground arith))
          | inr other ↦ elim alive [
            | inl some_refs ↦ inl (rw other some_refs)
            | inr d ↦ inr (inr d)
          ]
        ])
        v

  -- Taking the proxy out of `proxy_dict`.
  pub unregistered-IsValid : (a : ℕ) → IsValid dying w s → IsValid dying w (unregistered a s)
  unregistered-IsValid a v = record {
    counted = v.counted;
    unique = v.unique;
    registered = λ b o found. elim (Bool-cases (a == b)) [
      | inl here ↦ let nothing : none ≡ some o = simp here at found in cc
      | inr other ↦
          let found' : s.proxy_dict b ≡ some o = simp other at found in v.registered b o found'
    ];
    keyed = v.keyed;
  }

  -- The proxy is gone once neither dictionary knows it.
  pub freed-IsValid :
      (o : ℕ)
      → ((a : ℕ) → s.proxy_dict a ≢ some o)
      → lookup (field o) s.pointing ≡ none
      → IsValid (o ∷ dying) w s
      → IsValid dying w s
  freed-IsValid o out no_key v = record {
    counted = v.counted;
    unique = v.unique;
    registered = λ a p found.
        let (at, alive) = v.registered a p found in
        (
          at,
          elim alive [
            | inl some_refs ↦ inl some_refs
            | inr (inl eq) ↦ absurd (out a (found ∙ ap some eq))
            | inr (inr d) ↦ inr d
          ],
        );
    keyed = λ p. elim (v.keyed p) [
      | inl lacking ↦ inl lacking
      | inr (inl some_refs) ↦ inr (inl some_refs)
      | inr (inr (inl eq)) ↦ inl (ap (λ q. lookup (field q) s.pointing) eq ∙ no_key)
      | inr (inr (inr d)) ↦ inr (inr d)
    ];
  }

  -- An entry's proxy has a reference.
  pub lookup-alive :
      (f : From) (o : ℕ) → lookup f s.pointing ≡ some o → IsValid dying w s → 0 < s.refs o
  lookup-alive f o found v =
      let count = v.counted o in omega (arith, entries-lookup f s.pointing o found)
