-- ===== src/Registry/Create.antt =====
-- `Proxy_GetOrCreateBase`, `Proxy_Register` and `Proxy_AddRefTo` of proxy.c: new proxies.
use pycallocs.Prelude.{
  ℕ, ◌+◌, ◌≡◌, ◌<◌, sym, inl, inr, arith, none, some, [], ◌∷◌, ◌==◌, Bool-cases,
}
use pycallocs.Registry.{From, field, same, lookup, Registry, update, incref, allocated}
use pycallocs.Registry.Entries.{same→eq}
use pycallocs.Registry.State.{Owned, one_more, IsAlive, refs-IsValid}
use pycallocs.Registry.Drop.{IsSound}

module _ (w : Owned) (s : Registry) where
  pub incref-IsSound : (o : ℕ) → IsSound w s → IsSound (one_more o w) (incref o s)
  incref-IsSound o v =
      refs-IsValid [] w s [] (one_more o w) (update s.refs o (s.refs o + 1))
        (λ p. let before = v.counted p in ground arith)
        (λ p alive. elim alive [ inl some_refs ↦ inl (ground arith) | inr never ↦ absurd never ]) v

  -- The entry owns a reference of its own.
  pub inserted-IsSound :
      (o : ℕ) (from : From)
      → IsSound w s
      → lookup from s.pointing ≡ none
      → ((p : ℕ) → from ≡ field p → 0 < s.refs p)
      → IsSound w (record (incref o s) { pointing = (from, o) ∷ s.pointing })
  inserted-IsSound o from v fresh owner = record {
    counted = λ p. let before = v.counted p in ground arith;
    unique = (fresh, v.unique);
    registered = λ a p found. let (at, alive) = v.registered a p found in (at, more p alive);
    keyed = λ p. elim (Bool-cases (same (field p) from)) [
      | inl eq ↦
          let some_refs = owner p (sym (same→eq (field p) from eq)) in inr (inl (ground arith))
      | inr ne ↦ elim (v.keyed p) [
        | inl lacking ↦ inl (rw ne lacking)
        | inr alive ↦ inr (more p alive)
      ]
    ];
  }
    where
      more : (p : ℕ) → IsAlive [] s.refs p → IsAlive [] (update s.refs o (s.refs o + 1)) p
      more p (inl some_refs) = inl (ground arith)
      more p (inr never) = absurd never

  -- Proxy_Register
  pub registered-IsSound :
      (o : ℕ)
      → IsSound w s
      → 0 < s.refs o
      → IsSound w (record s { proxy_dict = update s.proxy_dict (s.p_ptr o) (some o) })
  registered-IsSound o v alive = record {
    counted = v.counted;
    unique = v.unique;
    registered = λ a p found. elim (Bool-cases (s.p_ptr o == a)) [
      | inl here ↦
          let found' : some o ≡ some p = simp here at found in
          let eq : o ≡ p = cc in let at : s.p_ptr o ≡ a = ground arith in rw (← eq) (at, inl alive)
      | inr other ↦
          let found' : s.proxy_dict a ≡ some p = simp other at found in v.registered a p found'
    ];
    keyed = v.keyed;
  }

  -- A new proxy, which nothing refers to yet.
  pub allocated-IsSound :
      (addr type o : ℕ)
      → IsSound w s
      → s.refs o ≡ 0
      → IsSound (one_more o w) (allocated addr type s o)
  unfolding allocated
  allocated-IsSound addr type o v fresh =
      let own = v.counted o in
      let alive = λ (p : ℕ) (before : IsAlive [] s.refs p). more o p before in
      record {
        counted = λ p. let before = v.counted p in ground arith;
        unique = v.unique;
        registered = λ a p found.
            let (at, before) = v.registered a p found in
            (
              elim before [ inl some_refs ↦ ground arith | inr never ↦ absurd never ],
              alive p before,
            );
        keyed =
            λ p. elim (v.keyed p) [ inl lacking ↦ inl lacking | inr before ↦ inr (alive p before) ];
      }
    where
      more : (o p : ℕ) → IsAlive [] s.refs p → IsAlive [] (update s.refs o 1) p
      more o p (inl some_refs) = inl (ground arith)
      more o p (inr never) = absurd never
