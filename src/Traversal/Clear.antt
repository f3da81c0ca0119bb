-- ===== src/Traversal/Clear.antt =====
-- `tp_clear` of the proxies: `addrproxy_clear` and `compositeproxy_clear_py`.
use pycallocs.Prelude.{ℕ, ◌≡◌, refl, none, some, List, [], ◌∷◌, All, ap, ◌∙◌}
use pycallocs.Registry.{foreign, lookup, Registry, then_do}
use pycallocs.Registry.State.{Owned}
use pycallocs.Registry.Shrinks.{Shrinks, Shrinks-refl, Shrinks-trans}
use pycallocs.Registry.Drop.{IsSound, proxy_delref_cases}
use pycallocs.Traversal.{Shape, go_on, references, proxy_clear_ref, proxy_clear, proxy_traverse}
use pycallocs.Traversal.Order.{
  visit_all, traverse-visit_all, targets, targets_of, proxy_traverse_lem,
}

abbrev Unknown : Registry → List ℕ → Type 0
Unknown s addrs = All (λ a. lookup (foreign a) s.pointing ≡ none) addrs

Unknown-targets : (s : Registry) (addrs : List ℕ) → Unknown s addrs → targets s addrs ≡ []
unfolding targets targets_of
Unknown-targets s [] u = refl
Unknown-targets s (a ∷ addrs) (here, later) = rw here (Unknown-targets s addrs later)

module _ (detached : ℕ → List ℕ) (w : Owned) where
  visit_all-clears :
      (addrs : List ℕ) (s : Registry)
      → IsSound w s
      → (s' : Registry) × (visit_all (proxy_clear_ref detached) addrs (some s) ≡ (some s', 0))
        × IsSound w s'
        × Shrinks s s'
        × Unknown s' addrs
  unfolding visit_all go_on proxy_clear_ref then_do
  visit_all-clears [] s v = (s, refl, v, Shrinks-refl s, tt)
  visit_all-clears (a ∷ addrs) s v =
      let (s', ended, v', shrinks, gone) = proxy_delref_cases detached w s a v in
      let (s'', ended', v'', shrinks', later) = visit_all-clears addrs s' v' in
      (
        s'',
        rw ended ended',
        v'',
        Shrinks-trans s s' s'' shrinks shrinks',
        (shrinks'.keys (foreign a) gone, later),
      )

  pub proxy_clear_cases :
      (shape : Shape) (p : ℕ) (s : Registry)
      → IsSound w s
      → (s' : Registry) × (proxy_clear shape p detached s ≡ (some s', 0))
        × IsSound w s'
        × Shrinks s s'
        × ((S : Type 0) (visit : ℕ → S → S × ℕ) (t : S)
            → proxy_traverse shape p s' visit t ≡ (t, 0))
  unfolding proxy_clear visit_all
  proxy_clear_cases shape p s v =
      let addrs = references shape p in
      let (s', ended, v', shrinks, unknown) = visit_all-clears addrs s v in
      (
        s',
        traverse-visit_all (proxy_clear_ref detached) shape p (some s) ∙ ended,
        v',
        shrinks,
        λ S visit t.
            proxy_traverse_lem s' visit shape p t
            ∙ ap (λ os. visit_all visit os t) (Unknown-targets s' addrs unknown),
      )
