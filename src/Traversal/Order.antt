-- ===== src/Traversal/Order.antt =====
-- The traversal of a proxied value visits its pointers, one after the other.
use pycallocs.Prelude.{
  ℕ, zero, suc, ◌+◌, ◌*◌, ◌≡◌, refl, ap, ◌∙◌, sym, fun_ext, Bool-cases, inl, inr, false, Option,
  none, some, List, [], ◌∷◌, ◌++◌,
}
use pycallocs.Registry.{foreign, lookup, Registry}
use pycallocs.Traversal.{
  Shape, plain, pointer, array, composite, Fields, end, field_at, has_traverse, go_on,
  traverse_items, traverse, traverse_fields, visit_found, proxy_traverse_ref, proxy_traverse,
  item_references, references, field_references,
}

-- A type without `ft_traverse` has no pointers.
no_references : (e : Shape) (p : ℕ) → has_traverse e ≡ false → references e p ≡ []
unfolding references
no_references plain p skips = refl
no_references pointer p skips = absurd cc
no_references (array n size e) p skips = absurd cc
no_references (composite fs) p skips = absurd cc

no_item_references :
    (e : Shape) (p size n i : ℕ)
    → has_traverse e ≡ false
    → item_references (references e) p size n i ≡ []
unfolding item_references
no_item_references e p size zero i skips = refl
no_item_references e p size (suc n) i skips =
    rw (no_references e (p + i * size) skips) (no_item_references e p size n (i + 1) skips)

module _ {S : Type 0} (visit : ℕ → S → S × ℕ) where
  -- The addresses in turn, up to a visit that does not return 0.
  unfoldable pub visit_all : List ℕ → S → S × ℕ
  unfolding go_on
  visit_all [] s = (s, 0)
  visit_all (a ∷ rest) s = go_on (visit a s) (visit_all rest)

  go_on-visit_all :
      (r : S × ℕ) (rest bs : List ℕ)
      → go_on (go_on r (visit_all rest)) (visit_all bs)
        ≡ go_on r (λ s. go_on (visit_all rest s) (visit_all bs))
  unfolding go_on
  go_on-visit_all (s, zero) rest bs = refl
  go_on-visit_all (s, suc k) rest bs = refl

  go_on_end : (r : S × ℕ) → go_on r (visit_all []) ≡ r
  unfolding visit_all go_on
  go_on_end (s, zero) = refl
  go_on_end (s, suc k) = refl

  visit_all-append :
      (rest bs : List ℕ) (s : S)
      → visit_all (rest ++ bs) s ≡ go_on (visit_all rest s) (visit_all bs)
  unfolding visit_all go_on
  visit_all-append [] bs s = refl
  visit_all-append (a ∷ rest) bs s =
      ap (go_on (visit a s)) (fun_ext (visit_all-append rest bs))
      ∙ sym (go_on-visit_all (visit a s) rest bs)

  visit_all-none : (s : S) → visit_all [] s ≡ (s, 0)
  unfolding visit_all
  visit_all-none s = refl

  visit_one : (p : ℕ) (s : S) → visit p s ≡ visit_all (p ∷ []) s
  unfolding visit_all
  visit_one p s = sym (go_on_end (visit p s))

  items-visit_all :
      (e : Shape) (p size n i : ℕ)
      → ((q : ℕ) (s : S) → traverse visit e q s ≡ visit_all (references e q) s)
      → (s : S)
      → traverse_items (traverse visit e) p size n i s
        ≡ visit_all (item_references (references e) p size n i) s
  unfolding traverse_items item_references visit_all
  items-visit_all e p size zero i each s = refl
  items-visit_all e p size (suc n) i each s = rw (each (p + i * size) s) (
      ap (go_on (visit_all (references e (p + i * size)) s))
        (fun_ext (items-visit_all e p size n (i + 1) each))
      ∙ sym (
          visit_all-append (references e (p + i * size))
            (item_references (references e) p size n (i + 1)) s))

  mutual
    unfolding traverse references visit_all traverse_fields field_references

    pub traverse-visit_all :
        (e : Shape) (p : ℕ) (s : S) → traverse visit e p s ≡ visit_all (references e p) s
    traverse-visit_all plain p s = refl
    traverse-visit_all pointer p s = visit_one p s
    traverse-visit_all (array n size e) p s = elim (Bool-cases (has_traverse e)) [
      | inl visits ↦ rw visits (items-visit_all e p size n 0 (λ q. traverse-visit_all e q) s)
      | inr skips ↦ rw (skips, no_item_references e p size n 0 skips) refl
    ]
    traverse-visit_all (composite fs) p s = fields-visit_all fs p s

    fields-visit_all :
        (fs : Fields) (p : ℕ) (s : S)
        → traverse_fields visit fs p s ≡ visit_all (field_references fs p) s
    fields-visit_all end p s = refl
    fields-visit_all (field_at off e fs) p s = elim (Bool-cases (has_traverse e)) [
      | inl visits ↦
          rw (visits, traverse-visit_all e (p + off) s)
            (ap (go_on (visit_all (references e (p + off)) s)) (fun_ext (fields-visit_all fs p))
              ∙ sym (visit_all-append (references e (p + off)) (field_references fs p) s))
      | inr skips ↦ rw (skips, no_references e (p + off) skips) (fields-visit_all fs p s)
    ]

-- The base proxies that the registry knows for the pointers at these addresses, in that order.
unfoldable pub targets_of : Option ℕ → List ℕ → List ℕ
targets_of none os = os
targets_of (some o) os = o ∷ os

unfoldable pub targets : Registry → List ℕ → List ℕ
unfolding targets_of
targets r [] = []
targets r (a ∷ addrs) = targets_of (lookup (foreign a) r.pointing) (targets r addrs)

module _ {S : Type 0} (r : Registry) (visit : ℕ → S → S × ℕ) where
  found-visit_all :
      (m : Option ℕ) (addrs : List ℕ) (s : S)
      → ((s' : S)
          → visit_all (proxy_traverse_ref r visit) addrs s' ≡ visit_all visit (targets r addrs) s')
      → go_on (visit_found visit s m) (visit_all (proxy_traverse_ref r visit) addrs)
        ≡ visit_all visit (targets_of m (targets r addrs)) s
  unfolding visit_found targets_of go_on visit_all
  found-visit_all none addrs s each = each s
  found-visit_all (some o) addrs s each = ap (go_on (visit o s)) (fun_ext each)

  visit_all-targets :
      (addrs : List ℕ) (s : S)
      → visit_all (proxy_traverse_ref r visit) addrs s ≡ visit_all visit (targets r addrs) s
  unfolding visit_all targets proxy_traverse_ref
  visit_all-targets [] s = refl
  visit_all-targets (a ∷ addrs) s =
      found-visit_all (lookup (foreign a) r.pointing) addrs s (visit_all-targets addrs)

  pub proxy_traverse_lem :
      (shape : Shape) (p : ℕ) (s : S)
      → proxy_traverse shape p r visit s ≡ visit_all visit (targets r (references shape p)) s
  unfolding proxy_traverse
  proxy_traverse_lem shape p s =
      traverse-visit_all (proxy_traverse_ref r visit) shape p s
      ∙ visit_all-targets (references shape p) s
