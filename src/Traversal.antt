-- ===== src/Traversal.antt =====
-- Garbage collection: the traversal of a proxied value for Python's collector, by
-- `addrproxy_traverse` and `arrayproxy_traverse` of address_proxy.c, `compositeproxy_traverse` of
-- composite_proxy.c and `Proxy_TraverseRef` of proxy.c. The state that a visit changes is `S`, and
-- what it returns is a number, 0 to go on.
pub mod Order
pub mod Clear
use pycallocs.Prelude.{
  ℕ, zero, suc, ◌+◌, ◌*◌, Bool, true, false, Option, none, some, List, [], ◌∷◌, ◌++◌, ◌==◌,
  if◌then◌else◌,
}
use pycallocs.Registry.{From, foreign, lookup, Registry, then_do, proxy_delref, is_this}

mutual
  -- What a traversal sees of a foreign type: one without `ft_traverse`, a pointer, an array of a
  -- number of items of a size, a composite. An array of unknown length has the one that
  -- `addrproxy_initlength` gives it.
  pub data Shape : Type 0 where
    plain : Shape
    pointer : Shape
    array : ℕ → ℕ → Shape → Shape
    composite : Fields → Shape

  -- The offsets and types of the fields; one without a foreign type is plain.
  pub data Fields : Type 0 where
    end : Fields
    field_at : ℕ → Shape → Fields → Fields

-- `ft_traverse` is not NULL.
abbrev pub has_traverse : Shape → Bool
has_traverse plain = false
has_traverse pointer = true
has_traverse (array n size e) = true
has_traverse (composite fs) = true

module _ {S : Type 0} where
  -- A visit that does not return 0 is the last one.
  unfoldable pub go_on : S × ℕ → (S → S × ℕ) → S × ℕ
  go_on (s, zero) next = next s
  go_on (s, suc k) next = (s, suc k)

  -- The loop of addrproxy_traverse, from item `i` on
  unfoldable pub traverse_items : (ℕ → S → S × ℕ) → ℕ → ℕ → ℕ → ℕ → S → S × ℕ
  unfolding go_on
  traverse_items visit p size zero i s = (s, 0)
  traverse_items visit p size (suc n) i s =
      go_on (visit (p + i * size) s) (traverse_items visit p size n (i + 1))

  module _ (traverse_ref : ℕ → S → S × ℕ) where
    unfoldable mutual
      unfolding traverse_items go_on

      -- ft_traverse
      pub traverse : Shape → ℕ → S → S × ℕ
      traverse plain p s = (s, 0)
      traverse pointer p s = traverse_ref p s
      traverse (array n size e) p s =
          if has_traverse e then traverse_items (traverse e) p size n 0 s else (s, 0)
      traverse (composite fs) p s = traverse_fields fs p s

      -- compositeproxy_traverse
      pub traverse_fields : Fields → ℕ → S → S × ℕ
      traverse_fields end p s = (s, 0)
      traverse_fields (field_at off e fs) p s =
          let rest = traverse_fields fs p in
          if has_traverse e then go_on (traverse e (p + off) s) rest else rest s

-- The addresses of the pointers in a value.
unfoldable pub item_references : (ℕ → List ℕ) → ℕ → ℕ → ℕ → ℕ → List ℕ
item_references refs p size zero i = []
item_references refs p size (suc n) i = refs (p + i * size) ++ item_references refs p size n (i + 1)

unfoldable mutual
  unfolding item_references

  pub references : Shape → ℕ → List ℕ
  references plain p = []
  references pointer p = p ∷ []
  references (array n size e) p = item_references (references e) p size n 0
  references (composite fs) p = field_references fs p

  pub field_references : Fields → ℕ → List ℕ
  field_references end p = []
  field_references (field_at off e fs) p = references e (p + off) ++ field_references fs p

-- Py_VISIT of what the dictionary finds, if anything.
unfoldable pub visit_found : {S : Type 0} → (ℕ → S → S × ℕ) → S → Option ℕ → S × ℕ
visit_found visit s none = (s, 0)
visit_found visit s (some o) = visit o s

-- Proxy_TraverseRef with the collector's visit
unfoldable pub proxy_traverse_ref : {S : Type 0} → Registry → (ℕ → S → S × ℕ) → ℕ → S → S × ℕ
unfolding visit_found
proxy_traverse_ref r visit addr s = visit_found visit s (lookup (foreign addr) r.pointing)

-- Proxy_TraverseRef with Proxy_ClearRef: the reference is deleted.
unfoldable pub proxy_clear_ref : (ℕ → List ℕ) → ℕ → Option Registry → Option Registry × ℕ
unfolding then_do
proxy_clear_ref detached addr r = (then_do r (proxy_delref detached (foreign addr)), 0)

-- compositeproxy_traverse_py and addrproxy_traverse of a proxy, and compositeproxy_clear_py and
-- addrproxy_clear
unfoldable pub proxy_traverse : {S : Type 0} → Shape → ℕ → Registry → (ℕ → S → S × ℕ) → S → S × ℕ
unfolding traverse proxy_traverse_ref
proxy_traverse shape p_ptr r visit s = traverse (proxy_traverse_ref r visit) shape p_ptr s

unfoldable pub proxy_clear : Shape → ℕ → (ℕ → List ℕ) → Registry → Option Registry × ℕ
unfolding traverse proxy_clear_ref
proxy_clear shape p_ptr detached r = traverse (proxy_clear_ref detached) shape p_ptr (some r)

-- proxy_is_gc: only the registered base proxy of an allocation is collected.
unfoldable pub proxy_is_gc : ℕ → Registry → Bool
proxy_is_gc o r = is_this (r.proxy_dict (r.p_ptr o)) o
