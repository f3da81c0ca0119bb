-- ===== src/TypeSetup/Fields.antt =====
-- The references that a composite's proxy type holds on its fields' types: CompositeProxy_InitType of
-- composite_proxy.c takes one for each field whose type is handled, and `compositeproxytype_dealloc`
-- drops them. References are counted for each proxy type of a field.
use Prim.Native.String.{String}
use pycallocs.Prelude.{
  ℕ, ◌+◌, ◌-◌, ◌≡◌, refl, ap, arith, Option, none, some, List, [], ◌∷◌, ◌==◌, if◌then◌else◌,
}
use pycallocs.TypeSetup.{
  Found, Member, Getset, new_getset, new_getsets, composite_new_type, init_field, init_getsets,
  CompositeType, composite_init_type,
}

-- The counts of the references, by the types' numbers.
abbrev pub Refs : Type 0
Refs = ℕ → ℕ

abbrev pub take_ref : Found → Refs → Refs
take_ref t refs k = if k == t.ft_proxy_type then refs k + 1 else refs k

abbrev pub drop_ref : Found → Refs → Refs
drop_ref t refs k = if k == t.ft_proxy_type then refs k - 1 else refs k

-- The reference that ForeignType_GetOrCreate returns, if any
abbrev pub take_found : Option Found → Refs → Refs
take_found none refs = refs
take_found (some t) refs = take_ref t refs

-- Py_XDECREF
abbrev pub xdecref : Option Found → Refs → Refs
xdecref none refs = refs
xdecref (some t) refs = drop_ref t refs

-- The references that the loop of CompositeProxy_InitType takes
module _ (get : ℕ → Option Found) where
  unfoldable pub init_references : List Getset → List Member → Refs → Refs
  init_references [] mbs refs = refs
  init_references (g ∷ gs) [] refs = refs
  init_references (g ∷ gs) (mb ∷ mbs) refs = init_references gs mbs (take_found (get mb.type) refs)

-- The loop of compositeproxytype_dealloc
unfoldable pub drop_fields : List Getset → Refs → Refs
drop_fields [] refs = refs
drop_fields (g ∷ gs) refs = drop_fields gs (xdecref g.type refs)

-- compositeproxytype_dealloc, as far as it drops references
unfoldable pub compositeproxytype_dealloc : CompositeType → Refs → Refs
unfolding drop_fields
compositeproxytype_dealloc c refs = drop_fields c.tp_getset refs

-- How many of the entries hold a type.
abbrev holds : Option Found → ℕ → ℕ
holds none k = 0
holds (some t) k = if k == t.ft_proxy_type then 1 else 0

abbrev held : List Getset → ℕ → ℕ
held [] k = 0
held (g ∷ gs) k = holds g.type k + held gs k

take_found_lem : (o : Option Found) (refs : Refs) (k : ℕ) → take_found o refs k ≡ refs k + holds o k
take_found_lem none refs k = omega arith
take_found_lem (some t) refs k = ground arith

xdecref_lem : (o : Option Found) (refs : Refs) (k : ℕ) → xdecref o refs k ≡ refs k - holds o k
xdecref_lem none refs k = omega arith
xdecref_lem (some t) refs k = ground arith

drop_fields_lem :
    (gs : List Getset) (refs : Refs) (k : ℕ) → drop_fields gs refs k ≡ refs k - held gs k
unfolding drop_fields
drop_fields_lem [] refs k = omega arith
drop_fields_lem (g ∷ gs) refs k =
    omega (arith, drop_fields_lem gs (xdecref g.type refs) k, xdecref_lem g.type refs k)

init_field-type : (g : Getset) (mb : Member) (o : Option Found) → (init_field g mb o).type ≡ o
unfolding init_field
init_field-type g mb none = refl
init_field-type g mb (some t) = refl

new_getsets-held : (names : List String) (k : ℕ) → held (new_getsets (some names)) k ≡ 0
unfolding new_getsets
new_getsets-held [] k = refl
new_getsets-held (n ∷ ns) k = omega (arith, new_getsets-held ns k)

module _ (get : ℕ → Option Found) where
  init_references_lem :
      (names : List String) (mbs : List Member) (refs : Refs) (k : ℕ)
      → let gs = new_getsets (some names) in
        init_references get gs mbs refs k ≡ refs k + held (init_getsets get gs mbs) k
  unfolding new_getsets init_references init_getsets
  init_references_lem [] mbs refs k = omega arith
  init_references_lem (n ∷ ns) [] refs k = omega (arith, new_getsets-held ns k)
  init_references_lem (n ∷ ns) (mb ∷ mbs) refs k =
      let rest = init_references_lem ns mbs (take_found (get mb.type) refs) k in
      let taken = take_found_lem (get mb.type) refs k in
      let same : holds (init_field (new_getset n) mb (get mb.type)).type k ≡ holds (get mb.type) k =
        ap (λ (o : Option Found). holds o k) (init_field-type (new_getset n) mb (get mb.type)) in
      ground arith

  -- Deallocating the proxy type of a composite, with or without names of fields, drops the
  -- references on the types of its fields that its initialisation took, and no others: each type
  -- has as many as before, whatever types are handled and however often one occurs.
  pub compositeproxytype_dealloc-IsBalanced :
      (proxy : ℕ) (names : Option (List String)) (mbs : List Member) (refs : Refs) (k : ℕ)
      → let c = composite_new_type proxy names in
        compositeproxytype_dealloc
          (composite_init_type get mbs c)
          (init_references get c.tp_getset mbs refs)
          k
        ≡ refs k
  unfolding compositeproxytype_dealloc composite_init_type composite_new_type new_getsets
      init_references init_getsets drop_fields
  compositeproxytype_dealloc-IsBalanced proxy none mbs refs k = refl
  compositeproxytype_dealloc-IsBalanced proxy (some names) mbs refs k =
      let gs = new_getsets (some names) in
      omega (
        arith,
        init_references_lem names mbs refs k,
        drop_fields_lem (init_getsets get gs mbs) (init_references get gs mbs refs) k,
      )
