-- ===== src/Tests/TypeSetups.antt =====
-- The set-up of a struct's proxy type at a concrete input: a struct (proxy type 5) at offset 0, and a
-- pointer behind it.
use pycallocs.Prelude.{ℕ, ◌≡◌, ◌⊎◌, Option, none, some, List, [], ◌∷◌, map, ◌==◌, if◌then◌else◌}
use Prim.Native.String.{String}
use pycallocs.ForeignType.{composite, address}
use pycallocs.TypeSetup.{Found, Member, Getset, composite_new_type, composite_init_type}
use pycallocs.TypeSetup.Fields.{
  compositeproxytype_dealloc, init_references, compositeproxytype_dealloc-IsBalanced,
}
use pycallocs.TypeSetup.Safe.{AllSafe, IsFirstMember, names_of, composite_init_type-AllSafe}

abbrev found : ℕ → Option Found
found k =
    if k == 1
    then some (record { kind = composite []; ft_proxy_type = 5 })
    else if k == 2
    then some (record { kind = address 1; ft_proxy_type = 6 })
    else none

abbrev members : List Member
members =
    record { type = 1; offset = 0 }
    ∷ record { type = 2; offset = 8 }
    ∷ record { type = 3; offset = 16 }
    ∷ []

abbrev names : Option (List String)
names = some ("head" ∷ "next" ∷ "mask" ∷ [])

composite_init_type-AllSafe_example :
    let c = composite_init_type found members (composite_new_type 0 names) in
    (map (λ (g : Getset). g.name) c.tp_getset ≡ names_of names)
    × AllSafe found c.tp_getset members
    × ((c.tp_base ≡ 0) ⊎ IsFirstMember found members c.tp_base)
composite_init_type-AllSafe_example = composite_init_type-AllSafe found 0 names members

compositeproxytype_dealloc-IsBalanced_example :
    let c = composite_new_type 0 names in
    compositeproxytype_dealloc
      (composite_init_type found members c)
      (init_references found c.tp_getset members (λ k. 3))
      5
    ≡ 3
compositeproxytype_dealloc-IsBalanced_example =
    compositeproxytype_dealloc-IsBalanced found 0 names members (λ k. 3) 5
