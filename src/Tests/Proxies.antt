-- ===== src/Tests/Proxies.antt =====
-- proxy.c at concrete inputs: an allocation at 4096 of a struct of type 7, and its field at 4104 of
-- type 8.
use pycallocs.Prelude.{
  ℕ, ◌+◌, ◌≡◌, ◌<◌, ◌%◌, ◌⊎◌, refl, arith, Option, none, some, List, [], ◌∷◌, ◌==◌, if◌then◌else◌,
}
use pycallocs.Registry.{
  field, lookup, Registry, update, incref, proxied, Allocation, get_from, get_or_create_base,
  get_with_base, reuse, derive, add_ref_to, decref, released,
}
use pycallocs.Registry.Entries.{entries}
use pycallocs.Registry.State.{one_more}
use pycallocs.Registry.Shrinks.{Shrinks}
use pycallocs.Registry.Drop.{IsSound, IsFreed, decref_cases}
use pycallocs.Memory.{Mem}
use pycallocs.Registry.Copies.{IsCopy, copy_value, copy_value_cases}
use pycallocs.Registry.Get.{GotProxy, get_from-GotProxy}
use pycallocs.Registry.Steps.{
  World, empty, empty-IsSound, Step, get, share, Reach, here, next, now, longer, Reach-IsSound,
  Lives-base,
}

-- Python's memory: the first free one of two objects.
abbrev pub new : Registry → Option ℕ
new s = if s.refs 1 == 0 then some 1 else if s.refs 2 == 0 then some 2 else none

pub fresh : (s : Registry) (o : ℕ) → new s ≡ some o → s.refs o ≡ 0
fresh s o eq = ground arith

-- The byte at an address is its number, cut to a byte.
abbrev counting : Mem
counting a = a % 256

abbrev pub no_pointers : ℕ → List ℕ
no_pointers a = []

abbrev pub struct : Option Allocation
struct = some (record { start = 4096; type = proxied 7 })

-- Behind the call for the field: 1 is the base, owned by the entry of 2's field, and 2 the result.
abbrev pub both : World
both = record {
  owned = one_more 2 empty.owned;
  registry = record {
    refs = update (update (update (update empty.registry.refs 1 1) 2 1) 1 2) 1 1;
    p_ptr = update (update empty.registry.p_ptr 1 4096) 2 4104;
    types = update (update empty.registry.types 1 7) 2 8;
    proxy_dict = update empty.registry.proxy_dict 4096 (some 1);
    pointing = (field 2, 1) ∷ [];
  };
}

get_both : get_from new no_pointers 4104 8 struct empty.registry ≡ some (both.registry, some 2)
unfolding get_from get_or_create_base get_with_base reuse derive decref released add_ref_to
get_both = refl

got_both : Step new empty both
got_both = get no_pointers 4104 8 2 struct get_both refl

pub Reach-both : Reach new empty both
Reach-both = next here got_both

get_from-GotProxy_example :
    GotProxy new 4104 8 empty.owned struct empty.registry
      (get_from new no_pointers 4104 8 struct empty.registry)
get_from-GotProxy_example =
    get_from-GotProxy new fresh no_pointers 4104 8 empty.owned struct empty.registry empty-IsSound

Reach-IsSound_example : IsSound both.owned both.registry
Reach-IsSound_example = Reach-IsSound new fresh Reach-both

-- Dropping the result frees it and then its base.
decref_cases_example :
    (s' : Registry) × (decref no_pointers 2 both.registry ≡ some s')
    × IsSound empty.owned s'
    × Shrinks both.registry s'
    × ((0 < empty.owned 2 + entries 2 s'.pointing) ⊎ IsFreed 2 s')
decref_cases_example =
    decref_cases no_pointers empty.owned both.registry 2 (Reach-IsSound new fresh Reach-both)

-- The program takes a second reference of the result.
abbrev shared : World
shared = record { owned = one_more 2 both.owned; registry = incref 2 both.registry }

Lives-base_example :
    (lookup (field 2) shared.registry.pointing ≡ some 1) × (0 < shared.registry.refs 1)
Lives-base_example =
    Lives-base new fresh {o = 2} {x = both} {y = shared} 1 Reach-both refl
      (longer now (share 2 refl) (omega arith))

-- A copy of the eight bytes at 8192 into a block at 4096.
copy_value_cases_example :
    let r = copy_value new 8 4096 7 8192 counting empty.registry in
    ((new empty.registry ≡ none) × (r.got ≡ some (empty.registry, none)) × (r.mem ≡ counting))
    ⊎ IsCopy 8 4096 7 8192 empty.owned counting empty.registry r
copy_value_cases_example =
    copy_value_cases new fresh 8 4096 7 8192 empty.owned counting empty.registry empty-IsSound refl
