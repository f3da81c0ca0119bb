-- ===== src/Registry/Arrays.antt =====
-- `arrayproxy_getfrom` of address_proxy.c: the proxy of an array in foreign memory is one of
-- Proxy_GetFrom, whose length is then assigned, also if the proxy was there before. The lengths of
-- all address proxies are a store beside the registry.
use pycallocs.Prelude.{
  ℕ, ◌≡◌, ◌≢◌, ◌<◌, ◌/◌, false, refl, ◌⊎◌, arith, true, ◌&&◌, Option, none, some, List, ℤ, pos,
  ◌==◌,
}
use pycallocs.Bounds.{Visit, AllocInfo, fetch_bounds}
use pycallocs.AddressProxy.Length.{Pointee}
use pycallocs.ArrayProxy.{array_at}
use pycallocs.Registry.{
  Registry, update, incref, Allocation, Got, reuse, get_with_base, base_found, get_or_create_base,
  get_from,
}
use pycallocs.Registry.State.{Owned}
use pycallocs.Registry.Get.{Gets}

-- `ap_length` of each address proxy.
abbrev pub Lengths : Type 0
Lengths = ℕ → ℤ

-- What the call gives, with the lengths.
abbrev pub GotArray : Type 0
GotArray = Option ((Registry × Option ℕ) × Lengths)

unfoldable pub set_length : ℤ → Lengths → Got → GotArray
set_length n ls none = none
set_length n ls (some (s, none)) = some ((s, none), ls)
set_length n ls (some (s, some o)) = some ((s, some o), update ls o n)

module _ (new : Registry → Option ℕ) (detached : ℕ → List ℕ) where
  -- arrayproxy_getfrom, with the length of the array type, if known, and what liballocs says
  unfoldable pub arrayproxy_getfrom :
      ℕ
      → ℕ
      → Option Allocation
      → Option ℕ
      → Pointee
      → AllocInfo
      → List Visit
      → Registry
      → Lengths
      → GotArray
  unfolding set_length get_from
  arrayproxy_getfrom addr type a known t info visits s ls =
      set_length (array_at addr known t info visits).ap_length ls
        (get_from new detached addr type a s)

-- The length that the array is to have: that of the type, or what liballocs' bounds give.
abbrev pub HasLength : ℕ → Option ℕ → Pointee → AllocInfo → List Visit → ℤ → Type 0
HasLength addr (some n) t info visits l = l ≡ pos n
HasLength addr none t info visits l =
    ((t.size ≡ 0) × (l ≡ pos 0))
    ⊎ ((t.known_length ≡ false) × (l ≡ pos 0))
    ⊎ (((0 < t.size) × (t.known_length ≡ true))
        × (((addr ≡ (fetch_bounds addr t.uniq info visits).base)
              × (l ≡ pos ((fetch_bounds addr t.uniq info visits).size / t.size)))
            ⊎ ((addr ≢ (fetch_bounds addr t.uniq info visits).base) × (l ≡ pos 1))))

-- A proxy of the array, with its length; no other length has changed.
pub record IsArray (addr type : ℕ) (n : ℤ) (w : Owned) (a : Option Allocation) (before : Registry)
    (ls : Lengths) (r : GotArray) : Type 0 where
  pub after : Registry
  pub o : ℕ
  pub lengths : Lengths
  pub given : r ≡ some ((after, some o), lengths)
  pub gets : Gets addr type w a before after o
  pub long : lengths o ≡ n
  pub others : (p : ℕ) → p ≢ o → lengths p ≡ ls p

-- The proxy of an allocation loses its length. Where the start of an allocation, whose registered
-- proxy has the proxy type of the items' addresses, is read as an array of a known length, however
-- many items the allocation has, the result is that same proxy, and its length becomes that of the
-- array type, for all that hold the proxy.
pub arrayproxy_getfrom-shared :
    (new : Registry → Option ℕ) (detached : ℕ → List ℕ) (type n b : ℕ) (x : Allocation)
    (t : Pointee) (info : AllocInfo) (visits : List Visit) (before : Registry) (ls : Lengths)
    → before.proxy_dict x.start ≡ some b
    → before.types b ≡ type
    → before.p_ptr b ≡ x.start
    → arrayproxy_getfrom new detached x.start type (some x) (some n) t info visits before ls
      ≡ some ((incref b before, some b), update ls b (pos n))
unfolding arrayproxy_getfrom set_length get_from get_with_base get_or_create_base base_found reuse
    array_at
arrayproxy_getfrom-shared new detached type n b x t info visits before ls found typed at =
    let same : (before.types b == type && before.p_ptr b == x.start) ≡ true = ground arith in
    rw (found, same) refl
