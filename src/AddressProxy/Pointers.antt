-- ===== src/AddressProxy/Pointers.antt =====
-- The pointer type of address_proxy.c: which objects `addrproxy_typecheck` accepts as a pointer, and
-- `addrproxy_storeinto` and `addrproxy_getdataptr`, which rest on it.
use pycallocs.Prelude.{
  ℕ, ◌^◌, ◌≡◌, ◌<◌, refl, arith, ◌⊎◌, inl, inr, Bool, true, false, ◌&&◌, ◌||◌, not, Bool-cases,
  Option, none, some, ℤ, pos, negsuc, ◌==◌, if◌then◌else◌, type_error,
}
use pycallocs.Memory.{Mem, load, store}
use pycallocs.Memory.Frame.{SameOutside, SameOutside-store}
use pycallocs.Memory.RoundTrip.{load-store}
use pycallocs.Python.{Stored, stored, refused}

-- Python's types, by number: `is_subtype` is PyType_IsSubtype, which PyObject_TypeCheck asks of the
-- type of an object; `is_address` tells the types of AddressProxy_Metatype.
pub record Types : Type 0 where
  pub is_subtype : ℕ → ℕ → Bool
  pub is_address : ℕ → Bool
  pub proxy_type : ℕ

-- An object, by its own address and type; `p_ptr` and `ap_length` are its fields if it is a proxy.
pub record Instance : Type 0 where
  pub object : ℕ
  pub type : ℕ
  pub p_ptr : ℕ
  pub ap_length : ℤ

pub data Value : Type 0 where
  py_none : Value
  instance_of : Instance → Value

-- The foreign type of a pointer: its own proxy type; whether its pointee's foreign type is there,
-- which is NULL if it is not handled; and of the pointee the proxy type, if any, and whether it is
-- `void`.
pub record PointerType : Type 0 where
  pub ft_proxy_type : ℕ
  pub has_pointee : Bool
  pub pointee_proxy : Option ℕ
  pub is_void : Bool

unfoldable pub is_one : ℤ → Bool
is_one (pos n) = n == 1
is_one (negsuc n) = false

-- What a store leaves, with the pointer write that liballocs was told of.
pub record PointerStored : Type 0 where
  pub result : Stored
  pub notified : Option (ℕ × ℕ)

-- What a store leaves if the object was checked; a crash, where a NULL pointee type is used, is none.
abbrev pub Checked : Type 0
Checked = Option PointerStored

-- The write is notified, then done.
unfoldable pub store_pointer : ℕ → ℕ → Mem → PointerStored
store_pointer dest p m = record { result = stored (store 8 m dest p); notified = some (dest, p) }

-- The cell that holds the pointer: the static null pointer, or the field `p_ptr` of a proxy.
pub data Cell : Type 0 where
  nullptr : Cell
  p_ptr_of : ℕ → Cell

abbrev pub cell_of : Value → Cell
cell_of py_none = nullptr
cell_of (instance_of o) = p_ptr_of o.object

-- What an object points to.
abbrev pub pointer_of : Value → ℕ
pointer_of py_none = 0
pointer_of (instance_of o) = o.p_ptr

module _ (types : Types) where
  abbrev pub type_check : Instance → ℕ → Bool
  type_check o t = types.is_subtype o.type t

  -- A proxy of the pointee, unless it is an array of other than one item.
  unfoldable pub is_pointee : Instance → Option ℕ → Bool
  unfolding is_one
  is_pointee o none = false
  is_pointee o (some t) = type_check o t && (not (types.is_address o.type) || is_one o.ap_length)

  -- The rest of addrproxy_typecheck, with the pointee's foreign type
  unfoldable pub check_pointee : Instance → PointerType → Bool
  unfolding is_pointee
  check_pointee o type =
      is_pointee o type.pointee_proxy || (type.is_void && type_check o types.proxy_type)

  -- addrproxy_typecheck; none where the foreign type of the pointee is NULL and is used.
  unfoldable pub addrproxy_typecheck : Instance → PointerType → Option Bool
  unfolding check_pointee
  addrproxy_typecheck o type =
      if type_check o type.ft_proxy_type
      then some true
      else if type.has_pointee
      then some (check_pointee o type)
      else none

  unfoldable pub store_checked : Instance → ℕ → Mem → Option Bool → Checked
  unfolding store_pointer
  store_checked o dest m none = none
  store_checked o dest m (some true) = some (store_pointer dest o.p_ptr m)
  store_checked o dest m (some false) =
      some (record { result = refused m type_error; notified = none })

  unfoldable pub cell_checked : Instance → Option Bool → Option (Option Cell)
  cell_checked o none = none
  cell_checked o (some true) = some (some (p_ptr_of o.object))
  cell_checked o (some false) = some none

  -- addrproxy_storeinto
  unfoldable pub addrproxy_storeinto : Value → ℕ → PointerType → Mem → Checked
  unfolding store_checked store_pointer addrproxy_typecheck
  addrproxy_storeinto py_none dest type m = some (store_pointer dest 0 m)
  addrproxy_storeinto (instance_of o) dest type m =
      store_checked o dest m (addrproxy_typecheck o type)

  -- addrproxy_getdataptr
  unfoldable pub addrproxy_getdataptr : Value → PointerType → Option (Option Cell)
  unfolding cell_checked addrproxy_typecheck
  addrproxy_getdataptr py_none type = some (some nullptr)
  addrproxy_getdataptr (instance_of o) type = cell_checked o (addrproxy_typecheck o type)

  -- Whether addrproxy_getfrom gives the base proxy itself, by its type: for `void *` always.
  unfoldable pub is_base_of : ℕ → Option ℕ → Bool
  is_base_of t none = false
  is_base_of t (some pointee) = types.is_subtype t pointee

  unfoldable pub accepts_base : PointerType → ℕ → Bool
  unfolding is_base_of
  accepts_base type t = type.is_void || is_base_of t type.pointee_proxy

  -- Python's types as the program makes them: proxy types are subtypes of `allocs.Proxy`.
  pub record IsHierarchy (type : PointerType) : Type 0 where
    pub trans :
        (a b c : ℕ)
        → types.is_subtype a b ≡ true
        → types.is_subtype b c ≡ true
        → types.is_subtype a c ≡ true
    pub own : types.is_subtype type.ft_proxy_type types.proxy_type ≡ true
    pub pointee : (t : ℕ) → type.pointee_proxy ≡ some t → types.is_subtype t types.proxy_type ≡ true

  -- The object is None or a proxy.
  abbrev pub IsReference : Value → Type 0
  IsReference py_none = Unit
  IsReference (instance_of o) = types.is_subtype o.type types.proxy_type ≡ true

  -- The object's pointer is stored, and nothing else.
  pub record IsPointed (v : Value) (dest : ℕ) (m : Mem) (s : PointerStored) : Type 0 where
    pub reference : IsReference v
    pub succeeded : s.result.status ≡ none
    pub notified : s.notified ≡ some (dest, pointer_of v)
    pub loaded : load 8 s.result.mem dest ≡ pointer_of v
    pub same : SameOutside dest 8 m s.result.mem

  checked_both : (a b : Bool) → (a && b) ≡ true → (a ≡ true) × (b ≡ true)
  checked_both true b eq = (refl, eq)
  checked_both false b eq = absurd cc

  pointee-is_subtype :
      (o : Instance) (type : PointerType) (p : Option ℕ)
      → IsHierarchy type
      → type.pointee_proxy ≡ p
      → is_pointee o p ≡ true
      → types.is_subtype o.type types.proxy_type ≡ true
  unfolding is_pointee
  pointee-is_subtype o type none h eq points = absurd cc
  pointee-is_subtype o type (some t) h eq points =
      h.trans _ _ _ (checked_both _ _ points).0 (h.pointee t eq)

  check_pointee-is_subtype :
      (o : Instance) (type : PointerType)
      → IsHierarchy type
      → check_pointee o type ≡ true
      → types.is_subtype o.type types.proxy_type ≡ true
  unfolding check_pointee
  check_pointee-is_subtype o type h eq = elim (Bool-cases (is_pointee o type.pointee_proxy)) [
    | inl points ↦ pointee-is_subtype o type type.pointee_proxy h refl points
    | inr no_pointee ↦ (checked_both type.is_void _ (simp no_pointee at eq)).1
  ]

  -- The object is no proxy of the pointer's own type, and the foreign type of the pointee is NULL.
  abbrev pub Crashes : Value → PointerType → Type 0
  Crashes py_none type = ⊥
  Crashes (instance_of o) type =
      (types.is_subtype o.type type.ft_proxy_type ≡ false) × (type.has_pointee ≡ false)

  -- What the check says, and of what.
  typecheck_cases :
      (o : Instance) (type : PointerType)
      → IsHierarchy type
      → ((addrproxy_typecheck o type ≡ some true) × IsReference (instance_of o))
        ⊎ (addrproxy_typecheck o type ≡ some false)
        ⊎ ((addrproxy_typecheck o type ≡ none) × Crashes (instance_of o) type)
  unfolding addrproxy_typecheck
  typecheck_cases o type h = elim (Bool-cases (type_check o type.ft_proxy_type)) [
    | inl own ↦ inl (rw own refl, h.trans _ _ _ own h.own)
    | inr other ↦ elim (Bool-cases type.has_pointee) [
      | inr missing ↦ inr (inr (rw (other, missing) refl, (other, missing)))
      | inl there ↦ elim (Bool-cases (check_pointee o type)) [
        | inl points ↦
            inl (rw (other, there, points) refl, check_pointee-is_subtype o type h points)
        | inr refused ↦ inr (inl (rw (other, there, refused) refl))
      ]
    ]
  ]

  store_pointer-IsPointed :
      (v : Value) (dest : ℕ) (m : Mem)
      → IsReference v
      → pointer_of v < 2 ^ 64
      → IsPointed v dest m (store_pointer dest (pointer_of v) m)
  unfolding store_pointer
  store_pointer-IsPointed v dest m reference small = record {
    reference = reference;
    succeeded = refl;
    notified = refl;
    loaded = load-store 8 m dest (pointer_of v) (omega arith);
    same = SameOutside-store 8 m dest (pointer_of v);
  }

  -- The object is a reference; its pointer is stored, and its cell found.
  pub record IsStored (v : Value) (dest : ℕ) (type : PointerType) (m : Mem) : Type 0 where
    pub stored_as : PointerStored
    pub given : addrproxy_storeinto v dest type m ≡ some stored_as
    pub cell : addrproxy_getdataptr v type ≡ some (some (cell_of v))
    pub pointed : IsPointed v dest m stored_as

  -- Storing an object as a pointer, for all types that Python can have. Either the object is None or
  -- a proxy, never another object: then its 64-bit pointer, NULL for None, is announced to liballocs
  -- and lies in the eight bytes at the destination, nothing else changes, and `addrproxy_getdataptr`
  -- finds the pointer's cell; or it raises TypeError, nothing is written or announced, and
  -- `addrproxy_getdataptr` finds nothing; or both use a NULL pointer, which happens only if the
  -- pointee's type is not handled and the object is not of the pointer's own proxy type.
  pub addrproxy_storeinto_cases :
      (v : Value) (dest : ℕ) (type : PointerType) (m : Mem)
      → IsHierarchy type
      → pointer_of v < 2 ^ 64
      → IsStored v dest type m
        ⊎ ((addrproxy_getdataptr v type ≡ some none)
            × (addrproxy_storeinto v dest type m
                ≡ some (record { result = refused m type_error; notified = none })))
        ⊎ ((addrproxy_getdataptr v type ≡ none)
            × (addrproxy_storeinto v dest type m ≡ none)
            × Crashes v type)
  unfolding addrproxy_storeinto addrproxy_getdataptr store_checked cell_checked
  addrproxy_storeinto_cases py_none dest type m h small = inl (record {
    stored_as = store_pointer dest 0 m;
    given = refl;
    cell = refl;
    pointed = store_pointer-IsPointed py_none dest m tt small;
  })
  addrproxy_storeinto_cases (instance_of o) dest type m h small = elim (typecheck_cases o type h) [
    | inl (accepted, reference) ↦ inl (record {
      stored_as = store_pointer dest o.p_ptr m;
      given = rw accepted refl;
      cell = rw accepted refl;
      pointed = store_pointer-IsPointed (instance_of o) dest m reference small;
    })
    | inr (inl not_accepted) ↦ inr (inl (rw not_accepted refl, rw not_accepted refl))
    | inr (inr (crash, why)) ↦ inr (inr (rw crash refl, rw crash refl, why))
  ]
