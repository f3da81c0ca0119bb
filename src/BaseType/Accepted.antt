-- ===== src/BaseType/Accepted.antt =====
-- Which base types `ForeignBaseType_New` accepts, and what it gives them.
use pycallocs.Prelude.{
  ℕ, ◌*◌, ◌≤◌, ◌≡◌, refl, ◌⊎◌, ◌↔◌, ◌≢◌, inl, inr, arith, ok, is_ok, true, List, [], ◌∷◌,
}
use pycallocs.Memory.{Mem, load}
use pycallocs.Memory.RoundTrip.{IsBytes}
use pycallocs.Python.{Python}
use pycallocs.BaseType.Floats.{Floats}
use pycallocs.BaseType.Frames.{store_size, IsContained, storeinto-IsContained}
use pycallocs.BaseType.Integers.{Holds, uint_round_trip, int_round_trip}
use pycallocs.BaseType.Types.{
  Encoding, boolean, address, unsigned, signed, float, complex_float, unknown, BaseUniqtype,
  BaseForeignType, foreign_base_type_new, getfrom, storeinto, get_uint, get_int, store_uint,
  store_int,
}

abbrev OneOf : ℕ → List ℕ → Type 0
OneOf n [] = ⊥
OneOf n (x ∷ xs) = (n ≡ x) ⊎ OneOf n xs

-- The sizes that C gives the scalar types of an encoding.
abbrev pub HasSize : Encoding → ℕ → Type 0
HasSize boolean size = Unit
HasSize float size = OneOf size (4 ∷ 8 ∷ 16 ∷ [])
HasSize complex_float size = OneOf size (8 ∷ 16 ∷ 32 ∷ [])
HasSize unknown size = ⊥
HasSize _ size = OneOf size (1 ∷ 2 ∷ 4 ∷ 8 ∷ [])

accepted_iff_parts :
    (enc : Encoding) (size bit_size : ℕ)
    → (is_ok (foreign_base_type_new (record { enc = enc; size = size; bit_size = bit_size }))
        ≡ true)
      ↔ (HasSize enc size × (bit_size ≡ 8 * size))
unfolding foreign_base_type_new
accepted_iff_parts boolean size bit_size = ground arith
accepted_iff_parts _ size bit_size = ground arith

-- A base type is accepted exactly when its encoding is known, it has a size of that encoding (any
-- size will do for a boolean), and it is no bit field.
pub accepted_iff :
    (t : BaseUniqtype)
    → (is_ok (foreign_base_type_new t) ≡ true) ↔ (HasSize t.enc t.size × (t.bit_size ≡ 8 * t.size))
accepted_iff t = accepted_iff_parts t.enc t.size t.bit_size

size_parts :
    (enc : Encoding) (size bit_size : ℕ) (f : BaseForeignType)
    → foreign_base_type_new (record { enc = enc; size = size; bit_size = bit_size }) ≡ ok f
    → enc ≢ boolean
    → store_size f.ft_storeinto ≡ size
unfolding foreign_base_type_new
size_parts boolean size bit_size f got ne = absurd (ne refl)
size_parts _ size bit_size f got ne = ground arith

-- Whatever object is stored through an accepted type that is no boolean, only the bytes of one
-- object of that type are written, and none if the conversion fails.
pub accepted-IsContained :
    (py : Python) (fl : Floats py.Obj) (t : BaseUniqtype) (f : BaseForeignType) (obj : py.Obj)
    (dest : ℕ) (m : Mem)
    → foreign_base_type_new t ≡ ok f
    → t.enc ≢ boolean
    → IsContained t.size dest m (storeinto py fl f.ft_storeinto obj dest m)
accepted-IsContained py fl t f obj dest m got ne =
    rw (← size_parts t.enc t.size t.bit_size f got ne)
      (storeinto-IsContained py fl f.ft_storeinto obj dest m)

abbrev pub IsInteger : Encoding → Type 0
IsInteger address = Unit
IsInteger unsigned = Unit
IsInteger signed = Unit
IsInteger _ = ⊥

-- The conversions of an integer type are `uintN` or `intN` of its own width.
IntegerConversions : BaseUniqtype → BaseForeignType → Type 0
IntegerConversions t f =
    (1 ≤ t.size)
    × (t.size ≤ 8)
    × (((f.ft_getfrom ≡ get_uint t.size) × (f.ft_storeinto ≡ store_uint t.size))
        ⊎ ((f.ft_getfrom ≡ get_int t.size) × (f.ft_storeinto ≡ store_int t.size)))

integer_parts :
    (enc : Encoding) (size bit_size : ℕ) (f : BaseForeignType)
    → foreign_base_type_new (record { enc = enc; size = size; bit_size = bit_size }) ≡ ok f
    → IsInteger enc
    → IntegerConversions (record { enc = enc; size = size; bit_size = bit_size }) f
unfolding foreign_base_type_new IntegerConversions
integer_parts address size bit_size f got int = ground arith
integer_parts unsigned size bit_size f got int = ground arith
integer_parts signed size bit_size f got int = ground arith
integer_parts _ size bit_size f got int = absurd int

-- What an accepted integer type reads out of memory it can store again: the conversion back
-- succeeds, the bytes written are those read, and no other byte changes.
pub getfrom-storeinto :
    (py : Python) (fl : Floats py.Obj) (t : BaseUniqtype) (f : BaseForeignType) (a dest : ℕ)
    (m : Mem)
    → foreign_base_type_new t ≡ ok f
    → IsInteger t.enc
    → IsBytes m
    → Holds t.size dest
        (load t.size m a)
        m
        (storeinto py fl f.ft_storeinto (getfrom py fl f.ft_getfrom m a) dest m)
unfolding getfrom storeinto IntegerConversions
getfrom-storeinto py fl t f a dest m got int bytes =
    let (lo, hi, which) = integer_parts t.enc t.size t.bit_size f got int in
    elim which [
      | inl (g, s) ↦ rw (g, s) (uint_round_trip py t.size a dest m lo hi bytes)
      | inr (g, s) ↦ rw (g, s) (int_round_trip py t.size a dest m lo hi bytes)
    ]
