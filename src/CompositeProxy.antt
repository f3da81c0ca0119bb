-- ===== src/CompositeProxy.antt =====
-- composite_proxy.c: the fields of a struct or union, and `compositeproxy_init`. Its counts are
-- `unsigned`; fewer than 2 ^ 32 arguments are taken for granted.
pub mod Fields
pub mod Init
pub mod Copy
pub mod Contained
use Prim.Native.String.{String}
use pycallocs.Prelude.{
  ℕ, zero, suc, ◌+◌, ◌≤◌, Bool, true, false, ◌&&◌, Option, none, some, List, [], ◌∷◌, Error,
  type_error, value_error, Result, ok, err, ◌==◌, ltb, leb, if◌then◌else◌, length, get_elem?,
}
use pycallocs.Memory.{Mem, zero_fill, memcpy}
use pycallocs.Memory.Frame.{SameOutside}
use pycallocs.Python.{Stored, stored, refused}

-- The foreign type of a field, as far as a composite uses it. Its store returns, and writes the bytes
-- of the value only, as those of the basic types do and that of a struct by copying a proxy. A store
-- that crashes, and a store into a nested struct that makes a new block for a converted object, which
-- is `proxy_store_into`, are outside.
pub record FieldType (Obj : Type 0) : Type 0 where
  pub size : ℕ
  pub getfrom : Mem → ℕ → Result Obj
  pub storeinto : Obj → ℕ → Mem → Stored
  -- A store writes the bytes of one value only.
  pub contained :
      (obj : Obj) (dest : ℕ) (m : Mem) → SameOutside dest size m (storeinto obj dest m).mem

-- A `struct field_info` with the name of its getset entry. Without a type (a foreign type that is
-- not handled) the entry's `get` is `compositeproxy_getinvalidfield`.
pub record FieldInfo (Obj : Type 0) : Type 0 where
  pub name : String
  pub type : Option (FieldType Obj)
  pub offset : ℕ

-- A dictionary: its size, and `PyDict_GetItemString`.
pub record Dict (Obj : Type 0) : Type 0 where
  pub size : ℕ
  pub get : String → Option Obj

-- What `compositeproxy_init` asks of an object: its pointer if it is a proxy of the same type, its
-- contents if it is a dictionary, its items if it is a tuple, and `PyObject_GetAttrString`.
pub record Objects (Obj : Type 0) : Type 0 where
  pub same_type : Obj → Option ℕ
  pub as_dict : Obj → Option (Dict Obj)
  pub as_tuple : Obj → Option (List Obj)
  pub get_attr : Obj → String → Option Obj

-- The `args` of an initialisation: a tuple, or, in convert mode, one object; the code is in that mode
-- only without keywords, so that a `convert` has none.
pub data InitArgs (Obj : Type 0) : Type 0 where
  tuple : List Obj → InitArgs Obj
  convert : Obj → InitArgs Obj

-- A composite proxy: its address, the size and the fields of its type.
pub record CompositeProxy (Obj : Type 0) : Type 0 where
  pub p_ptr : ℕ
  pub tp_itemsize : ℕ
  pub fields : List (FieldInfo Obj)

-- The loop over the fields: what it leaves, and how many it initialised.
pub record Initialized : Type 0 where
  pub result : Stored
  pub count : ℕ

-- A field that was given a value: the loop goes on only if the store succeeded.
unfoldable pub after_store : Option Error → Stored → (Mem → Initialized) → Initialized
after_store (some e) s rest = record { result = s; count = 0 }
after_store none s rest = let r = rest s.mem in record { result = r.result; count = suc r.count }

-- The test behind the loop.
unfoldable pub check_count : ℕ → ℕ → ℕ → Mem → Stored
check_count nargs nkwargs count m =
    if leb count (nargs + nkwargs)
    then stored m
    else if leb count nargs
    then refused m type_error
    else refused m value_error

unfoldable pub finish_init : ℕ → ℕ → Initialized → Option Error → Stored
unfolding check_count
finish_init nargs nkwargs r (some e) = r.result
finish_init nargs nkwargs r none = check_count nargs nkwargs r.count r.result.mem

-- A store from an attribute that raised ends the attempt; the exception is cleared.
unfoldable pub next_attribute :
    Option Error → Mem → (Mem → Option (Mem × Bool)) → Option (Mem × Bool)
next_attribute (some e) m rest = some (m, false)
next_attribute none m rest = rest m

module _ {Obj : Type 0} where
  -- compositeproxy_getfield, compositeproxy_getinvalidfield
  unfoldable pub getfield : Option (FieldType Obj) → ℕ → Mem → Result Obj
  getfield none a m = err type_error
  getfield (some t) a m = t.getfrom m a

  unfoldable pub compositeproxy_getfield : ℕ → FieldInfo Obj → Mem → Result Obj
  unfolding getfield
  compositeproxy_getfield p f m = getfield f.type (p + f.offset) m

  abbrev pub no_keywords : Dict Obj
  no_keywords = record { size = 0; get = λ name. none }

  unfoldable pub keywords : Option (Dict Obj) → Dict Obj
  keywords none = no_keywords
  keywords (some d) = d

  -- One field of a handled type: a value is stored, and a field without one is cleared.
  unfoldable pub init_field :
      ℕ → ℕ → FieldType Obj → Option Obj → Mem → (Mem → Initialized) → Initialized
  unfolding after_store
  init_field p offset t none m rest = rest (zero_fill t.size m (p + offset))
  init_field p offset t (some value) m rest =
      let s = t.storeinto value (p + offset) m in after_store s.status s rest

  -- The value for the field at place `i`: positional arguments first.
  unfoldable pub field_value : List Obj → Dict Obj → ℕ → String → Option Obj
  field_value args kwargs i name = if ltb i (length args) then get_elem? args i else kwargs.get name

  unfoldable pub init_one :
      ℕ → Option (FieldType Obj) → ℕ → Option Obj → Mem → (Mem → Initialized) → Initialized
  unfolding init_field
  init_one p none offset value m rest = rest m
  init_one p (some t) offset value m rest = init_field p offset t value m rest

  unfoldable pub init_fields :
      ℕ → List Obj → Dict Obj → List (FieldInfo Obj) → ℕ → Mem → Initialized
  unfolding init_one field_value
  init_fields p args kwargs [] i m = record { result = stored m; count = 0 }
  init_fields p args kwargs (f ∷ fs) i m =
      init_one p f.type f.offset (field_value args kwargs i f.name) m
        (init_fields p args kwargs fs (i + 1))

  unfoldable pub init_by_fields : CompositeProxy Obj → List Obj → Dict Obj → Mem → Stored
  unfolding finish_init init_fields
  init_by_fields self args kwargs m =
      let r = init_fields self.p_ptr args kwargs self.fields 0 m in
      finish_init (length args) kwargs.size r r.result.status

  -- compositeproxy_setfield, of a field whose type is handled
  abbrev pub compositeproxy_setfield : ℕ → FieldType Obj → ℕ → Obj → Mem → Stored
  compositeproxy_setfield p t offset value m = t.storeinto value (p + offset) m

  -- Initialisation from a plain object's attributes: `none` is the use of a type that is NULL, else
  -- the memory and whether every field was set.
  unfoldable pub set_attribute :
      ℕ
      → Option (FieldType Obj)
      → ℕ
      → Option Obj
      → Mem
      → (Mem → Option (Mem × Bool))
      → Option (Mem × Bool)
  unfolding next_attribute
  set_attribute p type offset none m rest = some (m, false)
  set_attribute p none offset (some value) m rest = none
  set_attribute p (some t) offset (some value) m rest =
      let s = compositeproxy_setfield p t offset value m in next_attribute s.status s.mem rest

  unfoldable pub init_attributes :
      ℕ → (String → Option Obj) → List (FieldInfo Obj) → Mem → Option (Mem × Bool)
  unfolding set_attribute
  init_attributes p attr [] m = some (m, true)
  init_attributes p attr (f ∷ fs) m =
      set_attribute p f.type f.offset (attr f.name) m (init_attributes p attr fs)

  -- A copy of a proxy of the same type.
  unfoldable pub copy_proxy : CompositeProxy Obj → ℕ → Mem → Stored
  copy_proxy self other m =
      if self.p_ptr == other
      then refused m value_error
      else stored (memcpy self.tp_itemsize m self.p_ptr other)

  -- Behind the attempt at attributes: convert mode gives up, a constructor call tries the fields.
  unfoldable pub after_attributes :
      CompositeProxy Obj → InitArgs Obj → Option (Mem × Bool) → Option Stored
  unfolding init_by_fields
  after_attributes self args none = none
  after_attributes self args (some (m, true)) = some (stored m)
  after_attributes self (convert obj) (some (m, false)) = some (refused m type_error)
  after_attributes self (tuple args) (some (m, false)) =
      some (init_by_fields self args no_keywords m)

  -- A single dictionary is taken for keyword arguments; convert mode refuses an empty one.
  unfoldable pub init_by_dict : CompositeProxy Obj → InitArgs Obj → Dict Obj → Mem → Stored
  unfolding init_by_fields
  init_by_dict self (tuple args) d m = init_by_fields self [] d m
  init_by_dict self (convert obj) d m =
      if d.size == 0 then refused m type_error else init_by_fields self [] d m

  unfoldable pub init_by_other :
      Objects Obj
      → CompositeProxy Obj
      → InitArgs Obj
      → Obj
      → Option (Dict Obj)
      → Mem
      → Option Stored
  unfolding init_by_dict init_attributes after_attributes
  init_by_other py self args arg (some d) m = some (init_by_dict self args d m)
  init_by_other py self args arg none m =
      after_attributes self args (init_attributes self.p_ptr (py.get_attr arg) self.fields m)

  unfoldable pub init_by_type :
      Objects Obj → CompositeProxy Obj → InitArgs Obj → Obj → Option ℕ → Mem → Option Stored
  unfolding copy_proxy init_by_other
  init_by_type py self args arg (some q) m = some (copy_proxy self q m)
  init_by_type py self args arg none m = init_by_other py self args arg (py.as_dict arg) m

  unfoldable pub init_by_object :
      Objects Obj → CompositeProxy Obj → InitArgs Obj → Obj → Mem → Option Stored
  unfolding init_by_type
  init_by_object py self args arg m = init_by_type py self args arg (py.same_type arg) m

  unfoldable pub init_by_tuple :
      Objects Obj → CompositeProxy Obj → List Obj → Dict Obj → Mem → Option Stored
  unfolding init_by_object init_by_fields
  init_by_tuple py self [] kwargs m =
      if kwargs.size == 0
      then some (stored (zero_fill self.tp_itemsize m self.p_ptr))
      else some (init_by_fields self [] kwargs m)
  init_by_tuple py self (arg ∷ []) kwargs m =
      if kwargs.size == 0
      then init_by_object py self (tuple (arg ∷ [])) arg m
      else some (init_by_fields self (arg ∷ []) kwargs m)
  init_by_tuple py self (arg ∷ arg' ∷ args) kwargs m =
      some (init_by_fields self (arg ∷ arg' ∷ args) kwargs m)

  -- compositeproxy_init: the memory and exception that it leaves; `none` is a crash.
  unfoldable pub compositeproxy_init :
      Objects Obj → CompositeProxy Obj → InitArgs Obj → Option (Dict Obj) → Mem → Option Stored
  unfolding init_by_tuple keywords
  compositeproxy_init py self (convert obj) kwargs m = init_by_object py self (convert obj) obj m
  compositeproxy_init py self (tuple args) kwargs m = init_by_tuple py self args (keywords kwargs) m
