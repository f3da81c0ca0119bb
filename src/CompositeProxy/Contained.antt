-- ===== src/CompositeProxy/Contained.antt =====
-- `compositeproxy_init` of composite_proxy.c never writes outside its struct.
use Prim.Native.String.{String}
use pycallocs.Prelude.{
  ℕ, ◌+◌, ◌≡◌, ◌≤◌, refl, inl, inr, arith, Bool, true, false, Bool-cases, Option, none, some, List,
  [], ◌∷◌, Error, ◌∙◌, ◌==◌, leb, length,
}
use pycallocs.Memory.{Mem}
use pycallocs.Memory.Frame.{SameOutside, SameOutside-zero_fill, SameOutside-memcpy}
use pycallocs.Python.{Stored}
use pycallocs.CompositeProxy.{
  FieldType, FieldInfo, Dict, Initialized, Objects, InitArgs, tuple, convert, CompositeProxy,
  init_fields, check_count, finish_init, init_by_fields, next_attribute, set_attribute,
  init_attributes, copy_proxy, after_attributes, init_by_dict, init_by_other, init_by_type,
  init_by_object, init_by_tuple, compositeproxy_init, keywords, no_keywords,
}
use pycallocs.CompositeProxy.Fields.{
  IsLaidOut, SameBeyond, IsLaidOut-le, size_of, init_fields-LoopCases,
}

-- The call crashed, or changed nothing but the `n` bytes from `p` on.
abbrev pub Keeps : ℕ → ℕ → Mem → Option Stored → Type 0
Keeps p n m none = Unit
Keeps p n m (some s) = SameOutside p n m s.mem

-- The same for the attempt at attributes.
abbrev pub KeepsTried : ℕ → ℕ → Mem → Option (Mem × Bool) → Type 0
KeepsTried lo hi m none = Unit
KeepsTried lo hi m (some (m', set)) = SameBeyond lo hi m m'

check_count-mem : (n k count : ℕ) (m : Mem) → (check_count n k count m).mem ≡ m
unfolding check_count
check_count-mem n k count m = elim (Bool-cases (leb count (n + k))) [
  | inl fits ↦ rw fits refl
  | inr more ↦ elim (Bool-cases (leb count n)) [
    | inl fits ↦ rw (more, fits) refl
    | inr more' ↦ rw (more, more') refl
  ]
]

finish_init-mem :
    (n k : ℕ) (r : Initialized) (o : Option Error) → (finish_init n k r o).mem ≡ r.result.mem
unfolding finish_init
finish_init-mem n k r (some e) = refl
finish_init-mem n k r none = check_count-mem n k r.count r.result.mem

KeepsTried-trans :
    (lo hi : ℕ) (m m' : Mem) (t : Option (Mem × Bool))
    → SameBeyond lo hi m m'
    → KeepsTried lo hi m' t
    → KeepsTried lo hi m t
KeepsTried-trans lo hi m m' none same kept = tt
KeepsTried-trans lo hi m m' (some (m'', set)) same kept = λ q out. kept q out ∙ same q out

next_attribute-Keeps :
    (lo hi : ℕ) (o : Option Error) (m m' : Mem) (rest : Mem → Option (Mem × Bool))
    → SameBeyond lo hi m m'
    → KeepsTried lo hi m' (rest m')
    → KeepsTried lo hi m (next_attribute o m' rest)
unfolding next_attribute
next_attribute-Keeps lo hi (some e) m m' rest same later = same
next_attribute-Keeps lo hi none m m' rest same later =
    KeepsTried-trans lo hi m m' (rest m') same later

module _ {Obj : Type 0} where
  set_attribute-Keeps :
      (p : ℕ) (o : Option (FieldType Obj)) (offset : ℕ) (value : Option Obj) (lo hi : ℕ) (m : Mem)
      (rest : Mem → Option (Mem × Bool))
      → lo ≤ p + offset
      → p + offset + size_of o ≤ hi
      → ((m' : Mem) → KeepsTried lo hi m' (rest m'))
      → KeepsTried lo hi m (set_attribute p o offset value m rest)
  unfolding set_attribute
  set_attribute-Keeps p o offset none lo hi m rest low high later = λ q out. refl
  set_attribute-Keeps p none offset (some value) lo hi m rest low high later = tt
  set_attribute-Keeps p (some t) offset (some value) lo hi m rest low high later =
      let s = t.storeinto value (p + offset) m in
      next_attribute-Keeps lo hi s.status m s.mem rest
        (λ q out. t.contained value (p + offset) m q (omega arith)) (later s.mem)

  init_attributes-Keeps :
      (p : ℕ) (get_attr : String → Option Obj) (fs : List (FieldInfo Obj)) (start lo hi : ℕ)
      (m : Mem)
      → lo ≤ p + start
      → IsLaidOut fs start hi
      → KeepsTried lo (p + hi) m (init_attributes p get_attr fs m)
  unfolding init_attributes
  init_attributes-Keeps p get_attr [] start lo hi m low laid = λ q out. refl
  init_attributes-Keeps p get_attr (f ∷ fs) start lo hi m low (from, laid) =
      let end = f.offset + size_of f.type in
      let fits = IsLaidOut-le fs end hi laid in
      set_attribute-Keeps p f.type f.offset (get_attr f.name) lo (p + hi) m
        (init_attributes p get_attr fs) (omega arith) (omega arith)
        (λ m'. init_attributes-Keeps p get_attr fs end lo hi m' (omega arith) laid)

  module _ (self : CompositeProxy Obj) (laid : IsLaidOut self.fields 0 self.tp_itemsize) where
    init_by_fields-Keeps :
        (args : List Obj) (kwargs : Dict Obj) (m : Mem)
        → SameOutside self.p_ptr self.tp_itemsize m (init_by_fields self args kwargs m).mem
    unfolding init_by_fields
    init_by_fields-Keeps args kwargs m =
        let r = init_fields self.p_ptr args kwargs self.fields 0 m in
        let (cases, same) =
          init_fields-LoopCases self.p_ptr args kwargs self.fields 0 0 self.tp_itemsize m laid in
        rw (finish_init-mem (length args) kwargs.size r r.result.status)
          (λ q out. same q (omega arith))

    after_attributes-Keeps :
        (args : InitArgs Obj) (tried : Option (Mem × Bool)) (m : Mem)
        → KeepsTried self.p_ptr (self.p_ptr + self.tp_itemsize) m tried
        → Keeps self.p_ptr self.tp_itemsize m (after_attributes self args tried)
    unfolding after_attributes
    after_attributes-Keeps args none m kept = tt
    after_attributes-Keeps args (some (m', true)) m kept = λ q out. kept q out
    after_attributes-Keeps (convert obj) (some (m', false)) m kept = λ q out. kept q out
    after_attributes-Keeps (tuple args) (some (m', false)) m kept =
        λ q out. init_by_fields-Keeps args no_keywords m' q out ∙ kept q out

    init_by_dict-Keeps :
        (args : InitArgs Obj) (d : Dict Obj) (m : Mem)
        → SameOutside self.p_ptr self.tp_itemsize m (init_by_dict self args d m).mem
    unfolding init_by_dict
    init_by_dict-Keeps (tuple args) d m = init_by_fields-Keeps [] d m
    init_by_dict-Keeps (convert obj) d m = elim (Bool-cases (d.size == 0)) [
      | inl empty ↦ rw empty (λ q out. refl)
      | inr some_keys ↦ rw some_keys (init_by_fields-Keeps [] d m)
    ]

    init_by_other-Keeps :
        (py : Objects Obj) (args : InitArgs Obj) (arg : Obj) (o : Option (Dict Obj)) (m : Mem)
        → Keeps self.p_ptr self.tp_itemsize m (init_by_other py self args arg o m)
    unfolding init_by_other
    init_by_other-Keeps py args arg (some d) m = init_by_dict-Keeps args d m
    init_by_other-Keeps py args arg none m = after_attributes-Keeps args _ m (
        init_attributes-Keeps self.p_ptr (py.get_attr arg) self.fields 0 self.p_ptr self.tp_itemsize
          m (omega arith) laid)

    copy_proxy-Keeps :
        (q : ℕ) (m : Mem) → SameOutside self.p_ptr self.tp_itemsize m (copy_proxy self q m).mem
    unfolding copy_proxy
    copy_proxy-Keeps q m = elim (Bool-cases (self.p_ptr == q)) [
      | inl same ↦ rw same (λ j out. refl)
      | inr other ↦ rw other (SameOutside-memcpy self.tp_itemsize m self.p_ptr q)
    ]

    init_by_type-Keeps :
        (py : Objects Obj) (args : InitArgs Obj) (arg : Obj) (o : Option ℕ) (m : Mem)
        → Keeps self.p_ptr self.tp_itemsize m (init_by_type py self args arg o m)
    unfolding init_by_type
    init_by_type-Keeps py args arg (some q) m = copy_proxy-Keeps q m
    init_by_type-Keeps py args arg none m = init_by_other-Keeps py args arg (py.as_dict arg) m

    init_by_tuple-Keeps :
        (py : Objects Obj) (args : List Obj) (kwargs : Dict Obj) (m : Mem)
        → Keeps self.p_ptr self.tp_itemsize m (init_by_tuple py self args kwargs m)
    unfolding init_by_tuple init_by_object
    init_by_tuple-Keeps py [] kwargs m = elim (Bool-cases (kwargs.size == 0)) [
      | inl empty ↦ rw empty (SameOutside-zero_fill self.tp_itemsize m self.p_ptr)
      | inr some_keys ↦ rw some_keys (init_by_fields-Keeps [] kwargs m)
    ]
    init_by_tuple-Keeps py (arg ∷ []) kwargs m = elim (Bool-cases (kwargs.size == 0)) [
      | inl empty ↦ rw empty (init_by_type-Keeps py (tuple (arg ∷ [])) arg (py.same_type arg) m)
      | inr some_keys ↦ rw some_keys (init_by_fields-Keeps (arg ∷ []) kwargs m)
    ]
    init_by_tuple-Keeps py (arg ∷ arg' ∷ args) kwargs m =
        init_by_fields-Keeps (arg ∷ arg' ∷ args) kwargs m

    -- A struct whose fields stand one behind the other in its bytes: an initialisation, from any
    -- tuple of arguments or object to convert and any keywords, successful or not, changes no byte
    -- outside the struct, unless it crashes.
    pub compositeproxy_init-Keeps :
        (py : Objects Obj) (args : InitArgs Obj) (kwargs : Option (Dict Obj)) (m : Mem)
        → Keeps self.p_ptr self.tp_itemsize m (compositeproxy_init py self args kwargs m)
    unfolding compositeproxy_init init_by_object
    compositeproxy_init-Keeps py (convert obj) kwargs m =
        init_by_type-Keeps py (convert obj) obj (py.same_type obj) m
    compositeproxy_init-Keeps py (tuple args) kwargs m =
        init_by_tuple-Keeps py args (keywords kwargs) m
