-- ===== src/CompositeProxy/Init.antt =====
-- `compositeproxy_init` of composite_proxy.c for values given by position, and without values.
use Prim.Native.String.{String}
use pycallocs.Prelude.{
  ℕ, zero, suc, ◌+◌, ◌-◌, ◌≡◌, ◌≢◌, ◌≤◌, ◌<◌, refl, ◌⊎◌, inl, inr, arith, Option, none, some, List,
  [], ◌∷◌, Error, ◌∙◌, length, get_elem?, ltb, leb, Bool-cases, true, ap, sym, fun_ext, ◌++◌,
  ltb→lt,
}
use pycallocs.Memory.{Mem, zero_fill}
use pycallocs.Memory.Frame.{SameOutside}
use pycallocs.Python.{Stored}
use pycallocs.CompositeProxy.{
  FieldType, FieldInfo, Initialized, Objects, CompositeProxy, tuple, after_store, init_field,
  init_one, init_fields, field_value, no_keywords, check_count, finish_init, init_by_fields,
  init_by_tuple, compositeproxy_init, keywords,
}
use pycallocs.CompositeProxy.Fields.{IsLaidOut, FieldsHold, init_fields-LoopCases}

after_store-count :
    (o : Option Error) (s : Stored) (rest : Mem → Initialized) (n : ℕ)
    → ((m : Mem) → (rest m).count ≤ n)
    → (after_store o s rest).count ≤ suc n
unfolding after_store
after_store-count (some e) s rest n later = omega arith
after_store-count none s rest n later = omega (arith, later s.mem)

module _ {Obj : Type 0} (p : ℕ) where
  -- Only a field with a value counts.
  init_one-count :
      (o : Option (FieldType Obj)) (offset : ℕ) (value : Option Obj) (m : Mem)
      (rest : Mem → Initialized) (n k : ℕ)
      → ((m : Mem) → (rest m).count ≤ n)
      → n ≤ k
      → (value ≡ none) ⊎ (suc n ≤ k)
      → (init_one p o offset value m rest).count ≤ k
  unfolding init_one init_field
  init_one-count none offset value m rest n k later le one = omega (arith, later m)
  init_one-count (some t) offset none m rest n k later le one =
      omega (arith, later (zero_fill t.size m (p + offset)))
  init_one-count (some t) offset (some value) m rest n k later le (inl never) = absurd cc
  init_one-count (some t) offset (some value) m rest n k later le (inr one) =
      let bound =
        after_store-count (t.storeinto value (p + offset) m).status
          (t.storeinto value (p + offset) m) rest n later in
      omega (arith, bound)

  field_value-cases :
      (args : List Obj) (i : ℕ) (name : String)
      → (field_value args no_keywords i name ≡ none) ⊎ (i < length args)
  unfolding field_value
  field_value-cases args i name = elim (Bool-cases (ltb i (length args))) [
    | inl lt ↦ inr (ltb→lt i (length args) lt)
    | inr ge ↦ inl (rw ge refl)
  ]

  -- The loop counts no more values than there are left.
  init_fields-count :
      (args : List Obj) (fs : List (FieldInfo Obj)) (i : ℕ) (m : Mem)
      → (init_fields p args no_keywords fs i m).count ≤ length args - i
  unfolding init_fields
  init_fields-count args [] i m = omega arith
  init_fields-count args (f ∷ fs) i m =
      init_one-count f.type f.offset (field_value args no_keywords i f.name) m
        (init_fields p args no_keywords fs (i + 1)) (length args - (i + 1)) (length args - i)
        (init_fields-count args fs (i + 1)) (omega arith)
        (elim (field_value-cases args i f.name) [
          | inl missing ↦ inl missing
          | inr lt ↦ inr (omega arith)
        ])

finish_init-passes :
    (nargs : ℕ) (r : Initialized) (o : Option Error)
    → r.count ≤ nargs
    → r.result.status ≡ o
    → finish_init nargs 0 r o ≡ r.result
unfolding finish_init check_count
finish_init-passes nargs r (some e) le eq = refl
finish_init-passes nargs r none le eq =
    let test : leb r.count (nargs + 0) ≡ true = ground arith in
    rw test (ap (λ o. record { mem = r.result.mem; status = o }) (sym eq))

module _ {Obj : Type 0} where
  -- By position alone the test behind the loop passes, whatever the loop did.
  init_by_fields_lem :
      (self : CompositeProxy Obj) (args : List Obj) (m : Mem)
      → init_by_fields self args no_keywords m
        ≡ (init_fields self.p_ptr args no_keywords self.fields 0 m).result
  unfolding init_by_fields
  init_by_fields_lem self args m =
      finish_init-passes (length args) _ _
        (omega (arith, init_fields-count self.p_ptr args self.fields 0 m)) refl

  get_elem?-append :
      (args extra : List Obj) (i : ℕ)
      → i < length args
      → get_elem? (args ++ extra) i ≡ get_elem? args i
  get_elem?-append [] extra i lt = absurd (omega arith)
  get_elem?-append (x ∷ args) extra zero lt = refl
  get_elem?-append (x ∷ args) extra (suc i) lt = get_elem?-append args extra i (omega arith)

  length-append : (args extra : List Obj) → length (args ++ extra) ≡ length args + length extra
  length-append [] extra = omega arith
  length-append (x ∷ args) extra = omega (arith, length-append args extra)

  field_value-append :
      (args extra : List Obj) (i : ℕ) (name : String)
      → i < length args
      → field_value (args ++ extra) no_keywords i name ≡ field_value args no_keywords i name
  unfolding field_value
  field_value-append args extra i name lt =
      let short : ltb i (length args) ≡ true = ground arith in
      let long : ltb i (length (args ++ extra)) ≡ true = ground (arith, length-append args extra) in
      rw (short, long) (get_elem?-append args extra i lt)

  init_fields-append :
      (p : ℕ) (args extra : List Obj) (fs : List (FieldInfo Obj)) (i : ℕ)
      → i + length fs ≤ length args
      → (m : Mem)
      → init_fields p (args ++ extra) no_keywords fs i m ≡ init_fields p args no_keywords fs i m
  unfolding init_fields
  init_fields-append p args extra [] i le m = refl
  init_fields-append p args extra (f ∷ fs) i le m =
      let rest : init_fields p (args ++ extra) no_keywords fs (i + 1)
          ≡ init_fields p args no_keywords fs (i + 1) =
        fun_ext (init_fields-append p args extra fs (i + 1) (omega arith)) in
      rw (field_value-append args extra i f.name (omega arith), rest) refl

  -- A call with two or more positional arguments, at least as many as there are fields, and no
  -- keywords: any further positional arguments change nothing, neither the memory nor the result.
  pub compositeproxy_init-surplus :
      (py : Objects Obj) (self : CompositeProxy Obj) (a b : Obj) (args extra : List Obj) (m : Mem)
      → length self.fields ≤ length (a ∷ b ∷ args)
      → compositeproxy_init py self (tuple ((a ∷ b ∷ args) ++ extra)) none m
        ≡ compositeproxy_init py self (tuple (a ∷ b ∷ args)) none m
  unfolding compositeproxy_init init_by_tuple keywords
  compositeproxy_init-surplus py self a b args extra m le = ap some (
      init_by_fields_lem self (a ∷ b ∷ args ++ extra) m
      ∙ ap (λ r. r.result)
          (init_fields-append self.p_ptr (a ∷ b ∷ args) extra self.fields 0 (omega arith) m)
      ∙ sym (init_by_fields_lem self (a ∷ b ∷ args) m))

  -- A struct whose fields stand one behind the other in its bytes, initialised by a constructor
  -- call with two or more positional arguments and no keywords. The call returns. Either it
  -- succeeds, and each handled field holds what storing its argument wrote or, without an argument,
  -- zeros; or it raises. Nothing outside the struct changes.
  pub compositeproxy_init_cases :
      (py : Objects Obj) (self : CompositeProxy Obj) (a b : Obj) (args : List Obj) (m : Mem)
      → IsLaidOut self.fields 0 self.tp_itemsize
      → (s : Stored) × (compositeproxy_init py self (tuple (a ∷ b ∷ args)) none m ≡ some s)
        × (((s.status ≡ none)
              × FieldsHold self.p_ptr (a ∷ b ∷ args) no_keywords self.fields 0 s.mem m)
            ⊎ (s.status ≢ none))
        × SameOutside self.p_ptr self.tp_itemsize m s.mem
  unfolding compositeproxy_init init_by_tuple keywords
  compositeproxy_init_cases py self a b args m laid =
      let all = a ∷ b ∷ args in
      let (cases, same) =
        init_fields-LoopCases self.p_ptr all no_keywords self.fields 0 0 self.tp_itemsize m laid in
      (
        (init_fields self.p_ptr all no_keywords self.fields 0 m).result,
        ap some (init_by_fields_lem self all m),
        cases,
        λ q out. same q (omega arith),
      )
