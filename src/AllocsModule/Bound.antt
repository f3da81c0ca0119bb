-- ===== src/AllocsModule/Bound.antt =====
-- What the module of allocs_module.c binds.
use Prim.Native.String.{String}
use mathlib.Core.List.{append_assoc, append-nil}
use pycallocs.Prelude.{
  ℕ, ◌≡◌, ◌<◌, refl, sym, ap, ◌∙◌, ◌⊎◌, inl, inr, Bool, true, false, Bool-cases, ◌&&◌, Option, none,
  some, List, [], ◌∷◌, ◌++◌, map, All, Elem, length, if◌then◌else◌,
}
use pycallocs.ForeignType.{Kind, Table, init_types, foreign_type_new}
use pycallocs.ForeignType.Complete.{IsSettled}
use pycallocs.ForeignType.Creation.{get_or_create_settles}
use pycallocs.AllocsModule.{
  Class, BasicType, Attribute, class_object, type_object, library_loader, proxy, foreign_type,
  function_proxy_metatype, composite_proxy_metatype, address_proxy_metatype, void, int,
  unsigned_int, signed_char, unsigned_char, long_int, unsigned_long_int, short_int,
  short_unsigned_int, float, double, Module, add_object, classes, basic_types, add_classes,
  add_looked_up, then_add, Answers, all_ready, Initialized, add_types, with_module, init_allocs,
}

abbrev pub bound_class : String × Class → String × Attribute
bound_class (n, c) = (n, class_object c)

abbrev pub bound_type : (BasicType → ℕ) → String × BasicType → String × Attribute
bound_type uniqtype (n, t) = (n, type_object (uniqtype t))

module _ (kinds : ℕ → Kind) (uniqtype : BasicType → ℕ) where
  -- The names that the module is to have, and what they stand for.
  abbrev pub bindings : Bool → List (String × Attribute)
  bindings char_is_signed =
      ("LibraryLoader", class_object library_loader)
      ∷ ("Proxy", class_object proxy)
      ∷ ("ForeignType", class_object foreign_type)
      ∷ ("FunctionProxyType", class_object function_proxy_metatype)
      ∷ ("CompositeProxyType", class_object composite_proxy_metatype)
      ∷ ("AddressProxyType", class_object address_proxy_metatype)
      ∷ ("void", type_object (uniqtype void))
      ∷ ("int", type_object (uniqtype int))
      ∷ ("unsigned_int", type_object (uniqtype unsigned_int))
      ∷ ("signed_char", type_object (uniqtype signed_char))
      ∷ ("unsigned_char", type_object (uniqtype unsigned_char))
      ∷ ("char", type_object (uniqtype (if char_is_signed then signed_char else unsigned_char)))
      ∷ ("long_int", type_object (uniqtype long_int))
      ∷ ("unsigned_long_int", type_object (uniqtype unsigned_long_int))
      ∷ ("short_int", type_object (uniqtype short_int))
      ∷ ("unsigned_short_int", type_object (uniqtype short_unsigned_int))
      ∷ ("float", type_object (uniqtype float))
      ∷ ("double", type_object (uniqtype double))
      ∷ []

  -- What the initialisation leaves: no module, if a class could not be readied, which is before the
  -- registry starts, or if Python could not create the module; or a module without an exception,
  -- with the given attributes, and a table that holds complete types only.
  abbrev pub InitCases : Answers → Bool → Table → Initialized → Type 0
  InitCases a char_is_signed c r =
      (((all_ready a && a.created) ≡ true)
        × (r.registry_started ≡ true)
        × IsSettled kinds r.table
        × (r.module_object ≡ some (record { attrs = bindings char_is_signed; failed = false })))
      ⊎ (((all_ready a && a.created) ≡ false)
          × (r.module_object ≡ none)
          × (r.table ≡ c)
          × (r.registry_started ≡ all_ready a))

abbrev with_attrs : Table → Module → List (String × Attribute) → Option (Table × Module)
with_attrs c m attrs = some (c, record m { attrs = attrs })

module _ (kinds : ℕ → Kind) (uniqtype : BasicType → ℕ) (types : List ℕ)
    (closed : (k : ℕ) → Elem k types → All (λ j. Elem j types) (init_types (kinds k)))
    (known : (t : BasicType) → Elem (uniqtype t) types)
    (handled : (t : BasicType) → foreign_type_new kinds (uniqtype t) ≡ true) (n : ℕ)
    (fuel : length types < n) where
  -- Each type is bound to its name, behind what was bound before.
  add_types-bound :
      (ts : List (String × BasicType)) (c : Table) (m : Module)
      → IsSettled kinds c
      → (c' : Table) × (add_types kinds uniqtype n ts c m
          ≡ some (c', record m { attrs = m.attrs ++ map (bound_type uniqtype) ts }))
        × IsSettled kinds c'
  unfolding add_types then_add add_looked_up add_object
  add_types-bound [] c m settled = (
    c,
    ap (λ (bs : List (String × Attribute)). with_attrs c m bs) (sym (append-nil m.attrs)),
    settled,
  )
  add_types-bound ((name, t) ∷ ts) c m settled =
      let (c', got, settled', kept, held) =
        get_or_create_settles kinds types closed (uniqtype t) c n (known t) settled fuel in
      let (c'', rest, settled'') =
        add_types-bound ts c'
          (record m { attrs = m.attrs ++ ((name, type_object (uniqtype t)) ∷ []) }) settled' in
      (
        c'',
        rw (got, handled t)
            (rest
              ∙ ap (with_attrs c'' m) (
                  append_assoc m.attrs ((name, type_object (uniqtype t)) ∷ [])
                    (map (bound_type uniqtype) ts))),
        settled'',
      )

  -- Initialising the module, with any table of complete types, where liballocs knows the basic types
  -- and their foreign types can be created, ends with fuel for more calls inside each other than
  -- there are types. If all classes could be readied and the module created, the module has the six
  -- classes and the twelve basic types under their names, each name with its own class or C type and
  -- `char` with the signed or the unsigned type, in this order, and no exception is set. Else there is no module and no type was created; the
  -- registry was started only if all classes were ready.
  pub init_allocs_cases :
      (a : Answers) (char_is_signed : Bool) (c : Table)
      → IsSettled kinds c
      → (r : Initialized) × (init_allocs kinds uniqtype n a char_is_signed c ≡ some r)
        × InitCases kinds uniqtype a char_is_signed c r
  unfolding init_allocs with_module add_classes add_object
  init_allocs_cases a char_is_signed c settled = elim (Bool-cases (all_ready a)) [
    | inr unready ↦ (
      record { registry_started = false; table = c; module_object = none },
      rw unready refl,
      inr (rw unready refl, refl, refl, sym unready),
    )
    | inl ready ↦ elim (Bool-cases a.created) [
      | inr missing ↦ (
        record { registry_started = true; table = c; module_object = none },
        rw (ready, missing) refl,
        inr (rw (ready, missing) refl, refl, refl, sym ready),
      )
      | inl created ↦
          let (c', bound, settled') =
            add_types-bound (basic_types char_is_signed) c
              (record { attrs = map bound_class classes; failed = false }) settled in
          (
            record {
              registry_started = true;
              table = c';
              module_object =
                  some (record { attrs = bindings kinds uniqtype char_is_signed; failed = false });
            },
            rw (ready, created) (ap with_module bound),
            inl (rw (ready, created) refl, refl, settled', refl),
          )
    ]
  ]
