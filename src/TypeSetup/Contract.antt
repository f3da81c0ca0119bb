-- ===== src/TypeSetup/Contract.antt =====
-- What foreign_library.h says of the fields of a foreign type object, for each kind of type.
use pycallocs.Prelude.{
  ℕ, zero, suc, ◌≡◌, ◌≢◌, refl, ◌⊎◌, inl, inr, Bool, true, false, Option, none, some, List, arith,
  Result, ok, err, is_ok, type_error,
}
use pycallocs.BaseType.Types.{
  BaseUniqtype, BaseForeignType, Conversions, foreign_base_type_new, foreign_base_type,
  conversions_for,
}
use pycallocs.ForeignType.{
  Kind, void, base, composite, subprogram, address, array, enumeration, subrange, creates,
}
use pycallocs.TypeSetup.{copiable_kind}
use pycallocs.TypeSetup.Objects.{
  Slot, unassigned, null_function, function, Constructor, construct_composite, construct_array,
  construct_closure, void_type, ForeignTypeObject, base_new_type, proxy_new_type, composite_object,
  function_object, address_object, array_object, new_object, array_init_type, init_object,
  foreigntype_call, call_constructor,
}

abbrev pub is_void : Kind → Bool
is_void void = true
is_void k = false

-- The values of these types may hold pointers.
abbrev pub holds_pointers : Kind → Bool
holds_pointers (composite ks) = true
holds_pointers (address k) = true
holds_pointers (array k) = true
holds_pointers void = false
holds_pointers (base t) = false
holds_pointers subprogram = false
holds_pointers enumeration = false
holds_pointers subrange = false

abbrev pub is_filled {ℓ} : {A : Type ℓ} → Slot A → Bool
is_filled (function f) = true
is_filled null_function = false
is_filled unassigned = false

abbrev pub is_some {ℓ} : {A : Type ℓ} → Option A → Bool
is_some none = false
is_some (some x) = true

-- The foreign type that ArrayProxy_InitType finds for the addresses of the elements, as it was made.
abbrev pub IsInitialisable : Kind → Option ForeignTypeObject → Type 0
IsInitialisable (array k) addr = (e p : ℕ) × (addr ≡ new_object (address (suc e)) p)
IsInitialisable k addr = Unit

-- Each field is as its comment says, for a foreign type object of kind `k`; `run` calls its
-- constructor.
pub record IsConform (A : Type 0) (run : Constructor → Result A) (k : Kind) (o : ForeignTypeObject)
    : Type 0 where
  pub of_kind : o.ft_kind ≡ k
  pub same_copy : o.ft_proxy_type ≡ none → o.ft_copyfrom ≡ function o.ft_getfrom
  pub plain_copy : copiable_kind k ≡ true → o.ft_copyfrom ≡ function o.ft_getfrom
  pub deep_copy : copiable_kind k ≡ false → o.ft_copyfrom ≢ function o.ft_getfrom
  pub constructor_proxy : is_filled o.ft_constructor ≡ true → is_some o.ft_proxy_type ≡ true
  pub data_proxy : is_filled o.ft_getdataptr ≡ true → is_some o.ft_proxy_type ≡ true
  pub traversed : is_filled o.ft_traverse ≡ holds_pointers k
  pub assigned : is_void k ≡ false → (o.ft_getdataptr ≢ unassigned) × (o.ft_traverse ≢ unassigned)
  pub callable :
      ((copiable_kind k ≡ true) × (foreigntype_call run o ≡ some (err type_error)))
      ⊎ ((copiable_kind k ≡ false) × ((c : Constructor) × (foreigntype_call run o ≡ some (run c))))

-- A base type's object has the same function for reading and for copying.
base_same_copy :
    (t : BaseUniqtype) (c : Option Conversions) (b : BaseForeignType)
    → foreign_base_type t c ≡ ok b
    → b.ft_copyfrom ≡ b.ft_getfrom
unfolding foreign_base_type
base_same_copy t none b eq = absurd cc
base_same_copy t (some (g, s)) b eq = ground arith

module _ (A : Type 0) (run : Constructor → Result A) where
  base-IsConform :
      (t : BaseUniqtype) (r : Result BaseForeignType)
      → foreign_base_type_new t ≡ r
      → ((base_new_type t r ≡ none) × (is_ok r ≡ false))
        ⊎ ((o : ForeignTypeObject) × (base_new_type t r ≡ some o)
            × (is_ok r ≡ true)
            × IsConform A run (base t) o)
  unfolding base_new_type foreign_base_type_new foreigntype_call call_constructor copiable_kind
  base-IsConform t (err e) eq = inl (refl, refl)
  base-IsConform t (ok b) eq =
      let same = base_same_copy t (conversions_for t.enc t.size) b eq in
      inr (
        _,
        refl,
        refl,
        record {
          of_kind = refl;
          same_copy = λ e. rw same refl;
          plain_copy = λ e. rw same refl;
          deep_copy = λ e. absurd cc;
          constructor_proxy = λ e. absurd cc;
          data_proxy = λ e. absurd cc;
          traversed = refl;
          assigned = λ e. ((λ u. absurd cc), λ u. absurd cc);
          callable = inl (refl, refl);
        },
      )

  void-IsConform : IsConform A run void void_type
  unfolding foreigntype_call call_constructor copiable_kind
  void-IsConform = record {
    of_kind = refl;
    same_copy = λ e. refl;
    plain_copy = λ e. refl;
    deep_copy = λ e. absurd cc;
    constructor_proxy = λ e. absurd cc;
    data_proxy = λ e. absurd cc;
    traversed = refl;
    assigned = λ e. absurd cc;
    callable = inl (refl, refl);
  }

  composite-IsConform :
      (ks : List ℕ) (htype : ℕ)
      → IsConform A run (composite ks) (composite_object (composite ks) htype)
  unfolding composite_object proxy_new_type foreigntype_call call_constructor copiable_kind
  composite-IsConform ks htype = record {
    of_kind = refl;
    same_copy = λ e. absurd cc;
    plain_copy = λ e. absurd cc;
    deep_copy = λ e d. absurd cc;
    constructor_proxy = λ e. refl;
    data_proxy = λ e. refl;
    traversed = refl;
    assigned = λ e. ((λ u. absurd cc), λ u. absurd cc);
    callable = inr (refl, (construct_composite, refl));
  }

  function-IsConform : (htype : ℕ) → IsConform A run subprogram (function_object subprogram htype)
  unfolding function_object proxy_new_type foreigntype_call call_constructor copiable_kind
  function-IsConform htype = record {
    of_kind = refl;
    same_copy = λ e. absurd cc;
    plain_copy = λ e. absurd cc;
    deep_copy = λ e d. absurd cc;
    constructor_proxy = λ e. refl;
    data_proxy = λ e. refl;
    traversed = refl;
    assigned = λ e. ((λ u. absurd cc), λ u. absurd cc);
    callable = inr (refl, (construct_closure, refl));
  }

  address-IsConform :
      (k htype : ℕ)
      → ((address_object k htype ≡ none) × (creates (address k) ≡ false))
        ⊎ ((o : ForeignTypeObject) × (address_object k htype ≡ some o)
            × (creates (address k) ≡ true)
            × IsConform A run (address k) o)
  unfolding address_object creates foreigntype_call call_constructor copiable_kind
  address-IsConform zero htype = inl (refl, refl)
  address-IsConform (suc pointee) htype = inr (
    _,
    refl,
    refl,
    record {
      of_kind = refl;
      same_copy = λ e. refl;
      plain_copy = λ e. refl;
      deep_copy = λ e. absurd cc;
      constructor_proxy = λ e. absurd cc;
      data_proxy = λ e. refl;
      traversed = refl;
      assigned = λ e. ((λ u. absurd cc), λ u. absurd cc);
      callable = inl (refl, refl);
    },
  )

  array-IsConform :
      (k : ℕ) (addr : Option ForeignTypeObject)
      → IsInitialisable (array k) addr
      → IsConform A run (array k) (array_init_type (array_object (array k)) addr)
  unfolding array_init_type array_object new_object address_object foreigntype_call call_constructor
      copiable_kind
  array-IsConform k none (e, p, found) = absurd cc
  array-IsConform k (some a) (e, p, found) =
      let owned : is_some a.ft_proxy_type ≡ true = ground arith in
      record {
        of_kind = refl;
        same_copy = λ lacking. absurd (ground arith);
        plain_copy = λ e. absurd cc;
        deep_copy = λ e d. absurd cc;
        constructor_proxy = λ e. owned;
        data_proxy = λ e. absurd cc;
        traversed = refl;
        assigned = λ e. ((λ u. absurd cc), λ u. absurd cc);
        callable = inr (refl, (construct_array, refl));
      }

  -- Creating and initialising the foreign type of a uniqtype that is not NULL. The types for which
  -- there is none are those of which the table creates none. Any other fulfils its description:
  -- it is of its kind; without a proxy type it reads and copies by the same function; so does a
  -- trivially copiable one, and no other; a type with a constructor or with data pointers has a
  -- proxy type; it is traversed if and only if its values may hold pointers; but for void, no field
  -- is left unassigned; and the call of a type raises TypeError if it is trivially copiable, and
  -- else is a call of its constructor. An array's proxy type is that of the addresses of its
  -- elements, as it was made for them.
  pub new_object-IsConform :
      (k : Kind) (htype : ℕ) (addr : Option ForeignTypeObject)
      → IsInitialisable k addr
      → ((new_object k htype ≡ none) × (creates k ≡ false))
        ⊎ ((o : ForeignTypeObject) × (new_object k htype ≡ some o)
            × (creates k ≡ true)
            × IsConform A run k (init_object o addr k))
  unfolding new_object init_object creates
  new_object-IsConform void htype addr h = inr (_, refl, refl, void-IsConform)
  new_object-IsConform (base t) htype addr h = base-IsConform t (foreign_base_type_new t) refl
  new_object-IsConform (composite ks) htype addr h =
      inr (_, refl, refl, composite-IsConform ks htype)
  new_object-IsConform subprogram htype addr h = inr (_, refl, refl, function-IsConform htype)
  new_object-IsConform (address k) htype addr h = address-IsConform k htype
  new_object-IsConform (array k) htype addr h = inr (_, refl, refl, array-IsConform k addr h)
  new_object-IsConform enumeration htype addr h = inl (refl, refl)
  new_object-IsConform subrange htype addr h = inl (refl, refl)

base_new_type-is_ok :
    (t : BaseUniqtype) (r : Result BaseForeignType) → is_some (base_new_type t r) ≡ is_ok r
unfolding base_new_type
base_new_type-is_ok t (err e) = refl
base_new_type-is_ok t (ok b) = refl

address_object-creates : (k htype : ℕ) → is_some (address_object k htype) ≡ creates (address k)
unfolding address_object creates
address_object-creates zero htype = refl
address_object-creates (suc k) htype = refl

pub new_object-creates : (k : Kind) (htype : ℕ) → is_some (new_object k htype) ≡ creates k
unfolding new_object creates
new_object-creates void htype = refl
new_object-creates (base t) htype = base_new_type-is_ok t (foreign_base_type_new t)
new_object-creates (composite ks) htype = refl
new_object-creates subprogram htype = refl
new_object-creates (address k) htype = address_object-creates k htype
new_object-creates (array k) htype = refl
new_object-creates enumeration htype = refl
new_object-creates subrange htype = refl
