-- ===== src/ForeignType/Requests.antt =====
-- The methods by which Python asks a foreign type of foreign_type.c for a derived one: its pointer
-- type, its array type, and the function types that return it. What liballocs makes of each request
-- is a parameter, the address of a uniqtype or 0 for NULL.
use pycallocs.Prelude.{
  ℕ, zero, suc, Option, none, some, List, [], ◌∷◌, type_error, value_error, Result, ok, err,
}
use pycallocs.ForeignType.{Kind, Table, Looked, get_or_create}

-- The uniqtypes of the arguments, each an object that is a foreign type or another one.
unfoldable pub cons_type : Option ℕ → Option (List ℕ) → Option (List ℕ)
cons_type none ts = none
cons_type (some t) none = none
cons_type (some t) (some ts) = some (t ∷ ts)

unfoldable pub argument_uniqtypes : List (Option ℕ) → Option (List ℕ)
unfolding cons_type
argument_uniqtypes [] = some []
argument_uniqtypes (a ∷ args) = cons_type a (argument_uniqtypes args)

-- The table behind a request, and the foreign type or NULL of ForeignType_GetOrCreate, or the
-- request's own exception; `none` is a call that does not end.
abbrev pub Requested : Type 0
Requested = Option (Table × Result (Option ℕ))

unfoldable pub answered : Looked → Requested
answered none = none
answered (some (c, r)) = some (c, ok r)

module _ (kinds : ℕ → Kind) where
  unfoldable pub request : ℕ → ℕ → Table → Requested
  unfolding answered
  request n zero c = some (c, err value_error)
  request n (suc k) c = answered (get_or_create kinds n (suc k) c)

  -- foreigntype_ptr
  unfoldable pub foreigntype_ptr : (ℕ → ℕ) → ℕ → ℕ → Table → Looked
  foreigntype_ptr address_type n self c = get_or_create kinds n (address_type self) c

  -- foreigntype_array
  unfoldable pub foreigntype_array : (ℕ → ℕ) → ℕ → ℕ → Table → Requested
  unfolding request
  foreigntype_array array_type n self c = request n (array_type self) c

  unfoldable pub request_fun : (ℕ → List ℕ → ℕ) → ℕ → ℕ → Table → Option (List ℕ) → Requested
  unfolding request
  request_fun subprogram_type n self c none = some (c, err type_error)
  request_fun subprogram_type n self c (some ts) = request n (subprogram_type self ts) c

  -- foreigntype_fun
  unfoldable pub foreigntype_fun : (ℕ → List ℕ → ℕ) → ℕ → ℕ → List (Option ℕ) → Table → Requested
  unfolding request_fun argument_uniqtypes
  foreigntype_fun subprogram_type n self args c =
      request_fun subprogram_type n self c (argument_uniqtypes args)
