-- ===== src/ForeignType/Repeated.antt =====
-- A function type that Python asks for twice.
use pycallocs.Prelude.{
  ℕ, zero, suc, ◌≡◌, ◌<◌, refl, sym, ap, ◌∙◌, Option, none, some, List, Elem, ok, err, length, All,
}
use pycallocs.ForeignType.{Kind, Table, Looked, init_types, get_or_create}
use pycallocs.ForeignType.Complete.{IsSettled}
use pycallocs.ForeignType.Creation.{get_or_create-again}
use pycallocs.ForeignType.Requests.{
  argument_uniqtypes, Requested, answered, request, request_fun, foreigntype_fun,
}

-- The look-up of an answer.
abbrev looked : Requested → Looked
looked none = none
looked (some (c, ok r)) = some (c, r)
looked (some (c, err e)) = none

looked-answered : (l : Looked) → looked (answered l) ≡ l
unfolding answered
looked-answered none = refl
looked-answered (some (c, r)) = refl

module _ (kinds : ℕ → Kind) (types : List ℕ)
    (closed : (k : ℕ) → Elem k types → All (λ j. Elem j types) (init_types (kinds k))) where
  request-again :
      (k : ℕ) (c c' : Table) (r : Option ℕ) (n m : ℕ)
      → Elem k types
      → IsSettled kinds c
      → length types < n
      → request kinds n k c ≡ some (c', ok r)
      → request kinds (suc m) k c' ≡ some (c', ok r)
  unfolding request
  request-again zero c c' r n m known settled fuel eq =
      let never : ◌≡◌ {A = Looked} none (some (c', r)) = ap looked eq in absurd cc
  request-again (suc k) c c' r n m known settled fuel eq =
      let got : get_or_create kinds n (suc k) c ≡ some (c', r) =
        sym (looked-answered (get_or_create kinds n (suc k) c)) ∙ ap looked eq in
      ap answered (get_or_create-again kinds types closed (suc k) c c' r n m known settled fuel got)

  -- A function type is one object. `types` are finitely many types, with all types that initialising
  -- one of them asks for; the arguments are foreign types, of which liballocs makes a function type
  -- among `types`; and the table holds only complete types. If asking a foreign type for this
  -- function type gives a foreign type, or NULL from creating it, then asking again with the same
  -- arguments, with any fuel but none, gives the same and leaves the table as it is.
  pub foreigntype_fun-again :
      (subprogram_type : ℕ → List ℕ → ℕ) (self : ℕ) (args : List (Option ℕ)) (ts : List ℕ)
      (c c' : Table) (r : Option ℕ) (n m : ℕ)
      → argument_uniqtypes args ≡ some ts
      → Elem (subprogram_type self ts) types
      → IsSettled kinds c
      → length types < n
      → foreigntype_fun kinds subprogram_type n self args c ≡ some (c', ok r)
      → foreigntype_fun kinds subprogram_type (suc m) self args c' ≡ some (c', ok r)
  unfolding foreigntype_fun request_fun
  foreigntype_fun-again subprogram_type self args ts c c' r n m checked known settled fuel eq =
      rw checked
        (request-again (subprogram_type self ts) c c' r n m known settled fuel (simp checked at eq))
