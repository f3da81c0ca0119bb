-- ===== src/Registry/Decoded.antt =====
-- What each read of a pointer keeps of the registry.
use pycallocs.Prelude.{ℕ, ◌≡◌, ◌≢◌, ap, Option, none, some, subst}
use mathlib.Core.Option.{some-injective}
use pycallocs.Registry.Kept.{After}
use pycallocs.AddressProxy.Pointers.{Types, PointerType}
use pycallocs.Registry.{Registry, Allocation, Got}
use pycallocs.Registry.State.{Owned}
use pycallocs.Registry.Pointers.{
  Decoded, null_pointer, object, GotPointer, the_base, an_address, no_object, leaked, no_base,
  Decodes, null, points, uses_null, crashed,
}

none_given : (s s' : Registry) (o : ℕ) → ◌≢◌ {A = Got} (some (s, none)) (some (s', some o))
none_given s s' o eq =
    let never : none ≡ some o = ap (λ (p : Registry × Option ℕ). p.1) (some-injective _ _ eq) in
    absurd cc

abbrev got_of : Decoded → Got
got_of null_pointer = none
got_of crashed = none
got_of (object g) = g

-- What a read that gave a proxy keeps.
pointed-After :
    (types : Types) (new : Registry → Option ℕ) (type : PointerType) (ptr : ℕ) (w : Owned)
    (a : Option Allocation) (before s : Registry) (o : ℕ) (got : Got)
    → GotPointer types new type ptr w a before got
    → got ≡ some (s, some o)
    → After w before (s, some o)
pointed-After types new type ptr w a before s o _ (the_base s' b v found accepted fields) eq =
    subst (After w before) (some-injective _ _ eq) (v, fields)
pointed-After types new type ptr w a before s o _ (an_address s' b g) eq =
    subst (After w before) (some-injective _ _ eq) (g.sound, g.fields)
pointed-After types new type ptr w a before s o _ (no_object s' s'' full v fields) eq =
    absurd (none_given s' s o eq)
pointed-After types new type ptr w a before s o _ (leaked s' b full v fields) eq =
    absurd (none_given s' s o eq)
pointed-After types new type ptr w a before s o _ (no_base full) eq = absurd cc

pub decoded-After :
    (types : Types) (new : Registry → Option ℕ) (type : PointerType) (ptr : ℕ) (w : Owned)
    (a : Option Allocation) (before s : Registry) (o : ℕ) (d : Decoded)
    → Decodes types new type ptr w a before d
    → d ≡ object (some (s, some o))
    → After w before (s, some o)
decoded-After types new type ptr w a before s o _ (null h) eq = absurd cc
decoded-After types new type ptr w a before s o _ (uses_null ne h) eq = absurd cc
decoded-After types new type ptr w a before s o _ (points got h g) eq =
    pointed-After types new type ptr w a before s o got g (ap got_of eq)
