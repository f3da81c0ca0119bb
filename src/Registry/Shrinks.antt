-- ===== src/Registry/Shrinks.antt =====
-- What a release in the registry of proxy.c may change, and what its calls are to leave.
use pycallocs.Prelude.{
  ℕ, ◌≡◌, ◌≤◌, refl, ◌∙◌, ◌⊎◌, inl, inr, arith, Option, none, some, List, length,
}
use pycallocs.Registry.{From, field, lookup, Registry, then_do}
use pycallocs.Registry.State.{Owned, IsValid}

-- Nothing is added: pointers and types stay, each dictionary keeps an item or loses it, no count
-- grows, and the entry of a proxy's field stays as it is while the proxy is alive.
pub record Shrinks (s s' : Registry) : Type 0 where
  pub p_ptr : s'.p_ptr ≡ s.p_ptr
  pub types : s'.types ≡ s.types
  pub registered : (a : ℕ) → (s'.proxy_dict a ≡ none) ⊎ (s'.proxy_dict a ≡ s.proxy_dict a)
  pub keys : (f : From) → lookup f s.pointing ≡ none → lookup f s'.pointing ≡ none
  pub refs : (o : ℕ) → s'.refs o ≤ s.refs o
  pub fields :
      (o : ℕ) → (lookup (field o) s'.pointing ≡ lookup (field o) s.pointing) ⊎ (s'.refs o ≡ 0)
  pub shorter : length s'.pointing ≤ length s.pointing

pub Shrinks-refl : (s : Registry) → Shrinks s s
Shrinks-refl s = record {
  p_ptr = refl;
  types = refl;
  registered = λ a. inr refl;
  keys = λ f h. h;
  refs = λ o. omega arith;
  fields = λ o. inl refl;
  shorter = omega arith;
}

pub Shrinks-trans : (s s' s'' : Registry) → Shrinks s s' → Shrinks s' s'' → Shrinks s s''
Shrinks-trans s s' s'' h h' = record {
  p_ptr = h'.p_ptr ∙ h.p_ptr;
  types = h'.types ∙ h.types;
  registered = λ a. elim (h'.registered a) [
    | inl out ↦ inl out
    | inr kept ↦ elim (h.registered a) [
      | inl out ↦ inl (kept ∙ out)
      | inr kept' ↦ inr (kept ∙ kept')
    ]
  ];
  keys = λ f e. h'.keys f (h.keys f e);
  refs = λ o. let first = h.refs o in let second = h'.refs o in omega arith;
  fields = λ o. elim (h'.fields o) [
    | inl same ↦ elim (h.fields o) [
      | inl same' ↦ inl (same ∙ same')
      | inr free ↦ let second = h'.refs o in inr (omega arith)
    ]
    | inr free ↦ inr free
  ];
  shorter = let first = h.shorter in let second = h'.shorter in omega arith;
}

-- A call that ended, and left the registry valid with nothing added.
pub record Ends (dying : List ℕ) (w : Owned) (s : Registry) (r : Option Registry) : Type 0 where
  pub after : Registry
  pub ended : r ≡ some after
  pub valid : IsValid dying w after
  pub shrinks : Shrinks s after

-- The same of a deletion, whose key is gone.
pub record Deletes (dying : List ℕ) (w : Owned) (f : From) (s : Registry) (r : Option Registry)
    : Type 0 where
  pub ends : Ends dying w s r
  pub gone : lookup f ends.after.pointing ≡ none

pub then_do-Ends :
    (dying : List ℕ) (w : Owned) (s : Registry) (r : Option Registry)
    (next : Registry → Option Registry) (first : Ends dying w s r)
    → Ends dying w first.after (next first.after)
    → Ends dying w s (then_do r next)
unfolding then_do
then_do-Ends dying w s r next first second = record {
  after = second.after;
  ended = rw first.ended second.ended;
  valid = second.valid;
  shrinks = Shrinks-trans s first.after second.after first.shrinks second.shrinks;
}
