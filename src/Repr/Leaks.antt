-- ===== src/Repr/Leaks.antt =====
-- What a failure in compositeproxy_repr leaves behind.
use pycallocs.Prelude.{ℕ, suc, ◌≡◌, refl, arith, Bool, true, false, none, some, List, [], ◌∷◌, ◌++◌}
use pycallocs.Repr.{
  Text, Field, View, composite, Printed, unfinished, crashed, printed, is_marked, finish_composite,
  composite_repr, elided, repr_view, repr,
}
use pycallocs.Repr.Marks.{Restores, print_fields-Restores, repr-RestoresAll}

is_marked-append :
    (added : List ℕ) (t : ℕ) (seen : List ℕ) → is_marked t (added ++ (t ∷ seen)) ≡ true
is_marked-append [] t seen = ground arith
is_marked-append (u ∷ added) t seen = ground (arith, is_marked-append added t seen)

-- The type of a struct whose printing failed stays marked.
failed_marked :
    (t : ℕ) (name : Text) (seen seen' : List ℕ) (r : Printed)
    → Restores (t ∷ seen) r
    → finish_composite t name r ≡ printed none seen'
    → is_marked t seen' ≡ true
unfolding finish_composite
failed_marked t name seen seen' unfinished h eq = absurd cc
failed_marked t name seen seen' crashed h eq = absurd cc
failed_marked t name seen seen' (printed (some text) seen'') h eq = absurd cc
failed_marked t name seen seen' (printed none seen'') (added, h) eq =
    let same : seen' ≡ added ++ (t ∷ seen) = cc in rw same (is_marked-append added t seen)

module _ (view : ℕ → View) (t : ℕ) (name : Text) where
  composite_repr-marked :
      (n : ℕ) (fs : List Field) (seen seen' : List ℕ) (marked : Bool)
      → composite_repr (repr view n) t name fs seen marked ≡ printed none seen'
      → is_marked t seen' ≡ true
  unfolding composite_repr
  composite_repr-marked n fs seen seen' true eq = absurd cc
  composite_repr-marked n fs seen seen' false eq =
      failed_marked t name seen seen' _
        (print_fields-Restores (repr view n) (repr-RestoresAll view n) fs [] (t ∷ seen)) eq

  -- The printing of one struct that raises breaks the printing of all structs of its type: each one
  -- that is printed afterwards, whatever its fields hold, shows an ellipsis in their place.
  pub repr-elided :
      (n m o o' : ℕ) (fs fs' : List Field) (seen seen' : List ℕ)
      → view o ≡ composite t name fs
      → view o' ≡ composite t name fs'
      → repr view (suc n) o seen ≡ printed none seen'
      → repr view (suc m) o' seen' ≡ printed (some (elided name)) seen'
  unfolding repr repr_view
  repr-elided n m o o' fs fs' seen seen' struct struct' failed =
      let marked =
        composite_repr-marked n fs seen seen' (is_marked t seen) (simp struct at failed) in
      rw struct' (rw (marked, composite_repr) refl)
