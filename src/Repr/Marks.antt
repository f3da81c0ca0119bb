-- ===== src/Repr/Marks.antt =====
-- What printing leaves of Python's list of the types that are being printed.
use pycallocs.Prelude.{
  ℕ, zero, suc, ◌+◌, ◌≡◌, refl, sym, ◌∙◌, arith, Bool, true, false, Option, none, some, List, [],
  ◌∷◌, ◌++◌, ◌==◌,
}
use mathlib.Core.List.{append_assoc}
use pycallocs.Repr.{
  Text, Field, invalid, valued, View, plain, composite, address, characters, Printed, unfinished,
  crashed, printed, is_marked, next_item, print_items, next_field, print_fields, finish_composite,
  composite_repr, repr_view, repr,
}

-- A text leaves the marks as they were; an exception keeps them, and may add some.
abbrev pub Restores : List ℕ → Printed → Type 0
Restores seen unfinished = Unit
Restores seen crashed = Unit
Restores seen (printed (some t) seen') = seen' ≡ seen
Restores seen (printed none seen') = (added : List ℕ) × (seen' ≡ added ++ seen)

-- The printing of each object restores the marks.
abbrev pub RestoresAll : (ℕ → List ℕ → Printed) → Type 0
RestoresAll repr = (o : ℕ) (seen : List ℕ) → Restores seen (repr o seen)

next_item-Restores :
    (seen : List ℕ) (r : Printed) (rest : Text → List ℕ → Printed)
    → Restores seen r
    → ((t : Text) → Restores seen (rest t seen))
    → Restores seen (next_item r rest)
unfolding next_item
next_item-Restores seen unfinished rest h later = tt
next_item-Restores seen crashed rest h later = tt
next_item-Restores seen (printed none seen') rest h later = tt
next_item-Restores seen (printed (some t) seen') rest h later = rw h (later t)

next_field-Restores :
    (seen : List ℕ) (r : Printed) (rest : Text → List ℕ → Printed)
    → Restores seen r
    → ((t : Text) → Restores seen (rest t seen))
    → Restores seen (next_field r rest)
unfolding next_field
next_field-Restores seen unfinished rest h later = tt
next_field-Restores seen crashed rest h later = tt
next_field-Restores seen (printed none seen') rest h later = h
next_field-Restores seen (printed (some t) seen') rest h later = rw h (later t)

finish_composite-Restores :
    (t : ℕ) (name : Text) (seen : List ℕ) (r : Printed)
    → Restores (t ∷ seen) r
    → Restores seen (finish_composite t name r)
unfolding finish_composite
finish_composite-Restores t name seen unfinished h = tt
finish_composite-Restores t name seen crashed h = tt
finish_composite-Restores t name seen (printed none seen') (added, h) =
    (added ++ (t ∷ []), h ∙ sym (append_assoc added (t ∷ []) seen))
finish_composite-Restores t name seen (printed (some text) seen') h =
    let same : (t == t) ≡ true = ground arith in rw (h, same) refl

module _ (call : ℕ → List ℕ → Printed) (restores : RestoresAll call) where
  print_items-Restores :
      (items : List (Option ℕ)) (i : ℕ) (acc : Text) (seen : List ℕ)
      → Restores seen (print_items call items i acc seen)
  unfolding print_items
  print_items-Restores [] i acc seen = refl
  print_items-Restores (none ∷ items) i acc seen = tt
  print_items-Restores (some o ∷ items) i acc seen =
      next_item-Restores seen (call o seen) _ (restores o seen)
        (λ t. print_items-Restores items (i + 1) _ seen)

  pub print_fields-Restores :
      (fs : List Field) (acc : Text) (seen : List ℕ) → Restores seen (print_fields call fs acc seen)
  unfolding print_fields
  print_fields-Restores [] acc seen = refl
  print_fields-Restores (invalid ∷ fs) acc seen = print_fields-Restores fs acc seen
  print_fields-Restores (valued name none ∷ fs) acc seen = tt
  print_fields-Restores (valued name (some o) ∷ fs) acc seen =
      next_field-Restores seen (call o seen) _ (restores o seen)
        (λ t. print_fields-Restores fs _ seen)

  composite_repr-Restores :
      (t : ℕ) (name : Text) (fs : List Field) (seen : List ℕ) (marked : Bool)
      → Restores seen (composite_repr call t name fs seen marked)
  unfolding composite_repr
  composite_repr-Restores t name fs seen true = refl
  composite_repr-Restores t name fs seen false =
      finish_composite-Restores t name seen _ (print_fields-Restores fs [] (t ∷ seen))

  repr_view-Restores : (v : View) (seen : List ℕ) → Restores seen (repr_view call v seen)
  unfolding repr_view
  repr_view-Restores (plain none) seen = ([], refl)
  repr_view-Restores (plain (some t)) seen = refl
  repr_view-Restores (composite t name fs) seen =
      composite_repr-Restores t name fs seen (is_marked t seen)
  repr_view-Restores (address items) seen = print_items-Restores items 0 [] seen
  repr_view-Restores (characters none items) seen = print_items-Restores items 0 [] seen
  repr_view-Restores (characters (some t) items) seen = refl

pub repr-RestoresAll : (view : ℕ → View) (n : ℕ) → RestoresAll (repr view n)
unfolding repr
repr-RestoresAll view zero o seen = tt
repr-RestoresAll view (suc n) o seen =
    repr_view-Restores (repr view n) (repr-RestoresAll view n) (view o) seen
