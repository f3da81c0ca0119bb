-- ===== src/Repr/Ends.antt =====
-- Printing ends, also where structs refer to each other in circles.
use pycallocs.Prelude.{
  ℕ, zero, suc, ◌+◌, ◌*◌, ◌≡◌, ◌≢◌, ◌≤◌, ◌<◌, refl, ◌⊎◌, inl, inr, arith, Bool, true, false, Option,
  none, some, List, [], ◌∷◌, ◌++◌, if◌then◌else◌, Elem, ap,
}
use pycallocs.Repr.{
  Text, Field, invalid, valued, View, plain, composite, address, characters, Printed, unfinished,
  crashed, printed, is_marked, next_item, print_items, next_field, print_fields, finish_composite,
  composite_repr, repr_view, repr,
}
use pycallocs.Repr.Marks.{Restores, RestoresAll, repr-RestoresAll}

-- How many of the types are not marked.
abbrev pub unmarked : List ℕ → List ℕ → ℕ
unmarked [] seen = 0
unmarked (t ∷ ts) seen = (if is_marked t seen then 0 else 1) + unmarked ts seen

unmarked-le : (ts : List ℕ) (t : ℕ) (seen : List ℕ) → unmarked ts (t ∷ seen) ≤ unmarked ts seen
unmarked-le [] t seen = omega arith
unmarked-le (u ∷ ts) t seen = ground (arith, unmarked-le ts t seen)

unmarked-lt :
    (ts : List ℕ) (t : ℕ) (seen : List ℕ)
    → Elem t ts
    → is_marked t seen ≡ false
    → unmarked ts (t ∷ seen) < unmarked ts seen
unmarked-lt [] t seen known free = absurd known
unmarked-lt (u ∷ ts) t seen (inl here) free =
    let now : is_marked u seen ≡ false = cc in ground (arith, unmarked-le ts t seen)
unmarked-lt (u ∷ ts) t seen (inr later) free = ground (arith, unmarked-lt ts t seen later free)

-- The objects in a value and the types of its structs are finitely many layers: between two structs
-- the items of an array have lower ranks than the array.
module _ (types : List ℕ) (rank : ℕ → ℕ) (limit : ℕ) where
  abbrev pub ItemsBelow : ℕ → List (Option ℕ) → Type 0
  ItemsBelow r [] = Unit
  ItemsBelow r (none ∷ items) = ItemsBelow r items
  ItemsBelow r (some o ∷ items) = (rank o < r) × ItemsBelow r items

  abbrev pub FieldsBelow : List Field → Type 0
  FieldsBelow [] = Unit
  FieldsBelow (invalid ∷ fs) = FieldsBelow fs
  FieldsBelow (valued name none ∷ fs) = FieldsBelow fs
  FieldsBelow (valued name (some o) ∷ fs) = (rank o < limit) × FieldsBelow fs

  abbrev pub IsLayered : View → ℕ → Type 0
  IsLayered (plain t) r = Unit
  IsLayered (composite t name fs) r = Elem t types × FieldsBelow fs
  IsLayered (address items) r = ItemsBelow r items
  IsLayered (characters t items) r = ItemsBelow r items

next_item-ends :
    (seen : List ℕ) (r : Printed) (rest : Text → List ℕ → Printed)
    → Restores seen r
    → r ≢ unfinished
    → ((t : Text) → rest t seen ≢ unfinished)
    → next_item r rest ≢ unfinished
unfolding next_item
next_item-ends seen unfinished rest h ends later = ends
next_item-ends seen crashed rest h ends later = λ e. cc
next_item-ends seen (printed none seen') rest h ends later = λ e. cc
next_item-ends seen (printed (some t) seen') rest h ends later = rw h (later t)

next_field-ends :
    (seen : List ℕ) (r : Printed) (rest : Text → List ℕ → Printed)
    → Restores seen r
    → r ≢ unfinished
    → ((t : Text) → rest t seen ≢ unfinished)
    → next_field r rest ≢ unfinished
unfolding next_field
next_field-ends seen unfinished rest h ends later = ends
next_field-ends seen crashed rest h ends later = λ e. cc
next_field-ends seen (printed none seen') rest h ends later = λ e. cc
next_field-ends seen (printed (some t) seen') rest h ends later = rw h (later t)

finish_composite-ends :
    (t : ℕ) (name : Text) (r : Printed) → r ≢ unfinished → finish_composite t name r ≢ unfinished
unfolding finish_composite
finish_composite-ends t name unfinished ends = ends
finish_composite-ends t name crashed ends = λ e. cc
finish_composite-ends t name (printed none seen) ends = λ e. cc
finish_composite-ends t name (printed (some text) seen) ends = λ e. cc

module _ (types : List ℕ) (rank : ℕ → ℕ) (limit n : ℕ) (call : ℕ → List ℕ → Printed)
    (restores : RestoresAll call)
    (ends : (o : ℕ) (seen : List ℕ)
      → unmarked types seen * limit + rank o < n
      → call o seen ≢ unfinished) where
  print_items-ends :
      (items : List (Option ℕ)) (r i : ℕ) (acc : Text) (seen : List ℕ)
      → ItemsBelow types rank limit r items
      → unmarked types seen * limit + r ≤ n
      → print_items call items i acc seen ≢ unfinished
  unfolding print_items
  print_items-ends [] r i acc seen below fuel = λ e. cc
  print_items-ends (none ∷ items) r i acc seen below fuel = λ e. cc
  print_items-ends (some o ∷ items) r i acc seen (lt, below) fuel =
      next_item-ends seen (call o seen) _ (restores o seen) (ends o seen (omega arith))
        (λ t. print_items-ends items r (i + 1) _ seen below fuel)

  print_fields-ends :
      (fs : List Field) (acc : Text) (seen : List ℕ)
      → FieldsBelow types rank limit fs
      → unmarked types seen * limit + limit ≤ n
      → print_fields call fs acc seen ≢ unfinished
  unfolding print_fields
  print_fields-ends [] acc seen below fuel = λ e. cc
  print_fields-ends (invalid ∷ fs) acc seen below fuel = print_fields-ends fs acc seen below fuel
  print_fields-ends (valued name none ∷ fs) acc seen below fuel = λ e. cc
  print_fields-ends (valued name (some o) ∷ fs) acc seen (lt, below) fuel =
      next_field-ends seen (call o seen) _ (restores o seen) (ends o seen (omega arith))
        (λ t. print_fields-ends fs _ seen below fuel)

  composite_repr-ends :
      (t : ℕ) (name : Text) (fs : List Field) (seen : List ℕ) (marked : Bool)
      → is_marked t seen ≡ marked
      → Elem t types
      → FieldsBelow types rank limit fs
      → unmarked types seen * limit ≤ n
      → composite_repr call t name fs seen marked ≢ unfinished
  unfolding composite_repr
  composite_repr-ends t name fs seen true eq known below fuel = λ e. cc
  composite_repr-ends t name fs seen false eq known below fuel =
      let fewer = unmarked-lt types t seen known eq in
      let layer : unmarked types (t ∷ seen) * limit + limit ≤ unmarked types seen * limit =
        grind arith in
      finish_composite-ends t name _ (print_fields-ends fs [] (t ∷ seen) below (omega arith))

  repr_view-ends :
      (v : View) (r : ℕ) (seen : List ℕ)
      → IsLayered types rank limit v r
      → unmarked types seen * limit + r ≤ n
      → repr_view call v seen ≢ unfinished
  unfolding repr_view
  repr_view-ends (plain t) r seen layered fuel = λ e. cc
  repr_view-ends (composite t name fs) r seen (known, below) fuel =
      composite_repr-ends t name fs seen (is_marked t seen) refl known below (omega arith)
  repr_view-ends (address items) r seen below fuel = print_items-ends items r 0 [] seen below fuel
  repr_view-ends (characters none items) r seen below fuel =
      print_items-ends items r 0 [] seen below fuel
  repr_view-ends (characters (some t) items) r seen below fuel = λ e. cc

module _ (view : ℕ → View) (types : List ℕ) (rank : ℕ → ℕ) (limit : ℕ)
    (layered : (o : ℕ) → IsLayered types rank limit (view o) (rank o)) where
  repr-ends :
      (n o : ℕ) (seen : List ℕ)
      → unmarked types seen * limit + rank o < n
      → repr view n o seen ≢ unfinished
  unfolding repr
  repr-ends zero o seen fuel = absurd (omega arith)
  repr-ends (suc n) o seen fuel =
      repr_view-ends types rank limit n (repr view n) (repr-RestoresAll view n) (repr-ends n)
        (view o) (rank o) seen (layered o) (omega arith)

  outcome :
      (seen : List ℕ) (r : Printed)
      → Restores seen r
      → r ≢ unfinished
      → (r ≡ crashed)
        ⊎ ((added : List ℕ) × (r ≡ printed none (added ++ seen)))
        ⊎ ((t : Text) × (r ≡ printed (some t) seen))
  outcome seen unfinished h ends = absurd (ends refl)
  outcome seen crashed h ends = inl refl
  outcome seen (printed none seen') (added, h) ends = inr (inl (added, ap (printed none) h))
  outcome seen (printed (some t) seen') h ends = inr (inr (t, ap (printed (some t)) h))

  -- Printing an object ends, also where structs refer to each other in circles. The structs reached
  -- are of finitely many types; the objects have ranks, below `limit` for the fields of structs, and
  -- lower for an item than for its array, so that no array is reached from its own items but
  -- through a struct. Then the depth of the calls is at most `limit` for each struct type that is
  -- not being printed, and the rank. The call uses NULL as an object; or it gives NULL, and may
  -- leave more types marked as being printed; or it gives a text, and the marks are as before.
  pub repr_cases :
      (n o : ℕ) (seen : List ℕ)
      → unmarked types seen * limit + rank o < n
      → (repr view n o seen ≡ crashed)
        ⊎ ((added : List ℕ) × (repr view n o seen ≡ printed none (added ++ seen)))
        ⊎ ((t : Text) × (repr view n o seen ≡ printed (some t) seen))
  repr_cases n o seen fuel =
      outcome seen (repr view n o seen) (repr-RestoresAll view n o seen) (repr-ends n o seen fuel)
