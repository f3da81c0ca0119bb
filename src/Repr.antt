-- ===== src/Repr.antt =====
-- Printing: `addrproxy_repr` and `addrproxy_str_repr` of address_proxy.c, and `compositeproxy_repr` of
-- composite_proxy.c, which call each other through PyObject_Repr. Python's guard, Py_ReprEnter and
-- Py_ReprLeave, keeps the list of the types that are being printed. Objects are numbers; what the
-- getters of fields and items give is read before, as printing changes no value. Python's limit on
-- nested calls is left out.
pub mod Marks
pub mod Ends
pub mod Leaks
pub mod Signature
use Prim.Native.String.{String}
use pycallocs.Prelude.{
  ℕ, zero, suc, ◌+◌, Bool, true, false, ◌||◌, Option, none, some, List, [], ◌∷◌, ◌++◌, ◌==◌,
  if◌then◌else◌,
}

-- The code points of a text.
abbrev pub Text : Type 0
Text = List ℕ

-- A getset entry: one whose type is not handled, which is skipped, or a field's name and the object
-- that compositeproxy_getfield gives, none for NULL.
pub data Field : Type 0 where
  invalid : Field
  valued : Text → Option ℕ → Field

-- An object, as printing sees it: what PyObject_Repr gives of one that is no proxy, or of one of a
-- function, none if it raises; a composite, by its type's number and name and its fields; an address
-- proxy, by its items, none for NULL; one of characters, which is first decoded, none if that fails.
pub data View : Type 0 where
  plain : Option Text → View
  composite : ℕ → Text → List Field → View
  address : List (Option ℕ) → View
  characters : Option Text → List (Option ℕ) → View

-- What a call leaves: the text, none for NULL with an exception, and the types that are marked as
-- being printed; `crashed` where NULL is used as an object; `unfinished` without fuel.
pub data Printed : Type 0 where
  unfinished : Printed
  crashed : Printed
  printed : Option Text → List ℕ → Printed

abbrev pub is_marked : ℕ → List ℕ → Bool
is_marked t [] = false
is_marked t (u ∷ us) = t == u || is_marked t us

-- Py_ReprLeave; the newest mark stands first.
abbrev pub unmark : ℕ → List ℕ → List ℕ
unmark t [] = []
unmark t (u ∷ us) = if t == u then us else u ∷ unmark t us

abbrev pub after_comma : Text → Text
after_comma t = b',' ∷ b' ' ∷ t

-- The text so far with that of item `i`
abbrev pub append_item : ℕ → Text → Text → Text
append_item zero acc t = acc ++ t
append_item (suc i) acc t = acc ++ after_comma t

-- PyUnicode_Join with ", " of texts that are not empty
abbrev pub join : Text → Text → Text
join [] t = t
join (c ∷ cs) t = (c ∷ cs) ++ after_comma t

abbrev pub bracketed : Text → Text
bracketed t = b'<' ∷ b'[' ∷ t ++ (b']' ∷ b'>' ∷ [])

abbrev pub quoted : Text → Text
quoted t = b'<' ∷ 39 ∷ t ++ (39 ∷ b'>' ∷ [])

abbrev pub typed : Text → Text → Text
typed name t = b'(' ∷ name ++ (b')' ∷ b'{' ∷ t ++ (b'}' ∷ []))

abbrev pub elided : Text → Text
elided name = typed name (b'.' ∷ b'.' ∷ b'.' ∷ [])

abbrev pub labelled : Text → Text → Text
labelled name t = name ++ (b':' ∷ b' ' ∷ t)

-- The loop of addrproxy_repr: NULL for an item, or for its text, is used as an object.
unfoldable pub next_item : Printed → (Text → List ℕ → Printed) → Printed
next_item unfinished rest = unfinished
next_item crashed rest = crashed
next_item (printed none seen) rest = crashed
next_item (printed (some t) seen) rest = rest t seen

unfoldable pub print_items : (ℕ → List ℕ → Printed) → List (Option ℕ) → ℕ → Text → List ℕ → Printed
unfolding next_item
print_items repr [] i acc seen = printed (some (bracketed acc)) seen
print_items repr (none ∷ items) i acc seen = crashed
print_items repr (some o ∷ items) i acc seen =
    next_item (repr o seen) (λ t. print_items repr items (i + 1) (append_item i acc t))

-- The loop of compositeproxy_repr: a field whose text is NULL ends it.
unfoldable pub next_field : Printed → (Text → List ℕ → Printed) → Printed
next_field unfinished rest = unfinished
next_field crashed rest = crashed
next_field (printed none seen) rest = printed none seen
next_field (printed (some t) seen) rest = rest t seen

unfoldable pub print_fields : (ℕ → List ℕ → Printed) → List Field → Text → List ℕ → Printed
unfolding next_field
print_fields repr [] acc seen = printed (some acc) seen
print_fields repr (invalid ∷ fs) acc seen = print_fields repr fs acc seen
print_fields repr (valued name none ∷ fs) acc seen = crashed
print_fields repr (valued name (some o) ∷ fs) acc seen =
    next_field (repr o seen) (λ t. print_fields repr fs (join acc (labelled name t)))

-- The end of compositeproxy_repr: the type stays marked if a field failed.
unfoldable pub finish_composite : ℕ → Text → Printed → Printed
finish_composite t name unfinished = unfinished
finish_composite t name crashed = crashed
finish_composite t name (printed none seen) = printed none seen
finish_composite t name (printed (some text) seen) =
    printed (some (typed name text)) (unmark t seen)

-- compositeproxy_repr, once Py_ReprEnter has said whether the type is being printed
unfoldable pub composite_repr :
    (ℕ → List ℕ → Printed) → ℕ → Text → List Field → List ℕ → Bool → Printed
unfolding finish_composite print_fields
composite_repr repr t name fs seen true = printed (some (elided name)) seen
composite_repr repr t name fs seen false =
    finish_composite t name (print_fields repr fs [] (t ∷ seen))

-- PyObject_Repr, by the object's `tp_repr`
unfoldable pub repr_view : (ℕ → List ℕ → Printed) → View → List ℕ → Printed
unfolding composite_repr print_items
repr_view repr (plain t) seen = printed t seen
repr_view repr (composite t name fs) seen = composite_repr repr t name fs seen (is_marked t seen)
repr_view repr (address items) seen = print_items repr items 0 [] seen
repr_view repr (characters none items) seen = print_items repr items 0 [] seen
repr_view repr (characters (some t) items) seen = printed (some (quoted t)) seen

-- The whole, with fuel for the depth of the calls.
module _ (view : ℕ → View) where
  unfoldable pub repr : ℕ → ℕ → List ℕ → Printed
  unfolding repr_view
  repr zero o seen = unfinished
  repr (suc n) o seen = repr_view (repr n) (view o) seen
