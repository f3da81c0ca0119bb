-- ===== src/Repr/Signature.antt =====
-- `funproxy_repr` of function_proxy.c: a foreign function is printed with its results' and arguments'
-- types, its name, which the linker may know, and its address, which is printed by the C library.
use pycallocs.Prelude.{
  ℕ, ◌+◌, ◌≤◌, ◌≡◌, refl, ap, sym, ◌∙◌, arith, Bool, true, false, inl, ◌⊎◌, inr, Option, none, some,
  List, [], ◌∷◌, ◌++◌, map, length, ltb,
}
use mathlib.Core.List.{append_assoc, append-nil}
use pycallocs.Repr.{Text}

abbrev unknown : Text
unknown = b'<' ∷ b'u' ∷ b'n' ∷ b'k' ∷ b'n' ∷ b'o' ∷ b'w' ∷ b'n' ∷ b'>' ∷ []

-- The name of a result's or argument's type, none for NULL
abbrev pub arg_name : Option Text → Text
arg_name none = unknown
arg_name (some name) = name

abbrev pub separated : List Text → Text
separated [] = []
separated (t ∷ ts) = b',' ∷ b' ' ∷ t ++ separated ts

-- PyUnicode_Join with ", "
abbrev pub join_names : List Text → Text
join_names [] = []
join_names (t ∷ ts) = t ++ separated ts

-- What dladdr finds: nothing; or an object, with the symbol's name or NULL.
pub data Symbol : Type 0 where
  not_found : Symbol
  nearest : Option Text → Symbol

-- The name printed; none where NULL is given to `%s`.
abbrev pub symbol_name : Symbol → Option Text
symbol_name not_found = some unknown
symbol_name (nearest name) = name

abbrev pub funsig : Text → Text → Text → Text → Text
funsig ret sym_name arg pointer =
    b'<' ∷ b'f' ∷ b'o' ∷ b'r' ∷ b'e' ∷ b'i' ∷ b'g' ∷ b'n' ∷ b' ' ∷ b'f' ∷ b'u' ∷ b'n' ∷ b'c' ∷ b't'
      ∷ b'i' ∷ b'o' ∷ b'n' ∷ b' ' ∷ 39 ∷ ret
    ++ (b' ' ∷ sym_name
        ++ (b'(' ∷ arg ++ (b')' ∷ 39 ∷ b' ' ∷ b'a' ∷ b't' ∷ b' ' ∷ pointer ++ (b'>' ∷ []))))

abbrev pub Lists : Type 0
Lists = List Text × List Text

-- PyList_Append of one name
unfoldable pub append_name : Bool → Text → Lists → Lists
append_name true name (rets, args) = (rets ++ (name ∷ []), args)
append_name false name (rets, args) = (rets, args ++ (name ∷ []))

-- The loop over `nret + narg` types, from index `a` on
unfoldable pub name_lists : ℕ → ℕ → List (Option Text) → Lists → Lists
unfolding append_name
name_lists nret a [] ls = ls
name_lists nret a (t ∷ ts) ls =
    name_lists nret (a + 1) ts (append_name (ltb a nret) (arg_name t) ls)

unfoldable pub print_signature : Option Text → Text → Lists → Option Text
print_signature none pointer ls = none
print_signature (some name) pointer (rets, args) =
    some (funsig (join_names rets) name (join_names args) pointer)

-- funproxy_repr; none where NULL is printed.
unfoldable pub funproxy_repr : ℕ → List (Option Text) → Symbol → Text → Option Text
unfolding print_signature name_lists
funproxy_repr nret related symbol pointer =
    print_signature (symbol_name symbol) pointer (name_lists nret 0 related ([], []))

name_lists-args :
    (nret a : ℕ) (args : List (Option Text)) (rs done : List Text)
    → nret ≤ a
    → name_lists nret a args (rs, done) ≡ (rs, done ++ map arg_name args)
unfolding name_lists append_name
name_lists-args nret a [] rs done le = ap (λ (l : List Text). (rs, l)) (sym (append-nil done))
name_lists-args nret a (t ∷ ts) rs done le =
    let past : ltb a nret ≡ false = ground arith in
    rw past (
      name_lists-args nret (a + 1) ts rs (done ++ (arg_name t ∷ [])) (omega arith)
      ∙ ap (λ (l : List Text). (rs, l)) (append_assoc done (arg_name t ∷ []) (map arg_name ts)))

name_lists-append :
    (nret a : ℕ) (rets args : List (Option Text)) (rs : List Text)
    → nret ≡ a + length rets
    → name_lists nret a (rets ++ args) (rs, []) ≡ (rs ++ map arg_name rets, map arg_name args)
unfolding name_lists append_name
name_lists-append nret a [] args rs eq =
    name_lists-args nret a args rs [] (omega arith)
    ∙ ap (λ (l : List Text). (l, map arg_name args)) (sym (append-nil rs))
name_lists-append nret a (t ∷ ts) args rs eq =
    let before : ltb a nret ≡ true = ground arith in
    rw (name_lists, before)
      (name_lists-append nret (a + 1) ts args (rs ++ (arg_name t ∷ [])) (omega arith)
        ∙ ap (λ (l : List Text). (l, map arg_name args))
            (append_assoc rs (arg_name t ∷ []) (map arg_name ts)))

-- Printing a foreign function shows the names of its results' types in front of its name, those of
-- its arguments' types in parentheses, each in order, and the address, whatever the number of
-- either; but if the linker knows no name for the nearest symbol, NULL is printed.
pub funproxy_repr_cases :
    (rets args : List (Option Text)) (symbol : Symbol) (pointer : Text)
    → ((symbol ≡ nearest none) × (funproxy_repr (length rets) (rets ++ args) symbol pointer ≡ none))
      ⊎ ((name : Text) × (symbol_name symbol ≡ some name)
          × (funproxy_repr (length rets) (rets ++ args) symbol pointer
              ≡ some (
                  funsig
                    (join_names (map arg_name rets))
                    name
                    (join_names (map arg_name args))
                    pointer)))
unfolding funproxy_repr print_signature
funproxy_repr_cases rets args not_found pointer =
    inr (unknown, refl, rw (name_lists-append (length rets) 0 rets args [] (omega arith)) refl)
funproxy_repr_cases rets args (nearest none) pointer = inl (refl, refl)
funproxy_repr_cases rets args (nearest (some name)) pointer =
    inr (name, refl, rw (name_lists-append (length rets) 0 rets args [] (omega arith)) refl)
