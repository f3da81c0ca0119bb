-- ===== src/Tests/Printing.antt =====
-- Printing at concrete inputs: a list node of type 5, `struct node { int value; struct node *next; }`,
-- whose pointer leads back to it.
use pycallocs.Prelude.{
  ℕ, zero, suc, ◌≡◌, ◌⊎◌, refl, inl, arith, none, some, List, [], ◌∷◌, ◌++◌, ◌==◌, if◌then◌else◌,
}
use pycallocs.Repr.{
  Text, Field, valued, View, plain, composite, address, crashed, printed, elided, repr, repr_view,
  composite_repr, print_fields, next_field, finish_composite, print_items, next_item,
}
use pycallocs.Repr.Ends.{IsLayered, repr_cases}
use pycallocs.Repr.Leaks.{repr-elided}

abbrev node : Text
node = b'n' ∷ []

abbrev value_name : Text
value_name = b'v' ∷ []

abbrev node_fields : List Field
node_fields = valued value_name (some 2) ∷ valued (b'p' ∷ []) (some 1) ∷ []

-- 0 is the node, 1 its pointer, 2 its number.
abbrev circle : ℕ → View
circle zero = composite 5 node node_fields
circle (suc zero) = address (some 0 ∷ [])
circle (suc (suc k)) = plain (some (b'7' ∷ []))

abbrev depth : ℕ → ℕ
depth zero = 0
depth (suc zero) = 1
depth (suc (suc k)) = 0

circle-IsLayered : (o : ℕ) → IsLayered (5 ∷ []) depth 2 (circle o) (depth o)
circle-IsLayered zero = (inl refl, (omega arith, (omega arith, tt)))
circle-IsLayered (suc zero) = (omega arith, tt)
circle-IsLayered (suc (suc k)) = tt

repr_cases_example :
    (repr circle 3 0 [] ≡ crashed)
    ⊎ ((added : List ℕ) × (repr circle 3 0 [] ≡ printed none (added ++ [])))
    ⊎ ((t : Text) × (repr circle 3 0 [] ≡ printed (some t) []))
repr_cases_example = repr_cases circle (5 ∷ []) depth 2 circle-IsLayered 3 0 [] (omega arith)

-- `(n){v: 7, p: <[(n){...}]>}`
repr-circle :
    repr circle 3 0 []
    ≡ printed
        (some (
          b'(' ∷ b'n' ∷ b')' ∷ b'{' ∷ b'v' ∷ b':' ∷ b' ' ∷ b'7' ∷ b',' ∷ b' ' ∷ b'p' ∷ b':' ∷ b' '
          ∷ b'<' ∷ b'[' ∷ b'(' ∷ b'n' ∷ b')' ∷ b'{' ∷ b'.' ∷ b'.' ∷ b'.' ∷ b'}' ∷ b']' ∷ b'>' ∷ b'}'
          ∷ []))
        []
unfolding repr repr_view composite_repr print_fields next_field finish_composite print_items
    next_item
repr-circle = refl

abbrev one_field : ℕ → List Field
one_field o = valued value_name (some o) ∷ []

-- 0 and 2 are structs of type 5; printing the field of the first one raises.
abbrev raising : ℕ → View
raising o =
    if o == 0
    then composite 5 node (one_field 1)
    else if o == 1
    then plain none
    else if o == 2
    then composite 5 node (one_field 3)
    else plain (some (b'7' ∷ []))

raised : repr raising 2 0 [] ≡ printed none (5 ∷ [])
unfolding repr repr_view composite_repr print_fields next_field finish_composite
raised = refl

repr-elided_example : repr raising 2 2 (5 ∷ []) ≡ printed (some (elided node)) (5 ∷ [])
repr-elided_example =
    repr-elided raising 5 node 1 1 0 2 (one_field 1) (one_field 3) [] (5 ∷ []) refl refl raised
