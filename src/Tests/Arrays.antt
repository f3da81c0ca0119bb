-- ===== src/Tests/Arrays.antt =====
-- minicrunch.c at concrete inputs: `int a[4]` in an allocation of 16 bytes at 4096, seen from a[2].
use pycallocs.Prelude.{◌≡◌, inl, refl, arith, true, false, none, some, [], ◌∷◌}
use pycallocs.Bounds.{
  ArrayType, Uniqtype, Visit, AllocInfo, fetch_bounds, initial_arg, search, bounds_cb, make_bounds,
  array_bounds,
}
use pycallocs.Bounds.Containment.{Holds, fetch_bounds-Holds}

abbrev int_type : Uniqtype
int_type = record { pos_maxoff = 4; array = none; is_char = false }

abbrev char_type : Uniqtype
char_type = record { pos_maxoff = 1; array = none; is_char = true }

abbrev four_ints : ArrayType
four_ints = record { length = 4; known_length = true; elem_maxoff = 4 }

abbrev third : Visit
third = record { u = int_type; container = some four_ints; offset_within = 8; offset = 8 }

abbrev block : AllocInfo
block = record { failed = false; alloc_start = 4096; alloc_size_bytes = 16 }

fetch_bounds-Holds_example : Holds (fetch_bounds 4104 int_type block (third ∷ [])) 4104 4
fetch_bounds-Holds_example =
    fetch_bounds-Holds 4104 int_type block (third ∷ []) (λ e. omega arith) refl refl (omega arith)
      (omega arith) (omega arith) (omega arith)
      (
        record {
          within = omega arith;
          offset_lt = omega arith;
          in_array = (refl, (λ e. omega arith), (λ e. cc));
        },
        tt,
      )
      (omega arith, tt) (inl (refl, refl))

fetch_whole_array :
    fetch_bounds 4104 int_type block (third ∷ []) ≡ record { base = 4096; size = 16 }
unfolding fetch_bounds search bounds_cb initial_arg make_bounds array_bounds
fetch_whole_array = refl
