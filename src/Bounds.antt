-- ===== src/Bounds.antt =====
-- minicrunch.c: the bounds of the array that a pointer points into. liballocs is a parameter: what
-- `__liballocs_get_alloc_info` says of the pointer is an `AllocInfo`, and the subobjects that
-- `__liballocs_search_subobjects_spanning` would visit, in order, are a list of `Visit`. The
-- caches that minicrunch fills (`cache_bounds`, `cache_containment_facts`, `cache_fake_bounds`)
-- are liballocs's own and are left out: no result here reads them.
pub mod Search
pub mod Containment
pub mod Chain
use pycallocs.Prelude.{
  ℕ, ◌+◌, ◌-◌, ◌*◌, ◌%◌, ◌^◌, Bool, true, false, ◌||◌, ◌&&◌, not, Option, none, some, List, [], ◌∷◌,
  ltb, ◌==◌, if◌then◌else◌,
}

-- UNIQTYPE_ARRAY_LENGTH, UNIQTYPE_HAS_KNOWN_LENGTH and the element type's pos_maxoff.
pub record ArrayType : Type 0 where
  pub length : ℕ
  pub known_length : Bool
  pub elem_maxoff : ℕ

-- `array` is there for a type that UNIQTYPE_IS_ARRAY_TYPE accepts, `is_char` for the two
-- character types that `__fetch_bounds_internal` compares with.
pub record Uniqtype : Type 0 where
  pub pos_maxoff : ℕ
  pub array : Option ArrayType
  pub is_char : Bool

-- One call of the callback: the subobject's type, the array type that contains it directly (if
-- `ucc->u_container` is there and is an array), its offset in that container and from the start.
pub record Visit : Type 0 where
  pub u : Uniqtype
  pub container : Option ArrayType
  pub offset_within : ℕ
  pub offset : ℕ

pub record BoundsCbArg : Type 0 where
  pub passed_in_t : Uniqtype
  pub target_offset : ℕ
  pub success : Bool
  pub matched_t : Option Uniqtype
  pub innermost : Option ArrayType
  pub innermost_start : ℕ
  pub outermost : Option ArrayType
  pub outermost_start : ℕ
  pub accum_array_bounds : ℕ

-- `unsigned` subtraction.
abbrev pub sub32 : ℕ → ℕ → ℕ
sub32 a b = (a + 2 ^ 32 - b) % 2 ^ 32

-- A pointer difference, cut to an `unsigned`.
abbrev pub target_offset_in : ℕ → ℕ → ℕ
target_offset_in obj start = (obj + 2 ^ 64 - start) % 2 ^ 32

-- The outermost array is kept while arrays nest directly.
unfoldable pub note_outermost : Option ArrayType → ArrayType → ℕ → BoundsCbArg → BoundsCbArg
note_outermost none container start arg = record arg {
  outermost = some container;
  outermost_start = start;
  accum_array_bounds = container.length;
}
note_outermost (some outer) container start arg = record arg {
  accum_array_bounds = arg.accum_array_bounds * container.length % 2 ^ 64;
}

-- The first part of `bounds_cb`: remember the array descended through, or clear the memory.
unfoldable pub note_container : Option ArrayType → Visit → BoundsCbArg → BoundsCbArg
unfolding note_outermost
note_container (some container) v arg =
    let start = sub32 v.offset v.offset_within in
    note_outermost arg.outermost container start
      (record arg { innermost = some container; innermost_start = start })
note_container none v arg = record arg {
  innermost = none;
  innermost_start = 0;
  outermost = none;
  outermost_start = 0;
  accum_array_bounds = 0;
}

-- The second part: `true` ends the search.
unfoldable pub match_visit : Visit → BoundsCbArg → BoundsCbArg × Bool
match_visit v arg =
    if ltb v.offset arg.target_offset
    then (arg, false)
    else if ltb arg.target_offset v.offset
    then (arg, true)
    else if v.u.pos_maxoff == arg.passed_in_t.pos_maxoff
    then (record arg { success = true; matched_t = some v.u }, true)
    else (arg, false)

unfoldable pub bounds_cb : Visit → BoundsCbArg → BoundsCbArg × Bool
unfolding note_container match_visit
bounds_cb v arg = match_visit v (note_container v.container v arg)

-- The search calls the callback on the spanning subobjects until it returns true.
unfoldable pub search : List Visit → BoundsCbArg → BoundsCbArg
search [] arg = arg
search (v ∷ vs) arg =
    let r = bounds_cb v arg in let rest = search vs r.0 in if r.1 then r.0 else rest

unfoldable pub initial_arg : Uniqtype → ℕ → BoundsCbArg
initial_arg t target = record {
  passed_in_t = t;
  target_offset = target;
  success = false;
  matched_t = none;
  innermost = none;
  innermost_start = 0;
  outermost = none;
  outermost_start = 0;
  accum_array_bounds = 0;
}

-- What liballocs says of the queried pointer.
pub record AllocInfo : Type 0 where
  pub failed : Bool
  pub alloc_start : ℕ
  pub alloc_size_bytes : ℕ

pub record Bounds : Type 0 where
  pub base : ℕ
  pub size : ℕ

-- `size` is an `unsigned`, so the difference is cut to 32 bits.
unfoldable pub make_bounds : ℕ → ℕ → Bounds
make_bounds base limit = record { base = base; size = (limit + 2 ^ 64 - base) % 2 ^ 32 }

unfoldable pub min_bounds : ℕ → Bounds
unfolding make_bounds
min_bounds obj = make_bounds obj (obj + 1)

-- MAX_BOUNDS
unfoldable pub max_bounds : Bounds
unfolding make_bounds
max_bounds = make_bounds 0 (2 ^ 64 - 1)

unfoldable pub alloc_bounds : ℕ → AllocInfo → Bounds
unfolding make_bounds max_bounds
alloc_bounds obj info =
    if ltb info.alloc_size_bytes ((obj + 2 ^ 64 - info.alloc_start) % 2 ^ 64)
    then max_bounds
    else make_bounds info.alloc_start (info.alloc_start + info.alloc_size_bytes)

-- The bounds of the array found, `innermost` of the search, or of the single object.
unfoldable pub array_bounds : Option ArrayType → ℕ → ℕ → Uniqtype → AllocInfo → Bounds
unfolding make_bounds
array_bounds none start obj t info =
    make_bounds obj (obj + (if ltb 0 t.pos_maxoff then t.pos_maxoff else 1))
array_bounds (some a) start obj t info =
    let lower = info.alloc_start + start in
    make_bounds lower (
      if a.known_length
      then lower + a.length * t.pos_maxoff % 2 ^ 32
      else info.alloc_start + info.alloc_size_bytes)

unfoldable pub search_bounds : BoundsCbArg → ℕ → Uniqtype → AllocInfo → Bounds
unfolding array_bounds min_bounds
search_bounds arg obj t info =
    if arg.success
    then array_bounds arg.innermost arg.innermost_start obj t info
    else min_bounds obj

-- UNIQTYPE_POS_MAXOFF_UNBOUNDED
abbrev pub maxoff_unbounded : ℕ
maxoff_unbounded = 2 ^ 32 - 1

-- `visits` are the subobjects that span the offset of `obj` in its allocation.
unfoldable pub fetch_bounds : ℕ → Uniqtype → AllocInfo → List Visit → Bounds
unfolding min_bounds max_bounds alloc_bounds search_bounds
fetch_bounds obj t info visits =
    if obj == 0
    then min_bounds obj
    else if info.failed
    then max_bounds
    else if t.is_char
    then alloc_bounds obj info
    else if t.pos_maxoff == maxoff_unbounded
    then min_bounds obj
    else search_bounds (search visits (initial_arg t (target_offset_in obj info.alloc_start))) obj t
        info
