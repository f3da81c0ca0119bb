-- ===== src/LibraryLoader/Handle.antt =====
-- The handle of a loader object in library_loader.c: `libloader_init`, which opens the library, and
-- `libloader_dealloc`, which closes it. dlopen and dlclose are counted for each handle. An object is
-- made without a handle, and Python may call `__init__` more than once, or never.
use pycallocs.Prelude.{
  ℕ, ◌+◌, ◌-◌, ◌≡◌, arith, Option, none, some, List, [], ◌∷◌, Error, type_error, import_error, ◌==◌,
  if◌then◌else◌,
}

-- A call of `__init__`: its arguments are refused, or dlopen gives a handle or NULL.
pub data InitCall : Type 0 where
  refused_arguments : InitCall
  dlopened : Option ℕ → InitCall

-- `dl_handle` of the object, none for NULL, and how often each handle is open.
pub record Loader : Type 0 where
  pub dl_handle : Option ℕ
  pub opens : ℕ → ℕ

abbrev pub opened : ℕ → (ℕ → ℕ) → ℕ → ℕ
opened h opens k = if k == h then opens k + 1 else opens k

abbrev pub closed : ℕ → (ℕ → ℕ) → ℕ → ℕ
closed h opens k = if k == h then opens k - 1 else opens k

-- libloader_init, with the exception behind -1
unfoldable pub libloader_init : InitCall → Loader → Loader × Option Error
libloader_init refused_arguments s = (s, some type_error)
libloader_init (dlopened none) s = (record s { dl_handle = none }, some import_error)
libloader_init (dlopened (some h)) s =
    (record { dl_handle = some h; opens = opened h s.opens }, none)

unfoldable pub close_handle : Option ℕ → (ℕ → ℕ) → ℕ → ℕ
close_handle none opens = opens
close_handle (some h) opens = closed h opens

-- libloader_dealloc
unfoldable pub libloader_dealloc : Loader → ℕ → ℕ
unfolding close_handle
libloader_dealloc s = close_handle s.dl_handle s.opens

-- The calls of `__init__` in turn, then the end of the object
unfoldable pub libloader_life : List InitCall → Loader → ℕ → ℕ
unfolding libloader_init libloader_dealloc
libloader_life [] s = libloader_dealloc s
libloader_life (c ∷ cs) s = libloader_life cs (libloader_init c s).0

-- How often the handle is given by a call, and then replaced, by the result of a later dlopen.
abbrev pub is_handle : Option ℕ → ℕ → ℕ
is_handle none k = 0
is_handle (some h) k = if k == h then 1 else 0

abbrev pub replaced : Option ℕ → List InitCall → ℕ → ℕ
replaced last [] k = 0
replaced last (refused_arguments ∷ cs) k = replaced last cs k
replaced last (dlopened h ∷ cs) k = is_handle last k + replaced h cs k

close_handle-replaced :
    (h : Option ℕ) (opens : ℕ → ℕ) (k others : ℕ)
    → opens k ≡ others + is_handle h k
    → close_handle h opens k ≡ others + 0
unfolding close_handle
close_handle-replaced none opens k others eq = omega arith
close_handle-replaced (some h) opens k others eq = ground arith

-- From an object whose handle is open.
libloader_life-replaced :
    (cs : List InitCall) (s : Loader) (k others : ℕ)
    → s.opens k ≡ others + is_handle s.dl_handle k
    → libloader_life cs s k ≡ others + replaced s.dl_handle cs k
unfolding libloader_life libloader_init libloader_dealloc
libloader_life-replaced [] s k others eq = close_handle-replaced s.dl_handle s.opens k others eq
libloader_life-replaced (refused_arguments ∷ cs) s k others eq =
    libloader_life-replaced cs s k others eq
libloader_life-replaced (dlopened none ∷ cs) s k others eq =
    let rest =
      libloader_life-replaced cs (record s { dl_handle = none }) k (s.opens k) (omega arith) in
    omega (arith, rest)
libloader_life-replaced (dlopened (some h) ∷ cs) s k others eq =
    let s' : Loader = record { dl_handle = some h; opens = opened h s.opens } in
    let rest = libloader_life-replaced cs s' k (s.opens k) (ground arith) in omega (arith, rest)

-- The libraries that a loader object leaves open. Made without a handle, then initialised any number
-- of times, and freed: each handle is open as often as before, and once more for each time that a
-- call of `__init__` got it and a later one, which reached dlopen, replaced it.
pub libloader_life_lem :
    (cs : List InitCall) (opens : ℕ → ℕ) (k : ℕ)
    → libloader_life cs (record { dl_handle = none; opens = opens }) k
      ≡ opens k + replaced none cs k
libloader_life_lem cs opens k =
    libloader_life-replaced cs (record { dl_handle = none; opens = opens }) k (opens k)
      (omega arith)
