-- ===== src/Tests/Loaders.antt =====
-- A loader object of library_loader.c at a concrete input: it is initialised three times, the second
-- time with a file that is no library.
use pycallocs.Prelude.{◌+◌, ◌≡◌, none, some, List, [], ◌∷◌}
use pycallocs.LibraryLoader.Handle.{
  InitCall, dlopened, libloader_life, replaced, libloader_life_lem,
}

abbrev calls : List InitCall
calls = dlopened (some 3) ∷ dlopened none ∷ dlopened (some 3) ∷ []

libloader_life_lem_example :
    libloader_life calls (record { dl_handle = none; opens = λ h. 2 }) 3 ≡ 2 + replaced none calls 3
libloader_life_lem_example = libloader_life_lem calls (λ h. 2) 3
