-- ===== src/LibraryLoader/Sections.antt =====
-- `libloader_exec` and `dl_iterate_syms` of library_loader.c.
use pycallocs.Prelude.{ℕ, zero, suc, ◌+◌, ◌≡◌, ◌⊎◌, arith, Option, some, List, [], ◌∷◌}
use pycallocs.LibraryLoader.{Name, Kind, TypeTable, Loader}
use pycallocs.LibraryLoader.Symbols.{Symbol, find_tables, iterate_found, libloader_exec}

-- The symbols in `n` places from `a` on.
abbrev pub symbols_at : (ℕ → Symbol) → ℕ → ℕ → List Symbol
symbols_at read zero a = []
symbols_at read (suc n) a = read a ∷ symbols_at read n (a + 24)

module _ (types : TypeTable) (uniqtype_name : ℕ → Name) (getfrom : ℕ → ℕ → Option ℕ)
    (kinds : ℕ → Kind) (alloc_type : ℕ → ℕ) (load_address : ℕ) (read : ℕ → Symbol) (n : ℕ) where
  -- Without a symbol table or a string table the module is left as it is.
  pub libloader_exec-no_tables :
      (dynamic : List (ℕ × ℕ)) (rounds : ℕ) (s : Loader types uniqtype_name)
      → let p = find_tables dynamic (0, 0) in
        (p.0 ≡ 0) ⊎ (p.1 ≡ 0)
        → libloader_exec types uniqtype_name getfrom kinds alloc_type load_address dynamic read n
            rounds s
          ≡ some s
  unfolding libloader_exec iterate_found
  libloader_exec-no_tables dynamic rounds s h = ground arith
