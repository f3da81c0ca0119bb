-- ===== src/LibraryLoader/Symbols.antt =====
-- library_loader.c: the symbols of a library, from its dynamic section to the module's attributes.
use pycallocs.Prelude.{
  ℕ, zero, suc, ◌+◌, Bool, false, ◌&&◌, ◌||◌, not, Option, none, some, List, [], ◌∷◌, ◌==◌,
  if◌then◌else◌,
}
use pycallocs.LibraryLoader.{Name, object, set_attr, TypeTable, Loader, Kind, then_load, add_useful}

-- An ElfW(Sym), with its name in the string table.
pub record Symbol : Type 0 where
  pub name : Name
  pub type : ℕ
  pub bind : ℕ
  pub shndx : ℕ
  pub value : ℕ

-- STT_FUNC or STT_OBJECT, STB_GLOBAL, neither SHN_UNDEF nor SHN_ABS
unfoldable pub is_exported : Symbol → Bool
is_exported y =
    (y.type == 2 || y.type == 1) && y.bind == 1 && not (y.shndx == 0) && not (y.shndx == 0xfff1)

abbrev pub is_public : Name → Bool
is_public [] = false
is_public (c ∷ cs) = not (c == b'_')

module _ (types : TypeTable) (uniqtype_name : ℕ → Name) where
  -- The symbol's object replaces an attribute of its name.
  unfoldable pub bind_object :
      Name → Loader types uniqtype_name → Option ℕ → Loader types uniqtype_name
  bind_object name s none = s
  bind_object name s (some o) = record s { attrs = set_attr name (object o) s.attrs }

  -- What `ft_getfrom` of a type gives at an address, none for NULL.
  module _ (getfrom : ℕ → ℕ → Option ℕ) where
    unfoldable pub bind_symbol :
        Name
        → ℕ
        → Loader types uniqtype_name
        → Option (types.State × Option ℕ)
        → Option (Loader types uniqtype_name)
    unfolding bind_object
    bind_symbol name a s none = none
    bind_symbol name a s (some (c, none)) = some (record s { table = c })
    bind_symbol name a s (some (c, some t)) =
        some (bind_object name (record s { table = c }) (getfrom t a))

    -- The types' kinds, the type at an address (0 for none), and where the library is loaded.
    module _ (kinds : ℕ → Kind) (alloc_type : ℕ → ℕ) (load_address : ℕ) where
      unfoldable pub add_typed :
          ℕ → Name → ℕ → Loader types uniqtype_name → ℕ → Option (Loader types uniqtype_name)
      unfolding bind_symbol then_load
      add_typed n name a s zero = some s
      add_typed n name a s (suc k) =
          then_load types uniqtype_name (add_useful types uniqtype_name kinds n (suc k) s)
            (λ s'. bind_symbol name a s' (types.get (suc k) s'.table))

      -- add_sym_to_module, with fuel for recursively_add_useful_types; it always returns 0.
      unfoldable pub add_symbol :
          ℕ → Symbol → Loader types uniqtype_name → Option (Loader types uniqtype_name)
      unfolding is_exported add_typed
      add_symbol n y s =
          if is_exported y && is_public y.name
          then add_typed n y.name (load_address + y.value) s (alloc_type (load_address + y.value))
          else some s

      unfoldable pub add_symbols :
          ℕ → List Symbol → Loader types uniqtype_name → Option (Loader types uniqtype_name)
      unfolding then_load
      add_symbols n [] s = some s
      add_symbols n (y ∷ ys) s = then_load types uniqtype_name (add_symbol n y s) (add_symbols n ys)

      -- The loop of dl_iterate_syms over the symbols, of 24 bytes each, up to the string table; `read`
      -- is the symbol at an address.
      unfoldable pub iterate_syms :
          (ℕ → Symbol)
          → ℕ
          → ℕ
          → ℕ
          → ℕ
          → Loader types uniqtype_name
          → Option (Loader types uniqtype_name)
      unfolding then_load
      iterate_syms read n zero a stop s = none
      iterate_syms read n (suc rounds) a stop s =
          let more =
            then_load types uniqtype_name (add_symbol n (read a) s)
              (iterate_syms read n rounds (a + 24) stop) in
          if a == stop then some s else more

-- DT_SYMTAB and DT_STRTAB of the dynamic section up to DT_NULL; of several, the last.
unfoldable pub find_tables : List (ℕ × ℕ) → ℕ × ℕ → ℕ × ℕ
find_tables [] p = p
find_tables ((tag, ptr) ∷ more) (dynsym, dynstr) =
    find_tables more
      (if tag == 6 then (ptr, dynstr) else if tag == 5 then (dynsym, ptr) else (dynsym, dynstr))

module _ (types : TypeTable) (uniqtype_name : ℕ → Name) (getfrom : ℕ → ℕ → Option ℕ)
    (kinds : ℕ → Kind) (alloc_type : ℕ → ℕ) (load_address : ℕ) where
  unfoldable pub iterate_found :
      (ℕ → Symbol)
      → ℕ
      → ℕ
      → ℕ × ℕ
      → Loader types uniqtype_name
      → Option (Loader types uniqtype_name)
  iterate_found read n rounds (dynsym, dynstr) s =
      if dynsym == 0 || dynstr == 0
      then some s
      else iterate_syms types uniqtype_name getfrom kinds alloc_type load_address read n rounds
          dynsym dynstr s

  -- libloader_exec, through dl_iterate_syms, whose result it does not look at.
  unfoldable pub libloader_exec :
      List (ℕ × ℕ)
      → (ℕ → Symbol)
      → ℕ
      → ℕ
      → Loader types uniqtype_name
      → Option (Loader types uniqtype_name)
  unfolding iterate_found find_tables
  libloader_exec dynamic read n rounds s =
      iterate_found read n rounds (find_tables dynamic (0, 0)) s
