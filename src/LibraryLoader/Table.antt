-- ===== src/LibraryLoader/Table.antt =====
-- The table of foreign_type.c as the one that library_loader.c uses.
use pycallocs.Prelude.{ℕ, suc, ◌≡◌, arith, none, some, List, All, Elem, length, if◌then◌else◌}
use pycallocs.ForeignType.{Table, init_types, foreign_type_new, get_or_create}
use pycallocs.ForeignType
use pycallocs.ForeignType.Complete.{IsSettled}
use pycallocs.ForeignType.Creation.{get_or_create_settles}
use pycallocs.LibraryLoader.{TypeTable}

module _ (kinds : ℕ → ForeignType.Kind) (types : List ℕ)
    (closed : (k : ℕ) → Elem k types → All (λ j. Elem j types) (init_types (kinds k))) where
  pub get_handled :
      (k : ℕ) (c : Table)
      → Elem k types
      → IsSettled kinds c
      → (c' : Table) × (get_or_create kinds (suc (length types)) k c
          ≡ some (c', if foreign_type_new kinds k then some k else none))
        × IsSettled kinds c'
  get_handled k c of_types settled =
      let (c', got, settled', kept, held) =
        get_or_create_settles kinds types closed k c (suc (length types)) of_types settled
          (omega arith) in
      (c', got, settled')

  -- Its types are those of the list, its state is the table with complete types only.
  abbrev pub type_table : TypeTable
  type_table = record {
    State = Table;
    get = get_or_create kinds (suc (length types));
    IsGood = IsSettled kinds;
    Known = λ k. Elem k types;
    handles = foreign_type_new kinds;
    get_handled = get_handled;
  }
