-- ===== src/Tests/SharedArrays.antt =====
-- Arrays in foreign memory at concrete inputs: an allocation at 4096, whose proxy has type 7.
use pycallocs.Prelude.{pos, ◌==◌, if◌then◌else◌}
use pycallocs.Registry.{Registry}
use pycallocs.Registry.Arrays.{Lengths}

-- The proxy of the allocation has eight items.
abbrev eight : Lengths
eight o = if o == 1 then pos 8 else pos 0
