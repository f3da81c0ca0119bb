-- ===== src/Tests/NewArrays.antt =====
-- The array constructor of address_proxy.c at a concrete input: two `uint32_t` in a new block.
use pycallocs.Prelude.{ℕ, refl, ◌⊎◌, arith, false, List, [], ◌∷◌, pos, ok}
use pycallocs.Memory.{Mem}
use pycallocs.Memory.Frame.{SameOutside}
use pycallocs.Python.Ints.{PyInts, int}
use pycallocs.ArrayProxy.{ArrayArgs, sized, arrayproxy_ctor}
use pycallocs.ArrayProxy.Blocks.{array_bytes}
use pycallocs.ArrayProxy.Create.{block_of, IsMade, IsRefused, arrayproxy_ctor_cases}
use pycallocs.Tests.Lengths.{uint32}

abbrev heap : ℕ → ℕ
heap bytes = 8192

abbrev memory : Mem
memory q = 7

abbrev two : List PyInts
two = int (pos 1) ∷ int (pos 2) ∷ []

abbrev args : ArrayArgs PyInts
args = record { nargs = 1; nkwargs = 0; first = sized 2 (ok two) }

arrayproxy_ctor_cases_example :
    let r = arrayproxy_ctor uint32 false heap args memory in
    (IsMade uint32 false heap two memory r ⊎ IsRefused uint32 false heap r)
    × SameOutside (block_of uint32 false heap 2) (array_bytes false 2 4) memory r.mem
arrayproxy_ctor_cases_example =
    arrayproxy_ctor_cases uint32 false heap args two memory refl refl refl (omega arith)
      (omega arith)
