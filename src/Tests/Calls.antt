-- ===== src/Tests/Calls.antt =====
-- `funproxy_call` at concrete inputs: an argument passed by its own data pointer, and one of two
-- bytes that is stored in the buffer.
use pycallocs.Prelude.{
  ℕ, ◌≡◌, ◌≢◌, ◌⊎◌, refl, arith, none, some, List, [], ◌∷◌, Option, Error, type_error, ok, err,
  length,
}
use pycallocs.Memory.{Mem, store}
use pycallocs.Memory.Frame.{SameOutside-store}
use pycallocs.Python.{stored}
use pycallocs.FunctionCall.{Argument, Foreign, funproxy_call}
use pycallocs.FunctionCall.Layout.{IsContained}
use pycallocs.FunctionCall.Invocation.{Invoked, Unconverted, funproxy_call_cases}

abbrev by_pointer : Argument
by_pointer = record { size = 8; data_ptr = some 512; storeinto = λ dest m. stored m }

abbrev by_value : Argument
by_value = record { size = 2; data_ptr = none; storeinto = λ dest m. stored (store 2 m dest 770) }

abbrev args : List Argument
args = by_pointer ∷ by_value ∷ []

by_value-IsContained : IsContained by_value
by_value-IsContained dest m = SameOutside-store 2 m dest 770

-- A function that leaves memory alone, and whose result is the byte at `retval`.
abbrev library : Foreign ℕ
library = record { invoke = λ fn retval ps m. m; copyfrom = λ m a. ok (m a) }

abbrev memory : Mem
memory q = 7

funproxy_call_cases_example :
    let c = funproxy_call library none 64 2 args 1024 2048 memory in
    ((◌≡◌ {A = Option Error} none none)
      × (length args ≡ 2)
      × (Invoked library 64 args 1024 2048 memory c ⊎ Unconverted args 1024 memory c))
    ⊎ ((c.mem ≡ memory)
        × (((e : Error) × (◌≡◌ {A = Option Error} none (some e)) × (c.result ≡ err e))
            ⊎ ((length args ≢ 2) × (c.result ≡ err type_error))))
funproxy_call_cases_example =
    funproxy_call_cases library 64 args 1024 2048 memory none 2 (omega arith)
      ((λ dest m q out. refl), (by_value-IsContained, tt))
