-- ===== src/Tests/Closures.antt =====
-- A closure of function_proxy.c at concrete inputs: one that libffi cannot prepare.
use pycallocs.Prelude.{none, true, false}
use pycallocs.Closure.{Answers, Held, closureproxy_ctor}
use pycallocs.Closure.Balance.{IsBalanced, closureproxy_ctor-IsBalanced}

abbrev answers : Answers
answers = record {
  closure_type = true;
  setup_status = none;
  parsed = none;
  callable = true;
  allocated = true;
  closure_allocated = true;
  prepared = false;
}

abbrev nothing_held : Held
nothing_held = record { closures = 0; callables = 0; objects = 0; registered = 0 }

closureproxy_ctor-IsBalanced_example :
    IsBalanced answers nothing_held (closureproxy_ctor answers nothing_held)
closureproxy_ctor-IsBalanced_example = closureproxy_ctor-IsBalanced answers nothing_held
