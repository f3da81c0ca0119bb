-- ===== src/Tests/Collector.antt =====
-- Garbage collection at a concrete input: a struct at 4096 with a number and two pointers, of which
-- liballocs has reported the first, at 4104, as a pointer to the proxy 1.
use pycallocs.Prelude.{ℕ, ◌+◌, ◌∷◌}
use pycallocs.Registry.{Registry, foreign, incref}
use pycallocs.Registry.Shrinks.{Shrinks}
use pycallocs.Registry.Steps.{World}
use pycallocs.Traversal.{Shape, plain, pointer, composite, field_at, end}
use pycallocs.Tests.Proxies.{both}

abbrev node : Shape
node = composite (field_at 0 plain (field_at 8 pointer (field_at 16 pointer end)))

abbrev linked : World
linked = record {
  owned = both.owned;
  registry = record (incref 1 both.registry) {
    pointing = (foreign 4104, 1) ∷ both.registry.pointing;
  };
}

-- The collector's visit, which counts.
abbrev count : ℕ → ℕ → ℕ × ℕ
count o n = (n + 1, 0)
