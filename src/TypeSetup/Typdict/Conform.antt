-- ===== src/TypeSetup/Typdict/Conform.antt =====
-- ForeignType_GetOrCreate leaves a table whose foreign types fulfil their descriptions.
use pycallocs.Prelude.{Option}
use pycallocs.ForeignType.{Table}
