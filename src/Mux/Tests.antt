-- ===== src/Mux/Tests.antt =====
-- The theorem of src/boot/mux.c from the empty trace.
use miniboot.Common.{◌≡◌, All, []}
use miniboot.Bus.{Trace, done}
use miniboot.Mux.{configure_module_pin_mux}
use miniboot.Mux.Writes.{tables, Configured, tables-Configured}

tables-Configured_example :
    All
      (λ mux. (h' : Trace) × (configure_module_pin_mux mux [] ≡ done tt h') × Configured mux [] h')
      tables
tables-Configured_example = tables-Configured []
