-- ===== src/Mux.antt =====
-- src/boot/mux.c: which signal a pad of the chip carries.
pub mod Pads
pub mod Tables
pub mod Writes
pub mod Tests
use miniboot.Common.{ℕ, ◌+◌, List, [], ◌∷◌, ◌==◌, if◌then◌else◌}
use miniboot.Bus.{Prog, pure, ◌>>◌, writel}
use miniboot.Mux.Tables.{ModulePinMux}

-- PRCM_BASE, in the variable ctrl_base of `configure_module_pin_mux`
abbrev pub ctrl_base : ℕ
ctrl_base = 0x44E00000

-- `mux[i].offs != -1` ends the loop.
unfoldable pub configure_module_pin_mux : List ModulePinMux → Prog (Unit {0})
configure_module_pin_mux [] = pure tt
configure_module_pin_mux (e ∷ mux) =
    if e.offs == 0xFFFFFFFF
    then pure tt
    else (writel e.val (ctrl_base + e.offs) >> configure_module_pin_mux mux)
