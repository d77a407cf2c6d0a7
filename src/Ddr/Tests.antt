-- ===== src/Ddr/Tests.antt =====
-- A controller whose calibration is always ready, and the theorems of src/boot/ddr.c at it.
use miniboot.Common.{◌^◌, ◌%◌, ℕ, ◌<◌, ◌≤◌, ◌≡◌, refl, some, [], arith}
use miniboot.Bus.{Device, Trace, done, last_written}
use miniboot.Ddr.{config_ddr, config_ddr_data}
use miniboot.Ddr.Setup.{Calibrates, Calibrated, Configured, config_ddr-Configured}
use miniboot.Ddr.Macros.{config_ddr_data-misplaced}
use miniboot.Boot.{ddr3_evm_data, ddr3_evm_cmd_ctrl_data, ddr3_evm_emif_reg_data}

abbrev ready : Device
ready w a h = 0x20

ready-Calibrates : Calibrates ready 1
ready-Calibrates h v e odd = (0, omega arith, refl)

config_ddr-Configured_example :
    (h1 : Trace) × (h' : Trace) × (config_ddr ready 1 303 0x18B ddr3_evm_data ddr3_evm_cmd_ctrl_data
        ddr3_evm_emif_reg_data []
      ≡ done tt h')
    × Calibrated [] h1
    × Configured 0x18B ddr3_evm_data ddr3_evm_cmd_ctrl_data ddr3_evm_emif_reg_data h1 h'
config_ddr-Configured_example =
    config_ddr-Configured ready 1 ready-Calibrates 303 0x18B ddr3_evm_data ddr3_evm_cmd_ctrl_data
      ddr3_evm_emif_reg_data []

config_ddr_data-misplaced_example :
    (h' : Trace) × (config_ddr_data ddr3_evm_data [] ≡ done tt h')
    × ((a : ℕ) → 0x44E120C8 ≤ a → a < 0x44E12190 → last_written a h' ≡ last_written a [])
    × (last_written 0x44E12190 h' ≡ some (0x3B % 2 ^ 32))
    × (last_written 0x44E121E8 h' ≡ some (0x74 % 2 ^ 32))
config_ddr_data-misplaced_example = config_ddr_data-misplaced ddr3_evm_data []
