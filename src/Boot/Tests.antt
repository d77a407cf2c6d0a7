-- ===== src/Boot/Tests.antt =====
-- The theorems of src/boot/main.c at a board on which everything answers at once.
use miniboot.Common.{ℕ, ◌≤◌, ◌<◌, ◌+◌, ◌≡◌, some, [], arith}
use miniboot.Bus.{Trace, done, crash, last_written}
use miniboot.Clock.Modules.{IsOn}
use miniboot.Mux.{ctrl_base}
use miniboot.I2c.Adapter.{I2cAdapter}
use miniboot.I2c.Retry.{Usable}
use miniboot.Nand.Chip.{nand_chip}
use miniboot.Boot.{watchdog_disable, board_pin_mux, s_init, spl_board_init, lowlevel_init}
use miniboot.Boot.Watchdog.{Disabled, watchdog_disable-Disabled}
use miniboot.Boot.Pads.{rtc_module, rtc_domain, board_pin_mux-rtc_off}
use miniboot.Boot.Prepared.{Prepared}
use miniboot.Boot.Returns.{Raised, setup_returns, lowlevel_init-null}
use miniboot.Boot.Board.{board, fuel, adapter, adapter-Usable, board-Works, board-Posts}

-- No chip answers: every byte has all its bits set, and so no block is bad.
abbrev none_there : Trace → ℕ
none_there h = 0xff

watchdog_disable-Disabled_example :
    (h' : Trace) × (watchdog_disable (board none_there) fuel [] ≡ done tt h')
    × Disabled (board none_there) [] h'
watchdog_disable-Disabled_example =
    watchdog_disable-Disabled (board none_there) fuel (board-Posts none_there) []

board_pin_mux-rtc_off_example :
    (h' : Trace) × (board_pin_mux [] ≡ done tt h')
    × (last_written rtc_module h' ≡ some 0x30)
    × (last_written rtc_domain h' ≡ some 0x30)
    × (¬ IsOn h' rtc_module)
    × (¬ IsOn h' rtc_domain)
    × ((a : ℕ) → 0x44E00B38 ≤ a → last_written a h' ≡ last_written a [])
    × ((offs : ℕ)
        → offs < 0x800
        → last_written (ctrl_base + offs) h' ≡ last_written (ctrl_base + offs) [])
board_pin_mux-rtc_off_example = board_pin_mux-rtc_off []

setup_returns_example :
    (h1 : Trace) × (adap' : I2cAdapter) × (h2 : Trace) × (s_init (board none_there) fuel []
      ≡ done tt h1)
    × Prepared h1
    × (spl_board_init (board none_there) fuel 0 adapter h1 ≡ done adap' h2)
    × Usable 0x44E0B000 2 adap'
    × Raised (board none_there) fuel 0 0 adapter h1 adap' h2
setup_returns_example =
    setup_returns (board none_there) fuel 0 (board-Works none_there) 0 2 (omega arith) adapter
      adapter-Usable []

lowlevel_init-null_example :
    (h' : Trace) × (lowlevel_init (board none_there) fuel 0 adapter nand_chip [] ≡ crash h')
lowlevel_init-null_example =
    lowlevel_init-null (board none_there) fuel 0 (board-Works none_there) 0 2 (omega arith) adapter
      adapter-Usable []
