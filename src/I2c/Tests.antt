-- ===== src/I2c/Tests.antt =====
-- The theorems of src/boot/i2c.c at a controller that reports a lost arbitration at every look.
use miniboot.Common.{
  ℕ, ◌+◌, ◌^◌, ◌≤◌, ◌≡◌, ◌⊎◌, refl, inl, true, some, List, [], ◌∷◌, length, arith,
}
use miniboot.Bus.{Device, Trace, done, crash, byte, half, word, wr}
use miniboot.Bus.Spares.{writes_to}
use miniboot.Timer.Wait.{Advances}
use miniboot.I2c.{
  write_reg, Priv, is_reading, reg_data, reg_psc, reg_scll, reg_sclh, setup_clk, omap_i2c_init,
}
use miniboot.I2c.Message.{I2cMsg, Outcome, xfer_msg}
use miniboot.I2c.Adapter.{init_priv, I2cAdapter, omap_xfer, i2c_get_adapter, i2c_init, i2c_transfer}
use miniboot.I2c.Ending.{IsAlive}
use miniboot.I2c.Retry.{Usable, i2c_transfer_returns}
use miniboot.I2c.Stuck.{xfer_msg-stuck}
use miniboot.I2c.Setup.{Clocked, setup_clk-Clocked}

-- Every 16-bit register reads as 1: the reset is over, and the arbitration is lost.
abbrev losing : Device
losing byte a h = 0
losing half a h = 1
losing word a h = length h

losing-Advances : Advances losing
losing-Advances h = (omega arith, omega arith)

abbrev bus_zero : Priv
bus_zero = record { base = 0x44E0B000; flags = 0 }

abbrev after_read : Priv
after_read = record { base = 0x44E0B000; flags = 1 }

losing-IsAlive : IsAlive losing 5000000 0x44E0B000
losing-IsAlive = record {
  advances = losing-Advances;
  ticks = omega arith;
  tries = 0;
  resets = λ h few. refl;
  enough = omega arith;
  other = λ e. omega arith;
}

abbrev adapter : I2cAdapter
adapter = record { retries = 2; timeout = 0; priv = some bus_zero; xfer = omap_xfer }

adapter-Usable : Usable 0x44E0B000 2 adapter
adapter-Usable = record {
  priv = bus_zero;
  is_omap = refl;
  has_priv = refl;
  same = refl;
  tries = refl;
}

abbrev set_register : I2cMsg
set_register = record { addr = 0x2D; flags = 0; len = 2; buf = 0x3F ∷ 0x10 ∷ [] }

-- On bus 0 at 100 kHz: a prescaler of 2, and 120 cycles low and high.
init_writes :
    omap_i2c_init losing 0 bus_zero []
    ≡ done tt (
        wr half 0x44E0B0A4 0x8000
        ∷ wr half 0x44E0B0B8 115
        ∷ wr half 0x44E0B0B4 113
        ∷ wr half 0x44E0B0B0 1
        ∷ wr half 0x44E0B0A4 0
        ∷ [])
unfolding omap_i2c_init setup_clk write_reg
init_writes = refl

i2c_transfer_returns_example :
    (r : ℕ) × (adap' : I2cAdapter) × (msgs' : List I2cMsg) × (h' : Trace) × (i2c_transfer losing
        5000000 0 adapter
        (set_register ∷ [])
        []
      ≡ done (r, adap', msgs') h')
    × ((r ≡ 1) ⊎ (2 ^ 31 ≤ r))
    × (length msgs' ≡ 1)
    × Usable 0x44E0B000 2 adap'
i2c_transfer_returns_example =
    i2c_transfer_returns losing 5000000 0x44E0B000 2 adapter adapter-Usable (omega arith)
      losing-IsAlive 0 (set_register ∷ []) (omega arith) []

xfer_msg-stuck_example :
    (o : Outcome I2cMsg) × (h' : Trace) × (xfer_msg losing 5000000 after_read set_register []
      ≡ done o h')
    × (is_reading o.priv ≡ true)
    × (writes_to (0x44E0B000 + reg_data) h' ≡ writes_to (0x44E0B000 + reg_data) [])
xfer_msg-stuck_example =
    xfer_msg-stuck losing 5000000 after_read set_register losing-IsAlive (inl refl) []

setup_clk-Clocked_example :
    (psc scll sclh : ℕ) × (setup_clk losing 0 bus_zero 48000000 24000000 100000 []
      ≡ done tt (
          wr half (0x44E0B000 + reg_sclh) sclh
          ∷ wr half (0x44E0B000 + reg_scll) scll
          ∷ wr half (0x44E0B000 + reg_psc) psc
          ∷ []))
    × Clocked 48000000 24000000 100000 psc scll sclh
setup_clk-Clocked_example =
    setup_clk-Clocked losing 0 bus_zero 48000000 24000000 100000 (omega arith) (omega arith)
      (omega arith) (omega arith) (omega arith) []

-- Bus 2 has an adapter whose private record is null.
bus_two_crashes :
    (adap : I2cAdapter) × (i2c_get_adapter 2 ≡ some adap) × (i2c_init losing 0 adap [] ≡ crash [])
unfolding i2c_get_adapter i2c_init init_priv
bus_two_crashes = (_, refl, refl)
