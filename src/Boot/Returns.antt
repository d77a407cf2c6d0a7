-- ===== src/Boot/Returns.antt =====
-- src/boot/main.c: how far `lowlevel_init` gets.
use miniboot.Nand.Chip.{nand_chip}
use miniboot.Nand.Probe.{omap_nand_init-null}
use miniboot.Nand.Read.{nand_load, load_loop, nand_block_isbad, block_bad}
use miniboot.Boot.{img_offs, img_size, loadaddr, dpll_core_opp100, dpll_mpu_opp100}
use miniboot.Common.{zero, suc, ℕ, ◌<◌, ◌≡◌, refl, inl, inr, arith}
use miniboot.Bus.{done, crash, Device, Trace}
use miniboot.Bus.Ends.{Ends}
use miniboot.Clock.Tables.{dpll_core_regs, dpll_mpu_regs}
use miniboot.Info.Grades.{Setting, get_tps65910_mpu_vdd-Setting}
use miniboot.Clock.Dpll.{Programmed, do_setup_dpll-Programmed}
use miniboot.Timer.{sdelay}
use miniboot.Info.{get_efuse_mpu_max_freq, get_tps65910_mpu_vdd}
use miniboot.Tps.{tps65910_init, tps65910_set_i2c_control, tps65910_voltage_update}
use miniboot.Gpmc.{gpmc_init, gpmc_cs_config, write_config}
use miniboot.I2c.Adapter.{I2cAdapter}
use miniboot.I2c.Retry.{Usable}
use miniboot.Tps.Returns.{
  tps65910_init-Ends, tps65910_set_i2c_control-Gives, tps65910_voltage_update-Gives,
}
use miniboot.Boot.{s_init, spl_board_init, voltage_update, lowlevel_init}
use miniboot.Boot.Prepared.{Works, Prepared, s_init-Prepared}

-- The calls of `spl_board_init` from `h` on, each on the trace that the one before has left: the
-- GPMC and the power chip are set up, the multiplier and the voltage go with the chip's revision,
-- this voltage is asked for, and the PLLs of the core and then of the processor are programmed.
pub record Raised (dev : Device) (fuel junk rev : ℕ) (adap : I2cAdapter) (h : Trace)
    (adap' : I2cAdapter) (h' : Trace) : Type 0 where
  pub gpmc : Trace
  pub gpmc_set : gpmc_init 0 h ≡ done tt gpmc
  pub code : ℕ
  pub started : Trace
  pub tps_set : tps65910_init dev fuel junk adap gpmc ≡ done code started
  pub m : ℕ
  pub fused : Trace
  pub asked_fuses : get_efuse_mpu_max_freq dev started ≡ done m fused
  pub v : ℕ
  pub chosen : Trace
  pub asked_voltage : get_tps65910_mpu_vdd dev m fused ≡ done v chosen
  pub setting : Setting rev m v
  pub adap1 : I2cAdapter
  pub controlled : Trace
  pub control : tps65910_set_i2c_control dev fuel junk adap chosen ≡ done adap1 controlled
  pub adap2 : I2cAdapter
  pub mpu_raised : Trace
  pub mpu_voltage :
      tps65910_voltage_update dev fuel junk adap1 0 v controlled ≡ done adap2 mpu_raised
  pub start : Trace
  pub core_voltage :
      tps65910_voltage_update dev fuel junk adap2 1 0x2E mpu_raised ≡ done adap' start
  pub middle : Trace
  pub core : Programmed dev dpll_core_regs dpll_core_opp100 start middle
  pub mpu : Programmed dev dpll_mpu_regs (dpll_mpu_opp100 m) middle h'

module _ (dev : Device) (fuel revision : ℕ) (works : Works dev fuel revision) where
  gpmc_init-Ends : (cs : ℕ) → Ends (gpmc_init cs)
  unfolding gpmc_init gpmc_cs_config write_config sdelay
  gpmc_init-Ends cs = record { runs = λ h. (tt, _, refl) }

  module _ (junk retries : ℕ) (pos : 0 < retries) where
    spl_board_init-Raised :
        (adap : I2cAdapter)
        → Usable 0x44E0B000 retries adap
        → (h : Trace)
        → (adap' : I2cAdapter) × (h' : Trace) × (spl_board_init dev fuel junk adap h
            ≡ done adap' h')
          × Usable 0x44E0B000 retries adap'
          × Raised dev fuel junk revision adap h adap' h'
    unfolding spl_board_init voltage_update
    spl_board_init-Raised adap u h =
        let alive = works.alive in
        let (t1, h1, e1) = (gpmc_init-Ends 0).runs h in
        let (t2, h2, e2) =
          (tps65910_init-Ends dev fuel junk _ retries pos works.alive adap u).runs h1 in
        let (m, h3, v, h4, e3, e4, setting, w) =
          get_tps65910_mpu_vdd-Setting dev revision works.fixed h2 in
        let (a5, h5, e5, u5) =
          (tps65910_set_i2c_control-Gives dev fuel junk _ retries pos alive adap u).runs h4 in
        let (a6, h6, e6, u6) =
          (tps65910_voltage_update-Gives dev fuel junk _ retries pos alive a5 0 v u5).runs h5 in
        let (a7, h7, e7, u7) =
          (tps65910_voltage_update-Gives dev fuel junk _ retries pos alive a6 1 0x2E u6).runs h6 in
        let (h8, e8, core) =
          do_setup_dpll-Programmed dev fuel dpll_core_regs dpll_core_opp100 works.core h7 in
        let (h9, e9, mpu) =
          do_setup_dpll-Programmed dev fuel dpll_mpu_regs (dpll_mpu_opp100 m) works.mpu h8 in
        (
          a7,
          h9,
          rw (e1, e2, e3, e4, e5, e6, e7, e8, e9) refl,
          u7,
          record {
            gpmc = h1;
            gpmc_set = e1;
            code = t2;
            started = h2;
            tps_set = e2;
            m = m;
            fused = h3;
            asked_fuses = e3;
            v = v;
            chosen = h4;
            asked_voltage = e4;
            setting = setting;
            adap1 = a5;
            controlled = h5;
            control = e5;
            adap2 = a6;
            mpu_raised = h6;
            mpu_voltage = e6;
            start = h7;
            core_voltage = e7;
            middle = h8;
            core = core;
            mpu = mpu;
          },
        )

    -- If the watchdog takes its writes, the modules and the PLLs follow what is written, the
    -- calibration of the memory becomes ready, the timer advances, the I2C controller ends its
    -- resets and the chip's revision stays the same, then everything that `lowlevel_init` does
    -- before it looks for the NAND chip returns: first `s_init`, and then `spl_board_init`, which
    -- leaves the power chip's adapter usable. On the trace that `s_init` leaves, the clock domains
    -- and modules of the arrays were last given the mode that switches them on, except those of the
    -- real-time clock, which were not; the command macros, the I/O control, the PHY control, the
    -- timings, the refresh rate, the type of the memory and its ports were last given the values of
    -- the board's tables; and the values for the data macros were given to the addresses 0xC8 behind
    -- the registers of these macros. `spl_board_init` has called its parts in order, each on the
    -- trace of the one before: it has asked for a multiplier and a voltage that the chip's revision
    -- may have, has asked the power chip for this voltage, and has then reprogrammed the core's PLL and
    -- after it the processor's, with this multiplier.
    pub setup_returns :
        (adap : I2cAdapter)
        → Usable 0x44E0B000 retries adap
        → (h : Trace)
        → (h1 : Trace) × (adap' : I2cAdapter) × (h2 : Trace) × (s_init dev fuel h ≡ done tt h1)
          × Prepared h1
          × (spl_board_init dev fuel junk adap h1 ≡ done adap' h2)
          × Usable 0x44E0B000 retries adap'
          × Raised dev fuel junk revision adap h1 adap' h2
    setup_returns adap u h =
        let (h1, e1, ready) = s_init-Prepared dev fuel revision works h in
        let (a, h2, e2, u2, raised) = spl_board_init-Raised adap u h1 in
        (h1, a, h2, e1, ready, e2, u2, raised)

    nand_load-null :
        (turns : ℕ) (h : Trace)
        → 0 < turns
        → nand_load dev turns nand_chip img_offs img_size loadaddr h ≡ crash h
    unfolding nand_load load_loop nand_block_isbad block_bad
    nand_load-null zero h some_left = absurd (omega arith)
    nand_load-null (suc n) h some_left = refl

    -- If the watchdog takes its writes, the modules and the PLLs follow what is written, the
    -- calibration of the memory becomes ready, the timer advances, the I2C controller ends its
    -- resets and the chip's revision stays the same, then `lowlevel_init`, started on the chip
    -- record that start.S has cleared, calls through a null pointer and never jumps to the image: in
    -- omap_nand_init, or, when no chip select is set up for NAND, in nand_load (where a division by
    -- the page size 0 is taken to give 0).
    pub lowlevel_init-null :
        (adap : I2cAdapter)
        → Usable 0x44E0B000 retries adap
        → (h : Trace) → (h' : Trace) × (lowlevel_init dev fuel junk adap nand_chip h ≡ crash h')
    unfolding lowlevel_init
    lowlevel_init-null adap u h =
        let (h1, a, h2, e1, ready, e2, u2, raised) = setup_returns adap u h in
        elim (omap_nand_init-null dev fuel h2) [
          | inl (h3, e3) ↦ (
            h3,
            rw (e1, e2, e3) (rw (nand_load-null fuel h3 (omega (arith, works.alive.ticks))) refl),
          )
          | inr (h3, e3) ↦ (h3, rw (e1, e2, e3) refl)
        ]
