-- ===== src/Boot/Board.antt =====
-- A board on which everything answers at once.
use miniboot.Clock.Tables.{mods}
use miniboot.Clock.Modules.{Starts, listed}
use miniboot.Common.{All, All-map, agree-All, Bool, false, ◌||◌}
use miniboot.Common.{ℕ, ◌≡◌, refl, some, length, ◌==◌, if◌then◌else◌, arith}
use miniboot.Bus.{Device, Trace, byte, half, word}
use miniboot.Timer.{timer_tcrr}
use miniboot.Ddr.{vtp_ctrl_addr}
use miniboot.Clock.Tables.{DpllRegs, dpll_core_regs, dpll_mpu_regs, dpll_per_regs, dpll_ddr_regs}
use miniboot.Clock.Dpll.{Tracks}
use miniboot.Clock.Tests.{prompt}
use miniboot.I2c.Adapter.{I2cAdapter, omap_xfer}
use miniboot.I2c.Ending.{IsAlive}
use miniboot.I2c.Retry.{Usable}
use miniboot.Nand.Init.{gpmc_cs}
use miniboot.Boot.Watchdog.{Posts}
use miniboot.Boot.Prepared.{Works}

abbrev pub fuel : ℕ
fuel = 5000000

abbrev is_special : ℕ → Bool
is_special a =
    a == timer_tcrr
    || a == vtp_ctrl_addr
    || a == gpmc_cs 0
    || a == dpll_core_regs.cm_idlest_dpll
    || a == dpll_mpu_regs.cm_idlest_dpll
    || a == dpll_per_regs.cm_idlest_dpll
    || a == dpll_ddr_regs.cm_idlest_dpll

module _ (nand : Trace → ℕ) where
  -- The counter counts the accesses, the calibration is ready, the first chip select reports a NAND
  -- chip, whose data port gives the bytes `nand`, and every other byte and every half-word has all its
  -- bits set: the I2C controller is out of its reset and loses every arbitration. Any other register
  -- is as for the PLLs that lock at once.
  abbrev pub board : Device
  board byte a h = if a == 0x50000084 then nand h else 0xff
  board half a h = 0xffff
  board word a h =
      if a == timer_tcrr
      then length h
      else if a == vtp_ctrl_addr
      then 0x20
      else (if a == gpmc_cs 0 then 0x800 else prompt word a h)

  pub board-Posts : Posts board fuel
  board-Posts h v e = (0, omega arith, refl)

  abbrev Locks : DpllRegs → Type 0
  Locks regs = Tracks board fuel regs

  core-Locks : Locks dpll_core_regs
  core-Locks h v e = (λ p. (0, omega arith, ground arith), λ p. (0, omega arith, ground arith))

  mpu-Locks : Locks dpll_mpu_regs
  mpu-Locks h v e = (λ p. (0, omega arith, ground arith), λ p. (0, omega arith, ground arith))

  per-Locks : Locks dpll_per_regs
  per-Locks h v e = (λ p. (0, omega arith, ground arith), λ p. (0, omega arith, ground arith))

  ddr-Locks : Locks dpll_ddr_regs
  ddr-Locks h v e = (λ p. (0, omega arith, ground arith), λ p. (0, omega arith, ground arith))

  pub board-IsAlive : IsAlive board fuel 0x44E0B000
  board-IsAlive = record {
    advances = λ h. (omega arith, omega arith);
    ticks = omega arith;
    tries = 0;
    resets = λ h few. refl;
    enough = omega arith;
    other = λ e. omega arith;
  }

  board-zero : (a : ℕ) (h : Trace) → is_special a ≡ false → board word a h ≡ 0
  board-zero a h plain = ground arith

  plain-Starts : (m : ℕ) → is_special m ≡ false → Starts board fuel m
  plain-Starts m plain h on = (0, omega arith, rw (board-zero m h plain) refl)

  board-Starts : All (Starts board fuel) (listed mods)
  unfolding listed
  board-Starts =
      All-map (listed mods) plain-Starts (agree-All is_special (λ m. false) (listed mods) refl)

  pub board-Works : Works board fuel 0
  board-Works = record {
    posts = board-Posts;
    starts = board-Starts;
    core = core-Locks;
    mpu = mpu-Locks;
    per = per-Locks;
    ddr = ddr-Locks;
    calibrates = λ h v e odd. (0, omega arith, refl);
    alive = board-IsAlive;
    fixed = λ h. omega arith;
  }

abbrev pub adapter : I2cAdapter
adapter = record {
  retries = 2;
  timeout = 0;
  priv = some (record { base = 0x44E0B000; flags = 0 });
  xfer = omap_xfer;
}

pub adapter-Usable : Usable 0x44E0B000 2 adapter
adapter-Usable = record {
  priv = record { base = 0x44E0B000; flags = 0 };
  is_omap = refl;
  has_priv = refl;
  same = refl;
  tries = refl;
}
