-- ===== src/I2c/Setup.antt =====
-- src/boot/i2c.c: the clock of the bus.
use miniboot.Common.{ℕ, ◌+◌, ◌-◌, ◌*◌, ◌/◌, ◌%◌, ◌^◌, ◌<◌, ◌≤◌, ◌≡◌, refl, ◌∷◌, arith}
use miniboot.Bus.{Device, Trace, done, wr, half}
use miniboot.I2c.{Priv, reg_psc, reg_scll, reg_sclh, write_reg, setup_clk}

-- The clock registers for a prescaled clock of `iclk` and a bus of `speed`.
pub record Clocked (sclk iclk speed psc scll sclh : ℕ) : Type 0 where
  pub prescaled : (psc + 1) * iclk ≤ sclk
  pub next_slower : sclk < (psc + 2) * iclk
  pub period : (scll + 7) + (sclh + 5) ≤ iclk / speed
  pub close : iclk / speed < (scll + 7) + (sclh + 5) + 2
  pub balanced : scll + 7 ≡ sclh + 5

-- If `iclk` is not 0 and at most `sclk`, goes into it at most 65536 times and the period has 14 to 65535 cycles,
-- `setup_clk` writes the prescaler and the low and high times, in this order, and they fit their
-- 16 bits: the prescaler is the greatest that leaves a clock of at least `iclk`, the low time with
-- its 7 cycles is as long as the high time with its 5, and together they make up the period, to one
-- cycle.
pub setup_clk-Clocked :
    (dev : Device) (fuel : ℕ) (priv : Priv) (sclk iclk speed : ℕ)
    → 0 < iclk
    → iclk ≤ sclk
    → sclk / iclk ≤ 2 ^ 16
    → 13 < iclk / speed
    → iclk / speed < 2 ^ 16
    → (h : Trace)
    → (psc scll sclh : ℕ) × (setup_clk dev fuel priv sclk iclk speed h
        ≡ done tt (
            wr half (priv.base + reg_sclh) sclh
            ∷ wr half (priv.base + reg_scll) scll
            ∷ wr half (priv.base + reg_psc) psc
            ∷ h))
      × Clocked sclk iclk speed psc scll sclh
unfolding setup_clk write_reg
setup_clk-Clocked dev fuel priv sclk iclk speed pos fits few long short h =
    let q = sclk / iclk in
    let d = iclk / speed / 2 in
    let some_cycles : 0 < q = grind arith in
    let psc : (q + 2 ^ 32 - 1) % 2 ^ 32 % 2 ^ 16 ≡ q - 1 = omega arith in
    let scll : (d + 2 ^ 32 - 7) % 2 ^ 32 % 2 ^ 16 ≡ d - 7 = omega arith in
    let sclh : (d + 2 ^ 32 - 5) % 2 ^ 32 % 2 ^ 16 ≡ d - 5 = omega arith in
    let one : q - 1 + 1 ≡ q = omega arith in
    let two : q - 1 + 2 ≡ q + 1 = omega arith in
    (
      q - 1,
      d - 7,
      d - 5,
      rw (psc, scll, sclh) refl,
      record {
        prescaled = rw one (grind arith);
        next_slower = rw two (grind arith);
        period = omega arith;
        close = omega arith;
        balanced = omega arith;
      },
    )
