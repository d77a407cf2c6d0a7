-- ===== src/Timer.antt =====
-- src/boot/timer.c: the free-running timer and the delays.
pub mod Wait
pub mod Tests
use miniboot.Common.{
  ℕ, zero, suc, ◌+◌, ◌-◌, ◌*◌, ◌/◌, ◌%◌, ◌^◌, Bool, ◌&&◌, none, some, ◌∷◌, ltb, if◌then◌else◌,
}
use miniboot.Bus.{done, spinning, Device, Prog, pure, ◌>>=◌, ◌>>◌, readl, writel, word, pause}

-- TMR_BASE + TMREG_TLDR, TMREG_TCLR and TMREG_TCRR
abbrev pub timer_tldr : ℕ
timer_tldr = 0x48040040

abbrev pub timer_tclr : ℕ
timer_tclr = 0x48040038

abbrev pub timer_tcrr : ℕ
timer_tcrr = 0x4804003C

unfoldable pub timer_init : Prog ℕ
timer_init = do writel 0 timer_tldr; writel 0x2B timer_tclr; pure 0

-- `usec * (TIMER_CLOCK / 1000) / 1000` with TIMER_CLOCK = 24000000 / 8. The product is an
-- `unsigned long` of 32 bits; the quotient fits the `long` tmo.
unfoldable pub tmo_of : ℕ → ℕ
tmo_of usec = usec * 3000 % 2 ^ 32 / 1000

-- `tmo > 0`, where the `long` tmo is kept as its bit pattern.
abbrev pub is_positive : ℕ → Bool
is_positive tmo = ltb 0 tmo && ltb tmo (2 ^ 31)

-- What one turn of the loop takes off tmo: unsigned arithmetic, as the source writes it.
unfoldable pub passed : ℕ → ℕ → ℕ
passed last now = if ltb now last then ((2 ^ 32 - 1) - last + now + 1) % 2 ^ 32 else now - last

module _ (dev : Device) where
  -- `while (tmo > 0) …`
  pub delay_loop : ℕ → ℕ → ℕ → Prog (Unit {0})
  unfolding passed
  delay_loop zero tmo last = λ h. spinning
  delay_loop (suc fuel) tmo last =
      if is_positive tmo
      then (do
        now ← readl dev timer_tcrr
        delay_loop fuel ((tmo + 2 ^ 32 - passed last now) % 2 ^ 32) now)
      else pure tt

  pub udelay : ℕ → ℕ → Prog (Unit {0})
  unfolding tmo_of delay_loop
  udelay fuel usec = do last ← readl dev timer_tcrr; delay_loop fuel (tmo_of usec) last

-- The loop of `sdelay` is inline assembly on a register; it leaves a mark in the trace.
unfoldable pub sdelay : ℕ → Prog (Unit {0})
sdelay loops h = done tt (pause loops ∷ h)
