-- ===== src/Clock/Frames.antt =====
-- src/boot/clock.c: the registers that the reprogramming of the PLLs leaves alone.
use miniboot.Common.{
  ℕ, ◌≡◌, ◌%◌, ◌^◌, refl, ◌∙◌, ap, inl, inr, Bool, false, Bool-cases, ◌||◌, ◌==◌, List, [], ◌∷◌,
  arith,
}
use miniboot.Bus.{done, Device, Trace, reply, wr, word, writes, find_write, last_written}
use miniboot.Clock.Tables.{
  DpllRegs, DpllParams, dpll_core_regs, dpll_mpu_regs, dpll_per_regs, dpll_ddr_regs, dpll_core,
  dpll_mpu, dpll_per, dpll_ddr_evm_sk,
}
use miniboot.Clock.{clksel, is_set, do_setup_dpll, setup_dplls}
use miniboot.Clock.Dpll.{Tracks, divider_writes}
use miniboot.Clock.Divider.{do_setup_dpll-writes}

unfoldable pub is_among : ℕ → List ℕ → Bool
is_among a [] = false
is_among a (r ∷ rs) = r == a || is_among a rs

-- The registers that a reprogramming may write.
unfoldable pub touches : DpllRegs → ℕ → Bool
unfolding is_among
touches regs a = is_among a (regs.cm_clkmode_dpll ∷ regs.cm_clksel_dpll ∷ regs.cm_div_m2_dpll)

-- The four PLLs, and CMWKUP_CLKDCOLDODPLLPER.
unfoldable pub is_pll : ℕ → Bool
unfolding touches
is_pll a =
    touches dpll_core_regs a
    || touches dpll_mpu_regs a
    || touches dpll_per_regs a
    || 0x44E0047C == a
    || touches dpll_ddr_regs a

find_write-divider_writes :
    (a : ℕ) (ms rs : List ℕ) (ws : Trace)
    → is_among a rs ≡ false
    → find_write a (divider_writes ms rs ws) ≡ find_write a ws
unfolding is_among divider_writes find_write
find_write-divider_writes a [] rs ws n = refl
find_write-divider_writes a (m ∷ ms) [] ws n = refl
find_write-divider_writes a (m ∷ ms) (r ∷ rs) ws n = elim (Bool-cases (is_set m)) [
  | inl set ↦ rw set (
      find_write-divider_writes a ms rs (wr word r (m % 2 ^ 32) ∷ ws) (ground arith) ∙ ground arith)
  | inr unset ↦ rw unset (find_write-divider_writes a ms rs ws (ground arith))
]

module _ (dev : Device) (fuel : ℕ) where
  do_setup_dpll-last_written :
      (regs : DpllRegs) (params : DpllParams)
      → Tracks dev fuel regs
      → (h : Trace)
      → (h' : Trace) × (do_setup_dpll dev fuel regs params h ≡ done tt h')
        × ((a : ℕ) → touches regs a ≡ false → last_written a h' ≡ last_written a h)
  unfolding touches is_among last_written find_write
  do_setup_dpll-last_written regs params tracks h =
      let (h', b, l, e, w) = do_setup_dpll-writes dev fuel regs params tracks h in
      let sel = clksel (reply dev word regs.cm_clksel_dpll h) params % 2 ^ 32 in
      let ws : Trace =
        wr word regs.cm_clksel_dpll sel ∷ wr word regs.cm_clkmode_dpll b ∷ writes h in
      let skip = λ (a : ℕ) (n : is_among a regs.cm_div_m2_dpll ≡ false).
        find_write-divider_writes a params.m2 regs.cm_div_m2_dpll ws n in
      (h', e, λ a n. ap (find_write a) w ∙ ground (arith, skip a (ground arith)))

  pub setup_dplls-last_written :
      Tracks dev fuel dpll_core_regs
      → Tracks dev fuel dpll_mpu_regs
      → Tracks dev fuel dpll_per_regs
      → Tracks dev fuel dpll_ddr_regs
      → (h : Trace)
      → (h' : Trace) × (setup_dplls dev fuel h ≡ done tt h')
        × ((a : ℕ) → is_pll a ≡ false → last_written a h' ≡ last_written a h)
  unfolding setup_dplls is_pll last_written writes find_write
  setup_dplls-last_written core mpu per ddr h =
      let (h1, e1, k1) = do_setup_dpll-last_written dpll_core_regs dpll_core core h in
      let (h2, e2, k2) = do_setup_dpll-last_written dpll_mpu_regs dpll_mpu mpu h1 in
      let (h3, e3, k3) = do_setup_dpll-last_written dpll_per_regs dpll_per per h2 in
      let (h4, e4, k4) =
        do_setup_dpll-last_written dpll_ddr_regs dpll_ddr_evm_sk ddr
          (wr word 0x44E0047C 0x300 ∷ h3) in
      (
        h4,
        rw (e1, e2, e3) e4,
        λ a n.
            k4 a (ground arith)
            ∙ ground arith
            ∙ k3 a (ground arith)
            ∙ k2 a (ground arith)
            ∙ k1 a (ground arith),
      )
