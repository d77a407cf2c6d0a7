-- ===== src/Clock/Divider.antt =====
-- src/boot/clock.c: where the post-dividers of the four PLLs go. The table of the DDR PLL has its
-- register in the third place, and the parameters have the divider in the first.
use miniboot.Common.{ℕ, ◌%◌, ◌^◌, ◌≡◌, refl, [], ◌∷◌, ◌==◌, if◌then◌else◌, ap, ◌∙◌}
use miniboot.Bus.{done, Device, Trace, reply, rd, wr, pause, word, writes}
use miniboot.Clock.{clksel, do_setup_dpll, setup_dplls}
use miniboot.Clock.Dpll.{
  Tracks, divider_writes, Switched-writes, writes-divider_writes, do_setup_dpll-Programmed,
}
use miniboot.Clock.Tables.{DpllRegs, DpllParams, dpll_core_regs, dpll_mpu_regs, dpll_per_regs}
use miniboot.Clock.Tables.{dpll_ddr_regs, dpll_core, dpll_mpu, dpll_per, dpll_ddr_evm_sk}

-- The writes through a null pointer.
unfoldable pub null_writes : Trace → Trace
null_writes [] = []
null_writes (rd w a v ∷ h) = null_writes h
null_writes (wr w a v ∷ h) = if a == 0 then wr w a v ∷ null_writes h else null_writes h
null_writes (pause n ∷ h) = null_writes h

module _ (dev : Device) (fuel : ℕ) where
  -- All that a reprogramming writes.
  pub do_setup_dpll-writes :
      (regs : DpllRegs) (params : DpllParams)
      → Tracks dev fuel regs
      → (h : Trace)
      → (h' : Trace) × (bypass lock : ℕ) × (do_setup_dpll dev fuel regs params h ≡ done tt h')
        × (writes h'
            ≡ wr word regs.cm_clkmode_dpll lock
              ∷ divider_writes params.m2 regs.cm_div_m2_dpll (
                  wr word regs.cm_clksel_dpll
                    (clksel (reply dev word regs.cm_clksel_dpll h) params % 2 ^ 32)
                  ∷ wr word regs.cm_clkmode_dpll bypass
                  ∷ writes h))
  unfolding writes
  do_setup_dpll-writes regs params tracks h =
      let (h', e, p) = do_setup_dpll-Programmed dev fuel regs params tracks h in
      (
        h',
        p.bypass.value,
        p.lock.value,
        e,
        Switched-writes p.lock
            ∙ ap (λ ws. wr word regs.cm_clkmode_dpll p.lock.value ∷ ws)
                (writes-divider_writes params.m2 regs.cm_div_m2_dpll
                    (wr word regs.cm_clksel_dpll (clksel p.old params % 2 ^ 32) ∷ p.bypassed)
                  ∙ rw (Switched-writes p.bypass, p.answered) refl),
      )

  -- If the status registers of the four PLLs follow their modes, `setup_dplls` returns. It writes
  -- through a null pointer exactly once: the divider 1 of the DDR PLL goes to address 0.
  setup_dplls-null_writes :
      Tracks dev fuel dpll_core_regs
      → Tracks dev fuel dpll_mpu_regs
      → Tracks dev fuel dpll_per_regs
      → Tracks dev fuel dpll_ddr_regs
      → (h : Trace)
      → (h' : Trace) × (setup_dplls dev fuel h ≡ done tt h')
        × (null_writes (writes h') ≡ wr word 0 1 ∷ null_writes (writes h))
  unfolding setup_dplls divider_writes null_writes writes
  setup_dplls-null_writes core mpu per ddr h =
      let (h1, b1, l1, e1, w1) = do_setup_dpll-writes dpll_core_regs dpll_core core h in
      let (h2, b2, l2, e2, w2) = do_setup_dpll-writes dpll_mpu_regs dpll_mpu mpu h1 in
      let (h3, b3, l3, e3, w3) = do_setup_dpll-writes dpll_per_regs dpll_per per h2 in
      let (h4, b4, l4, e4, w4) =
        do_setup_dpll-writes dpll_ddr_regs dpll_ddr_evm_sk ddr (wr word 0x44E0047C 0x300 ∷ h3) in
      (
        h4,
        rw (e1, e2, e3) e4,
        ap null_writes w4
            ∙ ap (λ ws. wr word 0 1 ∷ null_writes ws) w3
            ∙ ap (λ ws. wr word 0 1 ∷ null_writes ws) w2
            ∙ ap (λ ws. wr word 0 1 ∷ null_writes ws) w1,
      )

  -- The register of the DDR PLL's divider, 0x44E004A0, gets nothing: with its status following its
  -- mode, the reprogramming writes the mode, M and N, the divider at address 0, and the mode.
  pub ddr_divider_lost :
      Tracks dev fuel dpll_ddr_regs
      → (h : Trace)
      → (h' : Trace) × (bypass sel lock : ℕ) × (do_setup_dpll dev fuel dpll_ddr_regs dpll_ddr_evm_sk
            h
          ≡ done tt h')
        × (writes h'
            ≡ wr word 0x44E00494 lock
              ∷ wr word 0 1
              ∷ wr word 0x44E00440 sel
              ∷ wr word 0x44E00494 bypass
              ∷ writes h)
  unfolding divider_writes
  ddr_divider_lost tracks h =
      let (h', b, l, e, w) = do_setup_dpll-writes dpll_ddr_regs dpll_ddr_evm_sk tracks h in
      (h', b, clksel (reply dev word 0x44E00440 h) dpll_ddr_evm_sk % 2 ^ 32, l, e, w)
