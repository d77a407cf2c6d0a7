-- ===== src/Clock/Tables.antt =====
-- The tables of src/boot/clock.c: the registers and parameters of the PLLs, and the clock domains
-- and modules to enable. A pointer that an initialiser leaves out is null.
use miniboot.Common.{ℕ, List, [], ◌∷◌}
use miniboot.Regs.Clocks.{
  cmwkup_wkclkstctrl, cmwkup_wkctrlclkctrl, cmwkup_wkgpio0clkctrl, cmwkup_wkl4wkclkctrl,
  cmwkup_idlestdpllmpu, cmwkup_clkseldpllmpu, cmwkup_idlestdpllddr, cmwkup_clkseldpllddr,
  cmwkup_idlestdpllcore, cmwkup_clkseldpllcore, cmwkup_idlestdpllper, cmwkup_divm4dpllcore,
  cmwkup_divm5dpllcore, cmwkup_clkmoddpllmpu, cmwkup_clkmoddpllper, cmwkup_clkmoddpllcore,
  cmwkup_clkmoddpllddr, cmwkup_clkseldpllper, cmwkup_divm2dpllddr, cmwkup_divm2dpllmpu,
  cmwkup_divm2dpllper, cmwkup_wkup_i2c0ctrl, cmwkup_divm6dpllcore, cmper_l4lsclkstctrl,
  cmper_l3sclkstctrl, cmper_l4fwclkstctrl, cmper_l3clkstctrl, cmper_cpgmac0clkctrl,
  cmper_usb0clkctrl, cmper_emifclkctrl, cmper_gpmcclkctrl, cmper_mmc0clkctrl, cmper_elmclkctrl,
  cmper_i2c1clkctrl, cmper_spi0clkctrl, cmper_l4lsclkctrl, cmper_l4fwclkctrl, cmper_timer2clkctrl,
  cmper_gpio1clkctrl, cmper_gpio2clkctrl, cmper_gpio3clkctrl, cmper_emiffwclkctrl,
  cmper_l3instrclkctrl, cmper_l3clkctrl, cmper_mmc1clkctrl, cmper_l4hsclkctrl, cmrtc_rtcclkctrl,
  cmrtc_clkstctrl,
}

pub record DpllRegs : Type 0 where
  pub cm_clkmode_dpll : ℕ
  pub cm_idlest_dpll : ℕ
  pub cm_autoidle_dpll : ℕ
  pub cm_clksel_dpll : ℕ
  pub cm_div_m2_dpll : List ℕ

-- Each of the five dividers m2 to m6 is an s8, kept as its bit pattern: 255 stands for -1.
pub record DpllParams : Type 0 where
  pub m : ℕ
  pub n : ℕ
  pub m2 : List ℕ

abbrev pub dpll_mpu_regs : DpllRegs
dpll_mpu_regs = record {
  cm_clkmode_dpll = cmwkup_clkmoddpllmpu;
  cm_idlest_dpll = cmwkup_idlestdpllmpu;
  cm_autoidle_dpll = 0;
  cm_clksel_dpll = cmwkup_clkseldpllmpu;
  cm_div_m2_dpll = cmwkup_divm2dpllmpu ∷ 0 ∷ 0 ∷ 0 ∷ 0 ∷ [];
}

abbrev pub dpll_core_regs : DpllRegs
dpll_core_regs = record {
  cm_clkmode_dpll = cmwkup_clkmoddpllcore;
  cm_idlest_dpll = cmwkup_idlestdpllcore;
  cm_autoidle_dpll = 0;
  cm_clksel_dpll = cmwkup_clkseldpllcore;
  cm_div_m2_dpll = 0 ∷ 0 ∷ cmwkup_divm4dpllcore ∷ cmwkup_divm5dpllcore ∷ cmwkup_divm6dpllcore ∷ [];
}

abbrev pub dpll_per_regs : DpllRegs
dpll_per_regs = record {
  cm_clkmode_dpll = cmwkup_clkmoddpllper;
  cm_idlest_dpll = cmwkup_idlestdpllper;
  cm_autoidle_dpll = 0;
  cm_clksel_dpll = cmwkup_clkseldpllper;
  cm_div_m2_dpll = cmwkup_divm2dpllper ∷ 0 ∷ 0 ∷ 0 ∷ 0 ∷ [];
}

abbrev pub dpll_ddr_regs : DpllRegs
dpll_ddr_regs = record {
  cm_clkmode_dpll = cmwkup_clkmoddpllddr;
  cm_idlest_dpll = cmwkup_idlestdpllddr;
  cm_autoidle_dpll = 0;
  cm_clksel_dpll = cmwkup_clkseldpllddr;
  cm_div_m2_dpll = 0 ∷ 0 ∷ cmwkup_divm2dpllddr ∷ 0 ∷ 0 ∷ [];
}

-- OSC - 1, with OSC = 24000000 / 1000000
abbrev pub osc_less_one : ℕ
osc_less_one = 23

abbrev pub dpll_mpu : DpllParams
dpll_mpu = record { m = 300; n = osc_less_one; m2 = 1 ∷ 255 ∷ 255 ∷ 255 ∷ 255 ∷ [] }

abbrev pub dpll_core : DpllParams
dpll_core = record { m = 50; n = osc_less_one; m2 = 255 ∷ 255 ∷ 1 ∷ 1 ∷ 1 ∷ [] }

abbrev pub dpll_per : DpllParams
dpll_per = record { m = 960; n = osc_less_one; m2 = 5 ∷ 255 ∷ 255 ∷ 255 ∷ 255 ∷ [] }

abbrev pub dpll_ddr_evm_sk : DpllParams
dpll_ddr_evm_sk = record { m = 303; n = osc_less_one; m2 = 1 ∷ 255 ∷ 255 ∷ 255 ∷ 255 ∷ [] }

-- The arrays of `enable_basic_clocks`, with the null pointer that ends each.
abbrev pub domains : List ℕ
domains =
    cmper_l3clkstctrl ∷ cmper_l4fwclkstctrl ∷ cmper_l3sclkstctrl ∷ cmper_l4lsclkstctrl
    ∷ cmwkup_wkclkstctrl ∷ cmper_emiffwclkctrl ∷ cmrtc_clkstctrl ∷ 0 ∷ []

abbrev pub mods : List ℕ
mods =
    cmper_l3clkctrl ∷ cmper_l4lsclkctrl ∷ cmper_l4fwclkctrl ∷ cmwkup_wkl4wkclkctrl
    ∷ cmper_l3instrclkctrl ∷ cmper_l4hsclkctrl ∷ cmwkup_wkgpio0clkctrl ∷ cmwkup_wkctrlclkctrl
    ∷ cmper_timer2clkctrl ∷ cmper_gpmcclkctrl ∷ cmper_elmclkctrl ∷ cmper_mmc0clkctrl
    ∷ cmper_mmc1clkctrl ∷ cmwkup_wkup_i2c0ctrl ∷ cmper_gpio1clkctrl ∷ cmper_gpio2clkctrl
    ∷ cmper_gpio3clkctrl ∷ cmper_i2c1clkctrl ∷ cmper_cpgmac0clkctrl ∷ cmper_spi0clkctrl
    ∷ cmrtc_rtcclkctrl ∷ cmper_usb0clkctrl ∷ cmper_emiffwclkctrl ∷ cmper_emifclkctrl ∷ 0 ∷ []
