-- ===== src/Clock.antt =====
-- src/boot/clock.c and src/boot/clock.h: the PLLs and the module clocks.
pub mod Tables
pub mod Select
pub mod Dpll
pub mod Divider
pub mod Frames
pub mod Modules
pub mod Tests
use miniboot.Common.{
  ℕ, ◌+◌, ◌*◌, ◌/◌, ◌^◌, Bool, not, List, [], ◌∷◌, bit_and, bit_or, ◌==◌, ltb, if◌then◌else◌,
}
use miniboot.Bus.{Device, Prog, pure, ◌>>=◌, ◌>>◌, readl, writel, clrsetbits, bit_not32}
use miniboot.Bus.Poll.{poll}
use miniboot.Clock.Tables.{DpllRegs, DpllParams, dpll_core_regs, dpll_mpu_regs, dpll_per_regs}
use miniboot.Clock.Tables.{dpll_ddr_regs, dpll_core, dpll_mpu, dpll_per, dpll_ddr_evm_sk}
use miniboot.Clock.Tables.{domains, mods}
use miniboot.Regs.Clocks.{cmwkup_clkdcoldodpllper, cmdpll_clktimer2clk}

-- `params->m2[i] >= 0`, of an s8 kept as its bit pattern
abbrev pub is_set : ℕ → Bool
is_set m2 = ltb m2 128

-- The loop over the five dividers and the five registers that they go to.
unfoldable pub post_dividers : List ℕ → List ℕ → Prog (Unit {0})
post_dividers [] rs = pure tt
post_dividers (m ∷ ms) [] = pure tt
post_dividers (m ∷ ms) (r ∷ rs) = (if is_set m then writel m r else pure tt) >> post_dividers ms rs

unfoldable pub setup_post_dividers : DpllRegs → DpllParams → Prog (Unit {0})
setup_post_dividers regs params = post_dividers params.m2 regs.cm_div_m2_dpll

-- CM_CLKMODE_DPLL_EN_MASK, DPLL_EN_LOCK, DPLL_EN_MN_BYPASS
abbrev pub en_mask : ℕ
en_mask = 7

abbrev pub en_lock : ℕ
en_lock = 7

abbrev pub en_mn_bypass : ℕ
en_mn_bypass = 4

-- `idlest & ST_DPLL_CLK_MASK`
abbrev pub is_locked : ℕ → Bool
is_locked idlest = not (bit_and idlest 1 == 0)

-- What `do_setup_dpll` makes of the CM_CLKSEL register: M in bits 8 to 18, N in bits 0 to 6.
unfoldable pub clksel : ℕ → DpllParams → ℕ
clksel tmp params =
    let cleared_m = bit_and tmp (bit_not32 (0x7FF * 2 ^ 8)) in
    let with_m = bit_or cleared_m (bit_and (params.m * 2 ^ 8) (0x7FF * 2 ^ 8)) in
    let cleared_n = bit_and with_m (bit_not32 0x7F) in bit_or cleared_n (bit_and params.n 0x7F)

-- MODULE_CLKCTRL_IDLEST: bit 0 of the field stands for "in transition" and for "disabled".
abbrev pub is_starting : ℕ → Bool
is_starting v = not (bit_and (bit_and v 0x30000 / 2 ^ 16) 1 == 0)

module _ (dev : Device) where
  unfoldable pub lock_dpll : ℕ → DpllRegs → Prog (Unit {0})
  lock_dpll fuel regs = do
    clrsetbits dev regs.cm_clkmode_dpll en_mask en_lock
    _ ← poll dev regs.cm_idlest_dpll (λ v. not (is_locked v)) fuel
    pure tt

  unfoldable pub bypass_dpll : ℕ → DpllRegs → Prog (Unit {0})
  bypass_dpll fuel regs = do
    clrsetbits dev regs.cm_clkmode_dpll en_mask en_mn_bypass
    _ ← poll dev regs.cm_idlest_dpll is_locked fuel
    pure tt

  unfoldable pub do_setup_dpll : ℕ → DpllRegs → DpllParams → Prog (Unit {0})
  do_setup_dpll fuel regs params = do
    tmp ← readl dev regs.cm_clksel_dpll
    bypass_dpll fuel regs
    writel (clksel tmp params) regs.cm_clksel_dpll
    setup_post_dividers regs params
    lock_dpll fuel regs

  -- `writel(0x300, CMWKUP_CLKDCOLDODPLLPER)` stands between the third and the fourth PLL.
  unfoldable pub setup_dplls : ℕ → Prog (Unit {0})
  setup_dplls fuel = do
    do_setup_dpll fuel dpll_core_regs dpll_core
    do_setup_dpll fuel dpll_mpu_regs dpll_mpu
    do_setup_dpll fuel dpll_per_regs dpll_per
    writel 0x300 cmwkup_clkdcoldodpllper
    do_setup_dpll fuel dpll_ddr_regs dpll_ddr_evm_sk

  unfoldable pub enable_clk_domain : ℕ → ℕ → Prog (Unit {0})
  enable_clk_domain reg mode = clrsetbits dev reg 3 mode

  unfoldable pub enable_clk_mod : ℕ → ℕ → ℕ → Prog (Unit {0})
  enable_clk_mod fuel addr mode = do
    clrsetbits dev addr 3 mode
    _ ← poll dev addr is_starting fuel
    pure tt

  -- The loops run up to the null pointer that ends each array.
  unfoldable pub enable_domains : List ℕ → Prog (Unit {0})
  unfolding enable_clk_domain
  enable_domains [] = pure tt
  enable_domains (d ∷ ds) = if d == 0 then pure tt else (enable_clk_domain d 2 >> enable_domains ds)

  unfoldable pub enable_mods : ℕ → List ℕ → Prog (Unit {0})
  enable_mods fuel [] = pure tt
  enable_mods fuel (m ∷ ms) =
      if m == 0 then pure tt else (enable_clk_mod fuel m 2 >> enable_mods fuel ms)

  unfoldable pub enable_basic_clocks : ℕ → Prog (Unit {0})
  enable_basic_clocks fuel = do
    enable_domains domains
    enable_mods fuel mods
    writel 0x1 cmdpll_clktimer2clk

  unfoldable pub prcm_init : ℕ → Prog (Unit {0})
  prcm_init fuel = do enable_basic_clocks fuel; setup_dplls fuel
