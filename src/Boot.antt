-- ===== src/Boot.antt =====
-- src/boot/main.c: the order in which everything is set up.
pub mod Watchdog
pub mod Pads
pub mod Prepared
pub mod Returns
pub mod Image
pub mod Content
pub mod Board
pub mod Tests
use miniboot.Common.{ℕ, ◌*◌, List, [], ◌∷◌, Bool, not, bit_or, ◌==◌}
use miniboot.Bus.{Device, Prog, pure, ◌>>=◌, ◌>>◌, writel}
use miniboot.Bus.Poll.{poll}
use miniboot.Timer.{timer_init}
use miniboot.Clock.{prcm_init, do_setup_dpll}
use miniboot.Clock.Tables.{DpllParams, dpll_core_regs, dpll_mpu_regs, osc_less_one}
use miniboot.Mux.{configure_module_pin_mux}
use miniboot.Mux.Tables.{rgmii1_pin_mux, mmc0_pin_mux, i2c0_pin_mux, i2c1_pin_mux, nand_pin_mux}
use miniboot.Ddr.{DdrData, CmdControl, EmifRegs, config_ddr}
use miniboot.Gpmc.{gpmc_init}
use miniboot.Info.{get_efuse_mpu_max_freq, get_tps65910_mpu_vdd}
use miniboot.I2c.Adapter.{I2cAdapter}
use miniboot.Tps.{tps65910_init, tps65910_set_i2c_control, tps65910_voltage_update}
use miniboot.Nand.Chip.{NandChip, nand_chip}
use miniboot.Nand.Init.{omap_nand_init}
use miniboot.Nand.Read.{nand_load}

abbrev pub ddr3_evm_data : DdrData
ddr3_evm_data = record {
  datardsratio0 = 0x3B;
  datawdsratio0 = 0x3C;
  datawiratio0 = 0;
  datagiratio0 = 0;
  datafwsratio0 = 0xA5;
  datawrsratio0 = 0x74;
}

abbrev pub ddr3_evm_cmd_ctrl_data : CmdControl
ddr3_evm_cmd_ctrl_data = record {
  cmd0csratio = 0x80;
  cmd0csforce = 0;
  cmd0csdelay = 0;
  cmd0iclkout = 0;
  cmd1csratio = 0x80;
  cmd1csforce = 0;
  cmd1csdelay = 0;
  cmd1iclkout = 0;
  cmd2csratio = 0x80;
  cmd2csforce = 0;
  cmd2csdelay = 0;
  cmd2iclkout = 0;
}

-- MT41J512M8RH125_EMIF_READ_LATENCY is 0x100006 and PHY_EN_DYN_PWRDN is 0x100000.
abbrev pub ddr3_evm_emif_reg_data : EmifRegs
ddr3_evm_emif_reg_data = record {
  freq = 0;
  sdram_config_init = 0;
  sdram_config = 0x61C04BB2;
  sdram_config2 = 0;
  ref_ctrl = 0x0000093B;
  sdram_tim1 = 0x0888A39B;
  sdram_tim2 = 0x26517FDA;
  sdram_tim3 = 0x501F84EF;
  read_idle_ctrl = 0;
  zq_config = 0x50074BE4;
  temp_alert_config = 0;
  emif_ddr_phy_ctlr_1_init = 0;
  emif_ddr_phy_ctlr_1 = bit_or 0x100006 0x100000;
  emif_ddr_ext_phy_ctrl_1 = 0;
  emif_ddr_ext_phy_ctrl_2 = 0;
  emif_ddr_ext_phy_ctrl_3 = 0;
  emif_ddr_ext_phy_ctrl_4 = 0;
  emif_ddr_ext_phy_ctrl_5 = 0;
  emif_rd_wr_lvl_rmp_win = 0;
  emif_rd_wr_lvl_rmp_ctl = 0;
  emif_rd_wr_lvl_ctl = 0;
  emif_rd_wr_exec_thresh = 0;
  int_config = 0;
}

-- `dpll_mpu_opp100` once `voltage_update` has put the multiplier `m` there; it starts as 550.
abbrev pub dpll_mpu_opp100 : ℕ → DpllParams
dpll_mpu_opp100 m = record { m = m; n = osc_less_one; m2 = 1 ∷ 255 ∷ 255 ∷ 255 ∷ 255 ∷ [] }

abbrev pub dpll_core_opp100 : DpllParams
dpll_core_opp100 = record { m = 1000; n = osc_less_one; m2 = 255 ∷ 255 ∷ 10 ∷ 8 ∷ 4 ∷ [] }

-- WDT_BASE + WDTREG_WSPR and WDT_BASE + WDTREG_WWPS
abbrev pub wdt_wspr : ℕ
wdt_wspr = 0x44E35048

abbrev pub wdt_wwps : ℕ
wdt_wwps = 0x44E35034

abbrev pub is_pending : ℕ → Bool
is_pending v = not (v == 0)

-- LOADADDR
abbrev pub loadaddr : ℕ
loadaddr = 0x80200000

-- IMG_OFFS and IMG_SIZE
abbrev pub img_offs : ℕ
img_offs = 512 * 1024

abbrev pub img_size : ℕ
img_size = 32 * 1024

unfoldable pub board_pin_mux : Prog (Unit {0})
board_pin_mux = do
  configure_module_pin_mux rgmii1_pin_mux
  configure_module_pin_mux mmc0_pin_mux
  configure_module_pin_mux i2c0_pin_mux
  configure_module_pin_mux i2c1_pin_mux
  configure_module_pin_mux nand_pin_mux

-- `fuel` bounds the busy-wait loops.
module _ (dev : Device) (fuel : ℕ) where
  unfoldable pub watchdog_disable : Prog (Unit {0})
  watchdog_disable = do
    writel 0xaaaa wdt_wspr
    _ ← poll dev wdt_wwps is_pending fuel
    writel 0x5555 wdt_wspr
    _ ← poll dev wdt_wwps is_pending fuel
    pure tt

  -- The part of `lowlevel_init` down to the end of the `s_init` comment.
  unfoldable pub s_init : Prog (Unit {0})
  s_init = do
    watchdog_disable
    _ ← timer_init
    prcm_init dev fuel
    board_pin_mux
    config_ddr dev fuel 303 0x18B ddr3_evm_data ddr3_evm_cmd_ctrl_data ddr3_evm_emif_reg_data

-- `junk` is what an uninitialised variable holds.
module _ (dev : Device) (fuel junk : ℕ) where
  -- MPU is 0 and CORE is 1; TPS65910_OP_REG_SEL_1_1_3 is 0x2E.
  unfoldable pub voltage_update : I2cAdapter → Prog I2cAdapter
  voltage_update adap = do
    m ← get_efuse_mpu_max_freq dev
    mpu_vdd ← get_tps65910_mpu_vdd dev m
    adap1 ← tps65910_set_i2c_control dev fuel junk adap
    adap2 ← tps65910_voltage_update dev fuel junk adap1 0 mpu_vdd
    adap3 ← tps65910_voltage_update dev fuel junk adap2 1 0x2E
    do_setup_dpll dev fuel dpll_core_regs dpll_core_opp100
    do_setup_dpll dev fuel dpll_mpu_regs (dpll_mpu_opp100 m)
    pure adap3

  unfoldable pub spl_board_init : I2cAdapter → Prog I2cAdapter
  spl_board_init adap = do gpmc_init 0; _ ← tps65910_init dev fuel junk adap; voltage_update adap

  -- The result is the address that `lowlevel_init` jumps to at its end.
  unfoldable pub lowlevel_init : I2cAdapter → NandChip → Prog ℕ
  lowlevel_init adap chip = do
    s_init dev fuel
    _ ← spl_board_init adap
    (r, chip') ← omap_nand_init dev fuel chip
    _ ← nand_load dev fuel chip' img_offs img_size loadaddr
    pure loadaddr
