-- ===== src/Ddr.antt =====
-- src/boot/ddr.c and src/boot/ddr.h: the memory controller, its PHY and the pads of the memory.
pub mod Sdram
pub mod Setup
pub mod Macros
pub mod Tests
use miniboot.Common.{ℕ, ◌+◌, Bool, not, bit_and, bit_or, ◌==◌, List, [], ◌∷◌, if◌then◌else◌}
use miniboot.Bus.{Device, Prog, pure, ◌>>=◌, ◌>>◌, readl, writel, bit_not32}
use miniboot.Bus.Poll.{poll}
use miniboot.Regs.Memory.{
  ddrcmd_cm0csratio, ddrcmd_cm0iclkout, ddrcmd_cm1csratio, ddrcmd_cm1iclkout, ddrcmd_cm2csratio,
  ddrcmd_cm2iclkout, ddrdat_dt0rdsratio0, ddrdat_dt0wdsratio0, ddrdat_dt0wiratio0,
  ddrdat_dt0giratio0, ddrdat_dt0fwsratio0, ddrdat_dt0wrsratio0, ddrcon_cm0ioctl, ddrcon_cm1ioctl,
  ddrcon_cm2ioctl, ddrcon_dt0ioctl, ddrcon_dt1ioctl, ddr_ctrl_ddrckectrl, emif_sdram_config,
  emif_sdram_ref_ctrl, emif_sdram_ref_ctrl_shdw, emif_sdram_tim_1, emif_sdram_tim_1_shdw,
  emif_sdram_tim_2, emif_sdram_tim_2_shdw, emif_sdram_tim_3, emif_sdram_tim_3_shdw, emif_l3_config,
  emif_zq_config, emif_ddr_phy_ctrl_1, emif_ddr_phy_ctrl_1_shdw, secure_emif_sdram_config,
}

pub record DdrData : Type 0 where
  pub datardsratio0 : ℕ
  pub datawdsratio0 : ℕ
  pub datawiratio0 : ℕ
  pub datagiratio0 : ℕ
  pub datafwsratio0 : ℕ
  pub datawrsratio0 : ℕ

pub record CmdControl : Type 0 where
  pub cmd0csratio : ℕ
  pub cmd0csforce : ℕ
  pub cmd0csdelay : ℕ
  pub cmd0iclkout : ℕ
  pub cmd1csratio : ℕ
  pub cmd1csforce : ℕ
  pub cmd1csdelay : ℕ
  pub cmd1iclkout : ℕ
  pub cmd2csratio : ℕ
  pub cmd2csforce : ℕ
  pub cmd2csdelay : ℕ
  pub cmd2iclkout : ℕ

pub record EmifRegs : Type 0 where
  pub freq : ℕ
  pub sdram_config_init : ℕ
  pub sdram_config : ℕ
  pub sdram_config2 : ℕ
  pub ref_ctrl : ℕ
  pub sdram_tim1 : ℕ
  pub sdram_tim2 : ℕ
  pub sdram_tim3 : ℕ
  pub read_idle_ctrl : ℕ
  pub zq_config : ℕ
  pub temp_alert_config : ℕ
  pub emif_ddr_phy_ctlr_1_init : ℕ
  pub emif_ddr_phy_ctlr_1 : ℕ
  pub emif_ddr_ext_phy_ctrl_1 : ℕ
  pub emif_ddr_ext_phy_ctrl_2 : ℕ
  pub emif_ddr_ext_phy_ctrl_3 : ℕ
  pub emif_ddr_ext_phy_ctrl_4 : ℕ
  pub emif_ddr_ext_phy_ctrl_5 : ℕ
  pub emif_rd_wr_lvl_rmp_win : ℕ
  pub emif_rd_wr_lvl_rmp_ctl : ℕ
  pub emif_rd_wr_lvl_ctl : ℕ
  pub emif_rd_wr_exec_thresh : ℕ
  pub int_config : ℕ

-- VTP0_CTRL_ADDR, DDR_PHY_CMD_ADDR, DDR_PHY_DATA_ADDR with DDR_PHY_DATA_ADDR2, and
-- EMIF4_0_CFG_BASE: the members of `addr_info`.
abbrev pub vtp_ctrl_addr : ℕ
vtp_ctrl_addr = 0x44E10E0C

abbrev pub ddr_phycmd_addr : ℕ
ddr_phycmd_addr = 0x44E12000

abbrev pub ddr_phydat_addr : List ℕ
ddr_phydat_addr = 0x44E120C8 ∷ 0x47C0C8C8 ∷ []

abbrev pub emif4_cfg_addr : ℕ
emif4_cfg_addr = 0x4C000000

-- DDR_CONTROL_BASE_ADDR and DDR_CTRL_ADDR
abbrev pub ddr_control_base : ℕ
ddr_control_base = 0x44E11404

abbrev pub ddr_ctrl_base : ℕ
ddr_ctrl_base = 0x44E10E04

-- CTRL_BASE
abbrev pub ctl_base : ℕ
ctl_base = 0x44E10000

-- `(v & VTP_CTRL_READY) != VTP_CTRL_READY`
abbrev pub vtp_busy : ℕ → Bool
vtp_busy v = not (bit_and v 0x20 == 0x20)

unfoldable pub config_cmd_ctrl : CmdControl → Prog (Unit {0})
config_cmd_ctrl cmd = do
  writel cmd.cmd0csratio (ddr_phycmd_addr + ddrcmd_cm0csratio)
  writel cmd.cmd0iclkout (ddr_phycmd_addr + ddrcmd_cm0iclkout)
  writel cmd.cmd1csratio (ddr_phycmd_addr + ddrcmd_cm1csratio)
  writel cmd.cmd1iclkout (ddr_phycmd_addr + ddrcmd_cm1iclkout)
  writel cmd.cmd2csratio (ddr_phycmd_addr + ddrcmd_cm2csratio)
  writel cmd.cmd2iclkout (ddr_phycmd_addr + ddrcmd_cm2iclkout)

-- The loop over the elements of `ddr_phydat_addr`.
unfoldable pub config_data_macros : List ℕ → DdrData → Prog (Unit {0})
config_data_macros [] d = pure tt
config_data_macros (base ∷ bases) d = do
  writel d.datardsratio0 (base + ddrdat_dt0rdsratio0)
  writel d.datawdsratio0 (base + ddrdat_dt0wdsratio0)
  writel d.datawiratio0 (base + ddrdat_dt0wiratio0)
  writel d.datagiratio0 (base + ddrdat_dt0giratio0)
  writel d.datafwsratio0 (base + ddrdat_dt0fwsratio0)
  writel d.datawrsratio0 (base + ddrdat_dt0wrsratio0)
  config_data_macros bases d

unfoldable pub config_ddr_data : DdrData → Prog (Unit {0})
unfolding config_data_macros
config_ddr_data d = config_data_macros ddr_phydat_addr d

unfoldable pub config_io_ctrl : ℕ → Prog (Unit {0})
config_io_ctrl val = do
  writel val (ddr_control_base + ddrcon_cm0ioctl)
  writel val (ddr_control_base + ddrcon_cm1ioctl)
  writel val (ddr_control_base + ddrcon_cm2ioctl)
  writel val (ddr_control_base + ddrcon_dt0ioctl)
  writel val (ddr_control_base + ddrcon_dt1ioctl)

unfoldable pub config_ddr_phy : EmifRegs → Prog (Unit {0})
config_ddr_phy regs = do
  writel regs.emif_ddr_phy_ctlr_1 (emif4_cfg_addr + emif_ddr_phy_ctrl_1)
  writel regs.emif_ddr_phy_ctlr_1 (emif4_cfg_addr + emif_ddr_phy_ctrl_1_shdw)

unfoldable pub set_sdram_timings : EmifRegs → Prog (Unit {0})
set_sdram_timings regs = do
  writel regs.sdram_tim1 (emif4_cfg_addr + emif_sdram_tim_1)
  writel regs.sdram_tim1 (emif4_cfg_addr + emif_sdram_tim_1_shdw)
  writel regs.sdram_tim2 (emif4_cfg_addr + emif_sdram_tim_2)
  writel regs.sdram_tim2 (emif4_cfg_addr + emif_sdram_tim_2_shdw)
  writel regs.sdram_tim3 (emif4_cfg_addr + emif_sdram_tim_3)
  writel regs.sdram_tim3 (emif4_cfg_addr + emif_sdram_tim_3_shdw)

abbrev pub int_config_of : EmifRegs → ℕ
int_config_of regs = if regs.int_config == 0 then 0x00FFFF10 else regs.int_config

-- The writes under `if (regs->zq_config)`.
unfoldable pub config_zq : EmifRegs → Prog (Unit {0})
config_zq regs = do
  writel 0x2800 (emif4_cfg_addr + emif_sdram_ref_ctrl)
  writel regs.zq_config (emif4_cfg_addr + emif_zq_config)
  writel regs.sdram_config (ctl_base + secure_emif_sdram_config)
  writel regs.sdram_config (emif4_cfg_addr + emif_sdram_config)
  writel regs.ref_ctrl (emif4_cfg_addr + emif_sdram_ref_ctrl)
  writel regs.ref_ctrl (emif4_cfg_addr + emif_sdram_ref_ctrl_shdw)

unfoldable pub config_sdram : EmifRegs → Prog (Unit {0})
unfolding config_zq
config_sdram regs = do
  (if regs.zq_config == 0 then pure tt else config_zq regs)
  writel (int_config_of regs) (emif4_cfg_addr + emif_l3_config)
  writel regs.ref_ctrl (emif4_cfg_addr + emif_sdram_ref_ctrl)
  writel regs.ref_ctrl (emif4_cfg_addr + emif_sdram_ref_ctrl_shdw)
  writel regs.sdram_config (emif4_cfg_addr + emif_sdram_config)

module _ (dev : Device) (fuel : ℕ) where
  unfoldable pub config_vtp : Prog (Unit {0})
  config_vtp = do
    v ← readl dev vtp_ctrl_addr
    writel (bit_or v 0x40) vtp_ctrl_addr
    w ← readl dev vtp_ctrl_addr
    writel (bit_and w (bit_not32 0x1)) vtp_ctrl_addr
    x ← readl dev vtp_ctrl_addr
    writel (bit_or x 0x1) vtp_ctrl_addr
    _ ← poll dev vtp_ctrl_addr vtp_busy fuel
    pure tt

  -- The argument `pll` is not used. The board is neither BOARD_OTHERS nor BOARD_TI816X.
  unfoldable pub config_ddr : ℕ → ℕ → DdrData → CmdControl → EmifRegs → Prog (Unit {0})
  config_ddr pll ioctrl d ctrl regs = do
    config_vtp
    config_cmd_ctrl ctrl
    config_ddr_data d
    config_io_ctrl ioctrl
    writel 0x1 (ddr_ctrl_base + ddr_ctrl_ddrckectrl)
    config_ddr_phy regs
    set_sdram_timings regs
    config_sdram regs
