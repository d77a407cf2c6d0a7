-- ===== src/Regs/Memory.antt =====
-- include/asm/regs.h: the registers of the memory controller and its PHY that src/boot/ddr.c names.
use miniboot.Common.{ℕ}

abbrev pub ddrcmd_cm0csratio : ℕ
ddrcmd_cm0csratio = 0x1C

abbrev pub ddrcmd_cm0iclkout : ℕ
ddrcmd_cm0iclkout = 0x2C

abbrev pub ddrcmd_cm1csratio : ℕ
ddrcmd_cm1csratio = 0x50

abbrev pub ddrcmd_cm1iclkout : ℕ
ddrcmd_cm1iclkout = 0x60

abbrev pub ddrcmd_cm2csratio : ℕ
ddrcmd_cm2csratio = 0x84

abbrev pub ddrcmd_cm2iclkout : ℕ
ddrcmd_cm2iclkout = 0x94

abbrev pub ddrdat_dt0rdsratio0 : ℕ
ddrdat_dt0rdsratio0 = 0xC8

abbrev pub ddrdat_dt0wdsratio0 : ℕ
ddrdat_dt0wdsratio0 = 0xDC

abbrev pub ddrdat_dt0wiratio0 : ℕ
ddrdat_dt0wiratio0 = 0xF0

abbrev pub ddrdat_dt0giratio0 : ℕ
ddrdat_dt0giratio0 = 0xFC

abbrev pub ddrdat_dt0fwsratio0 : ℕ
ddrdat_dt0fwsratio0 = 0x108

abbrev pub ddrdat_dt0wrsratio0 : ℕ
ddrdat_dt0wrsratio0 = 0x120

abbrev pub ddrcon_cm0ioctl : ℕ
ddrcon_cm0ioctl = 0x0

abbrev pub ddrcon_cm1ioctl : ℕ
ddrcon_cm1ioctl = 0x4

abbrev pub ddrcon_cm2ioctl : ℕ
ddrcon_cm2ioctl = 0x8

abbrev pub ddrcon_dt0ioctl : ℕ
ddrcon_dt0ioctl = 0x3C

abbrev pub ddrcon_dt1ioctl : ℕ
ddrcon_dt1ioctl = 0x40

abbrev pub ddr_ctrl_ddrckectrl : ℕ
ddr_ctrl_ddrckectrl = 0x514

abbrev pub emif_sdram_config : ℕ
emif_sdram_config = 0x8

abbrev pub emif_sdram_ref_ctrl : ℕ
emif_sdram_ref_ctrl = 0x10

abbrev pub emif_sdram_ref_ctrl_shdw : ℕ
emif_sdram_ref_ctrl_shdw = 0x14

abbrev pub emif_sdram_tim_1 : ℕ
emif_sdram_tim_1 = 0x18

abbrev pub emif_sdram_tim_1_shdw : ℕ
emif_sdram_tim_1_shdw = 0x1C

abbrev pub emif_sdram_tim_2 : ℕ
emif_sdram_tim_2 = 0x20

abbrev pub emif_sdram_tim_2_shdw : ℕ
emif_sdram_tim_2_shdw = 0x24

abbrev pub emif_sdram_tim_3 : ℕ
emif_sdram_tim_3 = 0x28

abbrev pub emif_sdram_tim_3_shdw : ℕ
emif_sdram_tim_3_shdw = 0x2C

abbrev pub emif_l3_config : ℕ
emif_l3_config = 0x54

abbrev pub emif_zq_config : ℕ
emif_zq_config = 0xCC

abbrev pub emif_ddr_phy_ctrl_1 : ℕ
emif_ddr_phy_ctrl_1 = 0xE8

abbrev pub emif_ddr_phy_ctrl_1_shdw : ℕ
emif_ddr_phy_ctrl_1_shdw = 0xEC

abbrev pub secure_emif_sdram_config : ℕ
secure_emif_sdram_config = 0x110
