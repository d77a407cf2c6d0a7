-- ===== src/Mux/Tables.antt =====
-- The tables of src/boot/mux.c: the pads of a module and what goes into their control registers.
use miniboot.Common.{ℕ, List, [], ◌∷◌, bit_or}
use miniboot.Mux.Pads.{
  Pad, pin, ecap0_in_pwm0_out, gpmc_ad0, gpmc_ad1, gpmc_ad2, gpmc_ad3, gpmc_ad4, gpmc_ad5, gpmc_ad6,
  gpmc_ad7, gpmc_advn_ale, gpmc_be0n_cle, gpmc_csn0, gpmc_csn1, gpmc_csn2, gpmc_oen_ren, gpmc_wait0,
  gpmc_wen, gpmc_wpn, i2c0_scl, i2c0_sda, lcd_data8, lcd_data9, mcasp0_aclkr, mdio_clk, mdio_data,
  mii1_rxclk, mii1_rxd0, mii1_rxd1, mii1_rxd2, mii1_rxd3, mii1_rxdv, mii1_rxerr, mii1_txclk,
  mii1_txd0, mii1_txd1, mii1_txd2, mii1_txd3, mii1_txen, mmc0_clk, mmc0_cmd, mmc0_dat0, mmc0_dat1,
  mmc0_dat2, mmc0_dat3, spi0_cs0, spi0_cs1, spi0_d0, spi0_d1, spi0_sclk, uart0_rxd, uart0_txd,
  uart1_rxd, uart1_txd,
}

pub record ModulePinMux : Type 0 where
  pub offs : ℕ
  pub val : ℕ

abbrev slewctrl : ℕ
slewctrl = 0x40

abbrev rxactive : ℕ
rxactive = 0x20

abbrev pullup_en : ℕ
pullup_en = 0x10

abbrev pulluden : ℕ
pulluden = 0

-- The entry that an initialiser `{ __pin(x), val }` gives.
abbrev entry : Pad → ℕ → ModulePinMux
entry x v = record { offs = pin x; val = v }

-- The entry `{ -1 }`: its offset as the bit pattern of the int, and the value that it leaves out.
abbrev last_entry : ModulePinMux
last_entry = record { offs = 0xFFFFFFFF; val = 0 }

abbrev pub uart0_pin_mux : List ModulePinMux
uart0_pin_mux =
    entry uart0_rxd (bit_or pullup_en rxactive) ∷ entry uart0_txd pulluden ∷ last_entry ∷ []

abbrev pub uart1_pin_mux : List ModulePinMux
uart1_pin_mux =
    entry uart1_rxd (bit_or pullup_en rxactive) ∷ entry uart1_txd pulluden ∷ last_entry ∷ []

abbrev pub uart2_pin_mux : List ModulePinMux
uart2_pin_mux =
    entry spi0_sclk (bit_or (bit_or 0x1 pullup_en) rxactive)
    ∷ entry spi0_d0 (bit_or 0x1 pulluden)
    ∷ last_entry
    ∷ []

abbrev pub uart3_pin_mux : List ModulePinMux
uart3_pin_mux =
    entry spi0_cs1 (bit_or (bit_or 0x1 pullup_en) rxactive)
    ∷ entry ecap0_in_pwm0_out (bit_or 0x1 pulluden)
    ∷ last_entry
    ∷ []

abbrev pub uart4_pin_mux : List ModulePinMux
uart4_pin_mux =
    entry gpmc_wait0 (bit_or (bit_or 0x6 pullup_en) rxactive)
    ∷ entry gpmc_wpn (bit_or 0x6 pulluden)
    ∷ last_entry
    ∷ []

abbrev pub uart5_pin_mux : List ModulePinMux
uart5_pin_mux =
    entry lcd_data9 (bit_or (bit_or 0x4 pullup_en) rxactive)
    ∷ entry lcd_data8 (bit_or 0x4 pulluden)
    ∷ last_entry
    ∷ []

abbrev pub mmc0_pin_mux : List ModulePinMux
mmc0_pin_mux =
    entry mmc0_dat3 (bit_or rxactive pullup_en)
    ∷ entry mmc0_dat2 (bit_or rxactive pullup_en)
    ∷ entry mmc0_dat1 (bit_or rxactive pullup_en)
    ∷ entry mmc0_dat0 (bit_or rxactive pullup_en)
    ∷ entry mmc0_clk (bit_or rxactive pullup_en)
    ∷ entry mmc0_cmd (bit_or rxactive pullup_en)
    ∷ entry mcasp0_aclkr (bit_or 0x4 rxactive)
    ∷ entry spi0_cs1 (bit_or (bit_or 0x5 rxactive) pullup_en)
    ∷ last_entry
    ∷ []

abbrev pub mmc0_no_cd_pin_mux : List ModulePinMux
mmc0_no_cd_pin_mux =
    entry mmc0_dat3 (bit_or rxactive pullup_en)
    ∷ entry mmc0_dat2 (bit_or rxactive pullup_en)
    ∷ entry mmc0_dat1 (bit_or rxactive pullup_en)
    ∷ entry mmc0_dat0 (bit_or rxactive pullup_en)
    ∷ entry mmc0_clk (bit_or rxactive pullup_en)
    ∷ entry mmc0_cmd (bit_or rxactive pullup_en)
    ∷ entry mcasp0_aclkr (bit_or 0x4 rxactive)
    ∷ last_entry
    ∷ []

abbrev pub mmc0_pin_mux_sk_evm : List ModulePinMux
mmc0_pin_mux_sk_evm =
    entry mmc0_dat3 (bit_or rxactive pullup_en)
    ∷ entry mmc0_dat2 (bit_or rxactive pullup_en)
    ∷ entry mmc0_dat1 (bit_or rxactive pullup_en)
    ∷ entry mmc0_dat0 (bit_or rxactive pullup_en)
    ∷ entry mmc0_clk (bit_or rxactive pullup_en)
    ∷ entry mmc0_cmd (bit_or rxactive pullup_en)
    ∷ entry spi0_cs1 (bit_or (bit_or 0x5 rxactive) pullup_en)
    ∷ last_entry
    ∷ []

abbrev pub mmc1_pin_mux : List ModulePinMux
mmc1_pin_mux =
    entry gpmc_ad3 (bit_or (bit_or 0x1 rxactive) pullup_en)
    ∷ entry gpmc_ad2 (bit_or (bit_or 0x1 rxactive) pullup_en)
    ∷ entry gpmc_ad1 (bit_or (bit_or 0x1 rxactive) pullup_en)
    ∷ entry gpmc_ad0 (bit_or (bit_or 0x1 rxactive) pullup_en)
    ∷ entry gpmc_csn1 (bit_or (bit_or 0x2 rxactive) pullup_en)
    ∷ entry gpmc_csn2 (bit_or (bit_or 0x2 rxactive) pullup_en)
    ∷ entry gpmc_csn0 (bit_or (bit_or 0x7 rxactive) pullup_en)
    ∷ entry gpmc_advn_ale (bit_or (bit_or 0x7 rxactive) pullup_en)
    ∷ last_entry
    ∷ []

abbrev pub i2c0_pin_mux : List ModulePinMux
i2c0_pin_mux =
    entry i2c0_sda (bit_or (bit_or rxactive pulluden) slewctrl)
    ∷ entry i2c0_scl (bit_or (bit_or rxactive pulluden) slewctrl)
    ∷ last_entry
    ∷ []

abbrev pub i2c1_pin_mux : List ModulePinMux
i2c1_pin_mux =
    entry spi0_d1 (bit_or (bit_or (bit_or 0x2 rxactive) pulluden) slewctrl)
    ∷ entry spi0_cs0 (bit_or (bit_or (bit_or 0x2 rxactive) pulluden) slewctrl)
    ∷ last_entry
    ∷ []

abbrev pub spi0_pin_mux : List ModulePinMux
spi0_pin_mux =
    entry spi0_sclk (bit_or rxactive pulluden)
    ∷ entry spi0_d0 (bit_or (bit_or rxactive pulluden) pullup_en)
    ∷ entry spi0_d1 (bit_or rxactive pulluden)
    ∷ entry spi0_cs0 (bit_or (bit_or rxactive pulluden) pullup_en)
    ∷ last_entry
    ∷ []

abbrev pub gpio0_7_pin_mux : List ModulePinMux
gpio0_7_pin_mux = entry ecap0_in_pwm0_out (bit_or 0x7 pulluden) ∷ last_entry ∷ []

abbrev pub rgmii1_pin_mux : List ModulePinMux
rgmii1_pin_mux =
    entry mii1_txen 0x2
    ∷ entry mii1_rxdv (bit_or 0x2 rxactive)
    ∷ entry mii1_txd3 0x2
    ∷ entry mii1_txd2 0x2
    ∷ entry mii1_txd1 0x2
    ∷ entry mii1_txd0 0x2
    ∷ entry mii1_txclk 0x2
    ∷ entry mii1_rxclk (bit_or 0x2 rxactive)
    ∷ entry mii1_rxd3 (bit_or 0x2 rxactive)
    ∷ entry mii1_rxd2 (bit_or 0x2 rxactive)
    ∷ entry mii1_rxd1 (bit_or 0x2 rxactive)
    ∷ entry mii1_rxd0 (bit_or 0x2 rxactive)
    ∷ entry mdio_data (bit_or rxactive pullup_en)
    ∷ entry mdio_clk pullup_en
    ∷ last_entry
    ∷ []

abbrev pub mii1_pin_mux : List ModulePinMux
mii1_pin_mux =
    entry mii1_rxerr rxactive
    ∷ entry mii1_txen 0x0
    ∷ entry mii1_rxdv rxactive
    ∷ entry mii1_txd3 0x0
    ∷ entry mii1_txd2 0x0
    ∷ entry mii1_txd1 0x0
    ∷ entry mii1_txd0 0x0
    ∷ entry mii1_txclk rxactive
    ∷ entry mii1_rxclk rxactive
    ∷ entry mii1_rxd3 rxactive
    ∷ entry mii1_rxd2 rxactive
    ∷ entry mii1_rxd1 rxactive
    ∷ entry mii1_rxd0 rxactive
    ∷ entry mdio_data (bit_or rxactive pullup_en)
    ∷ entry mdio_clk pullup_en
    ∷ last_entry
    ∷ []

abbrev pub nand_pin_mux : List ModulePinMux
nand_pin_mux =
    entry gpmc_ad0 (bit_or pullup_en rxactive)
    ∷ entry gpmc_ad1 (bit_or pullup_en rxactive)
    ∷ entry gpmc_ad2 (bit_or pullup_en rxactive)
    ∷ entry gpmc_ad3 (bit_or pullup_en rxactive)
    ∷ entry gpmc_ad4 (bit_or pullup_en rxactive)
    ∷ entry gpmc_ad5 (bit_or pullup_en rxactive)
    ∷ entry gpmc_ad6 (bit_or pullup_en rxactive)
    ∷ entry gpmc_ad7 (bit_or pullup_en rxactive)
    ∷ entry gpmc_wait0 (bit_or rxactive pullup_en)
    ∷ entry gpmc_wpn (bit_or (bit_or 0x7 pullup_en) rxactive)
    ∷ entry gpmc_csn0 pulluden
    ∷ entry gpmc_advn_ale pulluden
    ∷ entry gpmc_oen_ren pulluden
    ∷ entry gpmc_wen pulluden
    ∷ entry gpmc_be0n_cle pulluden
    ∷ last_entry
    ∷ []
