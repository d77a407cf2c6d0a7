-- ===== src/Mux/Pads.antt =====
-- src/include/asm/regs.h: the pads in the order of their control registers. `struct pad_signals`
-- is the layout: one word for each pad.
use miniboot.Common.{ℕ, ◌+◌, ◌*◌}

-- The members of `struct pad_signals`.
pub data Pad : Type 0 where
  gpmc_ad0 gpmc_ad1 gpmc_ad2 gpmc_ad3 gpmc_ad4 gpmc_ad5 gpmc_ad6 gpmc_ad7 gpmc_ad8 : Pad
  gpmc_ad9 gpmc_ad10 gpmc_ad11 gpmc_ad12 gpmc_ad13 gpmc_ad14 gpmc_ad15 gpmc_a0 : Pad
  gpmc_a1 gpmc_a2 gpmc_a3 gpmc_a4 gpmc_a5 gpmc_a6 gpmc_a7 gpmc_a8 gpmc_a9 gpmc_a10 : Pad
  gpmc_a11 gpmc_wait0 gpmc_wpn gpmc_be1n gpmc_csn0 gpmc_csn1 gpmc_csn2 gpmc_csn3 : Pad
  gpmc_clk gpmc_advn_ale gpmc_oen_ren gpmc_wen gpmc_be0n_cle lcd_data0 lcd_data1 : Pad
  lcd_data2 lcd_data3 lcd_data4 lcd_data5 lcd_data6 lcd_data7 lcd_data8 lcd_data9 : Pad
  lcd_data10 lcd_data11 lcd_data12 lcd_data13 lcd_data14 lcd_data15 lcd_vsync : Pad
  lcd_hsync lcd_pclk lcd_ac_bias_en mmc0_dat3 mmc0_dat2 mmc0_dat1 mmc0_dat0 mmc0_clk : Pad
  mmc0_cmd mii1_col mii1_crs mii1_rxerr mii1_txen mii1_rxdv mii1_txd3 mii1_txd2 : Pad
  mii1_txd1 mii1_txd0 mii1_txclk mii1_rxclk mii1_rxd3 mii1_rxd2 mii1_rxd1 mii1_rxd0 : Pad
  rmii1_refclk mdio_data mdio_clk spi0_sclk spi0_d0 spi0_d1 spi0_cs0 spi0_cs1 : Pad
  ecap0_in_pwm0_out uart0_ctsn uart0_rtsn uart0_rxd uart0_txd uart1_ctsn uart1_rtsn : Pad
  uart1_rxd uart1_txd i2c0_sda i2c0_scl mcasp0_aclkx mcasp0_fsx mcasp0_axr0 : Pad
  mcasp0_ahclkr mcasp0_aclkr mcasp0_fsr mcasp0_axr1 mcasp0_ahclkx xdma_event_intr0 : Pad
  xdma_event_intr1 nresetin_out porz nnmi osc0_in osc0_out rsvd1 tms tdi tdo tck : Pad
  ntrst emu0 emu1 osc1_in osc1_out pmic_power_en rtc_porz rsvd2 ext_wakeup : Pad
  enz_kaldo_1p8v usb0_dm usb0_dp usb0_ce usb0_id usb0_vbus usb0_drvvbus usb1_dm : Pad
  usb1_dp usb1_ce usb1_id usb1_vbus usb1_drvvbus ddr_resetn ddr_csn0 ddr_cke ddr_ck : Pad
  ddr_nck ddr_casn ddr_rasn ddr_wen ddr_ba0 ddr_ba1 ddr_ba2 ddr_a0 ddr_a1 ddr_a2 : Pad
  ddr_a3 ddr_a4 ddr_a5 ddr_a6 ddr_a7 ddr_a8 ddr_a9 ddr_a10 ddr_a11 ddr_a12 ddr_a13 : Pad
  ddr_a14 ddr_a15 ddr_odt ddr_d0 ddr_d1 ddr_d2 ddr_d3 ddr_d4 ddr_d5 ddr_d6 ddr_d7 : Pad
  ddr_d8 ddr_d9 ddr_d10 ddr_d11 ddr_d12 ddr_d13 ddr_d14 ddr_d15 ddr_dqm0 ddr_dqm1 : Pad
  ddr_dqs0 ddr_dqsn0 ddr_dqs1 ddr_dqsn1 ddr_vref ddr_vtp ddr_strben0 ddr_strben1 ain7 : Pad
  ain6 ain5 ain4 ain3 ain2 ain1 ain0 vrefp vrefn : Pad

-- The place of a member in the structure.
unfoldable pub position : Pad → ℕ
position gpmc_ad0 = 0
position gpmc_ad1 = 1
position gpmc_ad2 = 2
position gpmc_ad3 = 3
position gpmc_ad4 = 4
position gpmc_ad5 = 5
position gpmc_ad6 = 6
position gpmc_ad7 = 7
position gpmc_ad8 = 8
position gpmc_ad9 = 9
position gpmc_ad10 = 10
position gpmc_ad11 = 11
position gpmc_ad12 = 12
position gpmc_ad13 = 13
position gpmc_ad14 = 14
position gpmc_ad15 = 15
position gpmc_a0 = 16
position gpmc_a1 = 17
position gpmc_a2 = 18
position gpmc_a3 = 19
position gpmc_a4 = 20
position gpmc_a5 = 21
position gpmc_a6 = 22
position gpmc_a7 = 23
position gpmc_a8 = 24
position gpmc_a9 = 25
position gpmc_a10 = 26
position gpmc_a11 = 27
position gpmc_wait0 = 28
position gpmc_wpn = 29
position gpmc_be1n = 30
position gpmc_csn0 = 31
position gpmc_csn1 = 32
position gpmc_csn2 = 33
position gpmc_csn3 = 34
position gpmc_clk = 35
position gpmc_advn_ale = 36
position gpmc_oen_ren = 37
position gpmc_wen = 38
position gpmc_be0n_cle = 39
position lcd_data0 = 40
position lcd_data1 = 41
position lcd_data2 = 42
position lcd_data3 = 43
position lcd_data4 = 44
position lcd_data5 = 45
position lcd_data6 = 46
position lcd_data7 = 47
position lcd_data8 = 48
position lcd_data9 = 49
position lcd_data10 = 50
position lcd_data11 = 51
position lcd_data12 = 52
position lcd_data13 = 53
position lcd_data14 = 54
position lcd_data15 = 55
position lcd_vsync = 56
position lcd_hsync = 57
position lcd_pclk = 58
position lcd_ac_bias_en = 59
position mmc0_dat3 = 60
position mmc0_dat2 = 61
position mmc0_dat1 = 62
position mmc0_dat0 = 63
position mmc0_clk = 64
position mmc0_cmd = 65
position mii1_col = 66
position mii1_crs = 67
position mii1_rxerr = 68
position mii1_txen = 69
position mii1_rxdv = 70
position mii1_txd3 = 71
position mii1_txd2 = 72
position mii1_txd1 = 73
position mii1_txd0 = 74
position mii1_txclk = 75
position mii1_rxclk = 76
position mii1_rxd3 = 77
position mii1_rxd2 = 78
position mii1_rxd1 = 79
position mii1_rxd0 = 80
position rmii1_refclk = 81
position mdio_data = 82
position mdio_clk = 83
position spi0_sclk = 84
position spi0_d0 = 85
position spi0_d1 = 86
position spi0_cs0 = 87
position spi0_cs1 = 88
position ecap0_in_pwm0_out = 89
position uart0_ctsn = 90
position uart0_rtsn = 91
position uart0_rxd = 92
position uart0_txd = 93
position uart1_ctsn = 94
position uart1_rtsn = 95
position uart1_rxd = 96
position uart1_txd = 97
position i2c0_sda = 98
position i2c0_scl = 99
position mcasp0_aclkx = 100
position mcasp0_fsx = 101
position mcasp0_axr0 = 102
position mcasp0_ahclkr = 103
position mcasp0_aclkr = 104
position mcasp0_fsr = 105
position mcasp0_axr1 = 106
position mcasp0_ahclkx = 107
position xdma_event_intr0 = 108
position xdma_event_intr1 = 109
position nresetin_out = 110
position porz = 111
position nnmi = 112
position osc0_in = 113
position osc0_out = 114
position rsvd1 = 115
position tms = 116
position tdi = 117
position tdo = 118
position tck = 119
position ntrst = 120
position emu0 = 121
position emu1 = 122
position osc1_in = 123
position osc1_out = 124
position pmic_power_en = 125
position rtc_porz = 126
position rsvd2 = 127
position ext_wakeup = 128
position enz_kaldo_1p8v = 129
position usb0_dm = 130
position usb0_dp = 131
position usb0_ce = 132
position usb0_id = 133
position usb0_vbus = 134
position usb0_drvvbus = 135
position usb1_dm = 136
position usb1_dp = 137
position usb1_ce = 138
position usb1_id = 139
position usb1_vbus = 140
position usb1_drvvbus = 141
position ddr_resetn = 142
position ddr_csn0 = 143
position ddr_cke = 144
position ddr_ck = 145
position ddr_nck = 146
position ddr_casn = 147
position ddr_rasn = 148
position ddr_wen = 149
position ddr_ba0 = 150
position ddr_ba1 = 151
position ddr_ba2 = 152
position ddr_a0 = 153
position ddr_a1 = 154
position ddr_a2 = 155
position ddr_a3 = 156
position ddr_a4 = 157
position ddr_a5 = 158
position ddr_a6 = 159
position ddr_a7 = 160
position ddr_a8 = 161
position ddr_a9 = 162
position ddr_a10 = 163
position ddr_a11 = 164
position ddr_a12 = 165
position ddr_a13 = 166
position ddr_a14 = 167
position ddr_a15 = 168
position ddr_odt = 169
position ddr_d0 = 170
position ddr_d1 = 171
position ddr_d2 = 172
position ddr_d3 = 173
position ddr_d4 = 174
position ddr_d5 = 175
position ddr_d6 = 176
position ddr_d7 = 177
position ddr_d8 = 178
position ddr_d9 = 179
position ddr_d10 = 180
position ddr_d11 = 181
position ddr_d12 = 182
position ddr_d13 = 183
position ddr_d14 = 184
position ddr_d15 = 185
position ddr_dqm0 = 186
position ddr_dqm1 = 187
position ddr_dqs0 = 188
position ddr_dqsn0 = 189
position ddr_dqs1 = 190
position ddr_dqsn1 = 191
position ddr_vref = 192
position ddr_vtp = 193
position ddr_strben0 = 194
position ddr_strben1 = 195
position ain7 = 196
position ain6 = 197
position ain5 = 198
position ain4 = 199
position ain3 = 200
position ain2 = 201
position ain1 = 202
position ain0 = 203
position vrefp = 204
position vrefn = 205

-- `__pin(x)`: the address of a member of a structure at PAD_CR = 0x800.
unfoldable pub pin : Pad → ℕ
unfolding position
pin x = 0x800 + 4 * position x
