-- ===== src/Regs/Clocks.antt =====
-- include/asm/regs.h: the clock manager's registers that src/boot/clock.c names.
use miniboot.Common.{ℕ, ◌+◌}

abbrev pub cm_per : ℕ
cm_per = 0x44E00000

abbrev pub cm_wkup : ℕ
cm_wkup = 0x44E00400

abbrev pub cm_dpll : ℕ
cm_dpll = 0x44E00500

abbrev pub cm_rtc : ℕ
cm_rtc = 0x44E00800

abbrev pub cmwkup_wkclkstctrl : ℕ
cmwkup_wkclkstctrl = cm_wkup + 0x00

abbrev pub cmwkup_wkctrlclkctrl : ℕ
cmwkup_wkctrlclkctrl = cm_wkup + 0x04

abbrev pub cmwkup_wkgpio0clkctrl : ℕ
cmwkup_wkgpio0clkctrl = cm_wkup + 0x08

abbrev pub cmwkup_wkl4wkclkctrl : ℕ
cmwkup_wkl4wkclkctrl = cm_wkup + 0x0c

abbrev pub cmwkup_idlestdpllmpu : ℕ
cmwkup_idlestdpllmpu = cm_wkup + 0x20

abbrev pub cmwkup_clkseldpllmpu : ℕ
cmwkup_clkseldpllmpu = cm_wkup + 0x2c

abbrev pub cmwkup_idlestdpllddr : ℕ
cmwkup_idlestdpllddr = cm_wkup + 0x34

abbrev pub cmwkup_clkseldpllddr : ℕ
cmwkup_clkseldpllddr = cm_wkup + 0x40

abbrev pub cmwkup_idlestdpllcore : ℕ
cmwkup_idlestdpllcore = cm_wkup + 0x5c

abbrev pub cmwkup_clkseldpllcore : ℕ
cmwkup_clkseldpllcore = cm_wkup + 0x68

abbrev pub cmwkup_idlestdpllper : ℕ
cmwkup_idlestdpllper = cm_wkup + 0x70

abbrev pub cmwkup_clkdcoldodpllper : ℕ
cmwkup_clkdcoldodpllper = cm_wkup + 0x7c

abbrev pub cmwkup_divm4dpllcore : ℕ
cmwkup_divm4dpllcore = cm_wkup + 0x80

abbrev pub cmwkup_divm5dpllcore : ℕ
cmwkup_divm5dpllcore = cm_wkup + 0x84

abbrev pub cmwkup_clkmoddpllmpu : ℕ
cmwkup_clkmoddpllmpu = cm_wkup + 0x88

abbrev pub cmwkup_clkmoddpllper : ℕ
cmwkup_clkmoddpllper = cm_wkup + 0x8c

abbrev pub cmwkup_clkmoddpllcore : ℕ
cmwkup_clkmoddpllcore = cm_wkup + 0x90

abbrev pub cmwkup_clkmoddpllddr : ℕ
cmwkup_clkmoddpllddr = cm_wkup + 0x94

abbrev pub cmwkup_clkseldpllper : ℕ
cmwkup_clkseldpllper = cm_wkup + 0x9c

abbrev pub cmwkup_divm2dpllddr : ℕ
cmwkup_divm2dpllddr = cm_wkup + 0xA0

abbrev pub cmwkup_divm2dpllmpu : ℕ
cmwkup_divm2dpllmpu = cm_wkup + 0xA8

abbrev pub cmwkup_divm2dpllper : ℕ
cmwkup_divm2dpllper = cm_wkup + 0xAC

abbrev pub cmwkup_wkup_i2c0ctrl : ℕ
cmwkup_wkup_i2c0ctrl = cm_wkup + 0xB8

abbrev pub cmwkup_divm6dpllcore : ℕ
cmwkup_divm6dpllcore = cm_wkup + 0xD8

abbrev pub cmper_l4lsclkstctrl : ℕ
cmper_l4lsclkstctrl = cm_per + 0x00

abbrev pub cmper_l3sclkstctrl : ℕ
cmper_l3sclkstctrl = cm_per + 0x04

abbrev pub cmper_l4fwclkstctrl : ℕ
cmper_l4fwclkstctrl = cm_per + 0x08

abbrev pub cmper_l3clkstctrl : ℕ
cmper_l3clkstctrl = cm_per + 0x0c

abbrev pub cmper_cpgmac0clkctrl : ℕ
cmper_cpgmac0clkctrl = cm_per + 0x14

abbrev pub cmper_usb0clkctrl : ℕ
cmper_usb0clkctrl = cm_per + 0x1C

abbrev pub cmper_emifclkctrl : ℕ
cmper_emifclkctrl = cm_per + 0x28

abbrev pub cmper_gpmcclkctrl : ℕ
cmper_gpmcclkctrl = cm_per + 0x30

abbrev pub cmper_mmc0clkctrl : ℕ
cmper_mmc0clkctrl = cm_per + 0x3C

abbrev pub cmper_elmclkctrl : ℕ
cmper_elmclkctrl = cm_per + 0x40

abbrev pub cmper_i2c1clkctrl : ℕ
cmper_i2c1clkctrl = cm_per + 0x48

abbrev pub cmper_spi0clkctrl : ℕ
cmper_spi0clkctrl = cm_per + 0x4C

abbrev pub cmper_l4lsclkctrl : ℕ
cmper_l4lsclkctrl = cm_per + 0x60

abbrev pub cmper_l4fwclkctrl : ℕ
cmper_l4fwclkctrl = cm_per + 0x64

abbrev pub cmper_timer2clkctrl : ℕ
cmper_timer2clkctrl = cm_per + 0x80

abbrev pub cmper_gpio1clkctrl : ℕ
cmper_gpio1clkctrl = cm_per + 0xAC

abbrev pub cmper_gpio2clkctrl : ℕ
cmper_gpio2clkctrl = cm_per + 0xB0

abbrev pub cmper_gpio3clkctrl : ℕ
cmper_gpio3clkctrl = cm_per + 0xB4

abbrev pub cmper_emiffwclkctrl : ℕ
cmper_emiffwclkctrl = cm_per + 0xD0

abbrev pub cmper_l3instrclkctrl : ℕ
cmper_l3instrclkctrl = cm_per + 0xDC

abbrev pub cmper_l3clkctrl : ℕ
cmper_l3clkctrl = cm_per + 0xE0

abbrev pub cmper_mmc1clkctrl : ℕ
cmper_mmc1clkctrl = cm_per + 0xF4

abbrev pub cmper_l4hsclkctrl : ℕ
cmper_l4hsclkctrl = cm_per + 0x120

abbrev pub cmdpll_clktimer2clk : ℕ
cmdpll_clktimer2clk = cm_dpll + 0x08

abbrev pub cmrtc_rtcclkctrl : ℕ
cmrtc_rtcclkctrl = cm_rtc + 0x0

abbrev pub cmrtc_clkstctrl : ℕ
cmrtc_clkstctrl = cm_rtc + 0x4
