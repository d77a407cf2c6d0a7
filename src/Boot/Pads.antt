-- ===== src/Boot/Pads.antt =====
-- src/boot/main.c and src/boot/mux.c: what the pin multiplexing of the board does to the clocks.
use miniboot.Common.{ℕ, ◌≤◌, ◌<◌, ◌+◌, ◌≡◌, refl, ◌∙◌, some, arith}
use miniboot.Bus.{done, Trace, last_written}
use miniboot.Clock.Modules.{IsOn}
use miniboot.Mux.{ctrl_base}
use miniboot.Mux.Pads.{pin, position}
use miniboot.Mux.Tables.{rgmii1_pin_mux, mmc0_pin_mux, i2c0_pin_mux, i2c1_pin_mux, nand_pin_mux}
use miniboot.Mux.Writes.{entries, is_table, configure_module_pin_mux-Configured}
use miniboot.Boot.{board_pin_mux}
use miniboot.Regs.Clocks.{cmrtc_rtcclkctrl, cmrtc_clkstctrl}

-- The registers of the real-time clock's module and of its domain: CMRTC_RTCCLKCTRL and
-- CMRTC_CLKSTCTRL, which stand in the arrays of `enable_basic_clocks`.
abbrev pub rtc_module : ℕ
rtc_module = cmrtc_rtcclkctrl

abbrev pub rtc_domain : ℕ
rtc_domain = cmrtc_clkstctrl

-- `board_pin_mux` returns from any trace. The control registers of the RTC module and of the RTC
-- clock domain, which lie at PRCM_BASE + 0x800 and at PRCM_BASE + 0x804, were then last given 0x30,
-- the value for two pads of the NAND chip, so that neither is switched on any more; and no register
-- from 0x44E00B38 on was written, so none of the control module at 0x44E10000, and none from
-- 0x44E00000 to 0x44E007FF.
pub board_pin_mux-rtc_off :
    (h : Trace)
    → (h' : Trace) × (board_pin_mux h ≡ done tt h')
      × (last_written rtc_module h' ≡ some 0x30)
      × (last_written rtc_domain h' ≡ some 0x30)
      × (¬ IsOn h' rtc_module)
      × (¬ IsOn h' rtc_domain)
      × ((a : ℕ) → 0x44E00B38 ≤ a → last_written a h' ≡ last_written a h)
      × ((offs : ℕ)
          → offs < 0x800
          → last_written (ctrl_base + offs) h' ≡ last_written (ctrl_base + offs) h)
unfolding board_pin_mux is_table entries pin position
board_pin_mux-rtc_off h =
    let (h1, e1, c1) = configure_module_pin_mux-Configured rgmii1_pin_mux refl h in
    let (h2, e2, c2) = configure_module_pin_mux-Configured mmc0_pin_mux refl h1 in
    let (h3, e3, c3) = configure_module_pin_mux-Configured i2c0_pin_mux refl h2 in
    let (h4, e4, c4) = configure_module_pin_mux-Configured i2c1_pin_mux refl h3 in
    let (h5, e5, c5) = configure_module_pin_mux-Configured nand_pin_mux refl h4 in
    let on_module : last_written rtc_module h5 ≡ some 0x30 = c5.set.0 in
    let on_domain : last_written rtc_domain h5 ≡ some 0x30 = c5.set.1.0 in
    (
      h5,
      rw (e1, e2, e3, e4) e5,
      on_module,
      on_domain,
      λ (v, e, on). ground arith,
      λ (v, e, on). ground arith,
      λ a l. c5.within a l ∙ c4.within a l ∙ c3.within a l ∙ c2.within a l ∙ c1.within a l,
      λ o l. c5.below o l ∙ c4.below o l ∙ c3.below o l ∙ c2.below o l ∙ c1.below o l,
    )
