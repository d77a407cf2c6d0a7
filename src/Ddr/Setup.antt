-- ===== src/Ddr/Setup.antt =====
-- src/boot/ddr.c: what `config_ddr` has done when it returns.
use miniboot.Common.{
  ◌<◌, ℕ, ◌%◌, ◌^◌, ◌+◌, ◌-◌, ◌≡◌, refl, false, some, List, [], ◌∷◌, All, ◌∙◌, ◌==◌, bit_and,
  bit_or, if◌then◌else◌, arith,
}
use miniboot.Common.Bits.{bit_or_step, bit_and-even}
use miniboot.Bus.{
  done, writel, ◌>>◌, Prog, Device, Trace, reply, rd, wr, word, writes, find_write, last_written,
}
use miniboot.Bus.Poll.{looked, Polled-writes, Settles, poll-Settles}
use miniboot.Ddr.Sdram.{
  Holds, sdram_trace, config_sdram-sdram_trace, is_sdram, last_written-sdram_trace,
  Holds-sdram_trace, Extends, same, more, sdram_trace-Extends,
}
use miniboot.Ddr.{
  DdrData, CmdControl, EmifRegs, ddr_ctrl_base, vtp_ctrl_addr, vtp_busy, config_vtp, config_ddr,
  config_cmd_ctrl, config_ddr_data, config_data_macros, config_io_ctrl, config_ddr_phy,
  set_sdram_timings, config_sdram,
}

-- The registers of the command macros, of the I/O control, of the PHY and of the timings, each with
-- its value. A shadow register gets what its register gets.
abbrev pub phy_settings : ℕ → CmdControl → EmifRegs → List (ℕ × ℕ)
phy_settings ioctrl ctrl regs =
    (0x44E1201C, ctrl.cmd0csratio)
    ∷ (0x44E1202C, ctrl.cmd0iclkout)
    ∷ (0x44E12050, ctrl.cmd1csratio)
    ∷ (0x44E12060, ctrl.cmd1iclkout)
    ∷ (0x44E12084, ctrl.cmd2csratio)
    ∷ (0x44E12094, ctrl.cmd2iclkout)
    ∷ (0x44E11404, ioctrl)
    ∷ (0x44E11408, ioctrl)
    ∷ (0x44E1140C, ioctrl)
    ∷ (0x44E11440, ioctrl)
    ∷ (0x44E11444, ioctrl)
    ∷ (0x4C0000E8, regs.emif_ddr_phy_ctlr_1)
    ∷ (0x4C0000EC, regs.emif_ddr_phy_ctlr_1)
    ∷ (0x4C000018, regs.sdram_tim1)
    ∷ (0x4C00001C, regs.sdram_tim1)
    ∷ (0x4C000020, regs.sdram_tim2)
    ∷ (0x4C000024, regs.sdram_tim2)
    ∷ (0x4C000028, regs.sdram_tim3)
    ∷ (0x4C00002C, regs.sdram_tim3)
    ∷ []

-- Where the values of the two data macros go: each register is 0xC8 behind the one that is meant.
abbrev pub data_settings : DdrData → List (ℕ × ℕ)
data_settings d =
    (0x44E12190, d.datardsratio0)
    ∷ (0x44E121A4, d.datawdsratio0)
    ∷ (0x44E121B8, d.datawiratio0)
    ∷ (0x44E121C4, d.datagiratio0)
    ∷ (0x44E121D0, d.datafwsratio0)
    ∷ (0x44E121E8, d.datawrsratio0)
    ∷ (0x47C0C990, d.datardsratio0)
    ∷ (0x47C0C9A4, d.datawdsratio0)
    ∷ (0x47C0C9B8, d.datawiratio0)
    ∷ (0x47C0C9C4, d.datagiratio0)
    ∷ (0x47C0C9D0, d.datafwsratio0)
    ∷ (0x47C0C9E8, d.datawrsratio0)
    ∷ []

-- The refresh rate, the type of the memory, and the ports.
abbrev pub sdram_settings : EmifRegs → List (ℕ × ℕ)
sdram_settings regs =
    (0x4C000010, regs.ref_ctrl)
    ∷ (0x4C000014, regs.ref_ctrl)
    ∷ (0x4C000008, regs.sdram_config)
    ∷ (0x4C000054, if regs.int_config == 0 then 0x00FFFF10 else regs.int_config)
    ∷ []

-- The impedance calibration: enabled, started by an edge of the start bit, and then seen to be
-- ready. Nothing else was written.
pub record Calibrated (h h' : Trace) : Type 0 where
  pub enabled : ℕ
  pub low : ℕ
  pub high : ℕ
  pub before : Trace
  pub status : ℕ
  pub wrote :
      writes h'
      ≡ wr word vtp_ctrl_addr high
        ∷ wr word vtp_ctrl_addr low
        ∷ wr word vtp_ctrl_addr enabled
        ∷ writes h
  pub falls : low % 2 ≡ 0
  pub rises : high % 2 ≡ 1
  pub last_read : h' ≡ rd word vtp_ctrl_addr status ∷ before
  pub ready : vtp_busy status ≡ false

-- The part of `config_ddr` behind the calibration.
unfoldable configure_rest : ℕ → DdrData → CmdControl → EmifRegs → Prog (Unit {0})
configure_rest ioctrl d ctrl regs = do
  config_cmd_ctrl ctrl
  config_ddr_data d
  config_io_ctrl ioctrl
  writel 0x1 (ddr_ctrl_base + 0x514)
  config_ddr_phy regs
  set_sdram_timings regs
  config_sdram regs

-- What holds once the rest of `config_ddr` has run.
pub record Configured (ioctrl : ℕ) (d : DdrData) (ctrl : CmdControl) (regs : EmifRegs)
    (h h' : Trace) : Type 0 where
  pub phy : All (Holds h') (phy_settings ioctrl ctrl regs)
  pub data_macros : All (Holds h') (data_settings d)
  pub sdram : All (Holds h') (sdram_settings regs)
  pub order : Extends h h'
  pub calibration : last_written vtp_ctrl_addr h' ≡ last_written vtp_ctrl_addr h
  pub below : (a : ℕ) → a < 0x44E10000 → last_written a h' ≡ last_written a h

configure_rest-Configured :
    (ioctrl : ℕ) (d : DdrData) (ctrl : CmdControl) (regs : EmifRegs) (h : Trace)
    → (h' : Trace) × (configure_rest ioctrl d ctrl regs h ≡ done tt h')
      × Configured ioctrl d ctrl regs h h'
unfolding configure_rest config_cmd_ctrl config_ddr_data config_data_macros config_io_ctrl
    config_ddr_phy set_sdram_timings last_written writes find_write is_sdram sdram_trace
configure_rest-Configured ioctrl d ctrl regs h = (
  _,
  config_sdram-sdram_trace regs _,
  record {
    phy = Holds-sdram_trace regs _ (phy_settings ioctrl ctrl regs) refl refl;
    data_macros = Holds-sdram_trace regs _ (data_settings d) refl refl;
    sdram = (refl, (refl, (refl, (refl, tt))));
    order = sdram_trace-Extends regs (search (same, more) depth 40);
    calibration = last_written-sdram_trace regs _ vtp_ctrl_addr refl;
    below = λ a low. last_written-sdram_trace regs _ a (ground arith) ∙ ground arith;
  },
)

module _ (dev : Device) (fuel : ℕ) where
  -- The calibration is ready in time, whenever the start bit has just been set.
  abbrev pub Calibrates : Type 0
  Calibrates =
      (h : Trace) (v : ℕ)
      → last_written vtp_ctrl_addr h ≡ some v
      → v % 2 ≡ 1
      → Settles dev vtp_ctrl_addr vtp_busy fuel h

  config_vtp-Calibrated :
      Calibrates
      → (h : Trace) → (h' : Trace) × (config_vtp dev fuel h ≡ done tt h') × Calibrated h h'
  unfolding config_vtp writes last_written find_write
  config_vtp-Calibrated ready h =
      let r = λ (t : Trace). reply dev word vtp_ctrl_addr t in
      let step = λ (v : ℕ) (t : Trace).
        wr word vtp_ctrl_addr (v % 2 ^ 32) ∷ rd word vtp_ctrl_addr (r t) ∷ t in
      let h1 : Trace = step (bit_or (r h) 0x40) h in
      let h2 : Trace = step (bit_and (r h1) (2 ^ 32 - 1 - 1)) h1 in
      let odd : bit_or (r h2) 1 % 2 ^ 32 % 2 ≡ 1 = omega (arith, bit_or_step (r h2) 1) in
      let h3 : Trace = step (bit_or (r h2) 1) h2 in
      let (s, h', e, p) =
        poll-Settles dev vtp_ctrl_addr vtp_busy (ready h3 (bit_or (r h2) 1 % 2 ^ 32) refl odd) in
      (
        h',
        rw e,
        record {
          enabled = bit_or (r h) 0x40 % 2 ^ 32;
          low = bit_and (r h1) (2 ^ 32 - 1 - 1) % 2 ^ 32;
          high = bit_or (r h2) 1 % 2 ^ 32;
          before = looked vtp_ctrl_addr p.values h3;
          status = s;
          wrote = Polled-writes dev vtp_ctrl_addr vtp_busy p;
          falls = omega (arith, bit_and-even (r h1) 0x7fff_ffff);
          rises = odd;
          last_read = p.trace;
          ready = p.ready;
        },
      )

  -- If the impedance calibration becomes ready once its start bit has been set, `config_ddr`
  -- returns. It has first cleared and then set the start bit, and has written nothing but the
  -- calibration register until a ready status was read; that register keeps its value from then on.
  -- At the end the command macros, the I/O control, the PHY, the timings with their shadows, the
  -- refresh rate and the memory type were last given the values that were passed, whether or not
  -- the ZQ calibration was set up in between with a slow refresh; the values of the data macros were
  -- given to the addresses 0xC8 behind the registers of these macros.
  pub config_ddr-Configured :
      Calibrates
      → (pll ioctrl : ℕ) (d : DdrData) (ctrl : CmdControl) (regs : EmifRegs) (h : Trace)
      → (h1 : Trace) × (h' : Trace) × (config_ddr dev fuel pll ioctrl d ctrl regs h ≡ done tt h')
        × Calibrated h h1
        × Configured ioctrl d ctrl regs h1 h'
  unfolding config_ddr configure_rest
  config_ddr-Configured ready pll ioctrl d ctrl regs h =
      let (h1, e1, c) = config_vtp-Calibrated ready h in
      let (h2, e2, f) = configure_rest-Configured ioctrl d ctrl regs h1 in (h1, h2, rw e1 e2, c, f)
