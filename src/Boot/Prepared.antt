-- ===== src/Boot/Prepared.antt =====
-- src/boot/main.c: what `s_init` leaves behind, over all of its parts.
use miniboot.Common.{
  inr, inl, ap, Bool-cases, sym, All, All-combine, agree-All, ℕ, ◌<◌, ◌+◌, ◌-◌, ◌≡◌, refl, ◌∙◌,
  List, [], ◌∷◌, Bool, true, ◌==◌, ◌&&◌, not, leb, ltb, if◌then◌else◌, arith,
}
use miniboot.Bus.{done, Device, Trace, word, wr, find_write, last_written}
use miniboot.Clock.{prcm_init}
use miniboot.Clock.Tables.{
  domains, mods, dpll_core_regs, dpll_mpu_regs, dpll_per_regs, dpll_ddr_regs,
}
use miniboot.Clock.Dpll.{Tracks}
use miniboot.Clock.Frames.{is_among, touches, is_pll, setup_dplls-last_written}
use miniboot.Clock.Modules.{IsOn, listed, Starts, enable_basic_clocks-IsOn}
use miniboot.Mux.{ctrl_base}
use miniboot.Ddr.Sdram.{Holds}
use miniboot.Ddr.Setup.{
  Calibrates, Calibrated, Configured, phy_settings, data_settings, sdram_settings,
  config_ddr-Configured,
}
use miniboot.Info.Grades.{HasRevision}
use miniboot.Timer.{timer_init}
use miniboot.I2c.Ending.{IsAlive}
use miniboot.Boot.{s_init, ddr3_evm_data, ddr3_evm_cmd_ctrl_data, ddr3_evm_emif_reg_data}
use miniboot.Boot.Watchdog.{Posts, watchdog_disable-Disabled}
use miniboot.Boot.Pads.{rtc_module, rtc_domain, board_pin_mux-rtc_off}

-- What the hardware does for the start-up to come to its end.
pub record Works (dev : Device) (fuel revision : ℕ) : Type 0 where
  pub posts : Posts dev fuel
  pub starts : All (Starts dev fuel) (listed mods)
  pub core : Tracks dev fuel dpll_core_regs
  pub mpu : Tracks dev fuel dpll_mpu_regs
  pub per : Tracks dev fuel dpll_per_regs
  pub ddr : Tracks dev fuel dpll_ddr_regs
  pub calibrates : Calibrates dev fuel
  pub alive : IsAlive dev fuel 0x44E0B000
  pub fixed : HasRevision dev revision

-- The registers of the array, without those that equal `r`.
unfoldable pub without : ℕ → List ℕ → List ℕ
without r [] = []
without r (x ∷ xs) = if x == r then without r xs else x ∷ without r xs

-- The clocks run, but not the real-time clock's, and the memory is set up, except that the values of
-- the data macros stand where they do not belong.
pub record Prepared (h : Trace) : Type 0 where
  pub domains_on : All (IsOn h) (without rtc_domain (listed domains))
  pub mods_on : All (IsOn h) (without rtc_module (listed mods))
  pub module_off : ¬ IsOn h rtc_module
  pub domain_off : ¬ IsOn h rtc_domain
  pub phy : All (Holds h) (phy_settings 0x18B ddr3_evm_cmd_ctrl_data ddr3_evm_emif_reg_data)
  pub data_macros : All (Holds h) (data_settings ddr3_evm_data)
  pub sdram : All (Holds h) (sdram_settings ddr3_evm_emif_reg_data)

-- The registers that neither the PLLs nor the pads nor the memory get.
abbrev is_kept : ℕ → Bool
is_kept a = leb ctrl_base a && ltb a 0x44E00800 && not (is_pll a)

IsOn-same : (h h' : Trace) (a : ℕ) → last_written a h' ≡ last_written a h → IsOn h a → IsOn h' a
IsOn-same h h' a same (v, e, on) = (v, same ∙ e, on)

domains-is_kept : All (λ a. is_kept a ≡ true) (without rtc_domain (listed domains))
unfolding without listed is_pll touches is_among
domains-is_kept = agree-All is_kept (λ a. true) (without rtc_domain (listed domains)) refl

mods-is_kept : All (λ a. is_kept a ≡ true) (without rtc_module (listed mods))
unfolding without listed is_pll touches is_among
mods-is_kept = agree-All is_kept (λ a. true) (without rtc_module (listed mods)) refl

All-without : (P : ℕ → Type 0) (r : ℕ) (xs : List ℕ) → All P xs → All P (without r xs)
unfolding without
All-without P r [] ps = tt
All-without P r (x ∷ xs) (p, ps) = elim (Bool-cases (x == r)) [
  | inl dropped ↦ rw dropped (All-without P r xs ps)
  | inr left ↦ rw left (p, All-without P r xs ps)
]

-- The memory set-up leaves every register below the control module as it was.
config_ddr-last_written :
    (ioctrl : ℕ) {h h1 h' : Trace}
    → Calibrated h h1
    → Configured ioctrl ddr3_evm_data ddr3_evm_cmd_ctrl_data ddr3_evm_emif_reg_data h1 h'
    → (a : ℕ) → a < 0x44E10000
    → last_written a h' ≡ last_written a h
unfolding last_written find_write
config_ddr-last_written ioctrl calibrated configured a low =
    configured.below a low ∙ ap (find_write a) calibrated.wrote ∙ ground arith

module _ (dev : Device) (fuel revision : ℕ) (works : Works dev fuel revision) where
  pub s_init-Prepared : (h : Trace) → (h' : Trace) × (s_init dev fuel h ≡ done tt h') × Prepared h'
  unfolding s_init prcm_init timer_init
  s_init-Prepared h =
      let (h1, e1, disabled) = watchdog_disable-Disabled dev fuel works.posts h in
      let h2 : Trace = wr word 0x48040038 0x2B ∷ wr word 0x48040040 0 ∷ h1 in
      let (h3, e3, domains_on, mods_on) = enable_basic_clocks-IsOn dev fuel works.starts h2 in
      let (h4, e4, k4) =
        setup_dplls-last_written dev fuel works.core works.mpu works.per works.ddr h3 in
      let (h5, e5, rtc_m, rtc_d, off_m, off_d, above, below) = board_pin_mux-rtc_off h4 in
      let (h6, h7, e7, calibrated, configured) =
        config_ddr-Configured dev fuel works.calibrates 303 0x18B ddr3_evm_data
          ddr3_evm_cmd_ctrl_data ddr3_evm_emif_reg_data h5 in
      let low =
        λ (a : ℕ) (l : a < 0x44E10000). config_ddr-last_written 0x18B calibrated configured a l in
      let same : (a : ℕ) → is_kept a ≡ true → last_written a h7 ≡ last_written a h3 = λ a k.
        let offs : ctrl_base + (a - ctrl_base) ≡ a = ground arith in
        let pads = below (a - ctrl_base) (ground arith) in
        low a (ground arith) ∙ (rw offs at pads) ∙ k4 a (ground arith) in
      let on = λ (a : ℕ) (k : is_kept a ≡ true) (p : IsOn h3 a). IsOn-same h3 h7 a (same a k) p in
      (
        h7,
        rw (e1, e3, e4, e5) e7,
        record {
          domains_on =
              All-combine (without rtc_domain (listed domains)) on domains-is_kept
                (All-without (IsOn h3) rtc_domain (listed domains) domains_on);
          mods_on =
              All-combine (without rtc_module (listed mods)) on mods-is_kept
                (All-without (IsOn h3) rtc_module (listed mods) mods_on);
          module_off =
              λ p. off_m (IsOn-same h7 h5 rtc_module (sym (low rtc_module (omega arith))) p);
          domain_off =
              λ p. off_d (IsOn-same h7 h5 rtc_domain (sym (low rtc_domain (omega arith))) p);
          phy = configured.phy;
          data_macros = configured.data_macros;
          sdram = configured.sdram;
        },
      )
