-- ===== src/Clock/Tests.antt =====
-- A device whose PLLs and modules behave, and the theorems of src/boot/clock.c at it.
use miniboot.Common.{
  every-All, All, ℕ, ◌+◌, ◌*◌, ◌/◌, ◌%◌, ◌^◌, ◌≡◌, refl, Option, none, some, [], ◌∷◌, ◌==◌,
  if◌then◌else◌, arith,
}
use miniboot.Bus.{done, Device, Trace, wr, word, writes, last_written}
use miniboot.Clock.{clksel, do_setup_dpll, enable_basic_clocks}
use miniboot.Clock.Tables.{
  DpllRegs, dpll_core_regs, dpll_mpu_regs, dpll_per_regs, dpll_ddr_regs, dpll_core, dpll_ddr_evm_sk,
  domains, mods,
}
use miniboot.Clock.Select.{clksel_fields}
use miniboot.Clock.Dpll.{Tracks, Programmed, do_setup_dpll-Programmed}
use miniboot.Clock.Divider.{ddr_divider_lost}
use miniboot.Clock.Modules.{IsOn, Starts, listed, enable_basic_clocks-IsOn}

-- A PLL is locked when its mode says so.
abbrev pub status : Option ℕ → ℕ
status none = 0
status (some v) = if v % 8 == 7 then 1 else 0

abbrev pub pll : DpllRegs → ℕ → Trace → ℕ → ℕ
pll regs a h other =
    if a == regs.cm_idlest_dpll then status (last_written regs.cm_clkmode_dpll h) else other

-- Any other register reads as 0: a module that is fully functional.
abbrev pub prompt : Device
prompt w a h =
    pll dpll_core_regs a h (pll dpll_mpu_regs a h (pll dpll_per_regs a h (pll dpll_ddr_regs a h 0)))

prompt-Tracks_core : Tracks prompt 1 dpll_core_regs
prompt-Tracks_core h v e =
    (λ p. (0, omega arith, ground arith), λ p. (0, omega arith, ground arith))

prompt-Tracks_mpu : Tracks prompt 1 dpll_mpu_regs
prompt-Tracks_mpu h v e = (λ p. (0, omega arith, ground arith), λ p. (0, omega arith, ground arith))

prompt-Tracks_per : Tracks prompt 1 dpll_per_regs
prompt-Tracks_per h v e = (λ p. (0, omega arith, ground arith), λ p. (0, omega arith, ground arith))

prompt-Tracks_ddr : Tracks prompt 1 dpll_ddr_regs
prompt-Tracks_ddr h v e = (λ p. (0, omega arith, ground arith), λ p. (0, omega arith, ground arith))

clksel_ddr : clksel 0xffff_ffff dpll_ddr_evm_sk ≡ 0xfff9_2f97
unfolding clksel
clksel_ddr = refl

clksel_fields_example :
    clksel 0xffff_ffff dpll_ddr_evm_sk
    ≡ 0xffff_ffff / 2 ^ 19 * 2 ^ 19 + 303 * 2 ^ 8 + 0xffff_ffff / 2 ^ 7 % 2 * 2 ^ 7 + 23
clksel_fields_example =
    clksel_fields 0xffff_ffff dpll_ddr_evm_sk (omega arith) (omega arith) (omega arith)

do_setup_dpll-Programmed_example :
    (h' : Trace) × (do_setup_dpll prompt 1 dpll_core_regs dpll_core [] ≡ done tt h')
    × Programmed prompt dpll_core_regs dpll_core [] h'
do_setup_dpll-Programmed_example =
    do_setup_dpll-Programmed prompt 1 dpll_core_regs dpll_core prompt-Tracks_core []

ddr_divider_lost_example :
    (h' : Trace) × (bypass sel lock : ℕ) × (do_setup_dpll prompt 1 dpll_ddr_regs dpll_ddr_evm_sk []
      ≡ done tt h')
    × (writes h'
        ≡ wr word 0x44E00494 lock
          ∷ wr word 0 1
          ∷ wr word 0x44E00440 sel
          ∷ wr word 0x44E00494 bypass
          ∷ writes [])
ddr_divider_lost_example = ddr_divider_lost prompt 1 prompt-Tracks_ddr []

-- A device on which every register reads as 0.
abbrev silent : Device
silent w a h = 0

silent-Starts : All (Starts silent 1) (listed mods)
silent-Starts = every-All (listed mods) λ m h on. (0, omega arith, refl)

enable_basic_clocks-IsOn_example :
    (h' : Trace) × (enable_basic_clocks silent 1 [] ≡ done tt h')
    × All (IsOn h') (listed domains)
    × All (IsOn h') (listed mods)
enable_basic_clocks-IsOn_example = enable_basic_clocks-IsOn silent 1 silent-Starts []
