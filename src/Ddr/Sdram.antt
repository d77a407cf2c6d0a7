-- ===== src/Ddr/Sdram.antt =====
-- src/boot/ddr.c: the trace that `config_sdram` leaves, and what it leaves alone.
use miniboot.Common.{
  ℕ, ◌%◌, ◌^◌, ◌≡◌, refl, inl, inr, false, Bool-cases, some, List, ◌∷◌, map, All, All-combine,
  agree-All, Bool, ◌||◌, ◌∙◌, ◌==◌, if◌then◌else◌, arith,
}
use miniboot.Bus.{done, Event, Trace, wr, word, writes, find_write, last_written}
use miniboot.Ddr.{EmifRegs, int_config_of, config_sdram, config_zq}

-- A register and what it was last given.
abbrev pub Holds : Trace → ℕ × ℕ → Type 0
Holds h p = last_written p.0 h ≡ some (p.1 % 2 ^ 32)

-- The trace after the part of `config_sdram` that depends on `zq_config`, and after all of it.
unfoldable pub zq_trace : EmifRegs → Trace → Trace
zq_trace regs h =
    if regs.zq_config == 0
    then h
    else wr word 0x4C000014 (regs.ref_ctrl % 2 ^ 32)
      ∷ wr word 0x4C000010 (regs.ref_ctrl % 2 ^ 32)
      ∷ wr word 0x4C000008 (regs.sdram_config % 2 ^ 32)
      ∷ wr word 0x44E10110 (regs.sdram_config % 2 ^ 32)
      ∷ wr word 0x4C0000CC (regs.zq_config % 2 ^ 32)
      ∷ wr word 0x4C000010 0x2800
      ∷ h

unfoldable pub sdram_trace : EmifRegs → Trace → Trace
sdram_trace regs h =
    wr word 0x4C000008 (regs.sdram_config % 2 ^ 32)
    ∷ wr word 0x4C000014 (regs.ref_ctrl % 2 ^ 32)
    ∷ wr word 0x4C000010 (regs.ref_ctrl % 2 ^ 32)
    ∷ wr word 0x4C000054 (int_config_of regs % 2 ^ 32)
    ∷ zq_trace regs h

pub config_sdram-sdram_trace :
    (regs : EmifRegs) (h : Trace) → config_sdram regs h ≡ done tt (sdram_trace regs h)
unfolding config_sdram config_zq zq_trace sdram_trace
config_sdram-sdram_trace regs h = elim (Bool-cases (regs.zq_config == 0)) [
  | inl no_zq ↦ rw no_zq refl
  | inr zq ↦ rw zq refl
]

-- The registers that `config_sdram` writes.
unfoldable pub is_sdram : ℕ → Bool
is_sdram a =
    a == 0x4C000008
    || a == 0x4C000010
    || a == 0x4C000014
    || a == 0x4C000054
    || a == 0x4C0000CC
    || a == 0x44E10110

pub last_written-sdram_trace :
    (regs : EmifRegs) (h : Trace) (a : ℕ)
    → is_sdram a ≡ false
    → last_written a (sdram_trace regs h) ≡ last_written a h
unfolding zq_trace sdram_trace is_sdram last_written writes find_write
last_written-sdram_trace regs h a ne = elim (Bool-cases (regs.zq_config == 0)) [
  | inl no_zq ↦ rw no_zq (ground arith)
  | inr zq ↦ rw zq (ground arith)
]

pub Holds-sdram_trace :
    (regs : EmifRegs) (h : Trace) (ps : List (ℕ × ℕ))
    → map (λ p. is_sdram p.0) ps ≡ map (λ p. false) ps
    → map (λ p. last_written p.0 h) ps ≡ map (λ p. some (p.1 % 2 ^ 32)) ps
    → All (Holds (sdram_trace regs h)) ps
Holds-sdram_trace regs h ps others held =
    All-combine ps (λ p other e. last_written-sdram_trace regs h p.0 other ∙ e)
      (agree-All (λ p. is_sdram p.0) (λ p. false) ps others)
      (agree-All (λ p. last_written p.0 h) (λ p. some (p.1 % 2 ^ 32)) ps held)

-- A later trace of the same run.
pub data Extends (h : Trace) : Trace → Type 0 where
  same : Extends h h
  more : {e : Event} {h' : Trace} → Extends h h' → Extends h (e ∷ h')

pub sdram_trace-Extends :
    (regs : EmifRegs) {h h' : Trace} → Extends h h' → Extends h (sdram_trace regs h')
unfolding sdram_trace zq_trace
sdram_trace-Extends regs {h} {h'} x = elim (Bool-cases (regs.zq_config == 0)) [
  | inl no_zq ↦ rw no_zq (search more depth 15)
  | inr zq ↦ rw zq (search more depth 15)
]
