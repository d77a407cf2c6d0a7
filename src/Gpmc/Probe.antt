-- ===== src/Gpmc/Probe.antt =====
-- src/boot/gpmc.c and src/boot/nand.c: the probing finds the chip select that has been set up.
use miniboot.Common.{
  ℕ, zero, suc, ◌+◌, ◌^◌, ◌<◌, ◌≤◌, ◌≡◌, refl, ap, ◌∙◌, inl, inr, Bool-cases, some, ◌∷◌, bit_and,
  ◌==◌, arith,
}
use miniboot.Bus.{Device, Trace, done, reply, rd, word, writes, find_write, last_written}
use miniboot.Timer.{sdelay}
use miniboot.Nand.Init.{gpmc_cs, find_cs}
use miniboot.Gpmc.{gpmc_reg, cs_reg, write_config, gpmc_cs_config, gpmc_init}

-- The first configuration register of a chip select gives back what was last written to it.
abbrev pub ReadsBack : Device → ℕ → Type 0
ReadsBack dev cs =
    (h : Trace) (v : ℕ)
    → v < 2 ^ 32
    → last_written (gpmc_cs cs) h ≡ some v
    → reply dev word (gpmc_cs cs) h ≡ v

-- After `gpmc_init`, the first configuration register says NAND.
gpmc_init-config1 :
    (cs : ℕ) (h : Trace)
    → (h' : Trace) × (gpmc_init cs h ≡ done tt h') × (last_written (gpmc_cs cs) h' ≡ some 0x800)
unfolding gpmc_init gpmc_cs_config write_config cs_reg gpmc_reg sdelay last_written find_write
    writes
gpmc_init-config1 cs h = (_, refl, ground arith)

module _ (dev : Device) (cs : ℕ) (back : ReadsBack dev cs) where
  find_cs-found :
      (n k c : ℕ) (h : Trace)
      → c + k ≡ cs
      → k < n
      → last_written (gpmc_cs cs) h ≡ some 0x800
      → (found : ℕ) × (h' : Trace) × (find_cs dev c n h ≡ done (some found) h') × (found ≤ cs)
  unfolding find_cs last_written writes
  find_cs-found zero k c h at_cs lt w = absurd (omega arith)
  find_cs-found (suc n) zero c h at_cs lt w =
      let same : c ≡ cs = omega arith in
      let nand : reply dev word (gpmc_cs c) h ≡ 0x800 =
        ap (λ t. reply dev word (gpmc_cs t) h) same ∙ back h 0x800 (omega arith) w in
      (c, rd word (gpmc_cs c) 0x800 ∷ h, rw nand refl, omega arith)
  find_cs-found (suc n) (suc k) c h at_cs lt w =
      let v = reply dev word (gpmc_cs c) h in
      let h1 : Trace = rd word (gpmc_cs c) v ∷ h in
      elim (Bool-cases (bit_and v 0xC00 == 0x800)) [
        | inl nand ↦ (c, h1, rw nand refl, omega arith)
        | inr other ↦
            let (found, h2, e, b) = find_cs-found n k (c + 1) h1 (omega arith) (omega arith) w in
            (found, h2, rw other e, b)
      ]

  -- If the first configuration register of a chip select reads back what was written to it, then on
  -- the trace that `gpmc_init` leaves for this chip select, the loop of `omap_nand_init` stops at it
  -- or at one in front of it.
  pub gpmc_init-find_cs :
      cs < 8
      → (h : Trace)
      → (h1 : Trace) × (found : ℕ) × (h2 : Trace) × (gpmc_init cs h ≡ done tt h1)
        × (find_cs dev 0 8 h1 ≡ done (some found) h2)
        × (found ≤ cs)
  gpmc_init-find_cs lt h =
      let (h1, e1, w) = gpmc_init-config1 cs h in
      let (found, h2, e2, b) = find_cs-found 8 cs 0 h1 (omega arith) lt w in
      (h1, found, h2, e1, e2, b)
