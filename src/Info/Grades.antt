-- ===== src/Info/Grades.antt =====
-- src/boot/sys_info.c: the multiplier of the MPU's PLL and the voltage that goes with it.
use miniboot.Common.{
  ℕ, ◌/◌, ◌^◌, ◌≤◌, ◌≡◌, ◌⊎◌, if◌then◌else◌, inl, inr, refl, ◌∙◌, Bool-cases, List, [], ◌∷◌, arith,
  leb, ◌==◌, bit_and,
}
use miniboot.Info.{
  cdev_deviceid, cdev_efuse_sma, grades, voltages, switch, get_efuse_mpu_max_freq,
  get_tps65910_mpu_vdd,
}
use miniboot.Bus.{done, Device, Trace, reply, rd, word, writes}

-- A chip of this revision: the number in the top four bits of the device id never changes.
abbrev pub HasRevision : Device → ℕ → Type 0
HasRevision dev rev = (h : Trace) → reply dev word cdev_deviceid h / 2 ^ 28 ≡ rev

abbrev pub Pair : List (ℕ × ℕ) → ℕ → ℕ → Type 0
Pair [] m v = ⊥
Pair ((k, r) ∷ ps) m v = ((m ≡ k) × (v ≡ r)) ⊎ Pair ps m v

-- Which pairs a revision may get. A chip of revision 2 or later gets a pair of the table.
pub record Setting (rev m v : ℕ) : Type 0 where
  pub first : rev ≡ 0 → (m ≡ 720) × (v ≡ 0x2E)
  pub second : rev ≡ 1 → (m ≡ 800) × (v ≡ 0x2E)
  pub later : 2 ≤ rev → Pair voltages m v
  pub fits : v ≤ 0x3D

switch-grades :
    (x : ℕ) → Pair voltages (switch grades x 720) (switch voltages (switch grades x 720) 0x2E)
unfolding switch
switch-grades x = ground arith

switch-voltages-le : (m : ℕ) → switch voltages m 0x2E ≤ 0x3D
unfolding switch
switch-voltages-le m = ground arith

-- The multipliers that a revision may get.
abbrev Grade : ℕ → ℕ → Type 0
Grade rev m =
    (rev ≡ 0 → m ≡ 720) × (rev ≡ 1 → m ≡ 800) × (2 ≤ rev → Pair voltages m (switch voltages m 0x2E))

module _ (dev : Device) (rev : ℕ) (has : HasRevision dev rev) where
  efuse-Grade :
      (h : Trace)
      → (m : ℕ) × (h' : Trace) × (get_efuse_mpu_max_freq dev h ≡ done m h')
        × Grade rev m
        × (writes h' ≡ writes h)
  unfolding get_efuse_mpu_max_freq writes
  efuse-Grade h =
      let h1 : Trace = rd word cdev_deviceid (reply dev word cdev_deviceid h) ∷ h in
      let f = reply dev word cdev_efuse_sma h1 in
      elim (Bool-cases (rev == 1)) [
        | inl one ↦ (800, h1, rw (has h, one) refl, ground arith, refl)
        | inr other ↦ elim (Bool-cases (leb 2 rev)) [
          | inl later ↦ (
            switch grades (bit_and f 0x1FFF) 720,
            rd word cdev_efuse_sma f ∷ h1,
            rw (has h, other, later) refl,
            ground (arith, switch-grades (bit_and f 0x1FFF)),
            refl,
          )
          | inr zero ↦ (720, h1, rw (has h, other, zero) refl, ground arith, refl)
        ]
      ]

  vdd_lem :
      (m : ℕ) (h : Trace)
      → let v = if leb 2 rev then switch voltages m 0x2E else 0x2E in
        (h' : Trace) × (get_tps65910_mpu_vdd dev m h ≡ done v h') × (writes h' ≡ writes h)
  unfolding get_tps65910_mpu_vdd writes
  vdd_lem m h =
      let h1 : Trace = rd word cdev_deviceid (reply dev word cdev_deviceid h) ∷ h in
      elim (Bool-cases (leb 2 rev)) [
        | inl later ↦ (h1, rw (has h, later) refl, refl)
        | inr early ↦ (h1, rw (has h, early) refl, refl)
      ]

  -- The two calls, one after the other.
  pub get_tps65910_mpu_vdd-Setting :
      (h : Trace)
      → (m : ℕ) × (h1 : Trace) × (v : ℕ) × (h2 : Trace) × (get_efuse_mpu_max_freq dev h ≡ done m h1)
        × (get_tps65910_mpu_vdd dev m h1 ≡ done v h2)
        × Setting rev m v
        × (writes h2 ≡ writes h)
  get_tps65910_mpu_vdd-Setting h =
      let (m, h1, e1, g, w1) = efuse-Grade h in
      let (h2, e2, w2) = vdd_lem m h1 in
      (
        m,
        h1,
        if leb 2 rev then switch voltages m 0x2E else 0x2E,
        h2,
        e1,
        e2,
        record {
          first = λ z. ground (arith, g);
          second = λ z. ground (arith, g);
          later = λ z. ground (arith, g);
          fits = ground (arith, switch-voltages-le m);
        },
        w2 ∙ w1,
      )
