-- ===== src/Info.antt =====
-- src/boot/sys_info.c: what the chip says about its revision and its speed.
pub mod Grades
pub mod Tests
use miniboot.Common.{
  ℕ, ◌/◌, ◌^◌, Option, none, some, List, [], ◌∷◌, leb, bit_and, ◌==◌, if◌then◌else◌,
}
use miniboot.Bus.{Device, Prog, pure, ◌>>=◌, readl}

-- CTRL_DEVICE_BASE + CDEV_DEVICEID and CTRL_DEVICE_BASE + CDEV_EFUSE_SMA
abbrev pub cdev_deviceid : ℕ
cdev_deviceid = 0x44E10600

abbrev pub cdev_efuse_sma : ℕ
cdev_efuse_sma = 0x44E107FC

-- The cases of `switch (max_freq & DEVICE_ID_MASK)`, with the multiplier that each returns.
abbrev pub grades : List (ℕ × ℕ)
grades =
    (0x1C2F, 1000)
    ∷ (0x1E2F, 800)
    ∷ (0x1F2F, 720)
    ∷ (0x1FAF, 600)
    ∷ (0x1F9F, 600)
    ∷ (0x1FEF, 300)
    ∷ (0x1FDF, 300)
    ∷ []

-- The cases of `switch (freq)`, with the voltage selection that each returns.
abbrev pub voltages : List (ℕ × ℕ)
voltages = (1000, 0x3D) ∷ (800, 0x38) ∷ (720, 0x33) ∷ (600, 0x2E) ∷ (300, 0x2E) ∷ []

-- A `switch`, and what stands behind it for a value without a case.
unfoldable pub switch : List (ℕ × ℕ) → ℕ → ℕ → ℕ
switch [] v d = d
switch ((k, r) ∷ cs) v d = if v == k then r else switch cs v d

module _ (dev : Device) where
  unfoldable pub get_efuse_mpu_max_freq : Prog ℕ
  unfolding switch
  get_efuse_mpu_max_freq = do
    id ← readl dev cdev_deviceid
    (if id / 2 ^ 28 == 1
        then pure 800
        else if leb 2 (id / 2 ^ 28)
        then (do
          max_freq ← readl dev cdev_efuse_sma
          pure (switch grades (bit_and max_freq 0x1FFF) 720))
        else pure 720)

  unfoldable pub get_tps65910_mpu_vdd : ℕ → Prog ℕ
  unfolding switch
  get_tps65910_mpu_vdd freq = do
    id ← readl dev cdev_deviceid
    (if leb 2 (id / 2 ^ 28) then pure (switch voltages freq 0x2E) else pure 0x2E)
