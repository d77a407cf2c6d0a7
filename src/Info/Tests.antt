-- ===== src/Info/Tests.antt =====
-- src/boot/sys_info.c on a chip with the fuses of 800 MHz.
use miniboot.Common.{◌≡◌, refl, [], ◌∷◌, ◌==◌, if◌then◌else◌}
use miniboot.Bus.{Device, done, rd, word}
use miniboot.Info.{cdev_deviceid, cdev_efuse_sma, get_efuse_mpu_max_freq, get_tps65910_mpu_vdd}

-- A chip of a later revision, and one of revision 0, whose fuses do not count.
abbrev late : Device
late w a h = if a == cdev_deviceid then 0x2B94402E else 0x1E2F

abbrev early : Device
early w a h = if a == cdev_deviceid then 0x0B94402E else 0x1E2F

late_speed :
    get_efuse_mpu_max_freq late []
    ≡ done 800 (rd word cdev_efuse_sma 0x1E2F ∷ rd word cdev_deviceid 0x2B94402E ∷ [])
unfolding get_efuse_mpu_max_freq
late_speed = refl

late_voltage : get_tps65910_mpu_vdd late 800 [] ≡ done 0x38 (rd word cdev_deviceid 0x2B94402E ∷ [])
unfolding get_tps65910_mpu_vdd
late_voltage = refl

early_speed : get_efuse_mpu_max_freq early [] ≡ done 720 (rd word cdev_deviceid 0x0B94402E ∷ [])
unfolding get_efuse_mpu_max_freq
early_speed = refl
