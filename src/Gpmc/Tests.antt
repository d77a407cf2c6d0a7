-- ===== src/Gpmc/Tests.antt =====
-- A controller whose registers read back, and the theorem of src/boot/gpmc.c at it.
use miniboot.Common.{ℕ, ◌≤◌, ◌≡◌, Option, none, some, [], arith}
use miniboot.Bus.{Device, Trace, done, last_written}
use miniboot.Nand.Init.{find_cs}
use miniboot.Gpmc.{gpmc_init}
use miniboot.Gpmc.Probe.{ReadsBack, gpmc_init-find_cs}

abbrev value : Option ℕ → ℕ
value none = 0
value (some v) = v

abbrev storing : Device
storing w a h = value (last_written a h)

storing-ReadsBack : ReadsBack storing 2
storing-ReadsBack h v small e = rw e (omega arith)

gpmc_init-find_cs_example :
    (h1 : Trace) × (found : ℕ) × (h2 : Trace) × (gpmc_init 2 [] ≡ done tt h1)
    × (find_cs storing 0 8 h1 ≡ done (some found) h2)
    × (found ≤ 2)
gpmc_init-find_cs_example = gpmc_init-find_cs storing 2 storing-ReadsBack (omega arith) []
