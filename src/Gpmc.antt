-- ===== src/Gpmc.antt =====
-- src/boot/gpmc.c, src/boot/gpmc.h and src/boot/mem.h: the memory controller that the NAND chip is
-- behind.
pub mod Probe
pub mod Tests
use miniboot.Common.{
  ℕ, ◌+◌, ◌*◌, ◌/◌, ◌%◌, ◌^◌, List, [], ◌∷◌, bit_and, bit_or, ◌==◌, if◌then◌else◌,
}
use miniboot.Bus.{Prog, pure, ◌>>=◌, ◌>>◌, writel}
use miniboot.Timer.{sdelay}

-- GPMC_BASE
unfoldable pub gpmc_reg : ℕ → ℕ
gpmc_reg reg = 0x50000000 + reg

-- GPMC_CS0 is 0x60.
unfoldable pub cs_reg : ℕ → ℕ
unfolding gpmc_reg
cs_reg cs = gpmc_reg 0x60 + 0x30 * cs

-- `gpmc_regs`, with the zero that ends the array.
abbrev pub nand_config : List ℕ
nand_config = 0x00000800 ∷ 0x001e1e00 ∷ 0x001e1e00 ∷ 0x16051807 ∷ 0x00151e1e ∷ 0x16000f80 ∷ 0 ∷ []

-- `while (*cfg)`, and the write that enables the configuration behind it.
unfoldable pub write_config : List ℕ → ℕ → ℕ → Prog (Unit {0})
write_config [] reg enable = writel enable reg
write_config (c ∷ cfg) reg enable =
    if c == 0 then writel enable reg else (writel c reg >> write_config cfg (reg + 4) enable)

unfoldable pub gpmc_cs_config : List ℕ → ℕ → ℕ → ℕ → Prog (Unit {0})
unfolding cs_reg
gpmc_cs_config cfg cs base size = do
  writel 0 (cs_reg cs + 0x18)
  sdelay 1000
  write_config cfg (cs_reg cs)
      (bit_or (bit_or (bit_and size 0xF * 2 ^ 8) (bit_and (base / 2 ^ 24) 0x3F)) (2 ^ 6))
  sdelay 2000

unfoldable pub gpmc_init : ℕ → Prog (Unit {0})
unfolding gpmc_reg gpmc_cs_config
gpmc_init cs = do
  writel 0x8 (gpmc_reg 0x10)
  writel 0 (gpmc_reg 0x18)
  writel 0 (gpmc_reg 0x1C)
  writel 0x12 (gpmc_reg 0x50)
  gpmc_cs_config nand_config cs 0x8000000 0
