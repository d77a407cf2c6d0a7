-- ===== src/Nand/Ids.antt =====
-- src/boot/nand_ids.c: the table of known chips. The names of the chips are not kept; the entry
-- without a name that ends the array is the end of the list.
use miniboot.Common.{ℕ, List, [], ◌∷◌, Option, none, some, ◌==◌, if◌then◌else◌}
use miniboot.Nand.Chip.{nand_buswidth_16, lp_options, lp_options16}

-- `struct nand_flash_desc`
pub record FlashDesc : Type 0 where
  pub id : ℕ
  pub pagesize : ℕ
  pub chipsize : ℕ
  pub erasesize : ℕ
  pub options : ℕ

abbrev flash : ℕ → ℕ → ℕ → ℕ → ℕ → FlashDesc
flash i p c e o = record { id = i; pagesize = p; chipsize = c; erasesize = e; options = o }

abbrev pub nand_flash_ids : List FlashDesc
nand_flash_ids =
    flash 0x33 512 16 0x4000 0
    ∷ flash 0x73 512 16 0x4000 0
    ∷ flash 0x43 512 16 0x4000 nand_buswidth_16
    ∷ flash 0x53 512 16 0x4000 nand_buswidth_16
    ∷ flash 0x35 512 32 0x4000 0
    ∷ flash 0x75 512 32 0x4000 0
    ∷ flash 0x45 512 32 0x4000 nand_buswidth_16
    ∷ flash 0x55 512 32 0x4000 nand_buswidth_16
    ∷ flash 0x36 512 64 0x4000 0
    ∷ flash 0x76 512 64 0x4000 0
    ∷ flash 0x46 512 64 0x4000 nand_buswidth_16
    ∷ flash 0x56 512 64 0x4000 nand_buswidth_16
    ∷ flash 0x78 512 128 0x4000 0
    ∷ flash 0x39 512 128 0x4000 0
    ∷ flash 0x79 512 128 0x4000 0
    ∷ flash 0x72 512 128 0x4000 nand_buswidth_16
    ∷ flash 0x49 512 128 0x4000 nand_buswidth_16
    ∷ flash 0x74 512 128 0x4000 nand_buswidth_16
    ∷ flash 0x59 512 128 0x4000 nand_buswidth_16
    ∷ flash 0x71 512 256 0x4000 0
    ∷ flash 0xA2 0 64 0 lp_options
    ∷ flash 0xF2 0 64 0 lp_options
    ∷ flash 0xB2 0 64 0 lp_options16
    ∷ flash 0xC2 0 64 0 lp_options16
    ∷ flash 0xA1 0 128 0 lp_options
    ∷ flash 0xF1 0 128 0 lp_options
    ∷ flash 0xB1 0 128 0 lp_options16
    ∷ flash 0xC1 0 128 0 lp_options16
    ∷ flash 0xAA 0 256 0 lp_options
    ∷ flash 0xDA 0 256 0 lp_options
    ∷ flash 0xBA 0 256 0 lp_options16
    ∷ flash 0xCA 0 256 0 lp_options16
    ∷ flash 0xAC 0 512 0 lp_options
    ∷ flash 0xDC 0 512 0 lp_options
    ∷ flash 0xBC 0 512 0 lp_options16
    ∷ flash 0xCC 0 512 0 lp_options16
    ∷ flash 0xA3 0 1024 0 lp_options
    ∷ flash 0xD3 0 1024 0 lp_options
    ∷ flash 0xB3 0 1024 0 lp_options16
    ∷ flash 0xC3 0 1024 0 lp_options16
    ∷ flash 0xA5 0 2048 0 lp_options
    ∷ flash 0xD5 0 2048 0 lp_options
    ∷ flash 0xB5 0 2048 0 lp_options16
    ∷ flash 0xC5 0 2048 0 lp_options16
    ∷ []

-- The loop of `nand_init` over the table: the first entry with that device id.
unfoldable pub find_flash : ℕ → List FlashDesc → Option FlashDesc
find_flash devid [] = none
find_flash devid (t ∷ ts) = if devid == t.id then some t else find_flash devid ts
