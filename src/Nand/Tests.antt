-- ===== src/Nand/Tests.antt =====
-- The theorems of src/boot/nand.c at a board whose timer counts and whose chip has no bad block.
use miniboot.Common.{ℕ, ◌≡◌, ◌⊎◌, refl, Bool, false, some, [], ◌∷◌, length, arith}
use miniboot.Bus.{done, crash, Device, Trace, byte, half, word, writes, wr}
use miniboot.Timer.Wait.{Advances, udelay_returns}
use miniboot.Nand.Chip.{
  NandChip, nand_chip, read_buf8, omap_block_bad, omap_ready, large_page, small_page, minus_one,
  nand_cmd_read0,
}
use miniboot.Nand.Read.{nand_load}
use miniboot.Nand.Command.{nand_command_lp}
use miniboot.Nand.Init.{omap_nand_init}
use miniboot.Nand.Returns.{addressed, nand_command_lp-read0}
use miniboot.Nand.Blocks.{IsSetUp, nand_block_isbad-Mark}
use miniboot.Nand.Pages.{good_blocks, image_pages}
use miniboot.Nand.Stretch.{Reads, IsMarked}
use miniboot.Nand.Load.{nand_load-Reads}
use miniboot.Nand.Probe.{Probed, omap_nand_init-Probed, omap_nand_init-null}

abbrev board : Device
board byte a h = 0xff
board half a h = 0xffff
board word a h = length h

board-Advances : Advances board
board-Advances h = (omega arith, omega arith)

abbrev fuel : ℕ
fuel = 5000000

-- Pages of 2 KiB and blocks of 128 KiB, at chip select 0.
abbrev chip : NandChip
chip = record {
  cmd_port = 0x5000007C;
  adr_port = 0x50000080;
  dat_port = 0x50000084;
  erasesize = 0x20000;
  writesize = 2048;
  chipsize = 0x10000000;
  read_buf = read_buf8;
  block_bad = omap_block_bad;
  dev_ready = omap_ready;
  cmdfunc = large_page;
  chip_delay = 100;
  options = 0;
  badblockpos = 0;
}

chip-IsSetUp : IsSetUp chip
chip-IsSetUp = record {
  has_cmdfunc = λ e. cc;
  has_read_buf = λ e. cc;
  has_block_bad = refl;
  has_dev_ready = refl;
}

abbrev all_good : ℕ → Bool
all_good b = false

chip-IsMarked : IsMarked board fuel chip all_good
chip-IsMarked ofs r h h' e =
    let (h1, m) =
      nand_block_isbad-Mark board fuel (udelay_returns board fuel board-Advances (omega arith)) chip
        chip-IsSetUp ofs r h h' e in
    ground (arith, m)

two_blocks : good_blocks all_good 5 1 2 ≡ some (1 ∷ 2 ∷ [])
unfolding good_blocks
two_blocks = refl

nand_load-Reads_example :
    (h' : Trace) × (nand_load board fuel chip 0x21000 0x20000 0x80000000 [] ≡ done 0 h')
    × Reads board fuel chip (image_pages 2048 64 (1 ∷ 2 ∷ []) 2 0x80000000) [] h'
nand_load-Reads_example =
    nand_load-Reads board fuel chip all_good board-Advances (omega arith) chip-IsSetUp chip-IsMarked
      5 0x21000 0x20000 0x80000000 (1 ∷ 2 ∷ []) (omega arith) (omega arith) (omega arith)
      (omega arith) (omega arith) two_blocks []

nand_command_lp-read0_example :
    (h' : Trace) × (nand_command_lp board fuel chip nand_cmd_read0 0 0x12345 [] ≡ done tt h')
    × (writes h' ≡ wr byte 0x50000080 0x30 ∷ addressed chip 0 0x12345 (writes []))
nand_command_lp-read0_example =
    nand_command_lp-read0 board fuel (udelay_returns board fuel board-Advances (omega arith)) chip 0
      0x12345 refl refl (omega arith) (omega arith) (omega arith) []

-- The chip of start.S with the command function for small pages in place.
abbrev commanded : NandChip
commanded = record nand_chip { cmdfunc = small_page }

omap_nand_init-Probed_example :
    (r : ℕ) × (chip' : NandChip) × (h' : Trace) × (omap_nand_init board fuel commanded []
      ≡ done (r, chip') h')
    × Probed commanded r chip'
omap_nand_init-Probed_example =
    omap_nand_init-Probed board fuel board-Advances (omega arith) commanded (λ e. cc) []

omap_nand_init-null_example :
    ((h' : Trace) × (omap_nand_init board fuel nand_chip [] ≡ done (minus_one, nand_chip) h'))
    ⊎ ((h' : Trace) × (omap_nand_init board fuel nand_chip [] ≡ crash h'))
omap_nand_init-null_example = omap_nand_init-null board fuel []
