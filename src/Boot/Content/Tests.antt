-- ===== src/Boot/Content/Tests.antt =====
-- src/boot/main.c on the board with the simulated chip.
use miniboot.Common.{ℕ, ◌+◌, ◌≡◌, refl, some, [], arith}
use miniboot.Bus.{Trace, done, last_written}
use miniboot.Timer.Wait.{udelay_returns}
use miniboot.Nand.Card.{card_state}
use miniboot.Nand.Identify.{commanded}
use miniboot.Nand.Simulated.{
  chip, type, type-IsSmallRow, type_listed, bad, content, answer, chip-Serves, chip-Identifies,
  chip-IsMarked, blocks, blocks-good,
}
use miniboot.I2c.Adapter.{I2cAdapter}
use miniboot.Nand.Chip.{NandChip}
use miniboot.Nand.Init.{attach, configure, omap_nand_init}
use miniboot.Nand.Stretch.{IsMarked}
use miniboot.Boot.Image.{HasImage, LoadsImage, Images, lowlevel_init-LoadsImage}
use miniboot.Boot.{loadaddr, s_init, spl_board_init, lowlevel_init}
use miniboot.Boot.Board.{board, fuel, adapter, adapter-Usable, board-Works, board-IsAlive}
use miniboot.Boot.Content.{lowlevel_init-image, omap_nand_init-identified}

abbrev nand : Trace → ℕ
nand h = answer (card_state chip h)

marked : IsMarked (board nand) fuel chip bad
marked =
    chip-IsMarked (board nand) (λ h. refl) fuel
      (udelay_returns (board nand) fuel (board-IsAlive nand).advances (board-IsAlive nand).ticks)

-- The image lies in the blocks 32 and 34. Byte 0x4005 is byte 5 of page 1088.
lowlevel_init-image_example :
    (h' : Trace) × (lowlevel_init (board nand) fuel 0 adapter commanded [] ≡ done loadaddr h')
    × (last_written (loadaddr + 0x4005) h' ≡ some 69)
lowlevel_init-image_example =
    lowlevel_init-image (board nand) fuel 0 (board-Works nand) (λ h. refl) 0 2 (omega arith) adapter
      adapter-Usable 0x75 type (chip-Identifies (board nand) (λ h. refl)) type_listed
      type-IsSmallRow content bad (chip-Serves (board nand) (λ h. refl)) marked 5 32 34
      (omega arith) (omega arith) (omega arith) (omega arith) blocks-good 0x4005 (omega arith) []

chip-HasImage : HasImage (board nand) fuel chip
unfolding configure attach
chip-HasImage = record {
  bad = bad;
  marked = marked;
  turns = 5;
  few = omega arith;
  sized = omega arith;
  room = omega arith;
  blocks = blocks;
  good = blocks-good;
}

-- The probing leaves no other record than that of the simulated chip.
images : Images (board nand) fuel commanded
images chip' h h' e =
    let (h1, e1) =
      omap_nand_init-identified (board nand) fuel 0 (board-Works nand) (λ h. refl) 0x75 type
        (chip-Identifies (board nand) (λ h. refl)) type_listed type-IsSmallRow h in
    let same : chip' ≡ chip = cc in rw same chip-HasImage

lowlevel_init-LoadsImage_example :
    (h1 : Trace) × (adap' : I2cAdapter) × (h2 : Trace) × (chip' : NandChip) × (h3 : Trace)
    × (h4 : Trace) × (s_init (board nand) fuel [] ≡ done tt h1)
    × (spl_board_init (board nand) fuel 0 adapter h1 ≡ done adap' h2)
    × (probed : omap_nand_init (board nand) fuel commanded h2 ≡ done (0, chip') h3) × (lowlevel_init
          (board nand)
          fuel
          0
          adapter
          commanded
          []
        ≡ done loadaddr h4)
    × LoadsImage (board nand) fuel chip' (images chip' h2 h3 probed) h3 h4
lowlevel_init-LoadsImage_example =
    lowlevel_init-LoadsImage (board nand) fuel 0 (board-Works nand) (λ h. refl) 0 2 (omega arith)
      adapter adapter-Usable commanded (λ e. cc) images []
