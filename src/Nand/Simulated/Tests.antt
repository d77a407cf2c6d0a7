-- ===== src/Nand/Simulated/Tests.antt =====
-- The loader of src/boot/nand.c on the simulated chip.
use miniboot.Common.{[], ◌≡◌, refl, some, arith}
use miniboot.Bus.{Trace, done, last_written}
use miniboot.Nand.Pages.{image_pages, block_pages, advance}
use miniboot.Timer.Wait.{udelay_returns}
use miniboot.Nand.Init.{configure, attach}
use miniboot.Nand.Read.{nand_load}
use miniboot.Nand.Copied.{image_byte}
use miniboot.Nand.Loaded.{nand_load-with_image}
use miniboot.Nand.Simulated.{
  chip, bad, content, device, fuel, device-Advances, chip-IsSmallPage, chip-Serves, chip-IsMarked,
  blocks, blocks-good, blocks-OnChip, blocks-Clear,
}

-- Byte 5 of page 1088, the first one of block 34.
nand_load-with_image_example :
    (h' : Trace) × (nand_load device fuel chip 0x83E00 0x400 0x80000000 [] ≡ done 0 h')
    × (last_written 0x80000205 h' ≡ some 69)
unfolding image_pages block_pages advance image_byte configure attach
nand_load-with_image_example =
    nand_load-with_image device fuel chip bad content device-Advances (omega arith) chip-IsSmallPage
      (chip-Serves device (λ h. refl))
      (chip-IsMarked device (λ h. refl) fuel
        (udelay_returns device fuel device-Advances (omega arith)))
      (omega arith) 5 0x83E00 0x400 0x80000000 blocks (omega arith) (omega arith) (omega arith)
      (omega arith) (omega arith) blocks-good blocks-OnChip blocks-Clear (omega arith) 0x80000205
      (omega arith, omega arith) []
