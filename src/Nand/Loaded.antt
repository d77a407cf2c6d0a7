-- ===== src/Nand/Loaded.antt =====
-- src/boot/nand.c: what stands in memory when `nand_load` has returned, on a chip with small pages.
use miniboot.Common.{ℕ, ◌+◌, ◌*◌, ◌/◌, ◌%◌, ◌^◌, ◌<◌, ◌≤◌, ◌≡◌, ◌∙◌, Bool, some, List, length}
use miniboot.Bus.{Device, Trace, done, last_written}
use miniboot.Timer.Wait.{Advances, max_ticks, udelay_returns}
use miniboot.Nand.Chip.{NandChip}
use miniboot.Nand.Read.{nand_load}
use miniboot.Nand.Blocks.{IsSetUp}
use miniboot.Nand.Pages.{PageRead, good_blocks, image_pages}
use miniboot.Nand.Stretch.{IsMarked}
use miniboot.Nand.Load.{touched, nand_load-Reads}
use miniboot.Nand.Card.{Serves, IsSmallPage}
use miniboot.Nand.Store.{Clear}
use miniboot.Nand.Memory.{IsMemory, Reads-with_pages}
use miniboot.Nand.Copied.{
  image_pages-InOrder, with_image, with_pages-with_image, OnChip, OnChip-Fits,
}

pub IsSmallPage-IsSetUp : (chip : NandChip) → IsSmallPage chip → IsSetUp chip
IsSmallPage-IsSetUp chip small = record {
  has_cmdfunc = λ e. cc;
  has_read_buf = λ e. cc;
  has_block_bad = small.has_block_bad;
  has_dev_ready = small.has_dev_ready;
}

-- The pages that hold the bytes from `ofs` on, in the good blocks `bs`.
abbrev pub pages_from : NandChip → List ℕ → ℕ → ℕ → List PageRead
pages_from chip bs ofs dst =
    image_pages chip.writesize (chip.erasesize / chip.writesize) bs
      (ofs % chip.erasesize / chip.writesize) dst

-- Let a chip with pages of less than 2 GiB on a bus of 8 bits, with the functions for small pages
-- and ports of its own, keep to its protocol: after the command 0, the column 0 and the bytes of a
-- page's number, its data port gives the bytes `content page 0`, `content page 1` and so on. Let
-- the blocks keep their marks, the timer advance, and the next `turns` blocks, fewer than the
-- fuel, hold as many good ones as the bytes from `ofs` to `ofs + size` touch, all of this within 4
-- GiB. Let every page of these blocks have a number that the address bytes can hold, and let the
-- pages fit in memory from `dst` on, away from the chip's ports. Then `nand_load` returns 0. Any
-- address that is no port then holds the byte of its page, if it is one of those of the pages,
-- which stand from `dst` on in order (those of the first block from the one of `ofs` on, and all
-- of the others); and else what it held before.
pub nand_load-with_image :
    (dev : Device) (fuel : ℕ) (chip : NandChip) (bad : ℕ → Bool) (content : ℕ → ℕ → ℕ)
    → Advances dev
    → max_ticks < fuel
    → IsSmallPage chip
    → Serves dev chip content
    → IsMarked dev fuel chip bad
    → chip.writesize < 2 ^ 31
    → (turns ofs size dst : ℕ) (bs : List ℕ) → turns < fuel
    → 0 < chip.erasesize
    → 0 < size
    → ofs + size ≤ 2 ^ 32
    → (ofs / chip.erasesize + turns + 1) * chip.erasesize ≤ 2 ^ 32
    → good_blocks bad turns (ofs / chip.erasesize) (touched chip ofs size) ≡ some bs
    → OnChip chip (pages_from chip bs ofs dst)
    → Clear chip dst (length (pages_from chip bs ofs dst) * chip.writesize)
    → dst + length (pages_from chip bs ofs dst) * chip.writesize < 2 ^ 32
    → (a : ℕ) → IsMemory chip a
    → (h : Trace)
    → (h' : Trace) × (nand_load dev fuel chip ofs size dst h ≡ done 0 h')
      × (last_written a h'
          ≡ with_image chip content (pages_from chip bs ofs dst) dst (last_written a h) a)
nand_load-with_image dev fuel chip bad content adv big small serves marked int turns ofs size dst bs
      few pos some_bytes fits room good on clear end a mem h =
    let pages = pages_from chip bs ofs dst in
    let (h', e, reads) =
      nand_load-Reads dev fuel chip bad adv big (IsSmallPage-IsSetUp chip small) marked turns ofs
        size dst bs few pos some_bytes fits room good h in
    let order =
      image_pages-InOrder chip.writesize (chip.erasesize / chip.writesize) bs
        (ofs % chip.erasesize / chip.writesize) dst end in
    (
      h',
      e,
      Reads-with_pages dev fuel (udelay_returns dev fuel adv big) chip small content serves int
            reads (OnChip-Fits chip pages dst order on clear) a mem
          ∙ with_pages-with_image chip content pages dst (last_written a h) a order,
    )
