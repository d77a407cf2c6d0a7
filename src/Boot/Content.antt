-- ===== src/Boot/Content.antt =====
-- src/boot/main.c: what stands at LOADADDR when `lowlevel_init` jumps there, from a chip with small
-- pages.
pub mod Tests
use miniboot.Common.{
  inside, ℕ, ◌+◌, ◌-◌, ◌*◌, ◌/◌, ◌%◌, ◌^◌, ◌<◌, ◌≤◌, ◌≡◌, ◌≢◌, refl, ap, ◌∙◌, Bool, true, Option,
  some, List, [], ◌∷◌, length, ltb, bit_and, if◌then◌else◌, arith,
}
use miniboot.Bus.{Device, Trace, done, reply, rd, word, last_written}
use miniboot.Timer.Wait.{udelay_returns}
use miniboot.Nand.Chip.{NandChip}
use miniboot.Nand.Ids.{FlashDesc, nand_flash_ids, find_flash}
use miniboot.Nand.Init.{gpmc_cs, attach, configure, find_cs, omap_nand_attach, omap_nand_init}
use miniboot.Nand.Read.{nand_load}
use miniboot.Nand.Pages.{PageRead, good_blocks}
use miniboot.Nand.Stretch.{IsMarked}
use miniboot.Nand.Probe.{configured}
use miniboot.Nand.Card.{Serves}
use miniboot.Nand.Store.{Clear}
use miniboot.Nand.Copied.{with_image-inside}
use miniboot.Nand.Loaded.{pages_from, nand_load-with_image}
use miniboot.Nand.Identify.{
  commanded, attached, IsSmallRow, Identifies, identified, identified-IsSmallPage,
  nand_init-identified,
}
use miniboot.Nand.Bytes.{two_blocks, two_blocks-byte, two_blocks-OnChip, two_blocks-length}
use miniboot.I2c.Adapter.{I2cAdapter}
use miniboot.I2c.Retry.{Usable}
use miniboot.Boot.{img_offs, img_size, loadaddr, lowlevel_init}
use miniboot.Boot.Prepared.{Works}
use miniboot.Boot.Returns.{setup_returns}
use miniboot.Boot.Image.{HasNand}

-- Where byte `o` of the image stands on a chip whose first good blocks from IMG_OFFS on are `b1` and
-- `b2`: the number of its page, and its place there.
abbrev pub page_at : ℕ → ℕ → ℕ → ℕ
page_at b1 b2 o = (if ltb o 0x4000 then b1 else b2) * 32 + o % 0x4000 / 512

module _ (dev : Device) (fuel revision : ℕ) (works : Works dev fuel revision)
    (found : HasNand dev) where
  pub omap_nand_init-identified :
      (devid : ℕ) (type : FlashDesc)
      → Identifies dev attached devid
      → find_flash devid nand_flash_ids ≡ some type
      → IsSmallRow type
      → (h : Trace)
      → (h' : Trace) × (omap_nand_init dev fuel commanded h ≡ done (0, identified type) h')
  unfolding omap_nand_init omap_nand_attach find_cs
  omap_nand_init-identified devid type id listed row h =
      let h1 : Trace = rd word (gpmc_cs 0) (reply dev word (gpmc_cs 0) h) ∷ h in
      let delays = udelay_returns dev fuel works.alive.advances works.alive.ticks in
      let (h', e) =
        nand_init-identified dev fuel delays devid type id listed row (configured dev 0 h1) in
      (h', rw (found h, e) refl)

  nand_load-image :
      (type : FlashDesc)
      → IsSmallRow type
      → (content : ℕ → ℕ → ℕ) (bad : ℕ → Bool) → Serves dev (identified type) content
      → IsMarked dev fuel (identified type) bad
      → (turns b1 b2 : ℕ) → turns < fuel
      → turns < 2048
      → b1 < 2048
      → b2 < 2048
      → good_blocks bad turns 32 2 ≡ some (b1 ∷ b2 ∷ [])
      → (o : ℕ) → o < img_size
      → (h : Trace)
      → (h' : Trace) × (nand_load dev fuel (identified type) img_offs img_size loadaddr h
          ≡ done 0 h')
        × (last_written (loadaddr + o) h' ≡ some (content (page_at b1 b2 o) (o % 512)))
  unfolding configure attach
  nand_load-image type row content bad serves marked turns b1 b2 few near few1 few2 good o lt h =
      let chip = identified type in
      let blocks : List ℕ = b1 ∷ b2 ∷ [] in
      let pages = two_blocks chip refl refl b1 b2 loadaddr few1 few2 in
      let size : length pages * 512 ≡ 0x8000 =
        ap (λ n. n * 512) (two_blocks-length chip refl refl b1 b2 loadaddr few1 few2) in
      let clear : Clear chip loadaddr (length pages * 512) =
        rw size (record { command_port = refl; address_port = refl; no_wrap = omega arith }) in
      let (h', e, all) =
        nand_load-with_image dev fuel chip bad content works.alive.advances works.alive.ticks
          (identified-IsSmallPage type row) serves marked (omega arith) turns img_offs img_size
          loadaddr blocks few (omega arith) (omega arith) (omega arith) (omega arith) good
          (two_blocks-OnChip chip refl refl b1 b2 loadaddr few1 few2) clear (omega (arith, size))
          (loadaddr + o) (omega arith, omega arith) h in
      (
        h',
        e,
        all
            ∙ with_image-inside chip content pages loadaddr o (last_written (loadaddr + o) h)
                (omega (arith, size, lt))
            ∙ two_blocks-byte chip refl refl b1 b2 loadaddr few1 few2 content o lt,
      )

  module _ (junk retries : ℕ) (pos : 0 < retries) where
    -- Let the hardware work as for `setup_returns` and the first chip select report a NAND chip that
    -- keeps to its protocol: it identifies itself with an id that the table has a row for, with small
    -- pages and 8 bits, and gives the bytes `content page 0`, `content page 1` and so on of a page.
    -- Let its blocks keep their marks, and let `b1` and `b2`, in the first 32 MiB, be the first two
    -- good ones among the `turns` blocks from IMG_OFFS on, where `turns` is less than the fuel and than
    -- 2048. Then `lowlevel_init`, called with the record of the bss section in which only the command
    -- function has been set, jumps to LOADADDR, and there stands the image: byte `o` of its 32 KiB is
    -- the byte of the chip at this place of the two blocks.
    pub lowlevel_init-image :
        (adap : I2cAdapter)
        → Usable 0x44E0B000 retries adap
        → (devid : ℕ) (type : FlashDesc) → Identifies dev attached devid
        → find_flash devid nand_flash_ids ≡ some type
        → IsSmallRow type
        → (content : ℕ → ℕ → ℕ) (bad : ℕ → Bool) → Serves dev (identified type) content
        → IsMarked dev fuel (identified type) bad
        → (turns b1 b2 : ℕ) → turns < fuel
        → turns < 2048
        → b1 < 2048
        → b2 < 2048
        → good_blocks bad turns 32 2 ≡ some (b1 ∷ b2 ∷ [])
        → (o : ℕ) → o < img_size
        → (h : Trace)
        → (h' : Trace) × (lowlevel_init dev fuel junk adap commanded h ≡ done loadaddr h')
          × (last_written (loadaddr + o) h' ≡ some (content (page_at b1 b2 o) (o % 512)))
    unfolding lowlevel_init
    lowlevel_init-image adap u devid type id listed row content bad serves marked turns b1 b2 few
          near few1 few2 good o lt h =
        let (h1, a, h2, e1, prepared, e2, u2, raised) =
          setup_returns dev fuel revision works junk retries pos adap u h in
        let (h3, e3) = omap_nand_init-identified devid type id listed row h2 in
        let (h4, e4, image) =
          nand_load-image type row content bad serves marked turns b1 b2 few near few1 few2 good o
            lt h3 in
        (h4, rw (e1, e2, e3) (rw e4 refl), image)
