-- ===== src/Boot/Image.antt =====
-- src/boot/main.c: the whole of `lowlevel_init` on a chip record that has its command function.
use miniboot.Common.{
  ℕ, ◌+◌, ◌*◌, ◌/◌, ◌%◌, ◌^◌, ◌<◌, ◌≤◌, ◌≡◌, ◌≢◌, refl, Bool, some, List, ◌∷◌, bit_and, arith,
}
use miniboot.Bus.{Device, Trace, done, reply, rd, word}
use miniboot.Timer.Wait.{udelay_returns}
use miniboot.Nand.Chip.{NandChip, no_cmdfunc}
use miniboot.Nand.Init.{gpmc_cs, attach, find_cs, omap_nand_attach, omap_nand_init}
use miniboot.Nand.Pages.{good_blocks, image_pages}
use miniboot.Nand.Stretch.{Reads, IsMarked}
use miniboot.Nand.Load.{touched, nand_load-Reads}
use miniboot.Nand.Probe.{Ready, nand_init-Ready, attach-IsSetUp, configured}
use miniboot.I2c.Adapter.{I2cAdapter}
use miniboot.I2c.Retry.{Usable}
use miniboot.Boot.{img_offs, img_size, loadaddr, s_init, spl_board_init, lowlevel_init}
use miniboot.Boot.Prepared.{Works}
use miniboot.Boot.Returns.{setup_returns}

-- The chip has an image: its marks do not change, and among the next `turns` blocks from the one of
-- IMG_OFFS on there are as many good ones, `blocks`, as the image touches.
pub record HasImage (dev : Device) (fuel : ℕ) (chip : NandChip) : Type 0 where
  pub bad : ℕ → Bool
  pub marked : IsMarked dev fuel chip bad
  pub turns : ℕ
  pub few : turns < fuel
  pub sized : 0 < chip.erasesize
  pub room : (img_offs / chip.erasesize + turns + 1) * chip.erasesize ≤ 2 ^ 32
  pub blocks : List ℕ
  pub good :
      good_blocks bad turns (img_offs / chip.erasesize) (touched chip img_offs img_size)
      ≡ some blocks

-- The pages of the image, in order, with the places that they go to.
abbrev pub LoadsImage :
    (dev : Device) (fuel : ℕ) (chip : NandChip) → HasImage dev fuel chip → Trace → Trace → Type 0
LoadsImage dev fuel chip image h h' =
    Reads dev fuel chip
      (image_pages chip.writesize (chip.erasesize / chip.writesize) image.blocks
        (img_offs % chip.erasesize / chip.writesize) loadaddr)
      h h'

-- Every chip record that the probing of `chip` may leave has an image.
abbrev pub Images : Device → ℕ → NandChip → Type 0
Images dev fuel chip =
    (chip' : NandChip) (h h' : Trace)
    → omap_nand_init dev fuel chip h ≡ done (0, chip') h'
    → HasImage dev fuel chip'

-- The first chip select reports a NAND chip.
abbrev pub HasNand : Device → Type 0
HasNand dev = (h : Trace) → bit_and (reply dev word (gpmc_cs 0) h) 0xC00 ≡ 0x800

module _ (dev : Device) (fuel revision : ℕ) (works : Works dev fuel revision)
    (found : HasNand dev) where
  omap_nand_init-Ready :
      (chip : NandChip)
      → chip.cmdfunc ≢ no_cmdfunc
      → (h : Trace)
      → (chip' : NandChip) × (h' : Trace) × (omap_nand_init dev fuel chip h ≡ done (0, chip') h')
        × Ready (attach chip 0) chip'
  unfolding omap_nand_init omap_nand_attach find_cs
  omap_nand_init-Ready chip ne h =
      let h1 : Trace = rd word (gpmc_cs 0) (reply dev word (gpmc_cs 0) h) ∷ h in
      let delays = udelay_returns dev fuel works.alive.advances works.alive.ticks in
      let (chip', h', e, ready) =
        nand_init-Ready dev fuel delays (attach chip 0) (attach-IsSetUp chip 0 ne)
          (configured dev 0 h1) in
      (chip', h', rw (found h, e) refl, ready)

  module _ (junk retries : ℕ) (pos : 0 < retries) where
    -- Let the hardware work as for `setup_returns`, let the first chip select report a NAND chip and
    -- the chip record have a command function, and let every chip record that a successful run of
    -- `omap_nand_init` on it leaves have an image. Then `lowlevel_init` gets to its end and jumps to
    -- LOADADDR. It has run `s_init`, `spl_board_init` and `omap_nand_init`, each on the trace of the
    -- one before, and then, with the chip record that the last one has left, it has read exactly the
    -- pages of the image, in order and to consecutive places from LOADADDR on, and looked at the marks
    -- of blocks.
    pub lowlevel_init-LoadsImage :
        (adap : I2cAdapter)
        → Usable 0x44E0B000 retries adap
        → (chip : NandChip) → chip.cmdfunc ≢ no_cmdfunc
        → (images : Images dev fuel chip) → (h : Trace)
        → (h1 : Trace) × (adap' : I2cAdapter) × (h2 : Trace) × (chip' : NandChip) × (h3 : Trace)
          × (h4 : Trace) × (s_init dev fuel h ≡ done tt h1)
          × (spl_board_init dev fuel junk adap h1 ≡ done adap' h2)
          × (probed : omap_nand_init dev fuel chip h2 ≡ done (0, chip') h3) × (lowlevel_init dev
                fuel junk adap chip h
              ≡ done loadaddr h4)
          × LoadsImage dev fuel chip' (images chip' h2 h3 probed) h3 h4
    unfolding lowlevel_init
    lowlevel_init-LoadsImage adap u chip ne images h =
        let (h1, a, h2, e1, prepared, e2, u2, raised) =
          setup_returns dev fuel revision works junk retries pos adap u h in
        let (chip', h3, e3, ready) = omap_nand_init-Ready chip ne h2 in
        let image = images chip' h2 h3 e3 in
        let (h4, e4, reads) =
          nand_load-Reads dev fuel chip' image.bad works.alive.advances works.alive.ticks ready.0
            image.marked image.turns img_offs img_size loadaddr image.blocks image.few image.sized
            (omega arith) (omega arith) image.room image.good h3 in
        (h1, a, h2, chip', h3, h4, e1, e2, e3, rw (e1, e2, e3) (rw e4 refl), reads)
