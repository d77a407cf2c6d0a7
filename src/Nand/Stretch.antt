-- ===== src/Nand/Stretch.antt =====
-- src/boot/nand.c: the turns of the loop of `nand_load`, with what each one reads.
use miniboot.Common.{
  ℕ, zero, suc, ◌+◌, ◌-◌, ◌/◌, ◌%◌, ◌^◌, ◌≡◌, refl, Bool, true, false, some, List, [], ◌∷◌, ◌++◌,
  leb, if◌then◌else◌, arith,
}
use miniboot.Bus.{Device, Trace, done}
use miniboot.Nand.Chip.{NandChip}
use miniboot.Nand.Read.{nand_block_isbad, nand_read_page, read_pages, load_loop, pages_per_block}
use miniboot.Nand.Returns.{Delays}
use miniboot.Nand.Pages.{PageRead, good_blocks, block_pages, advance, image_pages}
use miniboot.Nand.Blocks.{IsSetUp, nand_read_page-Ends}

module _ (dev : Device) (fuel : ℕ) (chip : NandChip) where
  -- A stretch of the program that looks at block marks and reads the pages `ps`, in this order.
  pub data Reads : List PageRead → Trace → Trace → Type 0 where
    here : {h : Trace} → Reads [] h h
    looked :
        {ps : List PageRead} {h h1 h2 : Trace} (ofs r : ℕ)
        → nand_block_isbad dev fuel chip ofs h ≡ done r h1
        → Reads ps h1 h2
        → Reads ps h h2
    took :
        {ps : List PageRead} {h h1 h2 : Trace} (p : PageRead) (r : ℕ)
        → nand_read_page dev fuel chip p.block p.page p.dst h ≡ done r h1
        → Reads ps h1 h2
        → Reads (p ∷ ps) h h2

  Reads-append :
      {ps qs : List PageRead} {h h1 h2 : Trace}
      → Reads ps h h1
      → Reads qs h1 h2
      → Reads (ps ++ qs) h h2
  Reads-append here s = s
  Reads-append (looked ofs r e t) s = looked ofs r e (Reads-append t s)
  Reads-append (took p r e t) s = took p r e (Reads-append t s)

  -- The mark of a block says the same whenever it is looked at.
  abbrev pub IsMarked : (ℕ → Bool) → Type 0
  IsMarked bad =
      (ofs r : ℕ) (h h' : Trace)
      → nand_block_isbad dev fuel chip ofs h ≡ done r h'
      → r ≡ (if bad (ofs / chip.erasesize) then 1 else 0)

  -- From `h` on, the loop returns 0 within its turns, with the blocks `bs` read.
  abbrev pub Loads : ℕ → ℕ → ℕ → ℕ → ℕ → ℕ → List ℕ → Trace → Type 0
  Loads turns ofs block lastblock page dst bs h =
      (h' : Trace) × (load_loop dev fuel chip turns ofs block lastblock page dst h ≡ done 0 h')
      × Reads (image_pages chip.writesize (pages_per_block dev fuel chip) bs page dst) h h'

  abbrev pub next : ℕ → ℕ
  next ofs = (ofs + chip.erasesize) % 2 ^ 32

  none_left :
      (bad : ℕ → Bool) (turns block : ℕ) (bs : List ℕ) (page dst : ℕ)
      → good_blocks bad turns block 0 ≡ some bs
      → image_pages chip.writesize (pages_per_block dev fuel chip) bs page dst ≡ []
  unfolding good_blocks image_pages
  none_left bad zero block bs page dst g = ground arith
  none_left bad (suc turns) block bs page dst g = ground arith

  pub load_stop :
      (bad : ℕ → Bool) (turns left ofs block lastblock page dst : ℕ) (bs : List ℕ) (h : Trace)
      → leb block lastblock ≡ false
      → good_blocks bad left block 0 ≡ some bs
      → Loads (suc turns) ofs block lastblock page dst bs h
  unfolding load_loop
  load_stop bad turns left ofs block lastblock page dst bs h e g =
      (h, rw e refl, rw (none_left bad left block bs page dst g) here)

  -- A bad block moves the end of the image on.
  pub skip_bad :
      (turns ofs block lastblock page dst : ℕ) (bs : List ℕ) (h h1 : Trace)
      → leb block lastblock ≡ true
      → nand_block_isbad dev fuel chip ofs h ≡ done 1 h1
      → (block + 1) % 2 ^ 32 ≡ block + 1
      → (lastblock + 1) % 2 ^ 32 ≡ lastblock + 1
      → Loads turns (next ofs) (block + 1) (lastblock + 1) page dst bs h1
      → Loads (suc turns) ofs block lastblock page dst bs h
  unfolding load_loop
  skip_bad turns ofs block lastblock page dst bs h h1 e b n m (h2, e2, s) =
      (h2, rw (e, b, n, m) e2, looked ofs 1 b s)

  module _ (delays : Delays dev fuel) (up : IsSetUp chip) where
    read_pages-Reads :
        (n block page dst : ℕ) (h : Trace)
        → (h' : Trace) × (read_pages dev fuel chip block page dst n h
            ≡ done (advance chip.writesize dst n) h')
          × Reads (block_pages chip.writesize block page dst n) h h'
    unfolding read_pages advance block_pages
    read_pages-Reads zero block page dst h = (h, refl, here)
    read_pages-Reads (suc n) block page dst h =
        let (r, h1, e1) = (nand_read_page-Ends dev fuel delays chip up block page dst).runs h in
        let (h2, e2, s) =
          read_pages-Reads n block (page + 1) ((dst + chip.writesize) % 2 ^ 32) h1 in
        (h2, rw e1 e2, took (record { block = block; page = page; dst = dst }) r e1 s)

    -- The pages of a good block are read, and the next block is read from its first page on.
    pub take_good :
        (turns ofs block lastblock page dst : ℕ) (bs : List ℕ) (h h1 : Trace)
        → leb block lastblock ≡ true
        → nand_block_isbad dev fuel chip ofs h ≡ done 0 h1
        → (block + 1) % 2 ^ 32 ≡ block + 1
        → ((h2 : Trace)
            → Loads turns
                (next ofs)
                (block + 1)
                lastblock
                0
                (advance chip.writesize dst (pages_per_block dev fuel chip - page))
                bs
                h2)
        → Loads (suc turns) ofs block lastblock page dst (block ∷ bs) h
    unfolding load_loop image_pages
    take_good turns ofs block lastblock page dst bs h h1 e b n rest =
        let (h2, e2, s2) =
          read_pages-Reads (pages_per_block dev fuel chip - page) block page dst h1 in
        let (h3, e3, s3) = rest h2 in (h3, rw (e, b, e2, n) e3, looked ofs 0 b (Reads-append s2 s3))
