-- ===== src/Nand/Probe.antt =====
-- src/boot/nand.c: what `omap_nand_init` makes of a chip.
use miniboot.Common.{
  ℕ, zero, suc, ◌+◌, ◌*◌, ◌/◌, ◌%◌, ◌^◌, ◌<◌, ◌≤◌, ◌≡◌, ◌≢◌, ◌⊎◌, refl, inl, inr, Bool, true, false,
  Bool-cases, Option, none, some, List, [], ◌∷◌, bit_and, bit_or, ◌==◌, ltb, leb, ◌||◌, ◌&&◌,
  if◌then◌else◌, arith,
}
use miniboot.Common.Bits.{passes_below, passes_below_at, bit_and-ones}
use miniboot.Bus.{Device, Trace, done, crash, reply, rd, wr, word, byte, bit_not32}
use miniboot.Bus.Ends.{Ends, Ends-pure, Ends-bind, Ends-if, Ends-read}
use miniboot.Timer.Wait.{Advances, max_ticks, udelay_returns}
use miniboot.Nand.Chip.{
  NandChip, ReadBuf, read_buf16, no_read_buf, nand_chip, minus_one, nand_cmd_reset, nand_cmd_readid,
  CmdFunc, no_cmdfunc, small_page, large_page,
}
use miniboot.Nand.Ids.{FlashDesc, nand_flash_ids, find_flash}
use miniboot.Nand.Command.{cmdfunc}
use miniboot.Nand.Init.{
  extid_sizes, pick_cmdfunc, configure, gpmc_cs, gpmc_config, attach, read_sizes, set_type,
  nand_init, find_cs, omap_nand_attach, omap_nand_init,
}
use miniboot.Nand.Returns.{Delays}
use miniboot.Nand.Blocks.{IsSetUp, cmdfunc-Ends}

-- Pages of at least 512 bytes, and blocks of a whole number of pages and of at most 512 KiB.
pub record HasSizes (chip : NandChip) : Type 0 where
  pub page_size : 511 < chip.writesize
  pub block_size : chip.writesize < chip.erasesize
  pub whole_pages : chip.erasesize % chip.writesize ≡ 0
  pub small_block : chip.erasesize ≤ 0x80000

-- A row of the table says nothing of the sizes, or gives those of a small-page chip.
abbrev row_ok : FlashDesc → Bool
row_ok t = t.pagesize == 0 || (t.pagesize == 512 && t.erasesize == 0x4000)

abbrev rows_ok : List FlashDesc → Bool
rows_ok [] = true
rows_ok (t ∷ ts) = row_ok t && rows_ok ts

find_flash_ok :
    (devid : ℕ) (ts : List FlashDesc) (t : FlashDesc)
    → rows_ok ts ≡ true
    → find_flash devid ts ≡ some t
    → row_ok t ≡ true
unfolding find_flash
find_flash_ok devid [] t ok e = cc
find_flash_ok devid (s ∷ ts) t ok e = elim (Bool-cases (devid == s.id)) [
  | inl hit ↦ ground (arith, hit)
  | inr miss ↦ find_flash_ok devid ts t (ground arith) (rw miss at e)
]

abbrev sizes_check : ℕ → ℕ → Bool
sizes_check p q =
    ltb 511 (1024 * 2 ^ p)
    && ltb (1024 * 2 ^ p) (64 * 1024 * 2 ^ q)
    && 64 * 1024 * 2 ^ q % (1024 * 2 ^ p) == 0
    && leb (64 * 1024 * 2 ^ q) 0x80000

sizes_ok : (p q : ℕ) → p < 4 → q < 4 → sizes_check p q ≡ true
unfolding passes_below
sizes_ok p q hp hq =
    passes_below_at (sizes_check p) 4 q
      (passes_below_at (λ p. passes_below (sizes_check p) 4) 4 p refl hp) hq

abbrev SizesOk : ℕ → ℕ → Type 0
SizesOk w b = (511 < w) × (w < b) × (b % w ≡ 0) × (b ≤ 0x80000)

extid_sizes_ok : (extid : ℕ) → let (w, b) = extid_sizes extid in SizesOk w b
unfolding extid_sizes
extid_sizes_ok extid =
    let ok =
      sizes_ok (bit_and extid 3) (bit_and (extid / 2 ^ 4) 3) (omega (arith, bit_and-ones 2 extid))
        (omega (arith, bit_and-ones 2 (extid / 2 ^ 4))) in
    (ground arith, ground arith, ground arith, ground arith)

pick_cmdfunc_ok : (w : ℕ) (f : CmdFunc) → f ≢ no_cmdfunc → pick_cmdfunc w f ≢ no_cmdfunc
unfolding pick_cmdfunc
pick_cmdfunc_ok w no_cmdfunc ne e = ne refl
pick_cmdfunc_ok w small_page ne e = ground (arith, ne)
pick_cmdfunc_ok w large_page ne e = cc

read_buf_ok :
    (b : Bool) (f : ReadBuf) → f ≢ no_read_buf → (if b then read_buf16 else f) ≢ no_read_buf
read_buf_ok true f ne e = cc
read_buf_ok false f ne e = ne e

-- What `nand_init` leaves: the functions, and the sizes if the id is in the table.
abbrev pub Ready : NandChip → NandChip → Type 0
Ready chip chip' = IsSetUp chip' × ((chip' ≡ chip) ⊎ HasSizes chip')

configure-Ready :
    (chip : NandChip) (type : FlashDesc) (w b : ℕ)
    → IsSetUp chip
    → SizesOk w b
    → Ready chip (configure chip type (w, b))
unfolding configure
configure-Ready chip type w b up (p, q, r, s) = (
  record {
    has_cmdfunc = pick_cmdfunc_ok w chip.cmdfunc up.has_cmdfunc;
    has_read_buf = read_buf_ok _ chip.read_buf up.has_read_buf;
    has_block_bad = up.has_block_bad;
    has_dev_ready = up.has_dev_ready;
  },
  inr (record { page_size = p; block_size = q; whole_pages = r; small_block = s }),
)

pub attach-IsSetUp :
    (chip : NandChip) (cs : ℕ) → chip.cmdfunc ≢ no_cmdfunc → IsSetUp (attach chip cs)
unfolding attach
attach-IsSetUp chip cs ne = record {
  has_cmdfunc = ne;
  has_read_buf = λ e. cc;
  has_block_bad = refl;
  has_dev_ready = refl;
}

module _ (dev : Device) where
  set_type-Ready :
      (chip : NandChip) (devid : ℕ) (type : Option FlashDesc)
      → IsSetUp chip
      → find_flash devid nand_flash_ids ≡ type
      → (h : Trace)
      → (chip' : NandChip) × (h' : Trace) × (set_type dev chip type h ≡ done chip' h')
        × Ready chip chip'
  unfolding set_type read_sizes
  set_type-Ready chip devid none up e h = (chip, h, refl, (up, inl refl))
  set_type-Ready chip devid (some type) up e h =
      let ok = find_flash_ok devid nand_flash_ids type refl e in
      let extid =
        reply dev byte chip.dat_port (rd byte chip.dat_port (reply dev byte chip.dat_port h) ∷ h) in
      elim (Bool-cases (type.pagesize == 0)) [
        | inl by_id ↦ (
          configure chip type (extid_sizes extid),
          rd byte chip.dat_port extid ∷ rd byte chip.dat_port (reply dev byte chip.dat_port h) ∷ h,
          rw by_id,
          configure-Ready chip type _ _ up (extid_sizes_ok extid),
        )
        | inr by_row ↦
            let pages : type.pagesize ≡ 512 = ground arith in
            let blocks : type.erasesize ≡ 0x4000 = ground arith in
            (
              configure chip type (type.pagesize, type.erasesize),
              h,
              rw by_row,
              configure-Ready chip type type.pagesize type.erasesize up
                  (rw (pages, blocks) (omega arith, omega arith, refl, omega arith)),
            )
      ]

module _ (dev : Device) (fuel : ℕ) (delays : Delays dev fuel) where
  pub nand_init-Ready :
      (chip : NandChip)
      → IsSetUp chip
      → (h : Trace)
      → (chip' : NandChip) × (h' : Trace) × (nand_init dev fuel chip h ≡ done chip' h')
        × Ready chip chip'
  unfolding nand_init
  nand_init-Ready chip up h =
      let ends = cmdfunc-Ends dev fuel delays chip up chip.cmdfunc in
      let (u1, h1, e1) = (ends nand_cmd_reset minus_one minus_one up.has_cmdfunc).runs h in
      let (u2, h2, e2) = (ends nand_cmd_readid 0x00 minus_one up.has_cmdfunc).runs h1 in
      let h3 = rd byte chip.dat_port (reply dev byte chip.dat_port h2) ∷ h2 in
      let devid = reply dev byte chip.dat_port h3 in
      let (chip', h', e, ok) =
        set_type-Ready dev chip devid (find_flash devid nand_flash_ids) up refl
          (rd byte chip.dat_port devid ∷ h3) in
      (chip', h', rw (e1, e2) e, ok)

find_cs-Ends : (dev : Device) (cs n : ℕ) → Ends (find_cs dev cs n)
unfolding find_cs
find_cs-Ends dev cs zero = Ends-pure none
find_cs-Ends dev cs (suc n) =
    Ends-bind (Ends-read dev word (gpmc_cs cs))
      λ v. Ends-if (bit_and v 0xC00 == 0x800) (Ends-pure (some cs)) (find_cs-Ends dev (cs + 1) n)

-- `omap_nand_init` has failed and left the chip as it was, or succeeded and made it ready.
pub data Probed (chip : NandChip) : ℕ → NandChip → Type 0 where
  absent : Probed chip minus_one chip
  present : {chip' : NandChip} (cs : ℕ) → Ready (attach chip cs) chip' → Probed chip 0 chip'

-- The trace on which `omap_nand_init` calls `nand_init`.
abbrev pub configured : Device → ℕ → Trace → Trace
configured dev cs h =
    let cfg = reply dev word gpmc_config h in
    let h1 = wr word gpmc_config (bit_or cfg 0x10 % 2 ^ 32) ∷ rd word gpmc_config cfg ∷ h in
    let cfg1 = reply dev word (gpmc_cs cs) h1 in
    wr word (gpmc_cs cs) (bit_and cfg1 (bit_not32 0x1000) % 2 ^ 32) ∷ rd word (gpmc_cs cs) cfg1 ∷ h1

module _ (dev : Device) (fuel : ℕ) where
  attach-Probed :
      Delays dev fuel
      → (chip : NandChip) → chip.cmdfunc ≢ no_cmdfunc
      → (o : Option ℕ) (h : Trace)
      → (r : ℕ) × (chip' : NandChip) × (h' : Trace) × (omap_nand_attach dev fuel chip o h
          ≡ done (r, chip') h')
        × Probed chip r chip'
  unfolding omap_nand_attach
  attach-Probed delays chip ne none h = (_, _, _, refl, absent)
  attach-Probed delays chip ne (some cs) h =
      let (chip', h', e, ok) =
        nand_init-Ready dev fuel delays (attach chip cs) (attach-IsSetUp chip cs ne)
          (configured dev cs h) in
      (0, chip', h', rw e, present cs ok)

  -- Let the timer advance, and let the chip have a command function before the call. Whatever the
  -- hardware answers, `omap_nand_init` then returns: -1, with the chip as it was, or 0, with a chip
  -- on which every function that `nand_load` calls is set. In the latter case either nothing else
  -- has changed on the chip than what the controller needs, or a page has at least 512 bytes and a
  -- block a whole number of pages, more than one, and at most 512 KiB.
  pub omap_nand_init-Probed :
      Advances dev
      → max_ticks < fuel
      → (chip : NandChip) → chip.cmdfunc ≢ no_cmdfunc
      → (h : Trace)
      → (r : ℕ) × (chip' : NandChip) × (h' : Trace) × (omap_nand_init dev fuel chip h
          ≡ done (r, chip') h')
        × Probed chip r chip'
  unfolding omap_nand_init
  omap_nand_init-Probed adv big chip ne h =
      let (o, h1, e1) = (find_cs-Ends dev 0 8).runs h in
      let (r, chip', h2, e2, p) = attach-Probed (udelay_returns dev fuel adv big) chip ne o h1 in
      (r, chip', h2, rw e1 e2, p)

  -- On the chip that start.S leaves, whose command function is null, `omap_nand_init` returns -1
  -- with the chip as it was, or calls through the null pointer: it never succeeds, whatever the
  -- hardware answers.
  pub omap_nand_init-null :
      (h : Trace)
      → ((h' : Trace) × (omap_nand_init dev fuel nand_chip h ≡ done (minus_one, nand_chip) h'))
        ⊎ ((h' : Trace) × (omap_nand_init dev fuel nand_chip h ≡ crash h'))
  unfolding omap_nand_init omap_nand_attach nand_init cmdfunc attach
  omap_nand_init-null h = by_cs ((find_cs-Ends dev 0 8).runs h)
    where
      by_cs :
          ((o : Option ℕ) × (h1 : Trace) × (find_cs dev 0 8 h ≡ done o h1))
          → ((h' : Trace) × (omap_nand_init dev fuel nand_chip h ≡ done (minus_one, nand_chip) h'))
            ⊎ ((h' : Trace) × (omap_nand_init dev fuel nand_chip h ≡ crash h'))
      by_cs (none, h1, e) = inl (h1, rw e)
      by_cs (some cs, h1, e) = inr (configured dev cs h1, rw e)
