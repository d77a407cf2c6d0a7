-- ===== src/Nand/Memory.antt =====
-- src/boot/nand.c: what stands in memory when pages have been read from a chip with small pages.
use miniboot.Common.{
  lt→ltb, inside, ℕ, ◌+◌, ◌-◌, ◌*◌, ◌/◌, ◌%◌, ◌^◌, ◌<◌, ◌≡◌, ◌≢◌, refl, ap, ◌∙◌, inl, inr,
  Bool-cases, Option, some, List, [], ◌∷◌, All, bit_and, ◌==◌, if◌then◌else◌, arith,
}
use miniboot.Bus.{Device, Trace, done, reply, rd, byte, last_written, find_write, writes}
use miniboot.Nand.Chip.{
  CmdFunc, no_cmdfunc, small_page, large_page, BlockBad, no_block_bad, omap_block_bad, ReadBuf,
  no_read_buf, read_buf8, read_buf16, NandChip, minus_one, nand_cmd_read0, nand_cmd_readoob,
}
use miniboot.Nand.Command.{nand_command, cmdfunc}
use miniboot.Nand.Read.{
  nand_read_buf, read_buf, nand_read_page, omap_nand_block_bad, block_bad, nand_block_isbad,
}
use miniboot.Nand.Returns.{Delays}
use miniboot.Nand.Pages.{PageRead}
use miniboot.Nand.Stretch.{Reads, here, looked, took}
use miniboot.Nand.Card.{
  card_state, at_byte, page_limit, Serves, IsSmallPage, Looks, card_state-Looks, writes-Looks,
}
use miniboot.Nand.Cycles.{sent, nand_command-sent}
use miniboot.Nand.Store.{Clear, card_state-sent, nand_read_buf-content}

-- The page that `nand_read_page` asks for.
abbrev pub page_of : NandChip → PageRead → ℕ
page_of chip p = (p.page + p.block * (chip.erasesize / chip.writesize)) % 2 ^ 32

-- An address is not one of the ports that commands go to.
abbrev pub IsMemory : NandChip → ℕ → Type 0
IsMemory chip a = (chip.cmd_port ≢ a) × (chip.adr_port ≢ a)

-- The chip has the page, and there is room for it in memory.
pub record Fits (chip : NandChip) (p : PageRead) : Type 0 where
  pub page_ok : page_of chip p < page_limit chip
  pub room : Clear chip p.dst chip.writesize

module _ (chip : NandChip) (content : ℕ → ℕ → ℕ) where
  -- What the address `a` holds when the page of `p` has been read, and `v` before.
  abbrev pub with_page : PageRead → Option ℕ → ℕ → Option ℕ
  with_page p v a =
      if inside p.dst chip.writesize a then some (content (page_of chip p) (a - p.dst)) else v

  -- The same for the pages of a list, the first of them first.
  unfoldable pub with_pages : List PageRead → Option ℕ → ℕ → Option ℕ
  with_pages [] v a = v
  with_pages (p ∷ ps) v a = with_pages ps (with_page p v a) a

last_written-sent :
    (chip : NandChip) (cmd col page : ℕ) (h : Trace) (a : ℕ)
    → IsMemory chip a
    → last_written a (sent chip cmd col page h) ≡ last_written a h
unfolding last_written writes find_write
last_written-sent chip cmd col page h a (ne, me) = elim (Bool-cases (col == minus_one)) [
  | inl no_col ↦ elim (Bool-cases (page == minus_one)) [
    | inl no_page ↦ rw (no_col, no_page) (ground (arith, ne))
    | inr page_set ↦ rw (no_col, page_set) (ground (arith, ne, me))
  ]
  | inr col_set ↦ elim (Bool-cases (page == minus_one)) [
    | inl no_page ↦ rw (col_set, no_page) (ground (arith, ne, me))
    | inr page_set ↦ rw (col_set, page_set) (ground (arith, ne, me))
  ]
]

last_written-Looks :
    {chip : NandChip} {h h' : Trace} (a : ℕ)
    → Looks chip h h'
    → last_written a h' ≡ last_written a h
unfolding last_written
last_written-Looks a l = ap (find_write a) (writes-Looks l)

-- The functions that the pointers of a chip with small pages stand for.
module _ (dev : Device) (fuel : ℕ) (chip : NandChip) where
  cmdfunc-small_page :
      (f : CmdFunc) (cmd col page : ℕ) (h : Trace)
      → f ≡ small_page
      → cmdfunc dev fuel chip f cmd col page h ≡ nand_command dev fuel chip cmd col page h
  unfolding cmdfunc
  cmdfunc-small_page no_cmdfunc cmd col page h e = cc
  cmdfunc-small_page small_page cmd col page h e = refl
  cmdfunc-small_page large_page cmd col page h e = cc

  block_bad-omap :
      (f : BlockBad) (ofs : ℕ) (h : Trace)
      → f ≡ omap_block_bad
      → block_bad dev fuel chip f ofs h ≡ omap_nand_block_bad dev fuel chip ofs h
  unfolding block_bad
  block_bad-omap no_block_bad ofs h e = cc
  block_bad-omap omap_block_bad ofs h e = refl

  read_buf-bytes :
      (f : ReadBuf) (buf len : ℕ) (h : Trace)
      → f ≡ read_buf8
      → len < 2 ^ 31
      → read_buf dev chip f buf len h ≡ nand_read_buf dev chip buf len h
  unfolding read_buf
  read_buf-bytes no_read_buf buf len h e lt = cc
  read_buf-bytes read_buf8 buf len h e lt = rw (lt→ltb len (2 ^ 31) lt) refl
  read_buf-bytes read_buf16 buf len h e lt = cc

module _ (dev : Device) (fuel : ℕ) (delays : Delays dev fuel) (chip : NandChip)
    (small : IsSmallPage chip) where
  -- Looking at the mark of the block at `ofs` sends the command for it, and reads one byte.
  pub nand_block_isbad-sent :
      (ofs : ℕ) (h : Trace)
      → (h1 : Trace) × Looks chip
          (sent chip nand_cmd_readoob (bit_and chip.badblockpos 0xFE) (ofs / chip.writesize) h)
          h1
        × (nand_block_isbad dev fuel chip ofs h
            ≡ done
                (if reply dev byte chip.dat_port h1 == 0xff then 0 else 1)
                (rd byte chip.dat_port (reply dev byte chip.dat_port h1) ∷ h1))
  unfolding nand_block_isbad omap_nand_block_bad
  nand_block_isbad-sent ofs h =
      let col = bit_and chip.badblockpos 0xFE in
      let page = ofs / chip.writesize in
      let (h1, e1, l) =
        nand_command-sent dev fuel delays chip small nand_cmd_readoob col page h (omega arith) refl
          refl in
      (
        h1,
        l,
        rw
            (
              block_bad-omap dev fuel chip chip.block_bad ofs h small.has_block_bad,
              cmdfunc-small_page dev fuel chip chip.cmdfunc nand_cmd_readoob col page h
                  small.has_cmdfunc,
              e1,
              small.narrow,
            )
            refl,
      )

  -- So it leaves the memory as it is.
  nand_block_isbad-last_written :
      (ofs r : ℕ) (h h' : Trace)
      → nand_block_isbad dev fuel chip ofs h ≡ done r h'
      → (a : ℕ) → IsMemory chip a
      → last_written a h' ≡ last_written a h
  unfolding last_written writes find_write
  nand_block_isbad-last_written ofs r h h' e a mem =
      let col = bit_and chip.badblockpos 0xFE in
      let (h1, l, run) = nand_block_isbad-sent ofs h in
      let same : h' ≡ rd byte chip.dat_port (reply dev byte chip.dat_port h1) ∷ h1 = cc in
      rw same (
        last_written-Looks a l
        ∙ last_written-sent chip nand_cmd_readoob col (ofs / chip.writesize) h a mem)

  module _ (content : ℕ → ℕ → ℕ) (serves : Serves dev chip content)
      (int : chip.writesize < 2 ^ 31) where
    nand_read_page-content :
        (p : PageRead)
        → Fits chip p
        → (h : Trace)
        → (h' : Trace) × (nand_read_page dev fuel chip p.block p.page p.dst h ≡ done 0 h')
          × ((a : ℕ)
              → IsMemory chip a
              → last_written a h' ≡ with_page chip content p (last_written a h) a)
    unfolding nand_read_page
    nand_read_page-content p fits h =
        let pg = page_of chip p in
        let (h1, e1, l) =
          nand_command-sent dev fuel delays chip small nand_cmd_read0 0 pg h (omega arith) refl
            refl in
        let state : card_state chip h1 ≡ at_byte chip pg 0 =
          card_state-Looks l ∙ card_state-sent chip small pg h fits.page_ok in
        let (h2, e2, all) =
          nand_read_buf-content dev chip content serves chip.writesize p.dst pg 0 h1 fits.page_ok
            (omega arith) fits.room state in
        let before = λ (a : ℕ) (mem : IsMemory chip a).
          last_written-Looks a l ∙ last_written-sent chip nand_cmd_read0 0 pg h a mem in
        (
          h2,
          rw
              (
                cmdfunc-small_page dev fuel chip chip.cmdfunc nand_cmd_read0 0 pg h
                    small.has_cmdfunc,
                e1,
                read_buf-bytes dev fuel chip chip.read_buf p.dst chip.writesize h1
                    small.has_read_buf int,
              )
              (rw e2 refl),
          λ a mem.
              all a
              ∙ rw (before a mem) (
                  ap
                    (λ t.
                      if inside p.dst chip.writesize a
                      then some (content pg t)
                      else last_written a h)
                    (omega arith)),
        )

    -- A stretch of the program that reads the pages `ps` leaves them in memory, and nothing else.
    pub Reads-with_pages :
        {ps : List PageRead} {h h' : Trace}
        → Reads dev fuel chip ps h h'
        → All (Fits chip) ps
        → (a : ℕ) → IsMemory chip a
        → last_written a h' ≡ with_pages chip content ps (last_written a h) a
    unfolding with_pages
    Reads-with_pages here fits a mem = refl
    Reads-with_pages {ps} {h} (looked {h1 = h1} ofs r e reads) fits a mem =
        let same = nand_block_isbad-last_written ofs r h h1 e a mem in
        rw (← same) (Reads-with_pages reads fits a mem)
    Reads-with_pages {h = h} (took {h1 = h1} p r e reads) (fit, fits) a mem =
        let (h2, run, all) = nand_read_page-content p fit h in
        let same : h1 ≡ h2 = cc in rw (← all a mem, ← same) (Reads-with_pages reads fits a mem)
