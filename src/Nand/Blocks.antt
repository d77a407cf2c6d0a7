-- ===== src/Nand/Blocks.antt =====
-- src/boot/nand.c: reading a page and looking at a block's mark always end, on a chip that has been
-- set up.
use miniboot.Common.{
  inr, inl, Bool-cases, ◌⊎◌, ℕ, zero, suc, ◌+◌, ◌/◌, ◌%◌, ◌^◌, ◌≡◌, ◌≢◌, refl, bit_and, ◌==◌,
  if◌then◌else◌,
}
use miniboot.Bus.{Device, Trace, done, reply, byte, half}
use miniboot.Bus.Ends.{Ends, Ends-pure, Ends-bind, Ends-read, Ends-writeb, Ends-writew, ends}
use miniboot.Timer.{udelay}
use miniboot.Nand.Chip.{
  NandChip, ReadBuf, no_read_buf, read_buf8, read_buf16, BlockBad, no_block_bad, omap_block_bad,
  omap_ready, CmdFunc, no_cmdfunc, small_page, large_page, nand_buswidth_16, nand_cmd_readoob,
}
use miniboot.Nand.Command.{
  nand_cmd_ctrl, page_address, small_cycles, nand_command, large_cycles, large_finish,
  nand_command_lp, cmdfunc, settle,
}
use miniboot.Nand.Read.{
  nand_read_buf, nand_read_buf16, read_buf, omap_nand_block_bad, block_bad, nand_block_isbad,
  nand_read_page,
}
use miniboot.Nand.Returns.{Delays, settle-IsQuiet}

-- The chip has been given its functions.
pub record IsSetUp (chip : NandChip) : Type 0 where
  pub has_cmdfunc : chip.cmdfunc ≢ no_cmdfunc
  pub has_read_buf : chip.read_buf ≢ no_read_buf
  pub has_block_bad : chip.block_bad ≡ omap_block_bad
  pub has_dev_ready : chip.dev_ready ≡ omap_ready

nand_cmd_ctrl-Ends : (chip : NandChip) (dat ctrl : ℕ) → Ends (nand_cmd_ctrl chip dat ctrl)
unfolding nand_cmd_ctrl
nand_cmd_ctrl-Ends chip dat ctrl = search ends

page_address-Ends : (chip : NandChip) (page : ℕ) → Ends (page_address chip page)
unfolding page_address
page_address-Ends chip page = search (ends, nand_cmd_ctrl-Ends)

small_cycles-Ends :
    (dev : Device) (fuel : ℕ) (chip : NandChip) (cmd col page : ℕ)
    → Ends (small_cycles dev fuel chip cmd col page)
unfolding small_cycles
small_cycles-Ends dev fuel chip cmd col page = search (ends, nand_cmd_ctrl-Ends, page_address-Ends)

large_cycles-Ends :
    (dev : Device) (fuel : ℕ) (chip : NandChip) (cmd col page : ℕ)
    → Ends (large_cycles dev fuel chip cmd col page)
unfolding large_cycles
large_cycles-Ends dev fuel chip cmd col page = search (ends, nand_cmd_ctrl-Ends, page_address-Ends)

nand_read_buf-Ends :
    (dev : Device) (chip : NandChip) (buf n : ℕ) → Ends (nand_read_buf dev chip buf n)
unfolding nand_read_buf
nand_read_buf-Ends dev chip buf zero = Ends-pure tt
nand_read_buf-Ends dev chip buf (suc n) =
    Ends-bind (Ends-read dev byte chip.dat_port)
      λ v. Ends-bind (Ends-writeb v (buf % 2 ^ 32)) λ _. nand_read_buf-Ends dev chip (buf + 1) n

nand_read_buf16-Ends :
    (dev : Device) (chip : NandChip) (buf n : ℕ) → Ends (nand_read_buf16 dev chip buf n)
unfolding nand_read_buf16
nand_read_buf16-Ends dev chip buf zero = Ends-pure tt
nand_read_buf16-Ends dev chip buf (suc n) =
    Ends-bind (Ends-read dev half chip.dat_port)
      λ v. Ends-bind (Ends-writew v (buf % 2 ^ 32)) λ _. nand_read_buf16-Ends dev chip (buf + 2) n

read_buf-Ends :
    (dev : Device) (chip : NandChip) (f : ReadBuf) (buf len : ℕ)
    → f ≢ no_read_buf
    → Ends (read_buf dev chip f buf len)
unfolding read_buf
read_buf-Ends dev chip no_read_buf buf len ne = absurd (ne refl)
read_buf-Ends dev chip read_buf8 buf len ne = nand_read_buf-Ends dev chip buf _
read_buf-Ends dev chip read_buf16 buf len ne = nand_read_buf16-Ends dev chip buf _

module _ (dev : Device) (fuel : ℕ) (delays : Delays dev fuel) (chip : NandChip)
    (up : IsSetUp chip) where
  udelay-Ends : (usec : ℕ) → Ends (udelay dev fuel usec)
  udelay-Ends usec = record { runs = λ h. let (h', e, q) = delays usec h in (tt, h', e) }

  settle-Ends : Ends (settle dev fuel chip)
  settle-Ends = record {
    runs =
        λ h. let (h', e, q) = settle-IsQuiet dev fuel delays chip up.has_dev_ready h in (tt, h', e);
  }

  large_finish-Ends : (cmd : ℕ) → Ends (large_finish dev fuel chip cmd)
  unfolding large_finish
  large_finish-Ends cmd = search (ends, nand_cmd_ctrl-Ends, settle-Ends, udelay-Ends) depth 7

  nand_command-Ends : (cmd col page : ℕ) → Ends (nand_command dev fuel chip cmd col page)
  unfolding nand_command
  nand_command-Ends cmd col page = search (ends, nand_cmd_ctrl-Ends, settle-Ends, small_cycles-Ends)

  nand_command_lp-Ends : (cmd col page : ℕ) → Ends (nand_command_lp dev fuel chip cmd col page)
  unfolding nand_command_lp
  nand_command_lp-Ends cmd col page = search (ends, large_finish-Ends, large_cycles-Ends)

  pub cmdfunc-Ends :
      (f : CmdFunc) (cmd col page : ℕ)
      → f ≢ no_cmdfunc
      → Ends (cmdfunc dev fuel chip f cmd col page)
  unfolding cmdfunc
  cmdfunc-Ends no_cmdfunc cmd col page ne = absurd (ne refl)
  cmdfunc-Ends small_page cmd col page ne = nand_command-Ends cmd col page
  cmdfunc-Ends large_page cmd col page ne = nand_command_lp-Ends cmd col page

  -- Reading a page returns, whatever the chip answers.
  pub nand_read_page-Ends :
      (block page dst : ℕ) → Ends (nand_read_page dev fuel chip block page dst)
  unfolding nand_read_page
  nand_read_page-Ends block page dst =
      Ends-bind (cmdfunc-Ends chip.cmdfunc _ _ _ up.has_cmdfunc)
        λ _. Ends-bind (read_buf-Ends dev chip chip.read_buf _ _ up.has_read_buf) λ _. Ends-pure 0

  omap_nand_block_bad-Ends : (ofs : ℕ) → Ends (omap_nand_block_bad dev fuel chip ofs)
  unfolding omap_nand_block_bad
  omap_nand_block_bad-Ends ofs =
      Ends-bind (cmdfunc-Ends chip.cmdfunc _ _ _ up.has_cmdfunc) λ _. search ends

  -- So does looking at the mark of a block.
  pub nand_block_isbad-Ends : (ofs : ℕ) → Ends (nand_block_isbad dev fuel chip ofs)
  unfolding nand_block_isbad block_bad
  nand_block_isbad-Ends ofs = by_pointer chip.block_bad up.has_block_bad
    where
      by_pointer : (f : BlockBad) → f ≡ omap_block_bad → Ends (block_bad dev fuel chip f ofs)
      by_pointer no_block_bad e = cc
      by_pointer omap_block_bad e = omap_nand_block_bad-Ends ofs

  -- What `omap_nand_block_bad` makes of the data port, on a bus of 8 or of 16 bits.
  abbrev pub Mark : ℕ → Trace → Type 0
  Mark r h =
      (r ≡ (if reply dev byte chip.dat_port h == 0xff then 0 else 1))
      ⊎ (r ≡ (if reply dev half chip.dat_port h == 0xffff then 0 else 1))

  -- The mark is what the data port gives, on some trace.
  pub nand_block_isbad-Mark :
      (ofs r : ℕ) (h h' : Trace)
      → nand_block_isbad dev fuel chip ofs h ≡ done r h'
      → (h1 : Trace) × Mark r h1
  unfolding nand_block_isbad block_bad omap_nand_block_bad
  nand_block_isbad-Mark ofs r h h' e = by_command (
      (cmdfunc-Ends chip.cmdfunc nand_cmd_readoob (bit_and chip.badblockpos 0xFE)
          (ofs / chip.writesize) up.has_cmdfunc).runs
        h)
    where
      by_pointer :
          (f : BlockBad)
          → f ≡ omap_block_bad
          → block_bad dev fuel chip f ofs h ≡ done r h'
          → omap_nand_block_bad dev fuel chip ofs h ≡ done r h'
      by_pointer no_block_bad q e = cc
      by_pointer omap_block_bad q e = e

      by_command :
          ((u : Unit {0}) × (h1 : Trace) × (cmdfunc dev fuel chip chip.cmdfunc nand_cmd_readoob
                (bit_and chip.badblockpos 0xFE)
                (ofs / chip.writesize)
                h
              ≡ done u h1))
          → (h1 : Trace) × Mark r h1
      by_command (u, h1, e1) =
          let run = by_pointer chip.block_bad up.has_block_bad e in
          elim (Bool-cases (bit_and chip.options nand_buswidth_16 == 0)) [
            | inl narrow ↦ (h1, inl (cc (rw (e1, narrow) at run)))
            | inr wide ↦ (h1, inr (cc (rw (e1, wide) at run)))
          ]
