-- ===== src/Nand/Read.antt =====
-- src/boot/nand.c: reading pages and loading an image. A byte that the program stores in memory goes
-- over the bus like a write to a register.
use miniboot.Common.{
  ℕ, zero, suc, ◌+◌, ◌-◌, ◌*◌, ◌/◌, ◌%◌, ◌^◌, not, bit_and, ◌==◌, leb, ltb, if◌then◌else◌,
}
use miniboot.Bus.{Device, Prog, spinning, crash, pure, ◌>>=◌, ◌>>◌, readb, readw, writeb, writew}
use miniboot.Nand.Chip.{
  NandChip, ReadBuf, no_read_buf, read_buf8, read_buf16, BlockBad, no_block_bad, omap_block_bad,
  nand_cmd_read0, nand_cmd_readoob, nand_buswidth_16, sub32, halve_int,
}
use miniboot.Nand.Command.{cmdfunc}

-- The rounds of a loop `i < len`: none for a negative `int len`.
abbrev pub rounds : ℕ → ℕ
rounds len = if ltb len (2 ^ 31) then len else 0

module _ (dev : Device) where
  -- `for (i = 0; i < len; i++)`: `n` rounds are left, and the next byte goes to `buf`.
  unfoldable pub nand_read_buf : NandChip → ℕ → ℕ → Prog (Unit {0})
  nand_read_buf chip buf zero = pure tt
  nand_read_buf chip buf (suc n) = do
    v ← readb dev chip.dat_port
    writeb v (buf % 2 ^ 32)
    nand_read_buf chip (buf + 1) n

  -- The same loop for a bus of 16 bits, after `len >>= 1`.
  unfoldable pub nand_read_buf16 : NandChip → ℕ → ℕ → Prog (Unit {0})
  nand_read_buf16 chip buf zero = pure tt
  nand_read_buf16 chip buf (suc n) = do
    v ← readw dev chip.dat_port
    writew v (buf % 2 ^ 32)
    nand_read_buf16 chip (buf + 2) n

  -- `chip->read_buf(chip, buf, len)`
  unfoldable pub read_buf : NandChip → ReadBuf → ℕ → ℕ → Prog (Unit {0})
  read_buf chip no_read_buf buf len = crash
  read_buf chip read_buf8 buf len = nand_read_buf chip buf (rounds len)
  read_buf chip read_buf16 buf len = nand_read_buf16 chip buf (rounds (halve_int len))

module _ (dev : Device) (fuel : ℕ) (chip : NandChip) where
  -- `omap_nand_block_bad`
  unfoldable pub omap_nand_block_bad : ℕ → Prog ℕ
  omap_nand_block_bad ofs = do
    cmdfunc dev fuel chip chip.cmdfunc nand_cmd_readoob (bit_and chip.badblockpos 0xFE)
        (ofs / chip.writesize)
    (if not (bit_and chip.options nand_buswidth_16 == 0)
        then (do v ← readw dev chip.dat_port; pure (if v == 0xffff then 0 else 1))
        else (do v ← readb dev chip.dat_port; pure (if v == 0xff then 0 else 1)))

  -- `chip->block_bad(chip, ofs)`
  unfoldable pub block_bad : BlockBad → ℕ → Prog ℕ
  block_bad no_block_bad ofs = crash
  block_bad omap_block_bad ofs = omap_nand_block_bad ofs

  unfoldable pub nand_block_isbad : ℕ → Prog ℕ
  nand_block_isbad ofs = block_bad chip.block_bad ofs

  abbrev pub pages_per_block : ℕ
  pages_per_block = chip.erasesize / chip.writesize

  unfoldable pub nand_read_page : ℕ → ℕ → ℕ → Prog ℕ
  nand_read_page block page dst = do
    cmdfunc dev fuel chip chip.cmdfunc nand_cmd_read0 0 ((page + block * pages_per_block) % 2 ^ 32)
    read_buf dev chip chip.read_buf dst chip.writesize
    pure 0

  -- `while (page < cnt)`, with `n = cnt - page` rounds left; the result is `dst`.
  unfoldable pub read_pages : ℕ → ℕ → ℕ → ℕ → Prog ℕ
  read_pages block page dst zero = pure dst
  read_pages block page dst (suc n) = do
    _ ← nand_read_page block page dst
    read_pages block (page + 1) ((dst + chip.writesize) % 2 ^ 32) n

  -- `while (block <= lastblock)`. A bad block moves the end by one block.
  unfoldable pub load_loop : ℕ → ℕ → ℕ → ℕ → ℕ → ℕ → Prog ℕ
  load_loop zero ofs block lastblock page dst = λ h. spinning
  load_loop (suc turns) ofs block lastblock page dst =
      if leb block lastblock
      then (do
        bad ← nand_block_isbad ofs
        (if bad == 0
            then (do
              dst' ← read_pages block page dst (pages_per_block - page)
              load_loop turns ((ofs + chip.erasesize) % 2 ^ 32) ((block + 1) % 2 ^ 32) lastblock 0
                  dst')
            else load_loop turns ((ofs + chip.erasesize) % 2 ^ 32) ((block + 1) % 2 ^ 32)
                ((lastblock + 1) % 2 ^ 32) page dst))
      else pure 0

  unfoldable pub nand_load : ℕ → ℕ → ℕ → Prog ℕ
  nand_load ofs size dst =
      load_loop fuel ofs (ofs / chip.erasesize) (sub32 (ofs + size) 1 / chip.erasesize)
        (ofs % chip.erasesize / chip.writesize) dst
