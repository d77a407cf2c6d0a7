-- ===== src/Nand/Init.antt =====
-- src/boot/nand.c: identifying the chip and setting up the controller.
use miniboot.Common.{
  ℕ, zero, suc, ◌+◌, ◌*◌, ◌/◌, ◌%◌, ◌^◌, ◌||◌, not, Option, none, some, bit_and, bit_or, ◌==◌, ltb,
  if◌then◌else◌,
}
use miniboot.Bus.{Device, Prog, pure, ◌>>=◌, ◌>>◌, readb, readl, writel, bit_not32}
use miniboot.Nand.Chip.{
  NandChip, read_buf8, read_buf16, omap_block_bad, omap_ready, CmdFunc, no_cmdfunc, small_page,
  large_page, minus_one, nand_cmd_reset, nand_cmd_readid, nand_buswidth_16, omap_options,
  nand_small_badblock_pos, nand_large_badblock_pos,
}
use miniboot.Nand.Ids.{FlashDesc, nand_flash_ids, find_flash}
use miniboot.Nand.Command.{cmdfunc}

-- `u8 extid` decoded: page size and block size.
unfoldable pub extid_sizes : ℕ → ℕ × ℕ
extid_sizes extid = (1024 * 2 ^ bit_and extid 3, 64 * 1024 * 2 ^ bit_and (extid / 2 ^ 4) 3)

-- `if (chip->writesize > 512 && chip->cmdfunc == nand_command)`
unfoldable pub pick_cmdfunc : ℕ → CmdFunc → CmdFunc
pick_cmdfunc writesize no_cmdfunc = no_cmdfunc
pick_cmdfunc writesize small_page = if ltb 512 writesize then large_page else small_page
pick_cmdfunc writesize large_page = large_page

-- The assignments of `nand_init` once the type and the sizes are known.
unfoldable pub configure : NandChip → FlashDesc → ℕ × ℕ → NandChip
configure chip type (writesize, erasesize) =
    let options = bit_or chip.options type.options in
    record chip {
      chipsize = type.chipsize * 2 ^ 20 % 2 ^ 32;
      writesize = writesize;
      erasesize = erasesize;
      options = options;
      badblockpos =
          (if ltb 512 writesize || not (bit_and options nand_buswidth_16 == 0)
            then nand_large_badblock_pos
            else nand_small_badblock_pos);
      read_buf =
          (if not (bit_and type.options nand_buswidth_16 == 0) then read_buf16 else chip.read_buf);
      cmdfunc = pick_cmdfunc writesize chip.cmdfunc;
    }

-- GPMC_BASE + GPMC_CS0 + 0x30 * cs
abbrev pub gpmc_cs : ℕ → ℕ
gpmc_cs cs = 0x50000060 + 0x30 * cs

abbrev pub gpmc_config : ℕ
gpmc_config = 0x50000050

-- The fields that `omap_nand_init` sets in front of `nand_init`. The device is 8 bits wide.
unfoldable pub attach : NandChip → ℕ → NandChip
attach chip cs = record chip {
  cmd_port = gpmc_cs cs + 0x1C;
  adr_port = gpmc_cs cs + 0x20;
  dat_port = gpmc_cs cs + 0x24;
  options = bit_and (bit_or chip.options omap_options) (bit_not32 nand_buswidth_16);
  chip_delay = 100;
  read_buf = read_buf8;
  dev_ready = omap_ready;
  block_bad = omap_block_bad;
}

module _ (dev : Device) where
  -- The sizes come from the table, or from the fourth byte of the id.
  unfoldable pub read_sizes : NandChip → FlashDesc → Prog (ℕ × ℕ)
  read_sizes chip type =
      if type.pagesize == 0
      then (do
        _ ← readb dev chip.dat_port
        extid ← readb dev chip.dat_port
        pure (extid_sizes extid))
      else pure (type.pagesize, type.erasesize)

  -- `nand_init` behind the look-up of the type.
  unfoldable pub set_type : NandChip → Option FlashDesc → Prog NandChip
  set_type chip none = pure chip
  set_type chip (some type) = do sizes ← read_sizes chip type; pure (configure chip type sizes)

  unfoldable pub nand_init : ℕ → NandChip → Prog NandChip
  nand_init fuel chip = do
    cmdfunc dev fuel chip chip.cmdfunc nand_cmd_reset minus_one minus_one
    cmdfunc dev fuel chip chip.cmdfunc nand_cmd_readid 0x00 minus_one
    _ ← readb dev chip.dat_port
    devid ← readb dev chip.dat_port
    set_type chip (find_flash devid nand_flash_ids)

  -- `for (cs = 0; cs < GPMC_MAX_CS; cs++)`, with `n` chip selects left.
  unfoldable pub find_cs : ℕ → ℕ → Prog (Option ℕ)
  find_cs cs zero = pure none
  find_cs cs (suc n) = do
    v ← readl dev (gpmc_cs cs)
    (if bit_and v 0xC00 == 0x800 then pure (some cs) else find_cs (cs + 1) n)

  -- `omap_nand_init` once the loop over the chip selects has ended.
  unfoldable pub omap_nand_attach : ℕ → NandChip → Option ℕ → Prog (ℕ × NandChip)
  omap_nand_attach fuel chip none = pure (minus_one, chip)
  omap_nand_attach fuel chip (some cs) = do
    cfg ← readl dev gpmc_config
    writel (bit_or cfg 0x10) gpmc_config
    cfg1 ← readl dev (gpmc_cs cs)
    writel (bit_and cfg1 (bit_not32 0x1000)) (gpmc_cs cs)
    chip' ← nand_init fuel (attach chip cs)
    pure (0, chip')

  unfoldable pub omap_nand_init : ℕ → NandChip → Prog (ℕ × NandChip)
  omap_nand_init fuel chip = do cs ← find_cs 0 8; omap_nand_attach fuel chip cs
