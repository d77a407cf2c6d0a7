-- ===== src/Nand/Command.antt =====
-- src/boot/nand.c: the command protocol of small-page and large-page chips.
use miniboot.Common.{
  ℕ, zero, suc, ◌+◌, ◌/◌, ◌%◌, ◌^◌, Bool, not, ◌&&◌, ◌||◌, bit_and, ◌==◌, ltb, leb, if◌then◌else◌,
}
use miniboot.Bus.{Device, Prog, crash, pure, ◌>>=◌, ◌>>◌, readl, writeb}
use miniboot.Timer.{udelay}
use miniboot.Nand.Chip.{
  NandChip, DevReady, no_dev_ready, omap_ready, minus_one, nand_cmd_none, nand_cmd_read0,
  nand_cmd_read1, nand_cmd_rndout, nand_cmd_pageprog, nand_cmd_cachedprog, nand_cmd_readstart,
  nand_cmd_readoob, nand_cmd_erase1, nand_cmd_status, nand_cmd_status_error, nand_cmd_status_error3,
  nand_cmd_seqin, nand_cmd_rndin, nand_cmd_erase2, nand_cmd_rndoutstart, nand_cmd_deplete1,
  nand_nce, nand_ctrl_cle, nand_ctrl_ale, nand_buswidth_16, halve_int, sub32, lt_int,
}
use miniboot.Nand.Chip.{CmdFunc, no_cmdfunc, small_page, large_page}

-- GPMC_BASE + GPMC_STATUS
abbrev pub gpmc_status : ℕ
gpmc_status = 0x50000054

-- A command or address byte goes to the port that `ctrl` selects.
unfoldable pub nand_cmd_ctrl : NandChip → ℕ → ℕ → Prog (Unit {0})
nand_cmd_ctrl chip dat ctrl =
    if nand_cmd_none == dat
    then pure tt
    else if ctrl == nand_ctrl_cle
    then writeb dat chip.cmd_port
    else if ctrl == nand_ctrl_ale
    then writeb dat chip.adr_port
    else if ctrl == nand_nce
    then writeb dat chip.dat_port
    else pure tt

-- The command byte that `nand_command` sends in front of a SEQIN, and the column that it leaves.
unfoldable pub seqin_area : NandChip → ℕ → ℕ × ℕ
seqin_area chip col =
    if leb chip.writesize col
    then (nand_cmd_readoob, sub32 col chip.writesize)
    else if lt_int col 256
    then (nand_cmd_read0, col)
    else (nand_cmd_read1, sub32 col 256)

-- `col` for a bus of 16 bits
abbrev pub bus_column : NandChip → ℕ → ℕ
bus_column chip col =
    if not (bit_and chip.options nand_buswidth_16 == 0) then halve_int col else col

unfoldable pub page_address : NandChip → ℕ → Prog (Unit {0})
unfolding nand_cmd_ctrl
page_address chip page = if page == minus_one then pure tt else do
  nand_cmd_ctrl chip (page % 256) nand_ctrl_ale
  nand_cmd_ctrl chip (page / 2 ^ 8 % 256) nand_ctrl_ale
  (if ltb 0x2000000 chip.chipsize
      then nand_cmd_ctrl chip (page / 2 ^ 16 % 256) nand_ctrl_ale
      else pure tt)

-- The commands after which `nand_command` does not wait.
abbrev pub is_quiet : ℕ → Bool
is_quiet cmd =
    cmd == nand_cmd_pageprog
    || cmd == nand_cmd_erase1
    || cmd == nand_cmd_erase2
    || cmd == nand_cmd_seqin
    || cmd == nand_cmd_status

abbrev pub is_quiet_lp : ℕ → Bool
is_quiet_lp cmd =
    is_quiet cmd || cmd == nand_cmd_cachedprog || cmd == nand_cmd_rndin || cmd == nand_cmd_deplete1

module _ (dev : Device) (fuel : ℕ) where
  unfoldable pub dev_ready : DevReady → Prog Bool
  dev_ready no_dev_ready = crash
  dev_ready omap_ready = do v ← readl dev gpmc_status; pure (not (bit_and v 0x100 == 0))

  -- `do … while (retries--)`: the last try is at retries = 0.
  unfoldable pub wait_ready_loop : DevReady → ℕ → Prog ℕ
  wait_ready_loop ready zero = do
    r ← dev_ready ready
    if r then pure 1 else (udelay dev fuel 0x500 >> pure 0)
  wait_ready_loop ready (suc retries) = do
    r ← dev_ready ready
    if r then pure 1 else (udelay dev fuel 0x500 >> wait_ready_loop ready retries)

  unfoldable pub nand_wait_ready : NandChip → Prog ℕ
  nand_wait_ready chip = wait_ready_loop chip.dev_ready 100

  -- What both command functions end with.
  unfoldable pub settle : NandChip → Prog (Unit {0})
  settle chip = do udelay dev fuel 100; _ ← nand_wait_ready chip; pure tt

  -- The command byte and the column and page cycles of `nand_command`.
  unfoldable pub small_cycles : NandChip → ℕ → ℕ → ℕ → Prog (Unit {0})
  small_cycles chip cmd col page = do
    nand_cmd_ctrl chip cmd nand_ctrl_cle
    (if col == minus_one
        then pure tt
        else nand_cmd_ctrl chip (bus_column chip col % 256) nand_ctrl_ale)
    page_address chip page

  unfoldable pub nand_command : NandChip → ℕ → ℕ → ℕ → Prog (Unit {0})
  unfolding seqin_area small_cycles
  nand_command chip cmd col page = do
    (if cmd == nand_cmd_seqin
        then (let (readcmd, rest) = seqin_area chip col in
            nand_cmd_ctrl chip readcmd nand_ctrl_cle >> small_cycles chip cmd rest page)
        else small_cycles chip cmd col page)
    (if is_quiet cmd then pure tt else settle chip)

  -- The command byte and the column and page cycles of `nand_command_lp`.
  unfoldable pub large_cycles : NandChip → ℕ → ℕ → ℕ → Prog (Unit {0})
  large_cycles chip cmd col page = do
    nand_cmd_ctrl chip cmd nand_ctrl_cle
    (if col == minus_one then pure tt else do
      nand_cmd_ctrl chip (bus_column chip col % 256) nand_ctrl_ale
      nand_cmd_ctrl chip (bus_column chip col / 2 ^ 8 % 256) nand_ctrl_ale)
    page_address chip page

  -- What `nand_command_lp` does after the cycles.
  unfoldable pub large_finish : NandChip → ℕ → Prog (Unit {0})
  large_finish chip cmd =
      if is_quiet_lp cmd
      then pure tt
      else if leb nand_cmd_status_error cmd && leb cmd nand_cmd_status_error3
      then udelay dev fuel chip.chip_delay
      else if cmd == nand_cmd_rndout
      then nand_cmd_ctrl chip nand_cmd_rndoutstart nand_ctrl_ale
      else if cmd == nand_cmd_read0
      then (nand_cmd_ctrl chip nand_cmd_readstart nand_ctrl_ale >> settle chip)
      else settle chip

  unfoldable pub nand_command_lp : NandChip → ℕ → ℕ → ℕ → Prog (Unit {0})
  unfolding large_cycles large_finish
  nand_command_lp chip cmd col page =
      if cmd == nand_cmd_readoob
      then (large_cycles chip nand_cmd_read0 ((col + chip.writesize) % 2 ^ 32) page
          >> large_finish chip nand_cmd_read0)
      else (large_cycles chip cmd col page >> large_finish chip cmd)

  -- `chip->cmdfunc(chip, cmd, col, page)`
  unfoldable pub cmdfunc : NandChip → CmdFunc → ℕ → ℕ → ℕ → Prog (Unit {0})
  cmdfunc chip no_cmdfunc cmd col page = crash
  cmdfunc chip small_page cmd col page = nand_command chip cmd col page
  cmdfunc chip large_page cmd col page = nand_command_lp chip cmd col page
