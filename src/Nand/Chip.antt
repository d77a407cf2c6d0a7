-- ===== src/Nand/Chip.antt =====
-- `struct nand_chip` and the constants of include/nand.h. A function pointer is null or one of the
-- functions of src/boot/nand.c that is put there; an `int` is its 32-bit pattern.
use miniboot.Common.{ℕ, ◌+◌, ◌-◌, ◌/◌, ◌%◌, ◌^◌, Bool, ltb, if◌then◌else◌}

pub data ReadBuf : Type 0 where
  no_read_buf read_buf8 read_buf16 : ReadBuf

pub data BlockBad : Type 0 where
  no_block_bad omap_block_bad : BlockBad

pub data DevReady : Type 0 where
  no_dev_ready omap_ready : DevReady

pub data CmdFunc : Type 0 where
  no_cmdfunc small_page large_page : CmdFunc

pub record NandChip : Type 0 where
  pub cmd_port : ℕ
  pub adr_port : ℕ
  pub dat_port : ℕ
  pub erasesize : ℕ
  pub writesize : ℕ
  pub chipsize : ℕ
  pub read_buf : ReadBuf
  pub block_bad : BlockBad
  pub dev_ready : DevReady
  pub cmdfunc : CmdFunc
  pub chip_delay : ℕ
  pub options : ℕ
  pub badblockpos : ℕ

-- `struct nand_chip __nand_chip;` lies in the bss section, which start.S clears.
abbrev pub nand_chip : NandChip
nand_chip = record {
  cmd_port = 0;
  adr_port = 0;
  dat_port = 0;
  erasesize = 0;
  writesize = 0;
  chipsize = 0;
  read_buf = no_read_buf;
  block_bad = no_block_bad;
  dev_ready = no_dev_ready;
  cmdfunc = no_cmdfunc;
  chip_delay = 0;
  options = 0;
  badblockpos = 0;
}

-- -1 as an int
abbrev pub minus_one : ℕ
minus_one = 0xffff_ffff

abbrev pub nand_cmd_none : ℕ
nand_cmd_none = minus_one

abbrev pub nand_cmd_read0 : ℕ
nand_cmd_read0 = 0

abbrev pub nand_cmd_read1 : ℕ
nand_cmd_read1 = 1

abbrev pub nand_cmd_rndout : ℕ
nand_cmd_rndout = 5

abbrev pub nand_cmd_pageprog : ℕ
nand_cmd_pageprog = 0x10

abbrev pub nand_cmd_cachedprog : ℕ
nand_cmd_cachedprog = 0x15

abbrev pub nand_cmd_readstart : ℕ
nand_cmd_readstart = 0x30

abbrev pub nand_cmd_readoob : ℕ
nand_cmd_readoob = 0x50

abbrev pub nand_cmd_erase1 : ℕ
nand_cmd_erase1 = 0x60

abbrev pub nand_cmd_status : ℕ
nand_cmd_status = 0x70

abbrev pub nand_cmd_status_error : ℕ
nand_cmd_status_error = 0x72

abbrev pub nand_cmd_status_error3 : ℕ
nand_cmd_status_error3 = 0x76

abbrev pub nand_cmd_seqin : ℕ
nand_cmd_seqin = 0x80

abbrev pub nand_cmd_rndin : ℕ
nand_cmd_rndin = 0x85

abbrev pub nand_cmd_readid : ℕ
nand_cmd_readid = 0x90

abbrev pub nand_cmd_erase2 : ℕ
nand_cmd_erase2 = 0xd0

abbrev pub nand_cmd_rndoutstart : ℕ
nand_cmd_rndoutstart = 0xe0

abbrev pub nand_cmd_reset : ℕ
nand_cmd_reset = 0xff

abbrev pub nand_cmd_deplete1 : ℕ
nand_cmd_deplete1 = 0x100

-- NAND_NCE, NAND_CTRL_CLE and NAND_CTRL_ALE
abbrev pub nand_nce : ℕ
nand_nce = 1

abbrev pub nand_ctrl_cle : ℕ
nand_ctrl_cle = 3

abbrev pub nand_ctrl_ale : ℕ
nand_ctrl_ale = 5

abbrev pub nand_buswidth_16 : ℕ
nand_buswidth_16 = 2

-- NAND_NO_PADDING | NAND_CACHEPRG
abbrev pub omap_options : ℕ
omap_options = 0xc

-- LP_OPTIONS and LP_OPTIONS16
abbrev pub lp_options : ℕ
lp_options = 0x1c

abbrev pub lp_options16 : ℕ
lp_options16 = 0x1e

abbrev pub nand_small_badblock_pos : ℕ
nand_small_badblock_pos = 5

abbrev pub nand_large_badblock_pos : ℕ
nand_large_badblock_pos = 0

-- `x >> 1` of an int: the sign is copied.
abbrev pub halve_int : ℕ → ℕ
halve_int x = if ltb x (2 ^ 31) then x / 2 else x / 2 + 2 ^ 31

-- `a - b` of 32-bit words
abbrev pub sub32 : ℕ → ℕ → ℕ
sub32 a b = (a + 2 ^ 32 - b) % 2 ^ 32

-- `a < b` of ints
abbrev pub lt_int : ℕ → ℕ → Bool
lt_int a b = ltb ((a + 2 ^ 31) % 2 ^ 32) ((b + 2 ^ 31) % 2 ^ 32)
