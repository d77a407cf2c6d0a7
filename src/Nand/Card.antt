-- ===== src/Nand/Card.antt =====
-- A NAND chip with small pages, as what it answers to the commands of src/boot/nand.c. The chip is
-- not part of the program: it is a parameter, a device that keeps to the protocol below.
use miniboot.Common.{
  Bool, ℕ, ◌+◌, ◌/◌, ◌%◌, ◌^◌, ◌<◌, ◌≡◌, ◌≢◌, refl, ◌∙◌, List, [], ◌∷◌, bit_and, ◌==◌, ltb,
  if◌then◌else◌, arith,
}
use miniboot.Bus.{Device, Trace, reply, rd, wr, pause, byte, word, writes}
use miniboot.Timer.{timer_tcrr}
use miniboot.Nand.Chip.{
  NandChip, small_page, read_buf8, omap_block_bad, omap_ready, nand_buswidth_16,
}
use miniboot.Nand.Command.{gpmc_status}

-- What the chip has been sent: the last command, the address bytes behind it, the newest first, and
-- how many times its data port has been read since.
pub record CardState : Type 0 where
  pub command : ℕ
  pub address : List ℕ
  pub given : ℕ

unfoldable pub card_state : NandChip → Trace → CardState
card_state chip [] = record { command = 0xff; address = []; given = 0 }
card_state chip (wr w a v ∷ h) =
    let s = card_state chip h in
    if a == chip.cmd_port
    then record { command = v; address = []; given = 0 }
    else (if a == chip.adr_port then record s { address = v ∷ s.address } else s)
card_state chip (rd w a v ∷ h) =
    let s = card_state chip h in if a == chip.dat_port then record s { given = s.given + 1 } else s
card_state chip (pause n ∷ h) = card_state chip h

-- The chip is larger than 32 MiB, and takes a third address byte for the page.
abbrev pub is_large : NandChip → Bool
is_large chip = ltb 0x2000000 chip.chipsize

-- The address bytes of column 0 of a page, the newest first.
abbrev pub page_cycles : NandChip → ℕ → List ℕ
page_cycles chip page =
    let low : List ℕ = page / 2 ^ 8 % 256 ∷ page % 256 ∷ 0 ∷ [] in
    if is_large chip then page / 2 ^ 16 % 256 ∷ low else low

-- How many pages the address bytes can tell apart.
abbrev pub page_limit : NandChip → ℕ
page_limit chip = if is_large chip then 2 ^ 24 else 2 ^ 16

-- The chip is being read: byte `k` of a page is the next one.
abbrev pub at_byte : NandChip → ℕ → ℕ → CardState
at_byte chip page k = record { command = 0; address = page_cycles chip page; given = k }

-- The chip holds `content page k` at byte `k` of a page, and gives one byte of a page after another.
abbrev pub Serves : Device → NandChip → (ℕ → ℕ → ℕ) → Type 0
Serves dev chip content =
    (h : Trace) (page k : ℕ)
    → page < page_limit chip
    → k < chip.writesize
    → card_state chip h ≡ at_byte chip page k
    → reply dev byte chip.dat_port h ≡ content page k

-- A chip record for small pages on a bus of 8 bits, with ports that are no other registers.
pub record IsSmallPage (chip : NandChip) : Type 0 where
  pub has_cmdfunc : chip.cmdfunc ≡ small_page
  pub has_read_buf : chip.read_buf ≡ read_buf8
  pub has_block_bad : chip.block_bad ≡ omap_block_bad
  pub has_dev_ready : chip.dev_ready ≡ omap_ready
  pub narrow : bit_and chip.options nand_buswidth_16 ≡ 0
  pub ports : chip.cmd_port ≢ chip.adr_port
  pub no_timer : timer_tcrr ≢ chip.dat_port
  pub no_status : gpmc_status ≢ chip.dat_port

pub card_state-command :
    (chip : NandChip) (v : ℕ) (h : Trace)
    → card_state chip (wr byte chip.cmd_port v ∷ h)
      ≡ record { command = v; address = []; given = 0 }
unfolding card_state
card_state-command chip v h = ground arith

pub card_state-address :
    (chip : NandChip)
    → chip.cmd_port ≢ chip.adr_port
    → (v : ℕ) (h : Trace)
    → card_state chip (wr byte chip.adr_port v ∷ h)
      ≡ (let s = card_state chip h in record s { address = v ∷ s.address })
unfolding card_state
card_state-address chip ne v h = ground (arith, ne)

-- The trace has grown by reads of registers that are not the data port.
pub data Looks (chip : NandChip) (h : Trace) : Trace → Type 0 where
  here : Looks chip h h
  look :
      {h' : Trace} (a v : ℕ) → a ≢ chip.dat_port → Looks chip h h' → Looks chip h (rd word a v ∷ h')

pub Looks-trans :
    {chip : NandChip} {h h1 h2 : Trace} → Looks chip h h1 → Looks chip h1 h2 → Looks chip h h2
Looks-trans l here = l
Looks-trans l (look a v ne m) = look a v ne (Looks-trans l m)

-- Neither the chip nor what was written sees them.
pub card_state-Looks :
    {chip : NandChip} {h h' : Trace} → Looks chip h h' → card_state chip h' ≡ card_state chip h
unfolding card_state
card_state-Looks here = refl
card_state-Looks {chip} (look {h'} a v ne l) = ground (arith, ne) ∙ card_state-Looks l

pub writes-Looks : {chip : NandChip} {h h' : Trace} → Looks chip h h' → writes h' ≡ writes h
unfolding writes
writes-Looks here = refl
writes-Looks (look a v ne l) = writes-Looks l
