-- ===== src/Nand/Simulated.antt =====
-- A simulated NAND chip with small pages and a bad block, which keeps to the protocol of Card.antt.
pub mod Tests
use miniboot.Common.{
  All, All-map, agree-All, ℕ, ◌+◌, ◌*◌, ◌/◌, ◌%◌, ◌^◌, ◌<◌, ◌≡◌, ◌≢◌, refl, ap, ◌∙◌, inl, inr, Bool,
  true, false, Bool-cases, some, List, [], ◌∷◌, length, bit_and, ◌==◌, ltb, if◌then◌else◌, arith,
}
use miniboot.Bus.{rd, wr, pause, Device, Trace, done, reply, byte, half, word}
use miniboot.Timer.Wait.{Advances, udelay_returns}
use miniboot.Nand.Chip.{
  NandChip, read_buf8, omap_block_bad, omap_ready, small_page, minus_one, nand_cmd_readoob,
  nand_cmd_readid,
}
use miniboot.Nand.Pages.{PageRead, good_blocks, image_pages, block_pages, advance}
use miniboot.Nand.Stretch.{IsMarked}
use miniboot.Nand.Card.{
  CardState, card_state, is_large, page_limit, at_byte, Serves, IsSmallPage, card_state-Looks,
}
use miniboot.Nand.Ids.{FlashDesc, nand_flash_ids, find_flash}
use miniboot.Nand.Init.{attach, configure}
use miniboot.Nand.Returns.{Delays}
use miniboot.Nand.Identify.{attached, IsSmallRow, Identifies, identified, identified-IsSmallPage}
use miniboot.Nand.Cycles.{sent}
use miniboot.Nand.Memory.{page_of, nand_block_isbad-sent}
use miniboot.Nand.Store.{Clear}
use miniboot.Nand.Copied.{OnChip}
use miniboot.Nand.Loaded.{pages_from}

-- The row of the table for the chip: pages of 512 bytes, blocks of 16 KiB, 32 MiB.
abbrev pub type : FlashDesc
type = record { id = 0x75; pagesize = 512; chipsize = 32; erasesize = 0x4000; options = 0 }

pub type-IsSmallRow : IsSmallRow type
type-IsSmallRow = record { page_size = refl; block_size = refl; no_options = refl }

pub type_listed : find_flash 0x75 nand_flash_ids ≡ some type
unfolding find_flash
type_listed = refl

abbrev pub chip : NandChip
chip = identified type

pub chip-IsSmallPage : IsSmallPage chip
chip-IsSmallPage = identified-IsSmallPage type type-IsSmallRow

-- Block 33 is bad. A block that the chip does not have is the one that the address bytes name.
abbrev pub bad : ℕ → Bool
bad b = b % 2048 == 33

abbrev pub content : ℕ → ℕ → ℕ
content page k = (page + k) % 256

abbrev page_shown : List ℕ → ℕ
page_shown (high ∷ low ∷ col ∷ bytes) = high * 256 + low
page_shown bytes = 0

-- It says that it is from Toshiba, and which row of the table is its own.
abbrev pub answer : CardState → ℕ
answer s =
    let page = page_shown s.address in
    if s.command == nand_cmd_readid
    then (if s.given == 0 then 0x98 else 0x75)
    else if s.command == nand_cmd_readoob
    then (if bad (page / 32) then 0 else 0xff)
    else content page s.given

-- The counter counts the accesses.
abbrev pub device : Device
device byte a h = answer (card_state chip h)
device half a h = 0xffff
device word a h = length h

abbrev pub fuel : ℕ
fuel = 5000000

pub device-Advances : Advances device
device-Advances h = (omega arith, omega arith)

card_state-mark :
    (page : ℕ) (h : Trace)
    → answer (card_state chip (sent chip nand_cmd_readoob 4 page h))
      ≡ (if bad (page / 32) then 0 else 0xff)
unfolding card_state configure attach
card_state-mark page h = elim (Bool-cases (page == minus_one)) [
  | inl no_page ↦
      let block : bad (page / 32) ≡ false = ground (arith, no_page) in rw (no_page, block) refl
  | inr page_set ↦
      let block : (page / 2 ^ 8 % 256 * 256 + page % 256) / 32 % 2048 ≡ page / 32 % 2048 =
        omega arith in
      rw page_set (ap (λ b. if b == 33 then 0 else 0xff) block)
]

abbrev mark_of : ℕ → ℕ
mark_of v = if v == 0xff then 0 else 1

abbrev bit_of : Bool → ℕ
bit_of b = if b then 1 else 0

mark_byte : (v : ℕ) (b : Bool) → v ≡ (if b then 0 else 0xff) → mark_of (v % 256) ≡ bit_of b
mark_byte v b e = ground arith

same_ports : (h : Trace) → card_state chip h ≡ card_state attached h
unfolding card_state configure attach
same_ports [] = refl
same_ports (wr w a v ∷ h) = rw (same_ports h) refl
same_ports (rd w a v ∷ h) = rw (same_ports h) refl
same_ports (pause n ∷ h) = same_ports h

-- A device that has the chip at its data port.
module _ (dev : Device)
    (has_chip : (h : Trace) → dev byte 0x50000084 h ≡ answer (card_state chip h)) where
  pub chip-Serves : Serves dev chip content
  unfolding configure attach
  chip-Serves h page k lp lk e =
      let shown : page / 2 ^ 8 % 256 * 256 + page % 256 ≡ page = omega arith in
      rw (has_chip h, e) (rw shown (omega arith))

  pub chip-Identifies : Identifies dev attached 0x75
  unfolding configure attach
  chip-Identifies h e = rw (has_chip h) (rw (same_ports h, e) refl)

  pub chip-IsMarked : (fuel : ℕ) → Delays dev fuel → IsMarked dev fuel chip bad
  unfolding configure attach
  chip-IsMarked fuel delays ofs r h h' e =
      let (h1, l, run) = nand_block_isbad-sent dev fuel delays chip chip-IsSmallPage ofs h in
      let seen = ap answer (card_state-Looks l) ∙ card_state-mark (ofs / 512) h in
      let block : ofs / 512 / 32 ≡ ofs / 0x4000 = omega arith in
      let same : r ≡ (if reply dev byte chip.dat_port h1 == 0xff then 0 else 1) = cc in
      same
      ∙ rw (has_chip h1)
          (mark_byte (answer (card_state chip h1)) (bad (ofs / 0x4000)) (rw block at seen))

-- 1 KiB from the last page of block 32 on, which is followed by the bad block.
abbrev pub blocks : List ℕ
blocks = 32 ∷ 34 ∷ []

pub blocks-good : good_blocks bad 5 32 2 ≡ some blocks
unfolding good_blocks
blocks-good = refl

pub blocks-OnChip : OnChip chip (pages_from chip blocks 0x83E00 0x80000000)
unfolding image_pages block_pages advance configure attach
blocks-OnChip =
    let pages = pages_from chip blocks 0x83E00 0x80000000 in
    let limit = λ (p : PageRead) (lt : ltb (page_of chip p) (page_limit chip) ≡ true).
      let z : page_of chip p < page_limit chip = ground (arith, lt) in z in
    All-map pages limit
      (agree-All (λ p. ltb (page_of chip p) (page_limit chip)) (λ p. true) pages refl)

pub blocks-Clear : Clear chip 0x80000000 (33 * 512)
unfolding configure attach
blocks-Clear = record { command_port = refl; address_port = refl; no_wrap = omega arith }
