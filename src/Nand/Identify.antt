-- ===== src/Nand/Identify.antt =====
-- src/boot/nand.c: `nand_init` on a chip with small pages that is in the table.
use miniboot.Common.{ℕ, ◌+◌, ◌≡◌, refl, ap, ◌∙◌, some, [], ◌∷◌, arith}
use miniboot.Bus.{Device, Trace, done, reply, rd, byte}
use miniboot.Nand.Chip.{NandChip, nand_chip, small_page, minus_one, nand_cmd_reset, nand_cmd_readid}
use miniboot.Nand.Ids.{FlashDesc, nand_flash_ids, find_flash}
use miniboot.Nand.Command.{cmdfunc}
use miniboot.Nand.Init.{configure, pick_cmdfunc, attach, read_sizes, set_type, nand_init}
use miniboot.Nand.Returns.{Delays}
use miniboot.Nand.Card.{CardState, card_state, IsSmallPage, card_state-Looks}
use miniboot.Nand.Cycles.{sent, nand_command-sent}

-- The chip record of the bss section, with the command function for small pages in it.
abbrev pub commanded : NandChip
commanded = record nand_chip { cmdfunc = small_page }

-- What `omap_nand_init` hands to `nand_init` for the first chip select.
abbrev pub attached : NandChip
attached = attach commanded 0

pub attached-IsSmallPage : IsSmallPage attached
unfolding attach
attached-IsSmallPage = record {
  has_cmdfunc = refl;
  has_read_buf = refl;
  has_block_bad = refl;
  has_dev_ready = refl;
  narrow = refl;
  ports = omega arith;
  no_timer = omega arith;
  no_status = omega arith;
}

-- A row of the table for small pages on a bus of 8 bits.
pub record IsSmallRow (type : FlashDesc) : Type 0 where
  pub page_size : type.pagesize ≡ 512
  pub block_size : type.erasesize ≡ 0x4000
  pub no_options : type.options ≡ 0

-- After the command to identify itself, the second byte that the chip gives is `devid`.
abbrev pub Identifies : Device → NandChip → ℕ → Type 0
Identifies dev chip devid =
    (h : Trace)
    → card_state chip h ≡ record { command = nand_cmd_readid; address = 0 ∷ []; given = 1 }
    → reply dev byte chip.dat_port h ≡ devid

abbrev pub identified : FlashDesc → NandChip
identified type = configure attached type (512, 0x4000)

pub identified-IsSmallPage : (type : FlashDesc) → IsSmallRow type → IsSmallPage (identified type)
unfolding attach configure pick_cmdfunc
identified-IsSmallPage type row = record {
  has_cmdfunc = refl;
  has_read_buf = rw row.no_options refl;
  has_block_bad = refl;
  has_dev_ready = refl;
  narrow = rw row.no_options refl;
  ports = omega arith;
  no_timer = omega arith;
  no_status = omega arith;
}

abbrev more_given : CardState → CardState
more_given s = record s { given = s.given + 1 }

module _ (dev : Device) (fuel : ℕ) (delays : Delays dev fuel) where
  card_state-readid :
      (h : Trace)
      → card_state attached (sent attached nand_cmd_readid 0 minus_one h)
        ≡ record { command = nand_cmd_readid; address = 0 ∷ []; given = 0 }
  unfolding card_state attach
  card_state-readid h = refl

  pub nand_init-identified :
      (devid : ℕ) (type : FlashDesc)
      → Identifies dev attached devid
      → find_flash devid nand_flash_ids ≡ some type
      → IsSmallRow type
      → (h : Trace) → (h' : Trace) × (nand_init dev fuel attached h ≡ done (identified type) h')
  unfolding nand_init set_type read_sizes card_state attach cmdfunc
  nand_init-identified devid type id found row h =
      let run = nand_command-sent dev fuel delays attached attached-IsSmallPage in
      let (h1, e1, l1) = run nand_cmd_reset minus_one minus_one h (omega arith) refl refl in
      let (h2, e2, l2) = run nand_cmd_readid 0 minus_one h1 (omega arith) refl refl in
      let port = attached.dat_port in
      let h3 : Trace = rd byte port (reply dev byte port h2) ∷ h2 in
      let asked = card_state-Looks l2 ∙ card_state-readid h1 in
      let second : reply dev byte port h3 ≡ devid = id h3 (ap more_given asked) in
      (
        rd byte port (reply dev byte port h3) ∷ h3,
        rw (e1, e2, second, found, row.page_size) (rw row.block_size refl),
      )
