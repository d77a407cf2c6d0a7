-- ===== src/Nand/Cycles.antt =====
-- src/boot/nand.c: what `nand_command` sends to a chip with small pages.
use miniboot.Common.{
  ℕ, zero, suc, ◌/◌, ◌%◌, ◌^◌, ◌<◌, ◌≡◌, refl, inl, inr, false, Bool-cases, List, [], ◌∷◌, bit_and,
  ◌==◌, if◌then◌else◌, arith,
}
use miniboot.Bus.{Device, Trace, done, reply, rd, wr, byte, word}
use miniboot.Timer.{timer_tcrr, udelay}
use miniboot.Timer.Wait.{counter_reads, udelay-Delayed}
use miniboot.Nand.Chip.{
  NandChip, DevReady, no_dev_ready, omap_ready, minus_one, nand_cmd_seqin, nand_ctrl_ale,
  nand_ctrl_cle,
}
use miniboot.Nand.Command.{
  gpmc_status, dev_ready, wait_ready_loop, nand_wait_ready, settle, nand_cmd_ctrl, page_address,
  bus_column, is_quiet, small_cycles, nand_command,
}
use miniboot.Nand.Returns.{Delays}
use miniboot.Nand.Card.{is_large, IsSmallPage, Looks, here, look, Looks-trans}

-- The trace when the command byte, the column and the page have been sent.
abbrev pub page_sent : NandChip → ℕ → Trace → Trace
page_sent chip page h =
    let low : Trace =
      wr byte chip.adr_port (page / 2 ^ 8 % 256) ∷ wr byte chip.adr_port (page % 256) ∷ h in
    if page == minus_one
    then h
    else (if is_large chip then wr byte chip.adr_port (page / 2 ^ 16 % 256) ∷ low else low)

abbrev pub column_sent : NandChip → ℕ → Trace → Trace
column_sent chip col h =
    if col == minus_one then h else wr byte chip.adr_port (bus_column chip col % 256) ∷ h

abbrev pub sent : NandChip → ℕ → ℕ → ℕ → Trace → Trace
sent chip cmd col page h =
    page_sent chip page (column_sent chip col (wr byte chip.cmd_port cmd ∷ h))

module _ (dev : Device) (fuel : ℕ) (delays : Delays dev fuel) (chip : NandChip)
    (small : IsSmallPage chip) where
  Looks-counter_reads :
      (vs : List ℕ) (h h' : Trace) → Looks chip h h' → Looks chip h (counter_reads vs h')
  Looks-counter_reads [] h h' l = l
  Looks-counter_reads (v ∷ vs) h h' l =
      Looks-counter_reads vs h (rd word timer_tcrr v ∷ h') (look timer_tcrr v small.no_timer l)

  udelay-Looks :
      (usec : ℕ) (h : Trace)
      → (h' : Trace) × (udelay dev fuel usec h ≡ done tt h') × Looks chip h h'
  udelay-Looks usec h =
      let (h', e, q) = delays usec h in
      let d = udelay-Delayed dev fuel usec e in
      (h', e, rw d.trace (Looks-counter_reads (d.first ∷ d.values) h h here))

  wait_ready_loop-Looks :
      (ready : DevReady) (n : ℕ)
      → ready ≡ omap_ready
      → (h : Trace)
      → (r : ℕ) × (h' : Trace) × (wait_ready_loop dev fuel ready n h ≡ done r h') × Looks chip h h'
  unfolding wait_ready_loop dev_ready
  wait_ready_loop-Looks no_dev_ready n e h = cc
  wait_ready_loop-Looks omap_ready zero e h =
      let v = reply dev word gpmc_status h in
      let seen : Looks chip h (rd word gpmc_status v ∷ h) =
        look gpmc_status v small.no_status here in
      elim (Bool-cases (bit_and v 0x100 == 0)) [
        | inr ready ↦ (1, rd word gpmc_status v ∷ h, rw ready, seen)
        | inl busy ↦
            let (h1, e1, l) = udelay-Looks 0x500 (rd word gpmc_status v ∷ h) in
            (0, h1, rw (busy, e1), Looks-trans seen l)
      ]
  wait_ready_loop-Looks omap_ready (suc n) e h =
      let v = reply dev word gpmc_status h in
      let seen : Looks chip h (rd word gpmc_status v ∷ h) =
        look gpmc_status v small.no_status here in
      elim (Bool-cases (bit_and v 0x100 == 0)) [
        | inr ready ↦ (1, rd word gpmc_status v ∷ h, rw ready, seen)
        | inl busy ↦
            let (h1, e1, l) = udelay-Looks 0x500 (rd word gpmc_status v ∷ h) in
            let (r, h2, e2, m) = wait_ready_loop-Looks omap_ready n refl h1 in
            (r, h2, rw (busy, e1) e2, Looks-trans (Looks-trans seen l) m)
      ]

  settle-Looks :
      (h : Trace) → (h' : Trace) × (settle dev fuel chip h ≡ done tt h') × Looks chip h h'
  unfolding settle nand_wait_ready
  settle-Looks h =
      let (h1, e1, l) = udelay-Looks 100 h in
      let (r, h2, e2, m) = wait_ready_loop-Looks chip.dev_ready 100 small.has_dev_ready h1 in
      (h2, rw (e1, e2), Looks-trans l m)

  address_byte :
      (v : ℕ) (h : Trace)
      → v < 256
      → nand_cmd_ctrl chip v nand_ctrl_ale h ≡ done tt (wr byte chip.adr_port v ∷ h)
  unfolding nand_cmd_ctrl
  address_byte v h lt = ground arith

  command_byte :
      (v : ℕ) (h : Trace)
      → v < 256
      → nand_cmd_ctrl chip v nand_ctrl_cle h ≡ done tt (wr byte chip.cmd_port v ∷ h)
  unfolding nand_cmd_ctrl
  command_byte v h lt = ground arith

  page_address-page_sent :
      (page : ℕ) (h : Trace) → page_address chip page h ≡ done tt (page_sent chip page h)
  unfolding page_address
  page_address-page_sent page h =
      let h1 : Trace = wr byte chip.adr_port (page % 256) ∷ h in
      let h2 : Trace = wr byte chip.adr_port (page / 2 ^ 8 % 256) ∷ h1 in
      let e1 = address_byte (page % 256) h (omega arith) in
      let e2 = address_byte (page / 2 ^ 8 % 256) h1 (omega arith) in
      let e3 = address_byte (page / 2 ^ 16 % 256) h2 (omega arith) in
      elim (Bool-cases (page == minus_one)) [
        | inl no_page ↦ rw no_page refl
        | inr page_set ↦ elim (Bool-cases (is_large chip)) [
          | inl large ↦ rw (page_set, large) (rw (e1, e2, e3) refl)
          | inr not_large ↦ rw (page_set, not_large) (rw (e1, e2) refl)
        ]
      ]

  small_cycles-sent :
      (cmd col page : ℕ) (h : Trace)
      → cmd < 256
      → small_cycles dev fuel chip cmd col page h ≡ done tt (sent chip cmd col page h)
  unfolding small_cycles
  small_cycles-sent cmd col page h lt =
      let h1 : Trace = wr byte chip.cmd_port cmd ∷ h in
      let e1 = command_byte cmd h lt in
      let e2 = address_byte (bus_column chip col % 256) h1 (omega arith) in
      elim (Bool-cases (col == minus_one)) [
        | inl no_col ↦ rw no_col (rw e1 (page_address-page_sent page h1))
        | inr col_set ↦ rw col_set (
            rw (e1, e2)
              (page_address-page_sent page
                (wr byte chip.adr_port (bus_column chip col % 256) ∷ h1)))
      ]

  -- A command that is waited for: after the bytes, the program looks only at other registers.
  pub nand_command-sent :
      (cmd col page : ℕ) (h : Trace)
      → cmd < 256
      → (cmd == nand_cmd_seqin) ≡ false
      → is_quiet cmd ≡ false
      → (h' : Trace) × (nand_command dev fuel chip cmd col page h ≡ done tt h')
        × Looks chip (sent chip cmd col page h) h'
  unfolding nand_command
  nand_command-sent cmd col page h lt plain waits =
      let (h', e, l) = settle-Looks (sent chip cmd col page h) in
      (h', rw (waits, plain, small_cycles-sent cmd col page h lt) e, l)
