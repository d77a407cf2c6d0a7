-- ===== src/Nand/Returns.antt =====
-- src/boot/nand.c: waiting for the chip comes to an end, and the cycles of a large-page read.
use miniboot.Common.{
  ℕ, zero, suc, ◌/◌, ◌%◌, ◌^◌, ◌<◌, ◌≡◌, refl, ◌∙◌, inl, inr, Bool-cases, ◌∷◌, bit_and, ◌==◌, arith,
}
use miniboot.Bus.{Device, Trace, Prog, done, reply, rd, wr, byte, word, writes}
use miniboot.Timer.{udelay}
use miniboot.Nand.Chip.{
  NandChip, DevReady, no_dev_ready, omap_ready, minus_one, nand_cmd_read0, nand_buswidth_16,
}
use miniboot.Nand.Command.{
  gpmc_status, dev_ready, wait_ready_loop, nand_wait_ready, settle, nand_cmd_ctrl, page_address,
  large_cycles, nand_command_lp,
}

-- The cycles of a command to a large-page chip of more than 32 MiB, on a trace.
abbrev pub addressed : NandChip → ℕ → ℕ → Trace → Trace
addressed chip col page h =
    wr byte chip.adr_port (page / 2 ^ 16 % 256)
    ∷ wr byte chip.adr_port (page / 2 ^ 8 % 256)
    ∷ wr byte chip.adr_port (page % 256)
    ∷ wr byte chip.adr_port (col / 2 ^ 8 % 256)
    ∷ wr byte chip.adr_port (col % 256)
    ∷ wr byte chip.cmd_port 0x00
    ∷ h

module _ (dev : Device) (fuel : ℕ) where
  -- Every delay ends and writes nothing (`Timer.Wait.udelay_returns`).
  abbrev pub Delays : Type 0
  Delays =
      (usec : ℕ) (h : Trace)
      → (h' : Trace) × (udelay dev fuel usec h ≡ done tt h') × (writes h' ≡ writes h)

  -- A program that ends and leaves the writes as they are.
  abbrev pub IsQuiet : {A : Type 0} → Prog A → Type 0
  IsQuiet {A} m = (h : Trace) → (a : A) × (h' : Trace) × (m h ≡ done a h') × (writes h' ≡ writes h)

  module _ (delays : Delays) where
    wait_ready_loop-IsQuiet :
        (ready : DevReady) (n : ℕ) → ready ≡ omap_ready → IsQuiet (wait_ready_loop dev fuel ready n)
    unfolding wait_ready_loop dev_ready writes
    wait_ready_loop-IsQuiet no_dev_ready n e h = cc
    wait_ready_loop-IsQuiet omap_ready zero e h =
        elim (Bool-cases (bit_and (reply dev word gpmc_status h) 0x100 == 0)) [
          | inr ready ↦ (1, rd word gpmc_status (reply dev word gpmc_status h) ∷ h, rw ready, refl)
          | inl busy ↦
              let (h1, e1, q) =
                delays 0x500 (rd word gpmc_status (reply dev word gpmc_status h) ∷ h) in
              (0, h1, rw (busy, e1), q)
        ]
    wait_ready_loop-IsQuiet omap_ready (suc n) e h =
        elim (Bool-cases (bit_and (reply dev word gpmc_status h) 0x100 == 0)) [
          | inr ready ↦ (1, rd word gpmc_status (reply dev word gpmc_status h) ∷ h, rw ready, refl)
          | inl busy ↦
              let (h1, e1, q) =
                delays 0x500 (rd word gpmc_status (reply dev word gpmc_status h) ∷ h) in
              let (r, h2, e2, q2) = wait_ready_loop-IsQuiet omap_ready n refl h1 in
              (r, h2, rw (busy, e1) e2, q2 ∙ q)
        ]

    pub settle-IsQuiet :
        (chip : NandChip)
        → chip.dev_ready ≡ omap_ready
        → (h : Trace)
        → (h' : Trace) × (settle dev fuel chip h ≡ done tt h') × (writes h' ≡ writes h)
    unfolding settle nand_wait_ready
    settle-IsQuiet chip ready h =
        let (h1, e1, q1) = delays 100 h in
        let (r, h2, e2, q2) = wait_ready_loop-IsQuiet chip.dev_ready 100 ready h1 in
        (h2, rw (e1, e2), q2 ∙ q1)

    -- The cycles of a command, on the trace.
    large_cycles_lem :
        (chip : NandChip) (col page : ℕ)
        → bit_and chip.options nand_buswidth_16 ≡ 0
        → 0x2000000 < chip.chipsize
        → col < minus_one
        → page < minus_one
        → (h : Trace)
        → large_cycles dev fuel chip nand_cmd_read0 col page h ≡ done tt (addressed chip col page h)
    unfolding large_cycles nand_cmd_ctrl page_address
    large_cycles_lem chip col page narrow large hc hp h = ground arith

    -- Let the counter advance and the chip's `dev_ready` be `omap_ready`. Then a read command to a
    -- large-page chip of more than 32 MiB on a bus of 8 bits ends. It sends the
    -- command 0x00 to the command port and the two bytes of the column and the three of the page to
    -- the address port. The confirming command 0x30 goes to the address port as well, and nothing
    -- else is written.
    pub nand_command_lp-read0 :
        (chip : NandChip) (col page : ℕ)
        → chip.dev_ready ≡ omap_ready
        → bit_and chip.options nand_buswidth_16 ≡ 0
        → 0x2000000 < chip.chipsize
        → col < minus_one
        → page < minus_one
        → (h : Trace)
        → (h' : Trace) × (nand_command_lp dev fuel chip nand_cmd_read0 col page h ≡ done tt h')
          × (writes h' ≡ wr byte chip.adr_port 0x30 ∷ addressed chip col page (writes h))
    unfolding nand_command_lp nand_cmd_ctrl writes
    nand_command_lp-read0 chip col page ready narrow large hc hp h =
        let e1 = large_cycles_lem chip col page narrow large hc hp h in
        let (h2, e2, q2) =
          settle-IsQuiet chip ready (wr byte chip.adr_port 0x30 ∷ addressed chip col page h) in
        (h2, rw e1 e2, q2)
