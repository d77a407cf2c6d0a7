-- ===== src/Nand/Store.antt =====
-- src/boot/nand.c: reading a page of a chip with small pages puts the page into memory.
use miniboot.Common.{
  inside, ℕ, zero, suc, ◌+◌, ◌-◌, ◌%◌, ◌^◌, ◌<◌, ◌≤◌, ◌≡◌, refl, ap, ◌∙◌, inl, inr, false,
  Bool-cases, some, ◌∷◌, ◌==◌, if◌then◌else◌, arith,
}
use miniboot.Bus.{Device, Trace, done, reply, rd, wr, byte, last_written, find_write, writes}
use miniboot.Nand.Chip.{NandChip, minus_one, nand_cmd_read0}
use miniboot.Nand.Read.{nand_read_buf}
use miniboot.Nand.Card.{
  card_state-command, card_state-address, card_state, is_large, at_byte, page_limit, Serves,
  IsSmallPage,
}
use miniboot.Nand.Cycles.{sent}

-- The `n` bytes from `buf` on are no ports of the chip and do not wrap.
pub record Clear (chip : NandChip) (buf n : ℕ) : Type 0 where
  pub command_port : inside buf n chip.cmd_port ≡ false
  pub address_port : inside buf n chip.adr_port ≡ false
  pub no_wrap : buf + n ≤ 2 ^ 32

Clear-suc : (chip : NandChip) (buf n : ℕ) → Clear chip buf (suc n) → Clear chip (buf + 1) n
Clear-suc chip buf n c = record {
  command_port = ground (arith, c.command_port);
  address_port = ground (arith, c.address_port);
  no_wrap = omega (arith, c.no_wrap);
}

-- A read command for column 0 leaves the chip at the first byte of the page.
pub card_state-sent :
    (chip : NandChip)
    → IsSmallPage chip
    → (page : ℕ) (h : Trace) → page < page_limit chip
    → card_state chip (sent chip nand_cmd_read0 0 page h) ≡ at_byte chip page 0
card_state-sent chip small page h lt =
    let set : (page == minus_one) ≡ false = ground (arith, lt) in
    elim (Bool-cases (is_large chip)) [
      | inl large ↦
          rw (set, large, small.narrow)
            (simp (card_state-address chip small.ports, card_state-command chip))
      | inr not_large ↦
          rw (set, not_large, small.narrow)
            (simp (card_state-address chip small.ports, card_state-command chip))
    ]

module _ (dev : Device) (chip : NandChip) (content : ℕ → ℕ → ℕ)
    (serves : Serves dev chip content) where
  pub nand_read_buf-content :
      (n buf page k : ℕ) (h : Trace)
      → page < page_limit chip
      → k + n ≤ chip.writesize
      → Clear chip buf n
      → card_state chip h ≡ at_byte chip page k
      → (h' : Trace) × (nand_read_buf dev chip buf n h ≡ done tt h')
        × ((a : ℕ)
            → last_written a h'
              ≡ (if inside buf n a then some (content page (k + (a - buf))) else last_written a h))
  unfolding nand_read_buf card_state last_written writes find_write
  nand_read_buf-content zero buf page k h lp lk c e = (h, refl, λ a. ground arith)
  nand_read_buf-content (suc n) buf page k h lp lk c e =
      let v = reply dev byte chip.dat_port h in
      let here : v ≡ content page k = serves h page k lp (omega arith) e in
      let whole : buf % 2 ^ 32 ≡ buf = omega (arith, c.no_wrap) in
      let h1 : Trace = wr byte buf (v % 2 ^ 8) ∷ rd byte chip.dat_port v ∷ h in
      let e1 : card_state chip h1 ≡ at_byte chip page (k + 1) =
        ground (arith, e, c.command_port, c.address_port) in
      let (h', run, all) =
        nand_read_buf-content n (buf + 1) page (k + 1) h1 lp (omega arith) (Clear-suc chip buf n c)
          e1 in
      let near = λ (a : ℕ) (eq : a ≡ buf).
        ap (content page) (let z : k + (a - buf) ≡ k = omega arith in z) in
      let far = λ (a : ℕ) (gt : buf < a).
        ap (content page) (let z : k + 1 + (a - (buf + 1)) ≡ k + (a - buf) = omega arith in z) in
      (h', rw whole run, λ a. all a ∙ ground (arith, near a, far a, here))
