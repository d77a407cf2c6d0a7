-- ===== src/Nand/Load.antt =====
-- src/boot/nand.c: which pages `nand_load` reads, and to where.
use miniboot.Common.{
  ℕ, zero, suc, ◌+◌, ◌-◌, ◌*◌, ◌/◌, ◌%◌, ◌^◌, ◌<◌, ◌≤◌, ◌≡◌, refl, ◌∙◌, inl, inr, Bool, true,
  Bool-cases, some, List, leb, if◌then◌else◌, arith,
}
use miniboot.Bus.{Device, Trace, done}
use miniboot.Timer.Wait.{Advances, max_ticks, udelay_returns}
use miniboot.Nand.Chip.{NandChip, sub32}
use miniboot.Nand.Read.{nand_load}
use miniboot.Nand.Returns.{Delays}
use miniboot.Nand.Pages.{
  good_blocks, good_blocks-no_turns, good_blocks-bad, good_blocks-good, good_blocks-count,
  room_next, in_range, ofs_next, image_pages,
}
use miniboot.Nand.Blocks.{IsSetUp, nand_block_isbad-Ends}
use miniboot.Nand.Stretch.{Reads, IsMarked, Loads, next, load_stop, skip_bad, take_good}

module _ (dev : Device) (fuel : ℕ) (chip : NandChip) (delays : Delays dev fuel)
    (up : IsSetUp chip) where
  load_loop-Loads :
      (bad : ℕ → Bool)
      → IsMarked dev fuel chip bad
      → (spare turns ofs block lastblock page dst count : ℕ) (bs : List ℕ) (h : Trace)
      → good_blocks bad turns block count ≡ some bs
      → lastblock + 1 ≡ block + count
      → ofs / chip.erasesize ≡ block
      → 0 < chip.erasesize
      → (block + turns + 1) * chip.erasesize ≤ 2 ^ 32
      → Loads dev fuel chip (suc (spare + turns)) ofs block lastblock page dst bs h
  load_loop-Loads bad marked spare turns ofs block lastblock page dst zero bs h g k o pos room =
      load_stop dev fuel chip bad (spare + turns) turns ofs block lastblock page dst bs h
        (ground arith) g
  load_loop-Loads bad marked spare zero ofs block lastblock page dst (suc count) bs h g k o pos
        room =
      absurd (cc (good_blocks-no_turns bad block count))
  load_loop-Loads bad marked spare (suc turns) ofs block lastblock page dst (suc count) bs h g k o
        pos room =
      let more : spare + suc turns ≡ suc (spare + turns) = omega arith in
      let (r, h1, e1) = (nand_block_isbad-Ends dev fuel delays chip up ofs).runs h in
      let ofs' = next dev fuel chip ofs in
      let mark : r ≡ (if bad block then 1 else 0) = marked ofs r h h1 e1 ∙ rw o in
      let inside : leb block lastblock ≡ true = ground arith in
      let few = good_blocks-count bad (suc turns) block (suc count) bs g in
      let fits = in_range ofs block turns chip.erasesize o pos room in
      let block_next : (block + 1) % 2 ^ 32 ≡ block + 1 = omega arith in
      let last_next : (lastblock + 1) % 2 ^ 32 ≡ lastblock + 1 = omega arith in
      let o' = ofs_next ofs block turns chip.erasesize o pos room in
      let room' = room_next ofs block turns chip.erasesize o pos room in
      elim (Bool-cases (bad block)) [
        | inl is_bad ↦
            let one : r ≡ 1 = mark ∙ rw is_bad in
            let g' : good_blocks bad turns (block + 1) (suc count) ≡ some bs =
              rw (good_blocks-bad bad turns block count is_bad) at g in
            rw more (
              skip_bad dev fuel chip (suc (spare + turns)) ofs block lastblock page dst bs h h1
                inside (rw one at e1) block_next last_next
                (load_loop-Loads bad marked spare turns ofs' (block + 1) (lastblock + 1) page dst
                  (suc count) bs h1 g' (omega arith) o' pos room'))
        | inr is_good ↦
            let zero_mark : r ≡ 0 = mark ∙ rw is_good in
            let (rest, e, found) = good_blocks-good bad turns block count bs is_good g in
            rw (more, e)
              (take_good dev fuel chip delays up (suc (spare + turns)) ofs block lastblock page dst
                rest h h1 inside (rw zero_mark at e1) block_next
                (λ h2.
                  load_loop-Loads bad marked spare turns ofs' (block + 1) lastblock 0 _ count rest
                    h2 found (omega arith) o' pos room'))
      ]

-- The blocks that the bytes from `ofs` to `ofs + size` touch.
abbrev pub touched : NandChip → ℕ → ℕ → ℕ
touched chip ofs size = (ofs + size - 1) / chip.erasesize + 1 - ofs / chip.erasesize

-- Let a chip be set up, with blocks that keep their marks, and let the timer advance. If `turns`
-- blocks from the one of `ofs` on hold as many good blocks as the bytes from `ofs` to `ofs + size`
-- touch, and lie in the 4 GiB that an `unsigned` addresses, then `nand_load` returns 0. It has then
-- read exactly these pages, in this order and to consecutive places from `dst` on: the pages of the
-- first good block from the one that holds `ofs` on, and every page of the other good blocks. Bad
-- blocks are left out, and replaced by the good ones that follow.
pub nand_load-Reads :
    (dev : Device) (fuel : ℕ) (chip : NandChip) (bad : ℕ → Bool)
    → Advances dev
    → max_ticks < fuel
    → IsSetUp chip
    → IsMarked dev fuel chip bad
    → (turns ofs size dst : ℕ) (bs : List ℕ) → turns < fuel
    → 0 < chip.erasesize
    → 0 < size
    → ofs + size ≤ 2 ^ 32
    → (ofs / chip.erasesize + turns + 1) * chip.erasesize ≤ 2 ^ 32
    → good_blocks bad turns (ofs / chip.erasesize) (touched chip ofs size) ≡ some bs
    → (h : Trace)
    → (h' : Trace) × (nand_load dev fuel chip ofs size dst h ≡ done 0 h')
      × Reads dev fuel chip
          (image_pages chip.writesize
            (chip.erasesize / chip.writesize)
            bs
            (ofs % chip.erasesize / chip.writesize)
            dst)
          h
          h'
unfolding nand_load
nand_load-Reads dev fuel chip bad adv big up marked turns ofs size dst bs few pos some_bytes fits
      room good h =
    let enough : suc (fuel - suc turns + turns) ≡ fuel = omega arith in
    let last : sub32 (ofs + size) 1 ≡ ofs + size - 1 = omega arith in
    let order : ofs / chip.erasesize ≤ (ofs + size - 1) / chip.erasesize = grind arith in
    let (h', e, s) =
      load_loop-Loads dev fuel chip (udelay_returns dev fuel adv big) up bad marked
        (fuel - suc turns) turns ofs (ofs / chip.erasesize) ((ofs + size - 1) / chip.erasesize)
        (ofs % chip.erasesize / chip.writesize) dst (touched chip ofs size) bs h good (omega arith)
        refl pos room in
    (h', rw last (rw enough at e), s)
