-- ===== src/Nand/Pages.antt =====
-- src/boot/nand.c: the pages of an image on a chip with bad blocks, as `nand_load` should read them.
use miniboot.Common.{
  ℕ, zero, suc, ◌+◌, ◌-◌, ◌*◌, ◌/◌, ◌%◌, ◌^◌, ◌<◌, ◌≤◌, ◌≡◌, refl, inl, inr, Bool, true, false,
  Bool-cases, Option, none, some, Option-cases, List, [], ◌∷◌, ◌++◌, if◌then◌else◌, arith,
}

-- One call of `nand_read_page`.
pub record PageRead : Type 0 where
  pub block : ℕ
  pub page : ℕ
  pub dst : ℕ

abbrev cons? : ℕ → Option (List ℕ) → Option (List ℕ)
cons? b none = none
cons? b (some bs) = some (b ∷ bs)

-- The first `count` blocks that are not bad, from `block` on, among the next `turns` blocks.
unfoldable pub good_blocks : (ℕ → Bool) → ℕ → ℕ → ℕ → Option (List ℕ)
good_blocks bad turns block zero = some []
good_blocks bad zero block (suc count) = none
good_blocks bad (suc turns) block (suc count) =
    let skip = good_blocks bad turns (block + 1) (suc count) in
    let keep = cons? block (good_blocks bad turns (block + 1) count) in
    if bad block then skip else keep

pub good_blocks-no_turns :
    (bad : ℕ → Bool) (block count : ℕ) → good_blocks bad 0 block (suc count) ≡ none
unfolding good_blocks
good_blocks-no_turns bad block count = refl

pub good_blocks-bad :
    (bad : ℕ → Bool) (turns block count : ℕ)
    → bad block ≡ true
    → good_blocks bad (suc turns) block (suc count) ≡ good_blocks bad turns (block + 1) (suc count)
unfolding good_blocks
good_blocks-bad bad turns block count e = rw e

pub good_blocks-good :
    (bad : ℕ → Bool) (turns block count : ℕ) (bs : List ℕ)
    → bad block ≡ false
    → good_blocks bad (suc turns) block (suc count) ≡ some bs
    → (rest : List ℕ) × (bs ≡ block ∷ rest) × (good_blocks bad turns (block + 1) count ≡ some rest)
unfolding good_blocks
good_blocks-good bad turns block count bs e g =
    elim (Option-cases (good_blocks bad turns (block + 1) count)) [
      | inl nothing ↦ ground (arith, nothing)
      | inr (rest, found) ↦ (rest, ground (arith, found), found)
    ]

pub good_blocks-count :
    (bad : ℕ → Bool) (turns block count : ℕ) (bs : List ℕ)
    → good_blocks bad turns block count ≡ some bs
    → count ≤ turns
good_blocks-count bad turns block zero bs g = omega arith
good_blocks-count bad zero block (suc count) bs g = cc (good_blocks-no_turns bad block count)
good_blocks-count bad (suc turns) block (suc count) bs g = elim (Bool-cases (bad block)) [
  | inl is_bad ↦ omega (
    arith,
    good_blocks-count bad turns (block + 1) (suc count) bs
        (rw (good_blocks-bad bad turns block count is_bad) at g),
  )
  | inr is_good ↦
      let (rest, e, found) = good_blocks-good bad turns block count bs is_good g in
      omega (arith, good_blocks-count bad turns (block + 1) count rest found)
]

-- One turn of the loop stays inside the chip, and goes to the next block.
module _ (ofs block turns erasesize : ℕ) (at_block : ofs / erasesize ≡ block) (pos : 0 < erasesize)
    (room : (block + suc turns + 1) * erasesize ≤ 2 ^ 32) where
  pub room_next : (block + 1 + turns + 1) * erasesize ≤ 2 ^ 32
  room_next = omega arith

  pub in_range : block + suc turns < 2 ^ 32
  in_range = grind arith

  ofs_fits : ofs + erasesize < 2 ^ 32
  ofs_fits = grind arith

  pub ofs_next : (ofs + erasesize) % 2 ^ 32 / erasesize ≡ block + 1
  ofs_next =
      let whole : (ofs + erasesize) % 2 ^ 32 ≡ ofs + erasesize = omega (arith, ofs_fits) in
      rw whole (grind arith)

module _ (writesize : ℕ) where
  -- `n` pages of a block in order, to one place after the other.
  unfoldable pub block_pages : ℕ → ℕ → ℕ → ℕ → List PageRead
  block_pages block page dst zero = []
  block_pages block page dst (suc n) =
      record { block = block; page = page; dst = dst }
      ∷ block_pages block (page + 1) ((dst + writesize) % 2 ^ 32) n

  unfoldable pub advance : ℕ → ℕ → ℕ
  advance dst zero = dst
  advance dst (suc n) = advance ((dst + writesize) % 2 ^ 32) n

  -- The pages of the blocks `bs`: the first from `page` on, the others whole.
  unfoldable pub image_pages : ℕ → List ℕ → ℕ → ℕ → List PageRead
  image_pages cnt [] page dst = []
  image_pages cnt (b ∷ bs) page dst =
      block_pages b page dst (cnt - page) ++ image_pages cnt bs 0 (advance dst (cnt - page))
