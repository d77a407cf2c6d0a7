-- ===== src/Nand/Bytes.antt =====
-- src/boot/nand.c: the bytes of an image of small pages, by their places.
use miniboot.Common.{
  ℕ, zero, suc, ◌+◌, ◌-◌, ◌*◌, ◌/◌, ◌%◌, ◌^◌, ◌<◌, ◌≤◌, ◌≡◌, refl, ◌∙◌, inl, inr, true, false,
  Bool-cases, some, List, [], ◌∷◌, ◌++◌, length, ltb, if◌then◌else◌, arith,
}
use miniboot.Nand.Chip.{NandChip}
use miniboot.Nand.Pages.{PageRead, advance, block_pages, image_pages}
use miniboot.Nand.Copied.{image_byte, OnChip}

module _ (chip : NandChip) (page_size : chip.writesize ≡ 512)
    (block_size : chip.erasesize ≡ 0x4000) where
  -- The pages of a block come first, and then those of the other ones.
  image_byte-block_pages :
      (content : ℕ → ℕ → ℕ) (n b page dst o : ℕ) (qs : List PageRead)
      → b < 2048
      → page + n ≤ 32
      → image_byte chip content (block_pages chip.writesize b page dst n ++ qs) o ≡ (
          if ltb o (n * 512)
          then some (content (b * 32 + page + o / 512) (o % 512))
          else image_byte chip content qs (o - n * 512))
  unfolding image_byte block_pages
  image_byte-block_pages content zero b page dst o qs few end = ground arith
  image_byte-block_pages content (suc n) b page dst o qs few end =
      let number : (page + b * (0x4000 / 512)) % 2 ^ 32 ≡ b * 32 + page = omega (arith, few, end) in
      elim (Bool-cases (ltb o 512)) [
        | inl here ↦
            let first : b * 32 + page + o / 512 ≡ b * 32 + page = ground (arith, here) in
            let place : o % 512 ≡ o = ground (arith, here) in
            let more : ltb o (suc n * 512) ≡ true = ground (arith, here) in
            rw (page_size, block_size, number, here, more, first, place) refl
        | inr later ↦
            let next : b * 32 + (page + 1) + (o - 512) / 512 ≡ b * 32 + page + o / 512 =
              ground (arith, later) in
            let place : (o - 512) % 512 ≡ o % 512 = ground (arith, later) in
            let less : ltb (o - 512) (n * 512) ≡ ltb o (suc n * 512) = ground (arith, later) in
            let rest : o - 512 - n * 512 ≡ o - suc n * 512 = omega arith in
            let tail =
              image_byte-block_pages content n b (page + 1) ((dst + chip.writesize) % 2 ^ 32)
                (o - 512) qs few (omega (arith, end)) in
            let far : ltb o chip.writesize ≡ false = rw page_size later in
            let cut : o - chip.writesize ≡ o - 512 = rw page_size refl in
            rw (far, cut) (rw (next, place, less, rest) at tail)
      ]

  block_pages-OnChip :
      (n b page dst : ℕ) (qs : List PageRead)
      → b < 2048
      → page + n ≤ 32
      → OnChip chip qs
      → OnChip chip (block_pages chip.writesize b page dst n ++ qs)
  unfolding block_pages
  block_pages-OnChip zero b page dst qs few end on = on
  block_pages-OnChip (suc n) b page dst qs few end on = (
    rw (page_size, block_size) (ground (arith, few, end)),
    block_pages-OnChip n b (page + 1) ((dst + chip.writesize) % 2 ^ 32) qs few (omega (arith, end))
        on,
  )

  -- An image of two blocks.
  module _ (b1 b2 dst : ℕ) (few1 : b1 < 2048) (few2 : b2 < 2048) where
    abbrev pub two_blocks : List PageRead
    two_blocks = image_pages chip.writesize 32 (b1 ∷ b2 ∷ []) 0 dst

    abbrev pub block_at : ℕ → ℕ
    block_at o = if ltb o 0x4000 then b1 else b2

    pub two_blocks-byte :
        (content : ℕ → ℕ → ℕ) (o : ℕ)
        → o < 0x8000
        → image_byte chip content two_blocks o
          ≡ some (content (block_at o * 32 + o % 0x4000 / 512) (o % 512))
    unfolding image_pages image_byte
    two_blocks-byte content o lt =
        let second = advance chip.writesize dst 32 in
        let rest : List PageRead = block_pages chip.writesize b2 0 second 32 ++ [] in
        image_byte-block_pages content 32 b1 0 dst o rest few1 (omega arith)
        ∙ elim (Bool-cases (ltb o 0x4000)) [
          | inl early ↦
              let place : b1 * 32 + 0 + o / 512 ≡ b1 * 32 + o % 0x4000 / 512 =
                ground (arith, early) in
              rw (early, place) refl
          | inr late ↦
              let tail =
                image_byte-block_pages content 32 b2 0 second (o - 0x4000) [] few2 (omega arith) in
              let inner : ltb (o - 0x4000) 0x4000 ≡ true = ground (arith, late, lt) in
              let place : b2 * 32 + 0 + (o - 0x4000) / 512 ≡ b2 * 32 + o % 0x4000 / 512 =
                ground (arith, late, lt) in
              let byte : (o - 0x4000) % 512 ≡ o % 512 = ground (arith, late, lt) in
              rw late (rw (inner, place, byte) at tail)
        ]

    pub two_blocks-OnChip : OnChip chip two_blocks
    unfolding image_pages
    two_blocks-OnChip =
        let second = advance chip.writesize dst 32 in
        block_pages-OnChip 32 b1 0 dst (block_pages chip.writesize b2 0 second 32 ++ []) few1
          (omega arith) (block_pages-OnChip 32 b2 0 second [] few2 (omega arith) tt)

    pub two_blocks-length : length two_blocks ≡ 64
    unfolding image_pages block_pages
    two_blocks-length = refl
