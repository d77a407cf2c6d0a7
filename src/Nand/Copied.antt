-- ===== src/Nand/Copied.antt =====
-- src/boot/nand.c: the image that `nand_load` leaves in memory.
use miniboot.Common.{
  true, inside, ℕ, zero, suc, ◌+◌, ◌-◌, ◌*◌, ◌%◌, ◌^◌, ◌<◌, ◌≡◌, refl, ap, ◌∙◌, inl, inr,
  Bool-cases, Option, none, some, List, [], ◌∷◌, ◌++◌, All, length, length-append, ltb,
  if◌then◌else◌, arith,
}
use miniboot.Nand.Chip.{NandChip}
use miniboot.Nand.Pages.{PageRead, block_pages, advance, image_pages}
use miniboot.Nand.Card.{page_limit}
use miniboot.Nand.Store.{Clear}
use miniboot.Nand.Memory.{page_of, Fits, with_page, with_pages}

module _ (writesize : ℕ) where
  -- The pages go to one place after the other, the first of them to `dst`.
  unfoldable pub InOrder : ℕ → List PageRead → Type 0
  InOrder dst [] = Unit
  InOrder dst (p ∷ ps) = (p.dst ≡ dst) × InOrder (dst + writesize) ps

  advance_lem :
      (dst n : ℕ) → dst + n * writesize < 2 ^ 32 → advance writesize dst n ≡ dst + n * writesize
  unfolding advance
  advance_lem dst zero lt = omega arith
  advance_lem dst (suc n) lt =
      let whole : (dst + writesize) % 2 ^ 32 ≡ dst + writesize = grind arith in
      rw whole (advance_lem (dst + writesize) n (omega arith) ∙ omega arith)

  length-block_pages : (block page dst n : ℕ) → length (block_pages writesize block page dst n) ≡ n
  unfolding block_pages
  length-block_pages block page dst zero = refl
  length-block_pages block page dst (suc n) =
      ap suc (length-block_pages block (page + 1) ((dst + writesize) % 2 ^ 32) n)

  block_pages-InOrder :
      (block page dst n : ℕ) (qs : List PageRead)
      → dst + n * writesize < 2 ^ 32
      → InOrder (dst + n * writesize) qs
      → InOrder dst (block_pages writesize block page dst n ++ qs)
  unfolding block_pages InOrder
  block_pages-InOrder block page dst zero qs lt rest =
      let z : dst + 0 * writesize ≡ dst = omega arith in rw z at rest
  block_pages-InOrder block page dst (suc n) qs lt rest =
      let whole : (dst + writesize) % 2 ^ 32 ≡ dst + writesize = grind arith in
      let z : dst + suc n * writesize ≡ dst + writesize + n * writesize = omega arith in
      (
        refl,
        rw whole (
            block_pages-InOrder block (page + 1) (dst + writesize) n qs (omega arith)
              (rw z at rest)),
      )

  pub image_pages-InOrder :
      (cnt : ℕ) (bs : List ℕ) (page dst : ℕ)
      → dst + length (image_pages writesize cnt bs page dst) * writesize < 2 ^ 32
      → InOrder dst (image_pages writesize cnt bs page dst)
  unfolding image_pages InOrder
  image_pages-InOrder cnt [] page dst lt = tt
  image_pages-InOrder cnt (b ∷ bs) page dst lt =
      let n = cnt - page in
      let rest = image_pages writesize cnt bs 0 (advance writesize dst n) in
      let total : length (block_pages writesize b page dst n ++ rest) ≡ n + length rest =
        length-append (block_pages writesize b page dst n) rest
        ∙ ap (λ k. k + length rest) (length-block_pages b page dst n) in
      let less : dst + n * writesize + length rest * writesize < 2 ^ 32 =
        let z : dst + (n + length rest) * writesize < 2 ^ 32 = rw total at lt in grind arith in
      let there : advance writesize dst n ≡ dst + n * writesize =
        advance_lem dst n (omega (arith, less)) in
      block_pages-InOrder b page dst n rest (omega (arith, less))
        (rw there (image_pages-InOrder cnt bs 0 (dst + n * writesize) (rw there at less)))

module _ (chip : NandChip) (content : ℕ → ℕ → ℕ) where
  -- Byte `o` of the contents of the pages `ps`, one page after the other.
  unfoldable pub image_byte : List PageRead → ℕ → Option ℕ
  image_byte [] o = none
  image_byte (p ∷ ps) o =
      if ltb o chip.writesize
      then some (content (page_of chip p) o)
      else image_byte ps (o - chip.writesize)

  -- What the address `a` holds when the image has been put at `dst`, and `v` before.
  abbrev pub with_image : List PageRead → ℕ → Option ℕ → ℕ → Option ℕ
  with_image ps dst v a =
      if inside dst (length ps * chip.writesize) a then image_byte ps (a - dst) else v

  pub with_image-inside :
      (ps : List PageRead) (dst o : ℕ) (v : Option ℕ)
      → o < length ps * chip.writesize
      → with_image ps dst v (dst + o) ≡ image_byte ps o
  with_image-inside ps dst o v lt =
      let place : dst + o - dst ≡ o = omega arith in
      let hit : inside dst (length ps * chip.writesize) (dst + o) ≡ true = ground (arith, lt) in
      rw (place, hit) refl

  with_pages-before :
      (ps : List PageRead) (dst : ℕ) (v : Option ℕ) (a : ℕ)
      → InOrder chip.writesize dst ps
      → a < dst
      → with_pages chip content ps v a ≡ v
  unfolding with_pages InOrder
  with_pages-before [] dst v a order lt = refl
  with_pages-before (p ∷ ps) dst v a (e, order) lt =
      with_pages-before ps (dst + chip.writesize) (with_page chip content p v a) a order
        (omega arith)
      ∙ rw e (ground arith)

  pub with_pages-with_image :
      (ps : List PageRead) (dst : ℕ) (v : Option ℕ) (a : ℕ)
      → InOrder chip.writesize dst ps
      → with_pages chip content ps v a ≡ with_image ps dst v a
  unfolding with_pages InOrder image_byte
  with_pages-with_image [] dst v a order = ground arith
  with_pages-with_image (p ∷ ps) dst v a (e, order) =
      let next = dst + chip.writesize in
      let v' = with_page chip content p v a in
      let size : suc (length ps) * chip.writesize ≡ chip.writesize + length ps * chip.writesize =
        omega arith in
      let later : a - dst - chip.writesize ≡ a - next = omega arith in
      elim (Bool-cases (inside dst chip.writesize a)) [
        | inl here ↦
            with_pages-before ps next v' a order (ground (arith, here))
            ∙ rw (e, size) (ground (arith, here))
        | inr far ↦
            with_pages-with_image ps next v' a order ∙ rw (e, size, later) (ground (arith, far))
      ]

module _ (chip : NandChip) where
  Clear-split : (dst n m : ℕ) → Clear chip dst (n + m) → Clear chip dst n × Clear chip (dst + n) m
  Clear-split dst n m c = (
    record {
      command_port = ground (arith, c.command_port);
      address_port = ground (arith, c.address_port);
      no_wrap = omega (arith, c.no_wrap);
    },
    record {
      command_port = ground (arith, c.command_port);
      address_port = ground (arith, c.address_port);
      no_wrap = omega (arith, c.no_wrap);
    },
  )

  -- The address bytes can tell the pages apart.
  abbrev pub OnChip : List PageRead → Type 0
  OnChip ps = All (λ p. page_of chip p < page_limit chip) ps

  pub OnChip-Fits :
      (ps : List PageRead) (dst : ℕ)
      → InOrder chip.writesize dst ps
      → OnChip ps
      → Clear chip dst (length ps * chip.writesize)
      → All (Fits chip) ps
  unfolding InOrder
  OnChip-Fits [] dst order on clear = tt
  OnChip-Fits (p ∷ ps) dst (e, order) (here, on) clear =
      let size : suc (length ps) * chip.writesize ≡ chip.writesize + length ps * chip.writesize =
        omega arith in
      let (first, rest) =
        Clear-split dst chip.writesize (length ps * chip.writesize) (rw size at clear) in
      (
        record { page_ok = here; room = rw e first },
        OnChip-Fits ps (dst + chip.writesize) order on rest,
      )
