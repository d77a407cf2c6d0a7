-- ===== src/Cache/Cell.antt =====
-- What the operations of the data cache do to a byte, after the ARM architecture: the hardware is
-- not part of the program.
use miniboot.Common.{
  inside, ℕ, zero, suc, ◌+◌, ◌*◌, ◌/◌, ◌<◌, ◌≡◌, ◌∙◌, Option, none, some, [], ◌∷◌, ◌==◌,
  if◌then◌else◌, arith,
}
use miniboot.Cache.{LineOp, invalidate, clean, clean_invalidate, on_line, dsb, Ops}
use miniboot.Cache.Walk.{lines}

-- The byte in memory, and in the cache if the cache holds it.
pub record Cell : Type 0 where
  pub stored : ℕ
  pub held : Option ℕ

-- What the processor reads.
abbrev or_stored : ℕ → Option ℕ → ℕ
or_stored v none = v
or_stored v (some w) = w

abbrev pub view : Cell → ℕ
view c = or_stored c.stored c.held

abbrev pub on_cell : LineOp → Cell → Cell
on_cell invalidate c = record c { held = none }
on_cell clean c = record c { stored = view c }
on_cell clean_invalidate c = record { stored = view c; held = none }

module _ (line : ℕ) where
  -- The byte at the address `a`, whose line is number `a / line`, after some operations.
  unfoldable pub after : Ops → Cell → ℕ → Cell
  after [] c a = c
  after (dsb ∷ ops) c a = after ops c a
  after (on_line op r ∷ ops) c a =
      let s = after ops c a in if a / line == r / line then on_cell op s else s

  pub after-lines :
      (op : LineOp) (k q : ℕ) (ops : Ops) (c : Cell) (a : ℕ)
      → 0 < line
      → after (lines op line q k ops) c a
        ≡ (let s = after ops c a in if inside q k (a / line) then on_cell op s else s)
  unfolding lines after
  after-lines op zero q ops c a pos = ground arith
  after-lines op (suc k) q ops c a pos =
      let exact : q * line / line ≡ q = grind arith in
      after-lines op k (q + 1) (on_line op (q * line) ∷ ops) c a pos ∙ rw exact (ground arith)
