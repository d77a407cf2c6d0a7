-- ===== src/Cache/Steps.antt =====
-- One operation on a byte behind another, for the functions of src/boot/cache.c on ranges.
use miniboot.Common.{
  ℕ, zero, suc, ◌+◌, ◌-◌, ◌*◌, ◌/◌, ◌^◌, ◌<◌, ◌≤◌, ◌≡◌, refl, Bool, true, false, not, Option, some,
  leb, ◌&&◌, ◌||◌, if◌then◌else◌, arith,
}
use miniboot.Cache.{LineOp, invalidate, clean_invalidate, Ops}
use miniboot.Cache.Cell.{Cell, on_cell, after}

-- The line of `a` has a byte of the range.
abbrev pub touched : ℕ → ℕ → ℕ → ℕ → Bool
touched line start end a = leb (start / line) (a / line) && leb (a / line) ((end - 1) / line)

-- All bytes of the line of `a` are in the range.
abbrev pub whole : ℕ → ℕ → ℕ → ℕ → Bool
whole line start end a = leb start (a / line * line) && leb ((a / line + 1) * line) end

abbrev pub step : Bool → LineOp → Cell → Cell
step b op s = if b then on_cell op s else s

-- The cell at `a` after a run that should end, if the operation on it should be `op`.
abbrev pub Maintains : ℕ → (Ops → Option Ops) → (ℕ → LineOp) → (ℕ → Bool) → Ops → Cell → ℕ → Type 0
Maintains line run op on ops c a =
    (ops' : Ops) × (run ops ≡ some ops')
    × (after line ops' c a ≡ step (on a) (op a) (after line ops c a))

pub twice :
    (b1 b2 b3 : Bool) (s : Cell)
    → step b3 invalidate (step b2 clean_invalidate (step b1 clean_invalidate s))
      ≡ step (b1 || b2 || b3) (if not (b1 || b2) then invalidate else clean_invalidate) s
twice true true true s = refl
twice true true false s = refl
twice true false true s = refl
twice true false false s = refl
twice false true true s = refl
twice false true false s = refl
twice false false true s = refl
twice false false false s = refl

pub pick :
    (b t n w : Bool) (s : Cell)
    → t ≡ b
    → (t ≡ true → w ≡ n)
    → step b (if n then invalidate else clean_invalidate) s
      ≡ step t (if w then invalidate else clean_invalidate) s
pick b true n w s e f = rw (← e, f refl) refl
pick b false n w s e f = rw (← e) refl

pub up_to :
    (n size end : ℕ)
    → 0 < end
    → 0 < size
    → end + size ≤ 2 ^ 32
    → n * size ≤ end
    → (n - 1 + 1) * size < 2 ^ 32
up_to zero size end some_bytes some_size room le = omega (arith, some_bytes, room)
up_to (suc n) size end some_bytes some_size room le =
    let z : suc n - 1 + 1 ≡ suc n = omega arith in rw z (omega (arith, le, room, some_size))
