-- ===== src/Cache/Walk.antt =====
-- src/boot/mm.S: which lines the loops over a range go through.
use miniboot.Common.{
  ℕ, zero, suc, ◌+◌, ◌-◌, ◌*◌, ◌/◌, ◌%◌, ◌^◌, ◌<◌, ◌≤◌, ◌≡◌, refl, inl, inr, Bool-cases, some, ◌∷◌,
  bit_and, ltb, leb, arith,
}
use miniboot.Common.Bits.{bit_and-ones, pow_two_pos}
use miniboot.Cache.{LineOp, on_line, Ops, bic, dcache_line_size, line_loop}

-- The operation on `k` lines, from number `q` on.
unfoldable pub lines : LineOp → ℕ → ℕ → ℕ → Ops → Ops
lines op line q zero ops = ops
lines op line q (suc k) ops = lines op line (q + 1) k (on_line op (q * line) ∷ ops)

-- A loop that goes on below the line `last` takes the lines from `q` to `last`, and at least one.
pub line_loop-lines :
    (op : LineOp) (line r1 last fuel q : ℕ) (ops : Ops)
    → ((i : ℕ) → ltb ((i + 1) * line) r1 ≡ leb (i + 1) last)
    → last - q < fuel
    → (q + 1) * line < 2 ^ 32
    → (last + 1) * line < 2 ^ 32
    → line_loop op line r1 fuel (q * line) ops ≡ some (lines op line q (suc (last - q)) ops)
unfolding line_loop lines
line_loop-lines op line r1 last zero q ops below few small end = absurd (omega (arith, few))
line_loop-lines op line r1 last (suc fuel) q ops below few small end =
    let next : (q * line + line) % 2 ^ 32 ≡ (q + 1) * line = omega arith in
    elim (Bool-cases (leb (q + 1) last)) [
      | inl more ↦
          let rest : last - q ≡ suc (last - (q + 1)) = ground (arith, more) in
          let le : q + 2 ≤ last + 1 = ground (arith, more) in
          let small' : (q + 1 + 1) * line < 2 ^ 32 = grind arith in
          rw (next, below q, more, rest)
            (line_loop-lines op line r1 last fuel (q + 1) (on_line op (q * line) ∷ ops) below
              (omega arith) small' end)
      | inr over ↦
          let one : last - q ≡ 0 = ground (arith, over) in rw (next, below q, over, one) refl
    ]

-- The bytes in a line: DminLine, the bits 19 to 16 of the CTR, is the logarithm of its words.
abbrev pub bytes_of_line : ℕ → ℕ
bytes_of_line ctr = 4 * 2 ^ (ctr / 2 ^ 16 % 2 ^ 4)

pub dcache_line_size_lem : (ctr : ℕ) → dcache_line_size ctr ≡ bytes_of_line ctr
unfolding dcache_line_size
dcache_line_size_lem ctr = rw (bit_and-ones 4 (ctr / 2 ^ 16)) refl

pub bytes_of_line-two_pow :
    (ctr : ℕ) → (k : ℕ) × (bytes_of_line ctr ≡ 2 ^ k) × (0 < bytes_of_line ctr)
bytes_of_line-two_pow ctr =
    let n = ctr / 2 ^ 16 % 2 ^ 4 in (suc (suc n), omega arith, omega (arith, pow_two_pos n))

-- The mask of a line size gives what is left over, and clears it.
pub bit_and-mask : (ctr x : ℕ) → (let line = bytes_of_line ctr in bit_and x (line - 1) ≡ x % line)
bit_and-mask ctr x = let (k, e, pos) = bytes_of_line-two_pow ctr in rw e (bit_and-ones k x)

pub bic-mask : (ctr x : ℕ) → (let line = bytes_of_line ctr in bic x (line - 1) ≡ x / line * line)
bic-mask ctr x = rw (bit_and-mask ctr x) (grind arith)
