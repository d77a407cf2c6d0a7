-- ===== src/Stdlib/Bounds.antt =====
-- src/lib/stdlib.c: the ranges of the results, and how the pseudo-random numbers depend on the seed.
use miniboot.Common.{ℕ, ◌+◌, ◌-◌, ◌*◌, ◌/◌, ◌%◌, ◌^◌, ◌<◌, ◌≤◌, ◌≡◌, arith}
use miniboot.Common.Bits.{bit_and-ones}
use miniboot.Stdlib.{absv, rand}

-- A number is below 2 ^ 15, and it is bits 16 to 30 of the next state.
pub rand-lt :
    (holdrand : ℕ)
    → let (r, next) = rand holdrand in (r ≡ next / 2 ^ 16 % 2 ^ 15) × (r < 2 ^ 15) × (next < 2 ^ 32)
unfolding rand
rand-lt holdrand =
    let next = (holdrand * 214013 + 2531011) % 2 ^ 32 in
    let low = bit_and-ones 15 (next / 2 ^ 16) in (low, omega (arith, low), omega arith)

-- For a value of the int type, the result is the distance from zero: 2 ^ 31 for the least int.
pub absv_lem : (n : ℕ) → n ≤ 2 ^ 31 → (absv ((2 ^ 32 - n) % 2 ^ 32) ≡ n) × (n < 2 ^ 31 → absv n ≡ n)
unfolding absv
absv_lem n le = (ground arith, λ lt. ground arith)
