-- ===== src/Stdlib.antt =====
-- src/lib/stdlib.c: the pseudo-random numbers, and the absolute value of an int. A `long` and an
-- `int` of 32 bits are kept as their bit patterns.
pub mod Bounds
use miniboot.Common.{ℕ, ◌+◌, ◌-◌, ◌*◌, ◌/◌, ◌%◌, ◌^◌, ◌&&◌, bit_and, ltb, if◌then◌else◌}

-- `value > 0 ? value : -value`, as an unsigned int.
unfoldable pub absv : ℕ → ℕ
absv value = if ltb 0 value && ltb value (2 ^ 31) then value else (2 ^ 32 - value) % 2 ^ 32

-- `holdrand`, as the program starts and after `srand`.
abbrev pub first_holdrand : ℕ
first_holdrand = 1

unfoldable pub srand : ℕ → ℕ
srand seed = seed % 2 ^ 32

-- The result and the new `holdrand`. The mask takes away what the shift of a negative `long` brings
-- in from the left.
unfoldable pub rand : ℕ → ℕ × ℕ
rand holdrand =
    let next = (holdrand * 214013 + 2531011) % 2 ^ 32 in (bit_and (next / 2 ^ 16) 0x7FFF, next)
