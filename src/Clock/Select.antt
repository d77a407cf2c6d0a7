-- ===== src/Clock/Select.antt =====
-- src/boot/clock.c: the value that `do_setup_dpll` puts into CM_CLKSEL_DPLL.
use miniboot.Common.{ℕ, ◌+◌, ◌*◌, ◌/◌, ◌%◌, ◌^◌, ◌<◌, ◌≡◌, ap, ap₂, bit_and, bit_or, arith}
use miniboot.Common.Bits.{
  bit_and-le, bit_and-ones, bit_and_split, bit_or-zero, bit_or_split, zero-bit_or,
}
use miniboot.Clock.{clksel}
use miniboot.Clock.Tables.{DpllParams}

clear_m : (v : ℕ) → v < 2 ^ 32 → bit_and v 0xfff8_00ff ≡ v / 2 ^ 19 * 2 ^ 19 + v % 2 ^ 8
clear_m v h = omega (
  arith,
  bit_and_split 8 v 0xfff8_00ff,
  bit_and_split 11 (v / 2 ^ 8) 0xfff800,
  bit_and-ones 13 (v / 2 ^ 8 / 2 ^ 11),
  bit_and-le (v / 2 ^ 8 % 2 ^ 11) 0,
  bit_and-ones 8 (v % 2 ^ 8),
)

place_m : (m : ℕ) → m < 2 ^ 11 → bit_and (m * 2 ^ 8) 0x7ff00 ≡ m * 2 ^ 8
place_m m h =
    let high : m * 2 ^ 8 / 2 ^ 8 ≡ m = omega arith in
    omega (
      arith,
      bit_and_split 8 (m * 2 ^ 8) 0x7ff00,
      ap (λ k. bit_and k 0x7ff) high,
      bit_and-ones 11 m,
      bit_and-le (m * 2 ^ 8 % 2 ^ 8) 0,
    )

put_m :
    (t l m : ℕ)
    → l < 2 ^ 8
    → m < 2 ^ 11
    → bit_or (t * 2 ^ 19 + l) (m * 2 ^ 8) ≡ t * 2 ^ 19 + m * 2 ^ 8 + l
put_m t l m hl hm =
    let x : (t * 2 ^ 19 + l) / 2 ^ 8 ≡ t * 2 ^ 11 = omega arith in
    let y : m * 2 ^ 8 / 2 ^ 8 ≡ m = omega arith in
    let x' : (t * 2 ^ 19 + l) % 2 ^ 8 ≡ l = omega arith in
    let y' : m * 2 ^ 8 % 2 ^ 8 ≡ 0 = omega arith in
    let z : t * 2 ^ 11 / 2 ^ 11 ≡ t = omega arith in
    let w : m / 2 ^ 11 ≡ 0 = omega arith in
    let z' : t * 2 ^ 11 % 2 ^ 11 ≡ 0 = omega arith in
    let w' : m % 2 ^ 11 ≡ m = omega arith in
    omega (
      arith,
      bit_or_split 8 (t * 2 ^ 19 + l) (m * 2 ^ 8),
      ap₂ bit_or x y,
      ap₂ bit_or x' y',
      bit_or-zero l,
      bit_or_split 11 (t * 2 ^ 11) m,
      ap₂ bit_or z w,
      ap₂ bit_or z' w',
      bit_or-zero t,
      zero-bit_or m,
    )

clear_n : (v : ℕ) → v < 2 ^ 32 → bit_and v 0xffff_ff80 ≡ v / 2 ^ 7 * 2 ^ 7
clear_n v h =
    omega
      (arith, bit_and_split 7 v 0xffff_ff80, bit_and-ones 25 (v / 2 ^ 7), bit_and-le (v % 2 ^ 7) 0)

put_n : (t n : ℕ) → n < 2 ^ 7 → bit_or (t * 2 ^ 7) n ≡ t * 2 ^ 7 + n
put_n t n h =
    let x : t * 2 ^ 7 / 2 ^ 7 ≡ t = omega arith in
    let y : n / 2 ^ 7 ≡ 0 = omega arith in
    let x' : t * 2 ^ 7 % 2 ^ 7 ≡ 0 = omega arith in
    let y' : n % 2 ^ 7 ≡ n = omega arith in
    omega (
      arith,
      bit_or_split 7 (t * 2 ^ 7) n,
      ap₂ bit_or x y,
      ap₂ bit_or x' y',
      bit_or-zero t,
      zero-bit_or n,
    )

-- For any old contents of CM_CLKSEL_DPLL and any M and N that fit their fields, the new contents
-- have M in bits 8 to 18 and N in bits 0 to 6, and every other bit as before.
pub clksel_fields :
    (tmp : ℕ) (params : DpllParams)
    → tmp < 2 ^ 32
    → params.m < 2 ^ 11
    → params.n < 2 ^ 7
    → clksel tmp params
      ≡ tmp / 2 ^ 19 * 2 ^ 19 + params.m * 2 ^ 8 + tmp / 2 ^ 7 % 2 * 2 ^ 7 + params.n
unfolding clksel
clksel_fields tmp params ht hm hn =
    let t = tmp / 2 ^ 19 in
    let l = tmp % 2 ^ 8 in
    let with_m = t * 2 ^ 19 + params.m * 2 ^ 8 + l in
    rw (clear_m tmp ht, place_m params.m hm, put_m t l params.m (omega arith) hm)
      (rw (clear_n with_m (omega arith), bit_and-ones 7 params.n)
        (rw (put_n (with_m / 2 ^ 7) (params.n % 2 ^ 7) (omega arith)) (omega arith)))
