-- ===== src/Ssl/Words.antt =====
-- Turning words and putting bytes side by side, as `__sha1` of src/lib/ssl.c does it with masks.
use miniboot.Common.{ℕ, ◌+◌, ◌-◌, ◌*◌, ◌/◌, ◌%◌, ◌^◌, ◌<◌, ◌≡◌, refl, ◌∙◌, bit_and, bit_or, arith}
use native.Mathlib.Nat.{mod-mod}
use miniboot.Common.Bits.{
  bit_and-ones, bit_and-le, bit_and_split, bit_or_split, bit_or-zero, zero-bit_or, pow_two_pos,
}

mul-div : (h p : ℕ) → 0 < p → h * p / p ≡ h
mul-div h p pos = grind arith

mul-mod : (h p : ℕ) → 0 < p → h * p % p ≡ 0
mul-mod h p pos = grind arith

-- A value below `2 ^ k` beside a multiple of it.
pub bit_or-beside : (k h l : ℕ) → l < 2 ^ k → bit_or (h * 2 ^ k) l ≡ h * 2 ^ k + l
bit_or-beside k h l hl =
    let pos = pow_two_pos k in
    let none : l / 2 ^ k ≡ 0 = grind arith in
    let whole : l % 2 ^ k ≡ l = grind arith in
    bit_or_split k (h * 2 ^ k) l
    ∙ rw (mul-div h (2 ^ k) pos, mul-mod h (2 ^ k) pos, none, whole, bit_or-zero h, zero-bit_or l)
        refl

-- A mask with `m` ones above `k` zeros.
bit_and-above : (k m y : ℕ) → bit_and (y * 2 ^ k) ((2 ^ m - 1) * 2 ^ k) ≡ y % 2 ^ m * 2 ^ k
bit_and-above k m y =
    let pos = pow_two_pos k in
    let none : bit_and 0 0 ≡ 0 = omega (arith, bit_and-le 0 0) in
    bit_and_split k (y * 2 ^ k) ((2 ^ m - 1) * 2 ^ k)
    ∙ rw
        (
          mul-div y (2 ^ k) pos,
          mul-mod y (2 ^ k) pos,
          mul-div (2 ^ m - 1) (2 ^ k) pos,
          mul-mod (2 ^ m - 1) (2 ^ k) pos,
          none,
          bit_and-ones m y,
        )
        (omega arith)

-- Turning a word by `k` bits, with the two masks of the source.
pub rotate_lem :
    (k m x : ℕ)
    → x * 2 ^ k % 2 ^ 32 ≡ x % 2 ^ m * 2 ^ k
    → x / 2 ^ m < 2 ^ k
    → bit_or (bit_and (x * 2 ^ k % 2 ^ 32) ((2 ^ m - 1) * 2 ^ k)) (bit_and (x / 2 ^ m) (2 ^ k - 1))
      ≡ x * 2 ^ k % 2 ^ 32 + x / 2 ^ m
rotate_lem k m x e hl =
    let same : x % 2 ^ m % 2 ^ m ≡ x % 2 ^ m = mod-mod x (2 ^ m) in
    let whole : x / 2 ^ m % 2 ^ k ≡ x / 2 ^ m = grind arith in
    rw (e, bit_and-above k m (x % 2 ^ m), same, bit_and-ones k (x / 2 ^ m), whole)
      (bit_or-beside k (x % 2 ^ m) (x / 2 ^ m) hl)
