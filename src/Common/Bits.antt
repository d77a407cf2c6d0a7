-- ===== src/Common/Bits.antt =====
-- Laws of `bit_and`, `bit_or` and `bit_xor` at variables, from the digit recursion that the native
-- operations stand for.
use Prim.Native.Nat.{
  ℕ, zero, suc, ◌+◌, ◌-◌, ◌*◌, ◌/◌, ◌%◌, ◌^◌, ◌≤◌, ◌<◌, min, max, bit_and, bit_or, bit_xor, digits,
  bitwise, differ, bit_and-bitwise, bit_or-bitwise, bit_xor-bitwise,
}
use mathlib.Core.Path.{◌≡◌, refl, ap, ap₂, ◌∙◌, sym}
use mathlib.Core.Bool.{Bool, true, false}
use native.Mathlib.Nat.{two-pow-succ, div-div-eq-div-mul}
use mathlib.Core.Logic.{inl, inr}
use miniboot.Common.Tests.{leb, if◌then◌else◌, Bool-cases}
use native.Mathlib.Omega.{arith}

-- A test that every number below a bound passes, and its use at one of them.
unfoldable pub passes_below : (ℕ → Bool) → ℕ → Bool
passes_below test zero = true
passes_below test (suc bound) = if test bound then passes_below test bound else false

pub passes_below_at :
    (test : ℕ → Bool) (bound x : ℕ) → passes_below test bound ≡ true → x < bound → test x ≡ true
unfolding passes_below
passes_below_at test zero x all small = absurd (omega arith)
passes_below_at test (suc bound) x all small = ground (arith, passes_below_at test bound x)

module _ (base : ℕ → ℕ) (digit : ℕ → ℕ → ℕ) where
  -- From `a` digits on, one more changes nothing.
  one_more_digit : (n a b : ℕ) → a ≤ n → digits base digit (suc n) a b ≡ digits base digit n a b
  one_more_digit zero zero b small = refl
  one_more_digit zero (suc a) b small = absurd (omega arith)
  one_more_digit (suc n) zero b small = refl
  one_more_digit (suc n) (suc a) b small =
      omega (arith, one_more_digit n (suc a / 2) (b / 2) (omega arith))

  enough_digits : (n a b : ℕ) → a ≤ n → digits base digit n a b ≡ bitwise base digit a b
  enough_digits zero a b small = let none : a ≡ 0 = omega arith in rw none refl
  enough_digits (suc n) a b small = elim (Bool-cases (leb a n)) [
    | inl fewer ↦ one_more_digit n a b (ground arith) ∙ enough_digits n a b (ground arith)
    | inr all ↦ let all_of_them : a ≡ suc n = ground arith in rw all_of_them refl
  ]

  -- One digit of an operation whose base case is in step with it.
  bitwise_step :
      ((b : ℕ) → base b ≡ base (b / 2) * 2 + digit 0 (b % 2))
      → (a b : ℕ)
      → bitwise base digit a b ≡ bitwise base digit (a / 2) (b / 2) * 2 + digit (a % 2) (b % 2)
  bitwise_step in_step zero b = in_step b
  bitwise_step in_step (suc a) b = omega (arith, enough_digits a (suc a / 2) (b / 2) (omega arith))

pub bit_xor_step : (a b : ℕ) → bit_xor a b ≡ bit_xor (a / 2) (b / 2) * 2 + differ (a % 2) (b % 2)
bit_xor_step a b = omega (
  arith,
  bit_xor-bitwise a b,
  bit_xor-bitwise (a / 2) (b / 2),
  bitwise_step (λ b. b) differ (λ b. omega arith) a b,
)

pub bit_and_step : (a b : ℕ) → bit_and a b ≡ bit_and (a / 2) (b / 2) * 2 + min (a % 2) (b % 2)
bit_and_step a b = omega (
  arith,
  bit_and-bitwise a b,
  bit_and-bitwise (a / 2) (b / 2),
  bitwise_step (λ b. zero) min (λ b. omega arith) a b,
)

pub bit_or_step : (a b : ℕ) → bit_or a b ≡ bit_or (a / 2) (b / 2) * 2 + max (a % 2) (b % 2)
bit_or_step a b = omega (
  arith,
  bit_or-bitwise a b,
  bit_or-bitwise (a / 2) (b / 2),
  bitwise_step (λ b. b) max (λ b. omega arith) a b,
)

-- The conjunction is at most its right operand, whatever the fuel of the recursion.
and_digits-le : (n a b : ℕ) → digits (λ b. zero) min n a b ≤ b
and_digits-le zero a b = omega arith
and_digits-le (suc n) zero b = omega arith
and_digits-le (suc n) (suc a) b = omega (arith, and_digits-le n (suc a / 2) (b / 2))

pub bit_and-le : (a b : ℕ) → bit_and a b ≤ b
bit_and-le a b = omega (arith, bit_and-bitwise a b, and_digits-le a a b)

mod-double : (x p : ℕ) → 0 < p → x % (2 * p) ≡ x / 2 % p * 2 + x % 2
mod-double x p h = grind arith

pub pow_two_pos : (k : ℕ) → 0 < 2 ^ k
pow_two_pos zero = omega arith
pow_two_pos (suc k) = omega (arith, two-pow-succ k, pow_two_pos k)

mod-two_pow : (k x : ℕ) → x % 2 ^ suc k ≡ x / 2 % 2 ^ k * 2 + x % 2
mod-two_pow k x =
    ap (λ m. x % m) (omega (arith, two-pow-succ k)) ∙ mod-double x (2 ^ k) (pow_two_pos k)

-- A mask of `k` ones keeps the low `k` bits.
pub bit_and-ones : (k x : ℕ) → bit_and x (2 ^ k - 1) ≡ x % 2 ^ k
bit_and-ones zero x = omega (arith, bit_and-le x 0)
bit_and-ones (suc k) x =
    let half : (2 ^ suc k - 1) / 2 ≡ 2 ^ k - 1 = omega (arith, two-pow-succ k, pow_two_pos k) in
    let odd : (2 ^ suc k - 1) % 2 ≡ 1 = omega (arith, two-pow-succ k, pow_two_pos k) in
    bit_and_step x (2 ^ suc k - 1)
    ∙ ap₂ (λ m r. bit_and (x / 2) m * 2 + min (x % 2) r) half odd
    ∙ omega (arith, bit_and-ones k (x / 2), mod-two_pow k x)

bit_or-zero_fuel : (n a : ℕ) → a ≤ n → bit_or a 0 ≡ a
bit_or-zero_fuel n zero h = bit_or-bitwise 0 0
bit_or-zero_fuel zero (suc a) h = absurd (omega arith)
bit_or-zero_fuel (suc n) (suc a) h =
    omega (arith, bit_or_step (suc a) 0, bit_or-zero_fuel n (suc a / 2) (omega arith))

pub bit_or-zero : (a : ℕ) → bit_or a 0 ≡ a
bit_or-zero a = bit_or-zero_fuel a a (omega arith)

-- A mask that ends in a zero, and a value put where the mask has cleared.
pub bit_and-even : (x m : ℕ) → bit_and x (m * 2) ≡ bit_and (x / 2) m * 2
bit_and-even x m =
    let half : m * 2 / 2 ≡ m = omega arith in
    let even : m * 2 % 2 ≡ 0 = omega arith in
    bit_and_step x (m * 2)
    ∙ ap₂ (λ h r. bit_and (x / 2) h * 2 + min (x % 2) r) half even
    ∙ omega arith

pub even-bit_or : (a s : ℕ) → bit_or (a * 2) s ≡ bit_or a (s / 2) * 2 + s % 2
even-bit_or a s =
    let half : a * 2 / 2 ≡ a = omega arith in
    let even : a * 2 % 2 ≡ 0 = omega arith in
    bit_or_step (a * 2) s
    ∙ ap₂ (λ h r. bit_or h (s / 2) * 2 + max r (s % 2)) half even
    ∙ omega arith

-- Clearing the low two or three bits and setting them anew, as `clrsetbits` does with a mask of 3
-- or 7: the other bits of a 32-bit register stay.
pub clear_set_two :
    (v s : ℕ) → v < 2 ^ 32 → s < 4 → bit_or (bit_and v 0xffff_fffc) s ≡ v / 4 * 4 + s
clear_set_two v s hv hs =
    let cleared : bit_and v 0xffff_fffc ≡ v / 4 * 2 * 2 = omega (
      arith,
      bit_and-even v 0x7fff_fffe,
      bit_and-even (v / 2) 0x3fff_ffff,
      bit_and-ones 30 (v / 2 / 2),
    ) in
    rw cleared (omega (arith, even-bit_or (v / 4 * 2) s, even-bit_or (v / 4) (s / 2), top))
  where
    top : bit_or (v / 4) (s / 2 / 2) ≡ v / 4
    top = ap (λ k. bit_or (v / 4) k) (omega arith) ∙ bit_or-zero (v / 4)

pub clear_set_three :
    (v s : ℕ) → v < 2 ^ 32 → s < 8 → bit_or (bit_and v 0xffff_fff8) s ≡ v / 8 * 8 + s
clear_set_three v s hv hs =
    let cleared : bit_and v 0xffff_fff8 ≡ v / 8 * 2 * 2 * 2 = omega (
      arith,
      bit_and-even v 0x7fff_fffc,
      bit_and-even (v / 2) 0x3fff_fffe,
      bit_and-even (v / 2 / 2) 0x1fff_ffff,
      bit_and-ones 29 (v / 2 / 2 / 2),
    ) in
    rw cleared (
      omega (
        arith,
        even-bit_or (v / 8 * 2 * 2) s,
        even-bit_or (v / 8 * 2) (s / 2),
        even-bit_or (v / 8) (s / 2 / 2),
        top,
      ))
  where
    top : bit_or (v / 8) (s / 2 / 2 / 2) ≡ v / 8
    top = ap (λ k. bit_or (v / 8) k) (omega arith) ∙ bit_or-zero (v / 8)

half-mod : (k x : ℕ) → x % 2 ^ suc k / 2 ≡ x / 2 % 2 ^ k
half-mod k x = omega (arith, mod-two_pow k x)

low-mod : (k x : ℕ) → x % 2 ^ suc k % 2 ≡ x % 2
low-mod k x = omega (arith, mod-two_pow k x)

pub half-div : (k x : ℕ) → x / 2 ^ suc k ≡ x / 2 / 2 ^ k
half-div k x =
    ap (λ m. x / m) (omega (arith, two-pow-succ k)) ∙ sym (div-div-eq-div-mul x 2 (2 ^ k))

-- An operation on digits acts on the part above bit `k` and on the part below it by itself.
module _ (op : ℕ → ℕ → ℕ) (f : ℕ → ℕ → ℕ)
    (step : (a b : ℕ) → op a b ≡ op (a / 2) (b / 2) * 2 + f (a % 2) (b % 2))
    (none : op 0 0 ≡ 0) where
  op_split : (k x y : ℕ) → op x y ≡ op (x / 2 ^ k) (y / 2 ^ k) * 2 ^ k + op (x % 2 ^ k) (y % 2 ^ k)
  op_split zero x y =
      let x' : x / 2 ^ 0 ≡ x = omega arith in
      let y' : y / 2 ^ 0 ≡ y = omega arith in
      let x'' : x % 2 ^ 0 ≡ 0 = omega arith in
      let y'' : y % 2 ^ 0 ≡ 0 = omega arith in omega (arith, ap₂ op x' y', ap₂ op x'' y'', none)
  op_split (suc k) x y = omega (
    arith,
    step x y,
    op_split k (x / 2) (y / 2),
    ap₂ op (half-div k x) (half-div k y),
    step (x % 2 ^ suc k) (y % 2 ^ suc k),
    ap₂ op (half-mod k x) (half-mod k y),
    ap₂ f (low-mod k x) (low-mod k y),
    ap (λ t. op (x / 2 ^ suc k) (y / 2 ^ suc k) * t) (two-pow-succ k),
    ap (λ t. t * 2 ^ k) (ap₂ op (half-div k x) (half-div k y)),
  )

pub bit_and_split :
    (k x y : ℕ)
    → bit_and x y ≡ bit_and (x / 2 ^ k) (y / 2 ^ k) * 2 ^ k + bit_and (x % 2 ^ k) (y % 2 ^ k)
bit_and_split = op_split bit_and min bit_and_step (bit_and-bitwise 0 0)

pub bit_or_split :
    (k x y : ℕ)
    → bit_or x y ≡ bit_or (x / 2 ^ k) (y / 2 ^ k) * 2 ^ k + bit_or (x % 2 ^ k) (y % 2 ^ k)
bit_or_split = op_split bit_or max bit_or_step (bit_or-bitwise 0 0)

pub zero-bit_or : (b : ℕ) → bit_or 0 b ≡ b
zero-bit_or b = bit_or-bitwise 0 b

pub bit_xor_split :
    (k x y : ℕ)
    → bit_xor x y ≡ bit_xor (x / 2 ^ k) (y / 2 ^ k) * 2 ^ k + bit_xor (x % 2 ^ k) (y % 2 ^ k)
bit_xor_split = op_split bit_xor differ bit_xor_step (bit_xor-bitwise 0 0)
