-- ===== src/Ssl/Xor.antt =====
-- Laws of `bit_xor` at variables, for the checksums.
use miniboot.Common.{
  ℕ, zero, suc, ◌+◌, ◌*◌, ◌/◌, ◌%◌, ◌^◌, ◌≤◌, ◌<◌, ◌≡◌, refl, sym, ap, ap₂, ◌∙◌, bit_xor, arith,
}
use Prim.Native.Nat.{differ, bit_xor-bitwise}
use miniboot.Common.Bits.{bit_xor_step, bit_xor_split, half-div, pow_two_pos}

differ-zero : (p : ℕ) → differ p 0 ≡ p
differ-zero zero = refl
differ-zero (suc p) = refl

differ-below : (p q : ℕ) → p < 2 → q < 2 → differ p q < 2
differ-below zero q hp hq = hq
differ-below (suc p) zero hp hq = hp
differ-below (suc zero) (suc q) hp hq = omega arith
differ-below (suc (suc p)) (suc q) hp hq = absurd (omega arith)

differ_assoc : (p q r : ℕ) → p < 2 → q < 2 → r < 2 → differ (differ p q) r ≡ differ p (differ q r)
differ_assoc zero q r hp hq hr = refl
differ_assoc (suc p) zero r hp hq hr = refl
differ_assoc (suc p) (suc q) zero hp hq hr = differ-zero (differ p q)
differ_assoc (suc zero) (suc zero) (suc zero) hp hq hr = refl
differ_assoc (suc zero) (suc zero) (suc (suc r)) hp hq hr = absurd (omega arith)
differ_assoc (suc zero) (suc (suc q)) (suc r) hp hq hr = absurd (omega arith)
differ_assoc (suc (suc p)) (suc q) (suc r) hp hq hr = absurd (omega arith)

pub bit_xor_half : (a b : ℕ) → bit_xor a b / 2 ≡ bit_xor (a / 2) (b / 2)
bit_xor_half a b =
    omega (arith, bit_xor_step a b, differ-below (a % 2) (b % 2) (omega arith) (omega arith))

pub bit_xor_low : (a b : ℕ) → bit_xor a b % 2 ≡ differ (a % 2) (b % 2)
bit_xor_low a b =
    omega (arith, bit_xor_step a b, differ-below (a % 2) (b % 2) (omega arith) (omega arith))

pub bit_xor_low_even : (h b : ℕ) → bit_xor (h * 2) b % 2 ≡ b % 2
bit_xor_low_even h b =
    let even : h * 2 % 2 ≡ 0 = omega arith in
    bit_xor_low (h * 2) b ∙ ap (λ t. differ t (b % 2)) even

pub zero-bit_xor : (b : ℕ) → bit_xor 0 b ≡ b
zero-bit_xor b = bit_xor-bitwise 0 b

bit_xor-zero_fuel : (n a : ℕ) → a ≤ n → bit_xor a 0 ≡ a
bit_xor-zero_fuel n zero h = zero-bit_xor 0
bit_xor-zero_fuel zero (suc a) h = absurd (omega arith)
bit_xor-zero_fuel (suc n) (suc a) h = omega (
  arith,
  bit_xor_step (suc a) 0,
  differ-zero (suc a % 2),
  bit_xor-zero_fuel n (suc a / 2) (omega arith),
)

pub bit_xor-zero : (a : ℕ) → bit_xor a 0 ≡ a
bit_xor-zero a = bit_xor-zero_fuel a a (omega arith)

bit_xor_assoc_fuel : (n a b c : ℕ) → a ≤ n → bit_xor (bit_xor a b) c ≡ bit_xor a (bit_xor b c)
bit_xor_assoc_fuel n zero b c h = rw (zero-bit_xor b, zero-bit_xor (bit_xor b c)) refl
bit_xor_assoc_fuel zero (suc a) b c h = absurd (omega arith)
bit_xor_assoc_fuel (suc n) (suc a) b c h = omega (
  arith,
  bit_xor_step (bit_xor (suc a) b) c,
  bit_xor_step (suc a) (bit_xor b c),
  ap (λ t. bit_xor t (c / 2)) (bit_xor_half (suc a) b),
  ap (λ t. bit_xor (suc a / 2) t) (bit_xor_half b c),
  ap (λ t. differ t (c % 2)) (bit_xor_low (suc a) b),
  ap (λ t. differ (suc a % 2) t) (bit_xor_low b c),
  differ_assoc (suc a % 2) (b % 2) (c % 2) (omega arith) (omega arith) (omega arith),
  bit_xor_assoc_fuel n (suc a / 2) (b / 2) (c / 2) (omega arith),
)

pub bit_xor_assoc : (a b c : ℕ) → bit_xor (bit_xor a b) c ≡ bit_xor a (bit_xor b c)
bit_xor_assoc a b c = bit_xor_assoc_fuel a a b c (omega arith)

pub bit_xor_div : (k a b : ℕ) → bit_xor a b / 2 ^ k ≡ bit_xor (a / 2 ^ k) (b / 2 ^ k)
bit_xor_div zero a b =
    let whole : (x : ℕ) → x / 2 ^ 0 ≡ x = λ x. omega arith in
    rw (whole (bit_xor a b), whole a, whole b) refl
bit_xor_div (suc k) a b =
    half-div k (bit_xor a b)
    ∙ ap (λ t. t / 2 ^ k) (bit_xor_half a b)
    ∙ bit_xor_div k (a / 2) (b / 2)
    ∙ sym (ap₂ bit_xor (half-div k a) (half-div k b))

pub bit_xor-below : (k a b : ℕ) → a < 2 ^ k → b < 2 ^ k → bit_xor a b < 2 ^ k
bit_xor-below k a b ha hb =
    let low : a / 2 ^ k ≡ 0 = grind arith in
    let low' : b / 2 ^ k ≡ 0 = grind arith in
    let none : bit_xor a b / 2 ^ k ≡ 0 = bit_xor_div k a b ∙ rw (low, low') (zero-bit_xor 0) in
    let positive = pow_two_pos k in grind (arith, none)

-- A byte does not touch what is above it.
pub bit_xor_above : (a b : ℕ) → b < 256 → bit_xor a b / 256 ≡ a / 256
bit_xor_above a b hb =
    bit_xor_div 8 a b ∙ ap (λ t. bit_xor (a / 256) t) (omega arith) ∙ bit_xor-zero (a / 256)

-- A number is what is above its lowest byte, with that byte put on.
pub bit_xor_parts : (a : ℕ) → bit_xor (a / 256 * 256) (a % 256) ≡ a
bit_xor_parts a =
    bit_xor_split 8 (a / 256 * 256) (a % 256)
    ∙ ap₂ (λ t u. t * 256 + u) (ap₂ bit_xor (omega arith) (omega arith) ∙ bit_xor-zero (a / 256))
        (ap₂ bit_xor (omega arith) (omega arith) ∙ zero-bit_xor (a % 256))
    ∙ omega arith

differ_self : (p : ℕ) → differ p p ≡ 0
differ_self zero = refl
differ_self (suc p) = differ_self p

bit_xor_self_fuel : (n a : ℕ) → a ≤ n → bit_xor a a ≡ 0
bit_xor_self_fuel n zero h = zero-bit_xor 0
bit_xor_self_fuel zero (suc a) h = absurd (omega arith)
bit_xor_self_fuel (suc n) (suc a) h = omega (
  arith,
  bit_xor_step (suc a) (suc a),
  differ_self (suc a % 2),
  bit_xor_self_fuel n (suc a / 2) (omega arith),
)

pub bit_xor_self : (a : ℕ) → bit_xor a a ≡ 0
bit_xor_self a = bit_xor_self_fuel a a (omega arith)

pub bit_xor_low_byte : (a : ℕ) → bit_xor a (a % 256) % 256 ≡ 0
bit_xor_low_byte a =
    let none : bit_xor (a % 256) (a % 256 % 256) ≡ 0 =
      ap (λ t. bit_xor (a % 256) t) (omega arith) ∙ bit_xor_self (a % 256) in
    omega (arith, bit_xor_split 8 a (a % 256), none)
