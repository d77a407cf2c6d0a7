-- ===== src/Ssl/Crc.antt =====
-- src/lib/ssl.c: the table-driven checksums are the bitwise ones.
use miniboot.Common.{
  ℕ, zero, suc, ◌*◌, ◌/◌, ◌%◌, ◌^◌, ◌<◌, ◌≡◌, refl, sym, ap, ◌∙◌, Bool, true, ◌&&◌, List, [], ◌∷◌,
  ◌++◌, bit_and, bit_xor, ◌==◌, ltb, if◌then◌else◌, arith,
}
use miniboot.Common.Bits.{passes_below, passes_below_at, bit_and-ones}
use native.Mathlib.Nat.{two-pow-succ}
use miniboot.Ssl.{word_at, crc8, w1_crc8, crc16_byte, crc16}
use miniboot.Ssl.Tables.{crc8_ccitt_table, w1_crc8_table, crc16_table}
use miniboot.Ssl.Reference.{shift_right, shift_left, times, bitwise_crc}
use miniboot.Ssl.Xor.{
  bit_xor_half, bit_xor_low_even, bit_xor-zero, bit_xor_assoc, bit_xor_above, bit_xor_parts,
  bit_xor_self, bit_xor_low_byte, bit_xor-below,
}

abbrev pub AreBytes : List ℕ → Type 0
AreBytes [] = Unit {0}
AreBytes (b ∷ bs) = (b < 256) × AreBytes bs

-- Each entry of a table is its index, shifted eight times, and a byte.
abbrev is_table : List ℕ → (ℕ → ℕ) → ℕ → Bool
is_table table shift i = word_at table i == times 8 shift i && ltb (word_at table i) 256

module _ (table : List ℕ) (shift : ℕ → ℕ)
    (ok : passes_below (is_table table shift) 256 ≡ true) where
  crc8_lem :
      (bs : List ℕ) (crc : ℕ)
      → crc < 256
      → AreBytes bs
      → crc8 table bs crc ≡ bitwise_crc shift crc bs
  unfolding crc8 bitwise_crc
  crc8_lem [] crc hc h = refl
  crc8_lem (b ∷ bs) crc hc (hb, h) =
      let x = bit_xor crc b in
      let small : x < 256 = omega (arith, bit_xor_above crc b hb) in
      let index : bit_and x 0xff ≡ x = omega (arith, bit_and-ones 8 x) in
      let entry = passes_below_at (is_table table shift) 256 x ok small in
      let value : word_at table x ≡ times 8 shift x = ground arith in
      let bound : word_at table x < 256 = ground arith in
      rw index (crc8_lem bs (word_at table x) bound h ∙ ap (λ t. bitwise_crc shift t bs) value)

ccitt_ok : passes_below (is_table crc8_ccitt_table (shift_left 7)) 256 ≡ true
unfolding passes_below times shift_left
ccitt_ok = refl

w1_ok : passes_below (is_table w1_crc8_table (shift_right 0x8C)) 256 ≡ true
unfolding passes_below times shift_right
w1_ok = refl

-- On bytes, and from any start value of a byte, `crc8` with the CCITT table is the checksum of the
-- polynomial X^8 + X^2 + X + 1, computed bit by bit from the most significant bit on, and `w1_crc8`,
-- which starts from 0, is the checksum of the 1-Wire bus, X^8 + X^5 + X^4 + 1, computed bit by bit
-- from the least significant bit on.
pub crc8-bitwise :
    (bs : List ℕ) (crc : ℕ)
    → crc < 256
    → AreBytes bs
    → (crc8 crc8_ccitt_table bs crc ≡ bitwise_crc (shift_left 7) crc bs)
      × (w1_crc8 bs ≡ bitwise_crc (shift_right 0x8C) 0 bs)
unfolding w1_crc8
crc8-bitwise bs crc lt h = (
  crc8_lem crc8_ccitt_table (shift_left 7) ccitt_ok bs crc lt h,
  crc8_lem w1_crc8_table (shift_right 0x8C) w1_ok bs 0 (omega arith) h,
)

-- A shift leaves alone what stands above the bits that it shifts out.
module _ (poly : ℕ) where
  shift_above : (h y : ℕ) → shift_right poly (bit_xor (h * 2) y) ≡ bit_xor h (shift_right poly y)
  unfolding shift_right
  shift_above h y =
      let half : bit_xor (h * 2) y / 2 ≡ bit_xor h (y / 2) =
        bit_xor_half (h * 2) y ∙ ap (λ t. bit_xor t (y / 2)) (omega arith) in
      let low : bit_xor (h * 2) y % 2 ≡ y % 2 = bit_xor_low_even h y in
      rw (half, low) (bit_xor_assoc h (y / 2) (if y % 2 == 1 then poly else 0))

  times_above :
      (n h y : ℕ)
      → times n (shift_right poly) (bit_xor (h * 2 ^ n) y)
        ≡ bit_xor h (times n (shift_right poly) y)
  unfolding times
  times_above zero h y = ap (λ t. bit_xor t y) (omega arith)
  times_above (suc n) h y =
      let twice : h * 2 ^ suc n ≡ h * 2 ^ n * 2 = omega (arith, ap (λ t. h * t) (two-pow-succ n)) in
      rw (twice, shift_above (h * 2 ^ n) y) (times_above n h (shift_right poly y))

abbrev is_table16 : ℕ → Bool
is_table16 i =
    word_at crc16_table i == times 8 (shift_right 0xA001) i && ltb (word_at crc16_table i) 65536

table16_ok : passes_below is_table16 256 ≡ true
unfolding passes_below times shift_right
table16_ok = refl

-- One step of the table is eight steps of the shift.
crc16_byte_lem :
    (crc b : ℕ) → b < 256 → crc16_byte crc b ≡ times 8 (shift_right 0xA001) (bit_xor crc b)
unfolding crc16_byte
crc16_byte_lem crc b hb =
    let x = bit_xor crc b in
    let entry = passes_below_at is_table16 256 (x % 256) table16_ok (omega arith) in
    let value : word_at crc16_table (x % 256) ≡ times 8 (shift_right 0xA001) (x % 256) =
      ground arith in
    rw (bit_and-ones 8 x, value)
      (ap (λ t. bit_xor t (times 8 (shift_right 0xA001) (x % 256))) (sym (bit_xor_above crc b hb))
        ∙ sym (times_above 0xA001 8 (x / 256) (x % 256))
        ∙ ap (times 8 (shift_right 0xA001)) (bit_xor_parts x))

-- On bytes, `crc16` is the checksum of the polynomial X^16 + X^15 + X^2 + 1, computed bit by bit
-- from the least significant bit on, whatever the start value.
pub crc16-bitwise :
    (bs : List ℕ) (crc : ℕ) → AreBytes bs → crc16 crc bs ≡ bitwise_crc (shift_right 0xA001) crc bs
unfolding crc16 bitwise_crc
crc16-bitwise [] crc h = refl
crc16-bitwise (b ∷ bs) crc (hb, h) =
    rw (crc16_byte_lem crc b hb) (crc16-bitwise bs (times 8 (shift_right 0xA001) (bit_xor crc b)) h)

crc16-append : (crc : ℕ) (xs ys : List ℕ) → crc16 crc (xs ++ ys) ≡ crc16 (crc16 crc xs) ys
unfolding crc16
crc16-append crc [] ys = refl
crc16-append crc (x ∷ xs) ys = crc16-append (crc16_byte crc x) xs ys

crc8-append :
    (table xs ys : List ℕ) (crc : ℕ) → crc8 table (xs ++ ys) crc ≡ crc8 table ys (crc8 table xs crc)
unfolding crc8
crc8-append table [] ys crc = refl
crc8-append table (x ∷ xs) ys crc =
    crc8-append table xs ys (word_at table (bit_and (bit_xor crc x) 0xff))

-- A message followed by its own 1-Wire checksum has the checksum 0.
w1_crc8-residue : (bs : List ℕ) → w1_crc8 (bs ++ (w1_crc8 bs ∷ [])) ≡ 0
unfolding w1_crc8 crc8
w1_crc8-residue bs =
    let c = crc8 w1_crc8_table bs 0 in
    crc8-append w1_crc8_table bs (c ∷ []) 0
    ∙ ap (λ t. word_at w1_crc8_table (bit_and t 0xff)) (bit_xor_self c)

-- Taking in the lower byte of the checksum leaves the upper one.
crc16_byte_self : (c : ℕ) → crc16_byte c (c % 256) ≡ c / 256
unfolding crc16_byte
crc16_byte_self c =
    let none : bit_and (bit_xor c (c % 256)) 0xff ≡ 0 = bit_and-ones 8 _ ∙ bit_xor_low_byte c in
    rw none (bit_xor-zero (c / 256))

crc16_byte-below : (crc b : ℕ) → crc < 2 ^ 16 → crc16_byte crc b < 2 ^ 16
unfolding crc16_byte
crc16_byte-below crc b hc =
    let x = bit_xor crc b in
    let entry = passes_below_at is_table16 256 (x % 256) table16_ok (omega arith) in
    let bound : word_at crc16_table (x % 256) < 65536 = ground arith in
    rw (bit_and-ones 8 x)
      (bit_xor-below 16 (crc / 256) (word_at crc16_table (x % 256)) (omega arith) bound)

crc16-below : (bs : List ℕ) (crc : ℕ) → crc < 2 ^ 16 → crc16 crc bs < 2 ^ 16
unfolding crc16
crc16-below [] crc hc = hc
crc16-below (b ∷ bs) crc hc = crc16-below bs (crc16_byte crc b) (crc16_byte-below crc b hc)

-- A message followed by its own 16-bit checksum, the lower byte first, has the checksum 0 again,
-- from any start value of 16 bits.
crc16-residue :
    (crc : ℕ) (bs : List ℕ)
    → crc < 2 ^ 16
    → crc16 crc (bs ++ (crc16 crc bs % 256 ∷ crc16 crc bs / 256 ∷ [])) ≡ 0
unfolding crc16
crc16-residue crc bs hc =
    let c = crc16 crc bs in
    let small = crc16-below bs crc hc in
    let byte : c / 256 ≡ c / 256 % 256 = omega arith in
    crc16-append crc bs (c % 256 ∷ c / 256 ∷ [])
    ∙ ap (λ t. crc16_byte t (c / 256)) (crc16_byte_self c)
    ∙ ap (crc16_byte (c / 256)) byte
    ∙ crc16_byte_self (c / 256)
    ∙ omega arith
