-- ===== src/Ssl/Reference.antt =====
-- What the checksums of src/lib/ssl.c compute, bit by bit, and the equations of FIPS 180-1.
use miniboot.Common.{
  ℕ, zero, suc, ◌+◌, ◌-◌, ◌*◌, ◌/◌, ◌%◌, ◌^◌, List, [], ◌∷◌, bit_and, bit_or, bit_xor, ◌==◌, ltb,
  if◌then◌else◌, length, ◌<◌, ◌≡◌,
}
use miniboot.Ssl.{word_at, Sha1}

-- A register that is shifted to the right, the polynomial `poly` reflected.
unfoldable pub shift_right : ℕ → ℕ → ℕ
shift_right poly x = bit_xor (x / 2) (if x % 2 == 1 then poly else 0)

-- A register of 8 bits that is shifted to the left.
unfoldable pub shift_left : ℕ → ℕ → ℕ
shift_left poly x = bit_xor (x * 2 % 256) (if x / 128 == 1 then poly else 0)

unfoldable pub times : ℕ → (ℕ → ℕ) → ℕ → ℕ
times zero f x = x
times (suc n) f x = times n f (f x)

-- Put each byte on the register, then shift eight times.
unfoldable pub bitwise_crc : (ℕ → ℕ) → ℕ → List ℕ → ℕ
bitwise_crc shift crc [] = crc
bitwise_crc shift crc (b ∷ bs) = bitwise_crc shift (times 8 shift (bit_xor crc b)) bs

-- A word turned to the left by `k` bits, and by `32 - k` to the right.
abbrev pub rotl : ℕ → ℕ → ℕ
rotl k x = x * 2 ^ k % 2 ^ 32 + x / 2 ^ (32 - k)

-- The additive constant of round `t`.
unfoldable pub round_constant : ℕ → ℕ
round_constant t =
    if ltb t 20
    then 0x5a827999
    else if ltb t 40
    then 0x6ed9eba1
    else if ltb t 60
    then 0x8f1bbcdc
    else 0xca62c1d6

-- The function of round `t`.
unfoldable pub round_function : ℕ → ℕ → ℕ → ℕ → ℕ
round_function t b c d =
    if ltb t 20
    then bit_or (bit_and b c) (bit_and (2 ^ 32 - 1 - b) d)
    else if ltb t 40
    then bit_xor (bit_xor b c) d
    else if ltb t 60
    then bit_or (bit_or (bit_and b c) (bit_and b d)) (bit_and c d)
    else bit_xor (bit_xor b c) d

-- The five words that the computation of a digest begins with.
abbrev pub fips_initial : Sha1
fips_initial = record {
  a = 0x67452301;
  b = 0xEFCDAB89;
  c = 0x98BADCFE;
  d = 0x10325476;
  e = 0xC3D2E1F0;
}

-- One round on the five words.
unfoldable pub fips_round : ℕ → ℕ → Sha1 → Sha1
fips_round t w s = record {
  a = (rotl 5 s.a + round_function t s.b s.c s.d + s.e + round_constant t + w) % 2 ^ 32;
  b = s.a;
  c = rotl 30 s.b;
  d = s.c;
  e = s.d;
}

-- `n` rounds from round `t` on, with the words of a schedule.
unfoldable pub fips_rounds : List ℕ → ℕ → ℕ → Sha1 → Sha1
fips_rounds mt t zero s = s
fips_rounds mt t (suc n) s = fips_rounds mt (t + 1) n (fips_round t (word_at mt t) s)

-- The first `n` words of the schedule of a block: the block itself, and the recurrence.
pub record IsSchedule (bytes : List ℕ) (n : ℕ) (mt : List ℕ) : Type 0 where
  pub size : length mt ≡ n
  pub first :
      (i : ℕ)
      → i < 16
      → word_at mt i
        ≡ word_at bytes (i * 4) * 2 ^ 24
          + word_at bytes (i * 4 + 1) * 2 ^ 16
          + word_at bytes (i * 4 + 2) * 2 ^ 8
          + word_at bytes (i * 4 + 3)
  pub next :
      (i : ℕ)
      → i + 16 < n
      → word_at mt (i + 16)
        ≡ rotl 1 (
            bit_xor
              (bit_xor (bit_xor (word_at mt (i + 13)) (word_at mt (i + 8))) (word_at mt (i + 2)))
              (word_at mt i))
