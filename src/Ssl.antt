-- ===== src/Ssl.antt =====
-- src/lib/ssl.c: checksums and the SHA-1 rounds. A buffer and its length are the list of its bytes.
pub mod Tables
pub mod Reference
pub mod Xor
pub mod Crc
pub mod Words
pub mod Schedule
pub mod Sha
pub mod Tests
use miniboot.Common.{
  ℕ, zero, suc, ◌+◌, ◌-◌, ◌*◌, ◌/◌, ◌%◌, ◌^◌, List, [], ◌∷◌, ◌++◌, get_or, bit_and, bit_or, bit_xor,
  ltb, if◌then◌else◌,
}
use miniboot.Bus.{bit_not32}
use miniboot.Ssl.Tables.{w1_crc8_table, crc16_table}

-- `xs[i]`; every index of the code is inside its array.
abbrev pub word_at : List ℕ → ℕ → ℕ
word_at xs i = get_or xs i 0

unfoldable pub crc8 : List ℕ → List ℕ → ℕ → ℕ
crc8 table [] crc = crc
crc8 table (b ∷ buf) crc = crc8 table buf (word_at table (bit_and (bit_xor crc b) 0xff))

unfoldable pub w1_crc8 : List ℕ → ℕ
w1_crc8 bytes = crc8 w1_crc8_table bytes 0

unfoldable pub crc16_byte : ℕ → ℕ → ℕ
crc16_byte crc b = bit_xor (crc / 2 ^ 8) (word_at crc16_table (bit_and (bit_xor crc b) 0xff))

unfoldable pub crc16 : ℕ → List ℕ → ℕ
crc16 crc [] = crc
crc16 crc (b ∷ buffer) = crc16 (crc16_byte crc b) buffer

-- `x << k` of a 32-bit word
abbrev pub shl32 : ℕ → ℕ → ℕ
shl32 x k = x * 2 ^ k % 2 ^ 32

-- The first loop of `__sha1`: word `i` of the block.
unfoldable pub load_word : List ℕ → ℕ → ℕ
load_word bytes i =
    bit_or
      (bit_or
        (bit_or (bit_and (word_at bytes (i * 4)) 0xff * 2 ^ 24)
          (bit_and (word_at bytes (i * 4 + 1)) 0xff * 2 ^ 16))
        (bit_and (word_at bytes (i * 4 + 2)) 0xff * 2 ^ 8))
      (bit_and (word_at bytes (i * 4 + 3)) 0xff)

-- `mt[i], …, mt[15]`, with `n` words to go.
unfoldable pub load_words : List ℕ → ℕ → ℕ → List ℕ
load_words bytes i zero = []
load_words bytes i (suc n) = load_word bytes i ∷ load_words bytes (i + 1) n

-- The second loop: `mt[i]` from the words in front of it.
unfoldable pub next_word : List ℕ → ℕ → ℕ
next_word mt i =
    let tmp =
      bit_xor (bit_xor (bit_xor (word_at mt (i - 3)) (word_at mt (i - 8))) (word_at mt (i - 14)))
        (word_at mt (i - 16)) in
    bit_or (bit_and (shl32 tmp 1) 0xfffffffe) (bit_and (tmp / 2 ^ 31) 0x1)

unfoldable pub expand : List ℕ → ℕ → ℕ → List ℕ
expand mt i zero = mt
expand mt i (suc n) = expand (mt ++ (next_word mt i ∷ [])) (i + 1) n

-- `u32 sha1[5]`
pub record Sha1 : Type 0 where
  pub a : ℕ
  pub b : ℕ
  pub c : ℕ
  pub d : ℕ
  pub e : ℕ

abbrev pub ktn : List ℕ
ktn = 0x5a827999 ∷ 0x6ed9eba1 ∷ 0x8f1bbcdc ∷ 0xca62c1d6 ∷ []

-- What the branches on `i` add to `tmp`.
unfoldable pub mix : ℕ → Sha1 → ℕ
mix i s =
    if ltb i 20
    then bit_or (bit_and s.b s.c) (bit_and (bit_not32 s.b) s.d)
    else if ltb i 40
    then bit_xor (bit_xor s.b s.c) s.d
    else if ltb i 60
    then bit_or (bit_or (bit_and s.b s.c) (bit_and s.b s.d)) (bit_and s.c s.d)
    else bit_xor (bit_xor s.b s.c) s.d

-- One turn of the third loop.
unfoldable pub sha1_round : ℕ → ℕ → Sha1 → Sha1
sha1_round i w s =
    let tmp = bit_or (bit_and (shl32 s.a 5) 0xffffffe0) (bit_and (s.a / 2 ^ 27) 0x1f) in
    let tmp1 = (tmp + mix i s) % 2 ^ 32 in
    record {
      a = (tmp1 + (s.e + word_at ktn (i / 20) + w)) % 2 ^ 32;
      b = s.a;
      c = bit_or (bit_and (shl32 s.b 30) 0xc0000000) (bit_and (s.b / 2 ^ 2) 0x3fffffff);
      d = s.c;
      e = s.d;
    }

unfoldable pub sha1_rounds : List ℕ → ℕ → ℕ → Sha1 → Sha1
sha1_rounds mt i zero s = s
sha1_rounds mt i (suc n) s = sha1_rounds mt (i + 1) n (sha1_round i (word_at mt i) s)

abbrev pub initial : Sha1
initial = record { a = 0x67452301; b = 0xefcdab89; c = 0x98badcfe; d = 0x10325476; e = 0xc3d2e1f0 }

unfoldable pub schedule : List ℕ → List ℕ
schedule bytes = expand (load_words bytes 0 16) 16 64

unfoldable pub sha1_block : List ℕ → Sha1
sha1_block bytes = sha1_rounds (schedule bytes) 0 80 initial
