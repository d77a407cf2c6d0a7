-- ===== src/Ssl/Tests.antt =====
-- Known checksums, and the theorems of src/lib/ssl.c at them.
use miniboot.Common.{
  ℕ, ◌≡◌, refl, List, [], ◌∷◌, ◌++◌, ◌-◌, arith, replicate, Bool, true, false, ltb, if◌then◌else◌,
}
use miniboot.Ssl.{
  crc8, w1_crc8, crc16, crc16_byte, schedule, sha1_block, load_words, load_word, expand, next_word,
  sha1_rounds, sha1_round, mix,
}
use miniboot.Ssl.Tables.{crc8_ccitt_table}
use miniboot.Ssl.Reference.{
  shift_left, shift_right, bitwise_crc, fips_rounds, fips_initial, IsSchedule,
}
use miniboot.Ssl.Crc.{AreBytes, crc8-bitwise, crc16-bitwise}
use miniboot.Ssl.Sha.{sha1_block-fips}

-- "123456789"
abbrev digits : List ℕ
digits = 0x31 ∷ 0x32 ∷ 0x33 ∷ 0x34 ∷ 0x35 ∷ 0x36 ∷ 0x37 ∷ 0x38 ∷ 0x39 ∷ []

abbrev are_bytes : List ℕ → Bool
are_bytes [] = true
are_bytes (b ∷ bs) = if ltb b 256 then are_bytes bs else false

are_bytes-AreBytes : (bs : List ℕ) → are_bytes bs ≡ true → AreBytes bs
are_bytes-AreBytes [] e = tt
are_bytes-AreBytes (b ∷ bs) e = (ground arith, are_bytes-AreBytes bs (ground arith))

digits-AreBytes : AreBytes digits
digits-AreBytes = are_bytes-AreBytes digits refl

ccitt_check : crc8 crc8_ccitt_table digits 0 ≡ 0xF4
unfolding crc8
ccitt_check = refl

w1_check : w1_crc8 digits ≡ 0xA1
unfolding w1_crc8 crc8
w1_check = refl

crc16_check : crc16 0 digits ≡ 0xBB3D
unfolding crc16 crc16_byte
crc16_check = refl

-- "abc", padded to a block
abbrev abc : List ℕ
abc = 0x61 ∷ 0x62 ∷ 0x63 ∷ 0x80 ∷ replicate 59 0 ++ (0x18 ∷ [])

-- The digest of "abc" begins with a9993e36, the initial word 0x67452301 being added.
abc_check : (sha1_block abc).a ≡ 0xa9993e36 - 0x67452301
unfolding sha1_block schedule load_words load_word expand next_word sha1_rounds sha1_round mix
abc_check = refl

crc8-bitwise_example :
    (crc8 crc8_ccitt_table digits 0 ≡ bitwise_crc (shift_left 7) 0 digits)
    × (w1_crc8 digits ≡ bitwise_crc (shift_right 0x8C) 0 digits)
crc8-bitwise_example = crc8-bitwise digits 0 (omega arith) digits-AreBytes

crc16-bitwise_example : crc16 0xffff digits ≡ bitwise_crc (shift_right 0xA001) 0xffff digits
crc16-bitwise_example = crc16-bitwise digits 0xffff digits-AreBytes

sha1_block-fips_example :
    IsSchedule abc 80 (schedule abc)
    × (sha1_block abc ≡ fips_rounds (schedule abc) 0 80 fips_initial)
sha1_block-fips_example = sha1_block-fips abc (are_bytes-AreBytes abc refl)
