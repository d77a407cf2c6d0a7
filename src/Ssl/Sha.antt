-- ===== src/Ssl/Sha.antt =====
-- src/lib/ssl.c: `__sha1` runs the schedule and the rounds of FIPS 180-1 on one block.
use miniboot.Common.{
  ℕ, zero, suc, ◌+◌, ◌/◌, ◌%◌, ◌^◌, ◌<◌, ◌≤◌, ◌≡◌, refl, ap, ◌∙◌, List, bit_and, bit_or, Bool, true,
  ◌==◌, ==_iff, arith,
}
use miniboot.Common.Bits.{passes_below, passes_below_at}
use miniboot.Ssl.{word_at, shl32, Sha1, ktn, mix, sha1_round, sha1_rounds, schedule, sha1_block}
use miniboot.Ssl.Reference.{
  rotl, round_constant, round_function, fips_round, fips_rounds, fips_initial, IsSchedule,
}
use miniboot.Ssl.Words.{rotate_lem}
use miniboot.Ssl.Schedule.{schedule-IsSchedule}
use miniboot.Ssl.Crc.{AreBytes}

rotate_5 :
    (x : ℕ)
    → x < 2 ^ 32
    → bit_or (bit_and (shl32 x 5) 0xffffffe0) (bit_and (x / 2 ^ 27) 0x1f) ≡ rotl 5 x
rotate_5 x hx = rotate_lem 5 27 x (omega arith) (omega arith)

rotate_30 :
    (x : ℕ)
    → x < 2 ^ 32
    → bit_or (bit_and (shl32 x 30) 0xc0000000) (bit_and (x / 2 ^ 2) 0x3fffffff) ≡ rotl 30 x
rotate_30 x hx = rotate_lem 30 2 x (omega arith) (omega arith)

is_constant : ℕ → Bool
is_constant t = word_at ktn (t / 20) == round_constant t

constants_ok : passes_below is_constant 80 ≡ true
unfolding passes_below round_constant is_constant
constants_ok = refl

sha1_round_lem :
    (t w : ℕ) (s : Sha1)
    → t < 80
    → s.a < 2 ^ 32
    → s.b < 2 ^ 32
    → sha1_round t w s ≡ fips_round t w s
unfolding sha1_round fips_round mix round_function is_constant
sha1_round_lem t w s ht ha hb =
    let constant : word_at ktn (t / 20) ≡ round_constant t =
      (==_iff _ _).0 (passes_below_at is_constant 80 t constants_ok ht) in
    let f = round_function t s.b s.c s.d in
    let total : ((rotl 5 s.a + f) % 2 ^ 32 + (s.e + round_constant t + w)) % 2 ^ 32
        ≡ (rotl 5 s.a + f + s.e + round_constant t + w) % 2 ^ 32 =
      omega arith in
    rw (rotate_5 s.a ha, rotate_30 s.b hb, constant, total) refl

rounds_lem :
    (mt : List ℕ) (n t : ℕ) (s : Sha1)
    → t + n ≤ 80
    → s.a < 2 ^ 32
    → s.b < 2 ^ 32
    → sha1_rounds mt t n s ≡ fips_rounds mt t n s
unfolding sha1_rounds fips_rounds fips_round
rounds_lem mt zero t s ht ha hb = refl
rounds_lem mt (suc n) t s ht ha hb =
    let step = sha1_round_lem t (word_at mt t) s (omega arith) ha hb in
    ap (sha1_rounds mt (t + 1) n) step
    ∙ rounds_lem mt n (t + 1) (fips_round t (word_at mt t) s) (omega arith) (omega arith) ha

-- For the bytes of a block, `__sha1` computes the schedule of FIPS 180-1, 80 words, and then runs
-- its 80 rounds with them from the initial words of the standard: every rotation, constant and
-- function is the standard's, and the sums are taken modulo 2 ^ 32. The words that the rounds end
-- with are the result; the initial words are not added to them.
pub sha1_block-fips :
    (bytes : List ℕ)
    → AreBytes bytes
    → IsSchedule bytes 80 (schedule bytes)
      × (sha1_block bytes ≡ fips_rounds (schedule bytes) 0 80 fips_initial)
unfolding sha1_block
sha1_block-fips bytes h = (
  schedule-IsSchedule bytes h,
  rounds_lem (schedule bytes) 80 0 fips_initial (omega arith) (omega arith) (omega arith),
)
