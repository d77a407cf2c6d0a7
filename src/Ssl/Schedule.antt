-- ===== src/Ssl/Schedule.antt =====
-- src/lib/ssl.c: the 80 words of `__sha1`.
use miniboot.Common.{
  ℕ, zero, suc, ◌+◌, ◌-◌, ◌*◌, ◌/◌, ◌^◌, ◌<◌, ◌≡◌, refl, sym, ap, ◌∙◌, List, [], ◌∷◌, ◌++◌, length,
  length-append, bit_and, bit_or, bit_xor, ltb, inl, inr, Bool-cases, arith,
}
use miniboot.Common.Bits.{bit_and-ones}
use miniboot.Ssl.{word_at, shl32, load_word, load_words, next_word, expand, schedule}
use miniboot.Ssl.Reference.{rotl, IsSchedule}
use miniboot.Ssl.Xor.{bit_xor-below}
use miniboot.Ssl.Words.{rotate_lem, bit_or-beside}
use miniboot.Ssl.Crc.{AreBytes}

rotate_1 :
    (x : ℕ)
    → x < 2 ^ 32
    → bit_or (bit_and (shl32 x 1) 0xfffffffe) (bit_and (x / 2 ^ 31) 0x1) ≡ rotl 1 x
rotate_1 x hx = rotate_lem 1 31 x (omega arith) (omega arith)

-- Four bytes, the first of them the most significant.
big_endian :
    (p q r s : ℕ)
    → p < 256
    → q < 256
    → r < 256
    → s < 256
    → bit_or
        (bit_or
          (bit_or (bit_and p 0xff * 2 ^ 24) (bit_and q 0xff * 2 ^ 16))
          (bit_and r 0xff * 2 ^ 8))
        (bit_and s 0xff)
      ≡ p * 2 ^ 24 + q * 2 ^ 16 + r * 2 ^ 8 + s
big_endian p q r s hp hq hr hs =
    let byte : (x : ℕ) → x < 256 → bit_and x 0xff ≡ x = λ x hx. bit_and-ones 8 x ∙ omega arith in
    let two : p * 2 ^ 24 + q * 2 ^ 16 ≡ (p * 2 ^ 8 + q) * 2 ^ 16 = omega arith in
    let three : (p * 2 ^ 8 + q) * 2 ^ 16 + r * 2 ^ 8 ≡ (p * 2 ^ 16 + q * 2 ^ 8 + r) * 2 ^ 8 =
      omega arith in
    rw
      (
        byte p hp,
        byte q hq,
        byte r hr,
        byte s hs,
        bit_or-beside 24 p (q * 2 ^ 16) (omega arith),
        two,
      )
      (rw (bit_or-beside 16 (p * 2 ^ 8 + q) (r * 2 ^ 8) (omega arith), three)
        (bit_or-beside 8 (p * 2 ^ 16 + q * 2 ^ 8 + r) s (omega arith) ∙ omega arith))

byte_at : (bytes : List ℕ) (i : ℕ) → AreBytes bytes → word_at bytes i < 256
byte_at [] i h = omega arith
byte_at (b ∷ bs) zero (hb, h) = hb
byte_at (b ∷ bs) (suc i) (hb, h) = byte_at bs i h

word_at-append : (xs ys : List ℕ) (i : ℕ) → i < length xs → word_at (xs ++ ys) i ≡ word_at xs i
word_at-append [] ys i h = absurd (omega arith)
word_at-append (x ∷ xs) ys zero h = refl
word_at-append (x ∷ xs) ys (suc i) h = word_at-append xs ys i (omega arith)

word_at-last : (xs : List ℕ) (w : ℕ) → word_at (xs ++ (w ∷ [])) (length xs) ≡ w
word_at-last [] w = refl
word_at-last (x ∷ xs) w = word_at-last xs w

length-load_words : (bytes : List ℕ) (n i : ℕ) → length (load_words bytes i n) ≡ n
unfolding load_words
length-load_words bytes zero i = refl
length-load_words bytes (suc n) i = ap suc (length-load_words bytes n (i + 1))

word_at-load_words :
    (bytes : List ℕ) (n i j : ℕ)
    → j < n
    → word_at (load_words bytes i n) j ≡ load_word bytes (i + j)
unfolding load_words
word_at-load_words bytes zero i j h = absurd (omega arith)
word_at-load_words bytes (suc n) i zero h = ap (load_word bytes) (omega arith)
word_at-load_words bytes (suc n) i (suc j) h =
    word_at-load_words bytes n (i + 1) j (omega arith) ∙ ap (load_word bytes) (omega arith)

-- The words of a list are 32 bits wide.
AreWords : List ℕ → Type 0
AreWords mt = (i : ℕ) → i < length mt → word_at mt i < 2 ^ 32

-- What the recurrence puts in front of the rotation.
abbrev mixed : List ℕ → ℕ → ℕ
mixed mt i =
    bit_xor (bit_xor (bit_xor (word_at mt (i + 13)) (word_at mt (i + 8))) (word_at mt (i + 2)))
      (word_at mt i)

next_word_lem :
    (mt : List ℕ) (i : ℕ)
    → i + 16 ≡ length mt
    → AreWords mt
    → (next_word mt (i + 16) ≡ rotl 1 (mixed mt i)) × (rotl 1 (mixed mt i) < 2 ^ 32)
unfolding next_word AreWords
next_word_lem mt i full small =
    let three : i + 16 - 3 ≡ i + 13 = omega arith in
    let eight : i + 16 - 8 ≡ i + 8 = omega arith in
    let fourteen : i + 16 - 14 ≡ i + 2 = omega arith in
    let sixteen : i + 16 - 16 ≡ i = omega arith in
    let bound : mixed mt i < 2 ^ 32 =
      bit_xor-below 32 _ _
        (bit_xor-below 32 _ _
          (bit_xor-below 32 _ _ (small (i + 13) (omega arith)) (small (i + 8) (omega arith)))
          (small (i + 2) (omega arith)))
        (small i (omega arith)) in
    (rw (three, eight, fourteen, sixteen) (rotate_1 (mixed mt i) bound), omega arith)

mixed-append : (mt : List ℕ) (w i : ℕ) → i + 13 < length mt → mixed (mt ++ (w ∷ [])) i ≡ mixed mt i
mixed-append mt w i h =
    rw
      (
        word_at-append mt (w ∷ []) (i + 13) (omega arith),
        word_at-append mt (w ∷ []) (i + 8) (omega arith),
        word_at-append mt (w ∷ []) (i + 2) (omega arith),
        word_at-append mt (w ∷ []) i (omega arith),
      )
      refl

module _ (bytes : List ℕ) (h : AreBytes bytes) where
  load_word_lem :
      (i : ℕ)
      → load_word bytes i
        ≡ word_at bytes (i * 4) * 2 ^ 24
          + word_at bytes (i * 4 + 1) * 2 ^ 16
          + word_at bytes (i * 4 + 2) * 2 ^ 8
          + word_at bytes (i * 4 + 3)
  unfolding load_word
  load_word_lem i =
      big_endian (word_at bytes (i * 4)) (word_at bytes (i * 4 + 1)) (word_at bytes (i * 4 + 2))
        (word_at bytes (i * 4 + 3)) (byte_at bytes _ h) (byte_at bytes _ h) (byte_at bytes _ h)
        (byte_at bytes _ h)

  first_word :
      (i : ℕ)
      → i < 16
      → word_at (load_words bytes 0 16) i
        ≡ word_at bytes (i * 4) * 2 ^ 24
          + word_at bytes (i * 4 + 1) * 2 ^ 16
          + word_at bytes (i * 4 + 2) * 2 ^ 8
          + word_at bytes (i * 4 + 3)
  first_word i hi =
      word_at-load_words bytes 16 0 i hi ∙ ap (load_word bytes) (omega arith) ∙ load_word_lem i

  start : IsSchedule bytes 16 (load_words bytes 0 16) × AreWords (load_words bytes 0 16)
  unfolding AreWords
  start = (
    record {
      size = length-load_words bytes 16 0;
      first = first_word;
      next = λ i few. absurd (omega arith);
    },
    λ i few. omega (
      arith,
      length-load_words bytes 16 0,
      first_word i (omega (arith, length-load_words bytes 16 0)),
      byte_at bytes (i * 4) h,
      byte_at bytes (i * 4 + 1) h,
      byte_at bytes (i * 4 + 2) h,
      byte_at bytes (i * 4 + 3) h,
    ),
  )

  -- One more word.
  extend :
      (n : ℕ) (mt : List ℕ)
      → 15 < n
      → IsSchedule bytes n mt
      → AreWords mt
      → IsSchedule bytes (n + 1) (mt ++ (next_word mt n ∷ []))
        × AreWords (mt ++ (next_word mt n ∷ []))
  unfolding AreWords
  extend n mt hn sch small =
      let w = next_word mt n in
      let full : n - 16 + 16 ≡ length mt = omega (arith, sch.size) in
      let (value, below) = next_word_lem mt (n - 16) full small in
      let at_end : n - 16 + 16 ≡ n = omega arith in
      let last : word_at (mt ++ (w ∷ [])) n ≡ w =
        ap (word_at (mt ++ (w ∷ []))) (sym sch.size) ∙ word_at-last mt w in
      let value' : w ≡ rotl 1 (mixed mt (n - 16)) = rw at_end at value in
      let long : length (mt ++ (w ∷ [])) ≡ n + 1 =
        omega (arith, length-append mt (w ∷ []), sch.size) in
      (
        record {
          size = long;
          first = λ i few. word_at-append mt (w ∷ []) i (omega (arith, sch.size)) ∙ sch.first i few;
          next = λ i few. elim (Bool-cases (ltb (i + 16) n)) [
            | inl inside ↦
                word_at-append mt (w ∷ []) (i + 16) (ground (arith, sch.size))
                ∙ sch.next i (ground arith)
                ∙ ap (rotl 1) (sym (mixed-append mt w i (ground (arith, sch.size))))
            | inr outside ↦
                let here : i + 16 ≡ n = ground arith in
                let from : n - 16 ≡ i = omega arith in
                ap (word_at (mt ++ (w ∷ []))) here
                ∙ last
                ∙ value'
                ∙ ap (λ t. rotl 1 (mixed mt t)) from
                ∙ ap (rotl 1) (sym (mixed-append mt w i (omega (arith, sch.size))))
          ];
        },
        λ i few. elim (Bool-cases (ltb i n)) [
          | inl inside ↦
              rw (word_at-append mt (w ∷ []) i (ground (arith, sch.size)))
                (small i (ground (arith, sch.size)))
          | inr outside ↦ let here : i ≡ n = ground (arith, long) in rw (here, last, value') below
        ],
      )

  expand_lem :
      (k n : ℕ) (mt : List ℕ)
      → 15 < n
      → IsSchedule bytes n mt
      → AreWords mt
      → IsSchedule bytes (n + k) (expand mt n k)
  unfolding expand
  expand_lem zero n mt hn sch small = let same : n + 0 ≡ n = omega arith in rw same sch
  expand_lem (suc k) n mt hn sch small =
      let (sch', small') = extend n mt hn sch small in
      let more : n + suc k ≡ n + 1 + k = omega arith in
      rw more (expand_lem k (n + 1) (mt ++ (next_word mt n ∷ [])) (omega arith) sch' small')

  pub schedule-IsSchedule : IsSchedule bytes 80 (schedule bytes)
  unfolding schedule
  schedule-IsSchedule =
      let (sch, small) = start in expand_lem 64 16 (load_words bytes 0 16) (omega arith) sch small
