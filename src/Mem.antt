-- ===== src/Mem.antt =====
-- src/lib/string.c: the functions on memory. A memory gives the byte at every address; the pointers
-- stay below 2 ^ 32, so that they do not wrap.
pub mod Move
pub mod Order
pub mod Copy
pub mod Text
pub mod Tests
use miniboot.Common.{
  ℕ, zero, suc, ◌+◌, ◌-◌, ◌*◌, ◌/◌, ◌%◌, ◌^◌, Bool, bit_and, bit_or, ◌==◌, leb, ltb, ◌&&◌,
  if◌then◌else◌,
}

abbrev pub Memory : Type 0
Memory = ℕ → ℕ

abbrev pub put : Memory → ℕ → ℕ → Memory
put m a v x = if x == a then v else m x

-- Four bytes at once, the first at the lowest address.
abbrev pub put_word : Memory → ℕ → ℕ → ℕ → ℕ → ℕ → Memory
put_word m a p q r s x =
    if x == a + 3
    then s
    else if x == a + 2
    then r
    else if x == a + 1
    then q
    else if x == a
    then p
    else m x

-- `while (n--) *d++ = *s++;`
unfoldable pub copy_up : Memory → ℕ → ℕ → ℕ → Memory
copy_up m d s zero = m
copy_up m d s (suc n) = copy_up (put m d (m s)) (d + 1) (s + 1) n

-- `while (n--) *--d = *--s;`, with the pointers at the start of the areas.
unfoldable pub copy_down : Memory → ℕ → ℕ → ℕ → Memory
copy_down m d s zero = m
copy_down m d s (suc n) = copy_down (put m (d + n) (m (s + n))) d s n

unfoldable pub memmove : Memory → ℕ → ℕ → ℕ → Memory
memmove m dest src n =
    if src == dest then m else if leb dest src then copy_up m dest src n else copy_down m dest src n

-- `while (n >= sizeof(*dl)) *dl++ = *sl++;`, `k` times.
unfoldable pub copy_words : Memory → ℕ → ℕ → ℕ → Memory
copy_words m d s zero = m
copy_words m d s (suc k) =
    copy_words (put_word m d (m s) (m (s + 1)) (m (s + 2)) (m (s + 3))) (d + 4) (s + 4) k

unfoldable pub memcpy : Memory → ℕ → ℕ → ℕ → Memory
memcpy m dest src n =
    if src == dest
    then m
    else if bit_and (bit_or dest src) 3 == 0
    then copy_up (copy_words m dest src (n / 4)) (dest + n / 4 * 4) (src + n / 4 * 4) (n % 4)
    else copy_up m dest src n

-- `while (n--) *s8++ = c;`
unfoldable pub fill_up : Memory → ℕ → ℕ → ℕ → Memory
fill_up m s c zero = m
fill_up m s c (suc n) = fill_up (put m s (c % 256)) (s + 1) c n

-- The word loop of `memset`: each of the four bytes is `c & 0xff`.
unfoldable pub fill_words : Memory → ℕ → ℕ → ℕ → Memory
fill_words m s c zero = m
fill_words m s c (suc k) =
    fill_words (put_word m s (c % 256) (c % 256) (c % 256) (c % 256)) (s + 4) c k

unfoldable pub memset : Memory → ℕ → ℕ → ℕ → Memory
memset m s c n =
    if bit_and s 3 == 0
    then fill_up (fill_words m s c (n / 4)) (s + n / 4 * 4) c (n % 4)
    else fill_up m s c n

-- The difference of two bytes, as an int of 32 bits.
unfoldable pub memcmp : Memory → ℕ → ℕ → ℕ → ℕ
memcmp m cs ct zero = 0
memcmp m cs ct (suc count) =
    let rest = memcmp m (cs + 1) (ct + 1) count in
    let res = (m cs + 2 ^ 32 - m ct) % 2 ^ 32 in if res == 0 then rest else res
