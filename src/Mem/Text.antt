-- ===== src/Mem/Text.antt =====
-- src/lib/string.c: the functions on strings that end in a zero byte. A loop that runs up to the
-- zero byte takes fuel, and gives nothing when that is used up.
pub mod Copy
pub mod Compare
pub mod Roundtrip
pub mod Tests
use miniboot.Common.{ℕ, zero, suc, ◌+◌, ◌-◌, ◌%◌, ◌^◌, Option, none, some, ◌==◌, ltb, if◌then◌else◌}
use miniboot.Mem.{Memory, put}

-- `for (sc = s; *sc != '\0'; ++sc);`
unfoldable pub strlen_loop : ℕ → Memory → ℕ → ℕ → Option ℕ
strlen_loop zero m s sc = none
strlen_loop (suc fuel) m s sc =
    let rest = strlen_loop fuel m s (sc + 1) in if m sc == 0 then some (sc - s) else rest

unfoldable pub strlen : ℕ → Memory → ℕ → Option ℕ
unfolding strlen_loop
strlen fuel m s = strlen_loop fuel m s s

-- `for (sc = s; maxlen-- && *sc != '\0'; ++sc);`
unfoldable pub strnlen_loop : Memory → ℕ → ℕ → ℕ → ℕ
strnlen_loop m s sc zero = sc - s
strnlen_loop m s sc (suc maxlen) =
    let rest = strnlen_loop m s (sc + 1) maxlen in if m sc == 0 then sc - s else rest

unfoldable pub strnlen : Memory → ℕ → ℕ → ℕ
unfolding strnlen_loop
strnlen m s maxlen = strnlen_loop m s s maxlen

-- `while ((*dest++ = *src++) != '\0');`
unfoldable pub strcpy : ℕ → Memory → ℕ → ℕ → Option Memory
strcpy zero m dest src = none
strcpy (suc fuel) m dest src =
    let rest = strcpy fuel (put m dest (m src)) (dest + 1) (src + 1) in
    if m src == 0 then some (put m dest (m src)) else rest

-- `while (n-- && (*dest++ = *src++) != '\0');`
unfoldable pub strncpy : Memory → ℕ → ℕ → ℕ → Memory
strncpy m dest src zero = m
strncpy m dest src (suc n) =
    let rest = strncpy (put m dest (m src)) (dest + 1) (src + 1) n in
    if m src == 0 then put m dest (m src) else rest

-- `__res`, a signed char, as the int that is returned.
abbrev pub char_difference : ℕ → ℕ → ℕ
char_difference a b =
    let res = (a + 2 ^ 8 - b) % 2 ^ 8 in if ltb res (2 ^ 7) then res else res + 2 ^ 32 - 2 ^ 8

unfoldable pub strcmp : ℕ → Memory → ℕ → ℕ → Option ℕ
strcmp zero m s1 s2 = none
strcmp (suc fuel) m s1 s2 =
    let rest = strcmp fuel m (s1 + 1) (s2 + 1) in
    let res = char_difference (m s1) (m s2) in
    if res == 0 then (if m s1 == 0 then some res else rest) else some res

-- `while (n)`, with `n--` at the end of a round.
unfoldable pub strncmp : Memory → ℕ → ℕ → ℕ → ℕ
strncmp m s1 s2 zero = 0
strncmp m s1 s2 (suc n) =
    let rest = strncmp m (s1 + 1) (s2 + 1) n in
    let res = char_difference (m s1) (m s2) in
    if res == 0 then (if m s1 == 0 then res else rest) else res

-- `while (*dest) dest++;`
unfoldable pub find_end : ℕ → Memory → ℕ → Option ℕ
find_end zero m dest = none
find_end (suc fuel) m dest =
    let rest = find_end fuel m (dest + 1) in if m dest == 0 then some dest else rest

-- What `strcat` does once the end has been found.
unfoldable pub append_at : ℕ → Memory → ℕ → Option ℕ → Option Memory
append_at fuel m src none = none
append_at fuel m src (some dest) = strcpy fuel m dest src

unfoldable pub strcat : ℕ → Memory → ℕ → ℕ → Option Memory
unfolding find_end append_at
strcat fuel m dest src = append_at fuel m src (find_end fuel m dest)
