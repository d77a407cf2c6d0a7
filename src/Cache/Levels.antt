-- ===== src/Cache/Levels.antt =====
-- src/boot/mm.S: `armv7_inv_dcache`, which goes through the levels of the data cache. What it does is
-- kept as the list of the values that it writes, the newest first.
use miniboot.Common.{
  ℕ, zero, suc, ◌+◌, ◌*◌, ◌/◌, ◌%◌, ◌^◌, Option, none, some, List, [], ◌∷◌, bit_and, bit_or, ◌==◌,
  ltb, leb, if◌then◌else◌,
}

-- `clz`, on the `k` low bits of a word
abbrev pub count_zeros : ℕ → ℕ → ℕ
count_zeros zero v = 0
count_zeros (suc k) v = if leb (2 ^ k) v then 0 else suc (count_zeros k v)

-- The value for way `r9` and set `r7`; the other registers keep the level and the two shifts.
abbrev pub set_way : ℕ → ℕ → ℕ → ℕ → ℕ → ℕ
set_way r10 r5 r2 r7 r9 = bit_or (bit_or r10 (r9 * 2 ^ r5 % 2 ^ 32)) (r7 * 2 ^ r2 % 2 ^ 32)

-- The loop at `loop2:`, which ends when `r9` gets negative.
unfoldable pub way_loop : ℕ → ℕ → ℕ → ℕ → ℕ → List ℕ → List ℕ
way_loop r10 r5 r2 r7 zero ops = set_way r10 r5 r2 r7 0 ∷ ops
way_loop r10 r5 r2 r7 (suc r9) ops = way_loop r10 r5 r2 r7 r9 (set_way r10 r5 r2 r7 (suc r9) ∷ ops)

-- The loop at `loop1:`
unfoldable pub set_loop : ℕ → ℕ → ℕ → ℕ → ℕ → List ℕ → List ℕ
set_loop r10 r5 r2 r4 zero ops = way_loop r10 r5 r2 0 r4 ops
set_loop r10 r5 r2 r4 (suc r7) ops = set_loop r10 r5 r2 r4 r7 (way_loop r10 r5 r2 (suc r7) r4 ops)

-- The contents of the CLIDR, and of the CSIDR for what has been written to the CSSELR.
module _ (clidr : ℕ) (csidr : ℕ → ℕ) where
  abbrev pub cache_type : ℕ → ℕ
  cache_type r10 = bit_and (clidr / 2 ^ (r10 + r10 / 2)) 7

  abbrev pub line_shift : ℕ → ℕ
  line_shift r10 = bit_and (csidr r10) 7 + 4

  abbrev pub max_way : ℕ → ℕ
  max_way r10 = bit_and (csidr r10 / 2 ^ 3) 0x3FF

  abbrev pub max_set : ℕ → ℕ
  max_set r10 = bit_and (csidr r10 / 2 ^ 13) 0x7FFF

  abbrev pub way_shift : ℕ → ℕ
  way_shift r10 = count_zeros 32 (max_way r10)

  abbrev pub one_level : ℕ → List ℕ → List ℕ
  one_level r10 ops =
      let done = set_loop r10 (way_shift r10) (line_shift r10) (max_way r10) (max_set r10) ops in
      if ltb (cache_type r10) 2 then ops else done

  -- The loop at `flush_levels:`
  unfoldable pub flush_levels : ℕ → ℕ → ℕ → List ℕ → Option (List ℕ)
  flush_levels r3 zero r10 ops = none
  flush_levels r3 (suc fuel) r10 ops =
      let rest = flush_levels r3 fuel (r10 + 2) (one_level r10 ops) in
      if ltb (r10 + 2) r3 then rest else some (one_level r10 ops)

  -- Twice the number of levels up to the level of coherence
  abbrev pub coherence : ℕ
  coherence = bit_and clidr 0x7000000 / 2 ^ 23

  unfoldable pub armv7_inv_dcache : Option (List ℕ)
  armv7_inv_dcache = if bit_and clidr 0x7000000 == 0 then some [] else flush_levels coherence 7 0 []
