-- ===== src/Cache/Covered.antt =====
-- src/boot/mm.S: `armv7_inv_dcache` leaves out no line of the data caches.
use miniboot.Common.{
  ℕ, zero, suc, ◌+◌, ◌*◌, ◌<◌, ◌≤◌, ◌≡◌, refl, inl, inr, Bool, true, false, Bool-cases, some, List,
  [], ◌∷◌, bit_and, ◌==◌, ltb, ◌||◌, arith,
}
use miniboot.Common.Bits.{bit_and-le}
use miniboot.Cache.Levels.{
  set_way, way_loop, set_loop, cache_type, line_shift, max_way, max_set, way_shift, one_level,
  flush_levels, coherence, armv7_inv_dcache,
}

-- Whether a value is in the list.
abbrev has : ℕ → List ℕ → Bool
has v [] = false
has v (x ∷ xs) = (x == v) || has v xs

module _ (r10 r5 r2 : ℕ) where
  way_loop-keeps :
      (v r7 r9 : ℕ) (ops : List ℕ) → has v ops ≡ true → has v (way_loop r10 r5 r2 r7 r9 ops) ≡ true
  unfolding way_loop
  way_loop-keeps v r7 zero ops h = ground (arith, h)
  way_loop-keeps v r7 (suc r9) ops h =
      way_loop-keeps v r7 r9 (set_way r10 r5 r2 r7 (suc r9) ∷ ops) (ground (arith, h))

  way_loop-has :
      (r7 r9 w : ℕ) (ops : List ℕ)
      → w ≤ r9
      → has (set_way r10 r5 r2 r7 w) (way_loop r10 r5 r2 r7 r9 ops) ≡ true
  unfolding way_loop
  way_loop-has r7 zero w ops le = let z : w ≡ 0 = omega (arith, le) in rw z (ground arith)
  way_loop-has r7 (suc r9) w ops le =
      let v = set_way r10 r5 r2 r7 (suc r9) in
      elim (Bool-cases (w == suc r9)) [
        | inl first ↦
            let z : w ≡ suc r9 = ground (arith, first) in
            rw z (way_loop-keeps v r7 r9 (v ∷ ops) (ground arith))
        | inr later ↦ way_loop-has r7 r9 w (v ∷ ops) (ground (arith, le, later))
      ]

  set_loop-keeps :
      (v r4 r7 : ℕ) (ops : List ℕ) → has v ops ≡ true → has v (set_loop r10 r5 r2 r4 r7 ops) ≡ true
  unfolding set_loop
  set_loop-keeps v r4 zero ops h = way_loop-keeps v 0 r4 ops h
  set_loop-keeps v r4 (suc r7) ops h =
      set_loop-keeps v r4 r7 (way_loop r10 r5 r2 (suc r7) r4 ops)
        (way_loop-keeps v (suc r7) r4 ops h)

  set_loop-has :
      (r4 r7 s w : ℕ) (ops : List ℕ)
      → s ≤ r7
      → w ≤ r4
      → has (set_way r10 r5 r2 s w) (set_loop r10 r5 r2 r4 r7 ops) ≡ true
  unfolding set_loop
  set_loop-has r4 zero s w ops ls lw =
      let z : s ≡ 0 = omega (arith, ls) in rw z (way_loop-has 0 r4 w ops lw)
  set_loop-has r4 (suc r7) s w ops ls lw =
      let ops' = way_loop r10 r5 r2 (suc r7) r4 ops in
      elim (Bool-cases (s == suc r7)) [
        | inl first ↦
            let z : s ≡ suc r7 = ground (arith, first) in
            rw z (
              set_loop-keeps (set_way r10 r5 r2 (suc r7) w) r4 r7 ops'
                (way_loop-has (suc r7) r4 w ops lw))
        | inr later ↦ set_loop-has r4 r7 s w ops' (ground (arith, ls, later)) lw
      ]

module _ (clidr : ℕ) (csidr : ℕ → ℕ) where
  -- The values for a level, by the number of a set and of a way.
  abbrev pub value_at : ℕ → ℕ → ℕ → ℕ
  value_at r10 s w = set_way r10 (way_shift clidr csidr r10) (line_shift clidr csidr r10) s w

  one_level-keeps :
      (v r10 : ℕ) (ops : List ℕ) → has v ops ≡ true → has v (one_level clidr csidr r10 ops) ≡ true
  one_level-keeps v r10 ops h = elim (Bool-cases (ltb (cache_type clidr csidr r10) 2)) [
    | inl no_data ↦ rw no_data h
    | inr data_cache ↦
        rw data_cache
          (set_loop-keeps r10 _ _ v (max_way clidr csidr r10) (max_set clidr csidr r10) ops h)
  ]

  flush_levels-keeps :
      (v r3 fuel r10 : ℕ) (ops : List ℕ)
      → 0 < fuel
      → r3 ≤ r10 + 2 * fuel
      → has v ops ≡ true
      → (ops' : List ℕ) × (flush_levels clidr csidr r3 fuel r10 ops ≡ some ops')
        × (has v ops' ≡ true)
  unfolding flush_levels
  flush_levels-keeps v r3 zero r10 ops pos enough h = absurd (omega (arith, pos))
  flush_levels-keeps v r3 (suc fuel) r10 ops pos enough h =
      let ops1 = one_level clidr csidr r10 ops in
      let kept = one_level-keeps v r10 ops h in
      elim (Bool-cases (ltb (r10 + 2) r3)) [
        | inl more ↦
            let (ops', e, k) =
              flush_levels-keeps v r3 fuel (r10 + 2) ops1 (ground (arith, more, enough))
                (omega (arith, enough)) kept in
            (ops', rw more e, k)
        | inr last ↦ (ops1, rw last refl, kept)
      ]

  module _ (level s w : ℕ) (is_data : ltb (cache_type clidr csidr level) 2 ≡ false)
      (ls : s ≤ max_set clidr csidr level) (lw : w ≤ max_way clidr csidr level) where
    one_level-has :
        (ops : List ℕ) → has (value_at level s w) (one_level clidr csidr level ops) ≡ true
    one_level-has ops = rw is_data (
        set_loop-has level (way_shift clidr csidr level) (line_shift clidr csidr level)
          (max_way clidr csidr level) (max_set clidr csidr level) s w ops ls lw)

    flush_levels-has :
        (r3 fuel j r10 : ℕ) (ops : List ℕ)
        → r10 + 2 * j ≡ level
        → level < r3
        → r3 ≤ r10 + 2 * fuel
        → (ops' : List ℕ) × (flush_levels clidr csidr r3 fuel r10 ops ≡ some ops')
          × (has (value_at level s w) ops' ≡ true)
    unfolding flush_levels
    flush_levels-has r3 zero j r10 ops e inside enough = absurd (omega (arith, e, inside, enough))
    flush_levels-has r3 (suc fuel) zero r10 ops e inside enough =
        let here : r10 ≡ level = omega (arith, e) in
        let ops1 = one_level clidr csidr level ops in
        let found = one_level-has ops in
        elim (Bool-cases (ltb (level + 2) r3)) [
          | inl more ↦
              let (ops', run, k) =
                flush_levels-keeps (value_at level s w) r3 fuel (level + 2) ops1
                  (ground (arith, more, enough, here)) (omega (arith, enough, here)) found in
              (ops', rw (here, more) run, k)
          | inr last ↦ (ops1, rw (here, last) refl, found)
        ]
    flush_levels-has r3 (suc fuel) (suc j) r10 ops e inside enough =
        let more : ltb (r10 + 2) r3 ≡ true = ground (arith, e, inside) in
        let (ops', run, k) =
          flush_levels-has r3 fuel j (r10 + 2) (one_level clidr csidr r10 ops) (omega (arith, e))
            inside (omega (arith, enough)) in
        (ops', rw more run, k)

    -- For every level below the level of coherence that has a data cache or a unified one, and for
    -- each of its sets and ways, `armv7_inv_dcache` ends within 7 turns and has then written the
    -- value that invalidates this set and way.
    armv7_inv_dcache-has :
        (j : ℕ)
        → 2 * j ≡ level
        → level < coherence clidr csidr
        → (ops : List ℕ) × (armv7_inv_dcache clidr csidr ≡ some ops)
          × (has (value_at level s w) ops ≡ true)
    unfolding armv7_inv_dcache
    armv7_inv_dcache-has j e inside =
        let small : coherence clidr csidr ≤ 14 = omega (arith, bit_and-le clidr 0x7000000) in
        let some_level : (bit_and clidr 0x7000000 == 0) ≡ false = ground (arith, inside) in
        let (ops, run, k) =
          flush_levels-has (coherence clidr csidr) 7 j 0 [] (omega (arith, e)) inside
            (omega (arith, small)) in
        (ops, rw some_level run, k)
