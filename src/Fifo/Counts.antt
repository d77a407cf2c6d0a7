-- ===== src/Fifo/Counts.antt =====
-- src/lib/fifo.c: the positions and the counts of a queue.
use miniboot.Common.{
  ℕ, ◌+◌, ◌-◌, ◌%◌, ◌^◌, ◌<◌, ◌≤◌, ◌≡◌, refl, sym, ap, ◌∙◌, none, some, min, arith,
}
use native.Mathlib.Nat.{mod-add-mod, mod-lt, zero-mod}
use miniboot.Mem.{Memory}
use miniboot.Fifo.{
  Fifo, fifo_unused, fifo_cached, at_most, fifo_in, fifo_out, fifo_reset, fifo_init,
}

-- The positions are inside the buffer, and the used elements lie between them, `out_pos` first.
pub record IsValid (fifo : Fifo) : Type 0 where
  pub some_count : 0 < fifo.count
  pub small : fifo.count ≤ 2 ^ 31
  pub room : fifo.unused ≤ fifo.count
  pub in_bound : fifo.in_pos < fifo.count
  pub out_bound : fifo.out_pos < fifo.count
  pub between : (fifo.out_pos + (fifo.count - fifo.unused)) % fifo.count ≡ fifo.in_pos

-- Going round a circle of `count` places in two steps.
step_twice : (a b count : ℕ) → 0 < count → (a % count + b) % count ≡ (a + b) % count
step_twice a b count pos = mod-add-mod a count b

nothing_between : (c : ℕ) → (0 + (c - c)) % c ≡ 0
nothing_between c = let none : 0 + (c - c) ≡ 0 = omega arith in ap (λ t. t % c) none ∙ zero-mod c

pub cached_lem : (fifo : Fifo) → IsValid fifo → fifo_cached fifo ≡ fifo.count - fifo.unused
unfolding fifo_cached
cached_lem fifo ok = omega (arith, ok.room, ok.small)

module _ (fifo : Fifo) (ok : IsValid fifo) (n : ℕ) where
  in-IsValid :
      n ≤ fifo.unused
      → IsValid (record fifo {
        in_pos = (fifo.in_pos + n) % 2 ^ 32 % fifo.count;
        unused = (fifo.unused + 2 ^ 32 - n) % 2 ^ 32;
      })
  in-IsValid fits =
      let whole : (fifo.in_pos + n) % 2 ^ 32 ≡ fifo.in_pos + n =
        omega (arith, ok.in_bound, ok.room, ok.small) in
      let left : (fifo.unused + 2 ^ 32 - n) % 2 ^ 32 ≡ fifo.unused - n =
        omega (arith, ok.room, ok.small) in
      let used : fifo.count - (fifo.unused - n) ≡ fifo.count - fifo.unused + n =
        omega (arith, ok.room) in
      let place : fifo.out_pos + (fifo.count - fifo.unused + n)
          ≡ fifo.out_pos + (fifo.count - fifo.unused) + n =
        omega arith in
      rw (whole, left)
        record {
          some_count = ok.some_count;
          small = ok.small;
          room = omega (arith, ok.room);
          in_bound = mod-lt (fifo.in_pos + n) ok.some_count;
          out_bound = ok.out_bound;
          between =
              rw (used, place)
                (sym (
                    step_twice (fifo.out_pos + (fifo.count - fifo.unused)) n fifo.count
                      ok.some_count)
                  ∙ ap (λ t. (t + n) % fifo.count) ok.between);
        }

  out-IsValid :
      n ≤ fifo.count - fifo.unused
      → IsValid (record fifo {
        out_pos = (fifo.out_pos + n) % 2 ^ 32 % fifo.count;
        unused = (fifo.unused + n) % 2 ^ 32;
      })
  out-IsValid fits =
      let whole : (fifo.out_pos + n) % 2 ^ 32 ≡ fifo.out_pos + n =
        omega (arith, ok.out_bound, ok.room, ok.small) in
      let more : (fifo.unused + n) % 2 ^ 32 ≡ fifo.unused + n = omega (arith, ok.room, ok.small) in
      let place : fifo.out_pos + n + (fifo.count - (fifo.unused + n))
          ≡ fifo.out_pos + (fifo.count - fifo.unused) =
        omega (arith, ok.room) in
      rw (whole, more)
        record {
          some_count = ok.some_count;
          small = ok.small;
          room = omega (arith, ok.room);
          in_bound = ok.in_bound;
          out_bound = mod-lt (fifo.out_pos + n) ok.some_count;
          between =
              step_twice (fifo.out_pos + n) (fifo.count - (fifo.unused + n)) fifo.count
                ok.some_count
              ∙ ap (λ t. t % fifo.count) place
              ∙ ok.between;
        }

-- On a valid queue of at most 2 ^ 31 elements, `fifo_in` takes as many elements as are asked for and
-- fit, `fifo_out` gives as many as are asked for and are there, each changes the number of unused
-- places by just that, and the queue stays valid: the used elements lie between the two positions.
pub fifo_counts :
    (fifo : Fifo) (place cnt : ℕ) (m : Memory)
    → IsValid fifo
    → (let (n, fifo', m') = fifo_in fifo place cnt m in
        (n ≡ min cnt fifo.unused) × (fifo'.unused + n ≡ fifo.unused) × IsValid fifo')
      × (let (n, fifo', m') = fifo_out fifo place cnt m in
          (n ≡ min cnt (fifo.count - fifo.unused))
          × (fifo'.unused ≡ fifo.unused + n)
          × IsValid fifo')
unfolding fifo_in fifo_out fifo_unused
fifo_counts fifo place cnt m ok =
    let room = ok.room in
    let small = ok.small in
    rw (cached_lem fifo ok) (
      (ground arith, ground arith, in-IsValid fifo ok (at_most fifo.unused cnt) (ground arith)),
      (
        ground arith,
        ground arith,
        out-IsValid fifo ok (at_most (fifo.count - fifo.unused) cnt) (ground arith),
      ),
    )

-- `fifo_init` gives nothing if there is no memory for the record, and a valid queue without elements
-- otherwise, for 1 to 2 ^ 31 places; so does `fifo_reset`, whatever state the queue was in.
pub fifo_fresh :
    (place buffer esize cnt : ℕ) (old : Fifo)
    → 0 < cnt
    → cnt ≤ 2 ^ 31
    → old.count ≡ cnt
    → (fifo_init none buffer esize cnt ≡ none)
      × ((fifo : Fifo) × (fifo_init (some place) buffer esize cnt ≡ some fifo)
          × IsValid fifo
          × (fifo_cached fifo ≡ 0))
      × (IsValid (fifo_reset old) × (fifo_cached (fifo_reset old) ≡ 0))
unfolding fifo_init fifo_reset fifo_cached
fifo_fresh place buffer esize cnt old pos small same = (
  refl,
  (
    _,
    refl,
    record {
      some_count = pos;
      small = small;
      room = omega arith;
      in_bound = pos;
      out_bound = pos;
      between = nothing_between cnt;
    },
    omega arith,
  ),
  (
    record {
      some_count = omega (arith, same);
      small = omega (arith, same);
      room = omega arith;
      in_bound = omega (arith, same);
      out_bound = omega (arith, same);
      between = nothing_between old.count;
    },
    omega arith,
  ),
)
