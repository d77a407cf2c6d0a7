-- ===== src/Fifo/Tests.antt =====
-- A queue of four elements of two bytes, and the theorems of src/lib/fifo.c at it.
use miniboot.Common.{inr, ◌*◌, [], ◌∷◌, ◌++◌}
use miniboot.Fifo.Contents.{contents, bytes}
use miniboot.Fifo.Copies.{IsUsable}
use miniboot.Fifo.Refine.{fifo_refines, fifo_roundtrip}
use miniboot.Common.{◌+◌, ◌-◌, ◌%◌, ◌≡◌, refl, min, arith}
use miniboot.Mem.{Memory, memcpy, copy_up, copy_words}
use miniboot.Fifo.{Fifo, fifo_cached, fifo_in, fifo_out, fifo_reset, fetch_elements}
use miniboot.Fifo.Counts.{IsValid, fifo_counts}

-- Three elements lie in the queue, from the last place on.
abbrev queue : Fifo
queue = record { start = 0x100; esize = 2; count = 4; unused = 1; in_pos = 2; out_pos = 3 }

queue-IsValid : IsValid queue
queue-IsValid = record {
  some_count = omega arith;
  small = omega arith;
  room = omega arith;
  in_bound = omega arith;
  out_bound = omega arith;
  between = refl;
}

abbrev ramp : Memory
ramp a = a % 256

-- Taking out two elements goes round the end: the last one, and then the first one.
second_element : (fifo_out queue 0x400 2 ramp).2 0x402 ≡ 0
unfolding fifo_out fifo_cached fetch_elements memcpy copy_up copy_words
second_element = refl

fifo_counts_example :
    (let (n, fifo', m') = fifo_in queue 0x400 3 ramp in
      (n ≡ min 3 1) × (fifo'.unused + n ≡ 1) × IsValid fifo')
    × (let (n, fifo', m') = fifo_out queue 0x400 3 ramp in
        (n ≡ min 3 (4 - 1)) × (fifo'.unused ≡ 1 + n) × IsValid fifo')
fifo_counts_example = fifo_counts queue 0x400 3 ramp queue-IsValid

queue-IsUsable : IsUsable queue
queue-IsUsable = record { valid = queue-IsValid; sized = omega arith; small = omega arith }

-- Three elements lie in the queue: the bytes at 0x106, and then those at the start of the buffer.
three_elements : contents queue ramp ≡ 6 ∷ 7 ∷ 0 ∷ 1 ∷ 2 ∷ 3 ∷ []
unfolding contents
three_elements = refl

fifo_refines_example :
    (let (n, fifo', m') = fifo_in queue 0x400 3 ramp in
      (contents fifo' m' ≡ contents queue ramp ++ bytes ramp 0x400 (n * 2)) × IsUsable fifo')
    × (let (n, fifo', m') = fifo_out queue 0x400 3 ramp in
        (bytes m' 0x400 (n * 2) ++ contents fifo' m' ≡ contents queue ramp) × IsUsable fifo')
fifo_refines_example =
    fifo_refines queue 0x400 3 ramp queue-IsUsable (λ e. omega arith) (inr (omega arith))

fifo_roundtrip_example :
    let (n, f1, m1) = fifo_in (fifo_reset queue) 0x400 3 ramp in
    let (k, f2, m2) = fifo_out f1 0x500 3 m1 in
    (k ≡ n) × (bytes m2 0x500 (k * 2) ≡ bytes ramp 0x400 (n * 2)) × (fifo_cached f2 ≡ 0)
fifo_roundtrip_example =
    fifo_roundtrip queue 0x400 0x500 3 ramp queue-IsUsable (λ e. omega arith) (λ e. omega arith)
      (inr (omega arith)) (inr (omega arith))
