-- ===== src/Fifo/Copies.antt =====
-- src/lib/fifo.c: the two copies of a transfer, with sizes that do not wrap.
use miniboot.Common.{refl, ℕ, ◌+◌, ◌-◌, ◌*◌, ◌%◌, ◌^◌, ◌<◌, ◌≤◌, ◌≡◌, ◌≢◌, false, ◌==◌, min, arith}
use native.Mathlib.Nat.{mul-lt-mul_of_pos_right, mul-le-mul_right}
use miniboot.Mem.{Memory}
use miniboot.Fifo.{Fifo, store_elements, fetch_elements}
use miniboot.Fifo.Counts.{IsValid}
use miniboot.Fifo.Bytes.{stored, fetched}

-- A valid queue whose elements have a size, in a buffer whose size fits 32 bits.
pub record IsUsable (fifo : Fifo) : Type 0 where
  pub valid : IsValid fifo
  pub sized : 0 < fifo.esize
  pub small : fifo.count * fifo.esize < 2 ^ 32

wrap_sub : (a b : ℕ) → b ≤ a → a < 2 ^ 32 → (a + 2 ^ 32 - b) % 2 ^ 32 ≡ a - b
wrap_sub a b le small = omega arith

module _ (fifo : Fifo) (ok : IsUsable fifo) where
  abbrev pub size : ℕ
  size = fifo.count * fifo.esize

  -- The sizes of the two copies do not wrap.
  module _ (p n off : ℕ) (m : Memory) (ne : p ≢ 0) (lo : off < fifo.count)
      (ln : n ≤ fifo.count) where
    o_lt : off * fifo.esize < size
    o_lt = mul-lt-mul_of_pos_right lo ok.sized

    n_le : n * fifo.esize ≤ size
    n_le = mul-le-mul_right fifo.esize ln

    not_null : (p == 0) ≡ false
    not_null = ground (arith, ne)

    whole_offset : off * fifo.esize % 2 ^ 32 ≡ off * fifo.esize
    whole_offset = omega (arith, o_lt, ok.small)

    whole_length : n * fifo.esize % 2 ^ 32 ≡ n * fifo.esize
    whole_length = omega (arith, n_le, ok.small)

    whole_size : size % 2 ^ 32 ≡ size
    whole_size = omega (arith, ok.small)

    to_end : (size + 2 ^ 32 - off * fifo.esize) % 2 ^ 32 ≡ size - off * fifo.esize
    to_end = wrap_sub size (off * fifo.esize) (omega (arith, o_lt)) ok.small

    abbrev first_part : ℕ
    first_part = min (n * fifo.esize) (size - off * fifo.esize)

    rest : (n * fifo.esize + 2 ^ 32 - first_part) % 2 ^ 32 ≡ n * fifo.esize - first_part
    rest = wrap_sub (n * fifo.esize) first_part (omega arith) (omega (arith, n_le, ok.small))

    pub store_elements-stored :
        store_elements fifo p n off m
        ≡ stored m fifo.start size (off * fifo.esize) p (n * fifo.esize)
    unfolding store_elements
    store_elements-stored = rw (not_null, whole_offset, whole_length, whole_size, to_end, rest) refl

    pub fetch_elements-fetched :
        fetch_elements fifo p n off m
        ≡ fetched m fifo.start size (off * fifo.esize) p (n * fifo.esize)
    unfolding fetch_elements
    fetch_elements-fetched =
        rw (not_null, whole_offset, whole_length, whole_size, to_end, rest) refl
