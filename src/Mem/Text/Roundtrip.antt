-- ===== src/Mem/Text/Roundtrip.antt =====
-- src/lib/string.c: a copy of a string has its length and compares equal, and `strcat` appends.
use miniboot.Common.{
  ℕ, ◌+◌, ◌-◌, ◌^◌, ◌<◌, ◌≡◌, refl, sym, ap, ◌∙◌, inl, inr, some, Bool-cases, ltb, arith,
}
use miniboot.Mem.{Memory, copy_up}
use miniboot.Mem.Move.{moved}
use miniboot.Mem.Copy.{Apart}
use miniboot.Mem.Text.{strlen, strcpy, strcmp, append_at, strcat}
use miniboot.Mem.Text.Copy.{
  IsString, strlen_loop-IsString, find_end-IsString, strcpy-copy_up, copied-moved, copy_byte,
  source_byte, copy-IsString,
}
use miniboot.Mem.Text.Compare.{IsSame, strcmp-IsSame}

pub strlen-IsString :
    (n fuel : ℕ) (m : Memory) (s : ℕ) → IsString m s n → n < fuel → strlen fuel m s ≡ some n
unfolding strlen
strlen-IsString n fuel m s t lt = strlen_loop-IsString n fuel m s s t lt ∙ ap some (omega arith)

-- Let a string of `n` bytes and its zero have no byte in common with the area of that size at the
-- destination, and every byte fit a byte. Then `strcpy` returns, and leaves there the bytes of the
-- string with its zero, and every other byte as it was; the copy has the length `n` for `strlen`,
-- and is equal to the source for `strcmp`.
pub strcpy_roundtrip :
    (n fuel : ℕ) (m : Memory) (d s : ℕ)
    → IsString m s n
    → Apart d s (n + 1)
    → n < fuel
    → ((a : ℕ) → m a < 2 ^ 8)
    → (m' : Memory) × (strcpy fuel m d s ≡ some m')
      × ((x : ℕ) → m' x ≡ moved m d s (n + 1) x)
      × (strlen fuel m' d ≡ some n)
      × (strcmp fuel m' d s ≡ some 0)
strcpy_roundtrip n fuel m d s t apart lt byte =
    let m' : Memory = copy_up m d s (n + 1) in
    let source : IsString m' s n = record {
      body = λ i below e. t.body i below (sym (source_byte m d s n t apart i (omega arith)) ∙ e);
      end = source_byte m d s n t apart n (omega arith) ∙ t.end;
    } in
    let copy = copy-IsString m d s n t apart in
    let byte' : (a : ℕ) → m' a < 2 ^ 8 =
      λ a. ground (arith, copied-moved m d s n t apart a, byte (s + (a - d)), byte a) in
    let (r, c, (forth, back)) = strcmp-IsSame m' byte' n n fuel d s copy source (omega arith) in
    let same : IsSame m' d n s n = record {
      lengths = refl;
      body = λ i below.
          copy_byte m d s n t apart i (omega arith)
          ∙ sym (source_byte m d s n t apart i (omega arith));
    } in
    (
      m',
      strcpy-copy_up n fuel m d s t apart lt,
      copied-moved m d s n t apart,
      strlen-IsString n fuel m' d copy lt,
      c ∙ ap some (back same),
    )

-- `strcat` of a string of `n` bytes to one of `k` bytes returns, and leaves a string of `k + n`
-- bytes: the first `k` are as before, and the others are those of the source.
pub strcat_lem :
    (k n fuel : ℕ) (m : Memory) (d s : ℕ)
    → IsString m d k
    → IsString m s n
    → Apart (d + k) s (n + 1)
    → k < fuel
    → n < fuel
    → (m' : Memory) × (strcat fuel m d s ≡ some m')
      × ((x : ℕ) → m' x ≡ moved m (d + k) s (n + 1) x)
      × IsString m' d (k + n)
unfolding strcat append_at
strcat_lem k n fuel m d s td ts apart lk ln =
    let m' : Memory = copy_up m (d + k) s (n + 1) in
    let copy = copy-IsString m (d + k) s n ts apart in
    (
      m',
      rw (find_end-IsString k fuel m d td lk) (strcpy-copy_up n fuel m (d + k) s ts apart ln),
      copied-moved m (d + k) s n ts apart,
      record {
        body = λ i below e. elim (Bool-cases (ltb i k)) [
          | inl front ↦
              td.body i (ground arith)
                (ground (arith, copied-moved m (d + k) s n ts apart (d + i), e))
          | inr behind ↦ copy.body (i - k) (ground arith) (ap m' (ground arith) ∙ e)
        ];
        end = ap m' (omega arith) ∙ copy.end;
      },
    )
