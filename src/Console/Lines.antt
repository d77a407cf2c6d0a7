-- ===== src/Console/Lines.antt =====
-- src/lib/stdio.c: what `puts` sends to the device of the standard output.
use miniboot.Common.{
  ℕ, zero, suc, ◌+◌, ◌^◌, ◌<◌, ◌≡◌, refl, ap, ◌∙◌, false, inl, inr, Bool-cases, Option, none, some,
  List, ◌∷◌, ◌==◌, if◌then◌else◌, arith,
}
use miniboot.Mem.{Memory}
use miniboot.Mem.Text.Copy.{IsString, IsString-tail, first_set, empty_test}
use miniboot.Console.{
  stdio_register, StdioDev, Console, eof, stdout, find_putc, put_char, emit, fputc, putchar,
  puts_loop, puts,
}

-- What is sent for a byte, in front of what had been sent, newest first: a line feed has a carriage
-- return in front of it.
unfoldable pub one_byte : ℕ → ℕ → List (ℕ × ℕ) → List (ℕ × ℕ)
one_byte putc c sent = if c == 0x0A then (putc, 0x0A) ∷ (putc, 0x0D) ∷ sent else (putc, c) ∷ sent

-- What is sent for the `n` bytes from `s` on.
unfoldable pub lines : ℕ → Memory → ℕ → ℕ → List (ℕ × ℕ) → List (ℕ × ℕ)
unfolding one_byte
lines putc m s zero sent = sent
lines putc m s (suc n) sent = lines putc m (s + 1) n (one_byte putc (m s) sent)

put_char-one_byte :
    (putc c : ℕ) (con : Console)
    → put_char putc c con ≡ record con { sent = one_byte putc c con.sent }
unfolding put_char one_byte
put_char-one_byte putc c con = elim (Bool-cases (c == 0x0A)) [
  | inl feed ↦
      let same : c ≡ 0x0A = ground (arith, feed) in
      rw feed (ap (λ t. record con { sent = (putc, t) ∷ (putc, 0x0D) ∷ con.sent }) same)
  | inr other ↦ rw other refl
]

putchar-one_byte :
    (putc c : ℕ) (con : Console)
    → find_putc (con.stdio_dev stdout) ≡ some putc
    → putchar con c ≡ (c, record con { sent = one_byte putc c con.sent })
unfolding putchar fputc emit
putchar-one_byte putc c con dev =
    ap (λ d. emit d c con) dev ∙ ap (λ t. (c, t)) (put_char-one_byte putc c con)

putchar-eof :
    (c : ℕ) (con : Console) → find_putc (con.stdio_dev stdout) ≡ none → putchar con c ≡ (eof, con)
unfolding putchar fputc emit
putchar-eof c con dev = ap (λ d. emit d c con) dev

puts_loop-lines :
    (n fuel putc : ℕ) (m : Memory) (con : Console) (s cnt : ℕ)
    → IsString m s n
    → ((a : ℕ) → m a < 2 ^ 8)
    → find_putc (con.stdio_dev stdout) ≡ some putc
    → n < fuel
    → puts_loop fuel m con s cnt ≡ some (cnt + n, record con { sent = lines putc m s n con.sent })
unfolding puts_loop lines
puts_loop-lines n zero putc m con s cnt t byte dev lt = absurd (omega arith)
puts_loop-lines zero (suc fuel) putc m con s cnt t byte dev lt =
    rw (empty_test m s t) (ap (λ k. some (k, con)) (omega arith))
puts_loop-lines (suc n) (suc fuel) putc m con s cnt t byte dev lt =
    let con1 : Console = record con { sent = one_byte putc (m s) con.sent } in
    let no_eof : (m s == eof) ≡ false = ground (arith, byte s) in
    rw (first_set m s n t, putchar-one_byte putc (m s) con dev, no_eof)
      (puts_loop-lines n fuel putc m con1 (s + 1) (cnt + 1) (IsString-tail m s n t) byte dev
          (omega arith)
        ∙ ap (λ k. some (k, record con { sent = lines putc m s (suc n) con.sent })) (omega arith))

puts_loop-eof :
    (n fuel : ℕ) (m : Memory) (con : Console) (s : ℕ)
    → IsString m s n
    → find_putc (con.stdio_dev stdout) ≡ none
    → n < fuel
    → puts_loop fuel m con s 0 ≡ some (if n == 0 then 0 else eof, con)
unfolding puts_loop
puts_loop-eof n zero m con s t dev lt = absurd (omega arith)
puts_loop-eof zero (suc fuel) m con s t dev lt = rw (empty_test m s t) refl
puts_loop-eof (suc n) (suc fuel) m con s t dev lt =
    let longer : (suc n == 0) ≡ false = ground arith in
    rw (first_set m s n t, putchar-eof (m s) con dev, longer) refl

-- What `puts` of a string of `n` bytes at `s` should return and send, with that `putc`.
unfoldable pub put_string : Option ℕ → Memory → ℕ → ℕ → Console → ℕ × Console
unfolding lines
put_string none m s n con = (if n == 0 then 0 else eof, con)
put_string (some putc) m s n con = (n, record con { sent = lines putc m s n con.sent })

puts-put_string :
    (n fuel : ℕ) (m : Memory) (con : Console) (s : ℕ) (putc : Option ℕ)
    → IsString m s n
    → ((a : ℕ) → m a < 2 ^ 8)
    → find_putc (con.stdio_dev stdout) ≡ putc
    → n < fuel
    → puts fuel m con s ≡ some (put_string putc m s n con)
unfolding puts put_string
puts-put_string n fuel m con s none t byte dev lt = puts_loop-eof n fuel m con s t dev lt
puts-put_string n fuel m con s (some putc) t byte dev lt =
    puts_loop-lines n fuel putc m con s 0 t byte dev lt
    ∙ ap (λ k. some (k, record con { sent = lines putc m s n con.sent })) (omega arith)

-- Let every byte fit a byte, and a device or a null pointer be registered for the standard output.
-- If there is a device and it has a `putc`, then `puts` of a string of `n` bytes returns `n`, and has
-- called that `putc` for each byte in its order, with a carriage return in front of each line feed.
-- Otherwise it returns EOF for a string that is not empty and 0 for an empty one, and sends nothing.
pub puts-registered :
    (n fuel : ℕ) (m : Memory) (con : Console) (s : ℕ) (dev : Option StdioDev)
    → IsString m s n
    → ((a : ℕ) → m a < 2 ^ 8)
    → n < fuel
    → let con1 = (stdio_register con stdout dev).1 in
      puts fuel m con1 s ≡ some (put_string (find_putc dev) m s n con1)
unfolding stdio_register
puts-registered n fuel m con s dev t byte lt =
    puts-put_string n fuel m (stdio_register con stdout dev).1 s (find_putc dev) t byte refl lt
