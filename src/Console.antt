-- ===== src/Console.antt =====
-- src/lib/stdio.c: characters to the registered devices. A device's `putc` is code of the platform;
-- what it is called with is recorded, with the number that stands for the function.
pub mod Lines
pub mod Tests
use miniboot.Common.{
  ℕ, zero, suc, ◌+◌, ◌-◌, ◌^◌, Option, none, some, List, [], ◌∷◌, ◌==◌, if◌then◌else◌,
}
use miniboot.Mem.{Memory}

-- `struct stdio_dev`: the member that the code uses, a function or null.
pub record StdioDev : Type 0 where
  pub putc : Option ℕ

-- The table `stdio_dev[3]`, a null pointer where no device is registered, and the calls of `putc`,
-- the newest one first.
pub record Console : Type 0 where
  pub stdio_dev : ℕ → Option StdioDev
  pub sent : List (ℕ × ℕ)

-- EOF as an int
abbrev pub eof : ℕ
eof = 0xFFFFFFFF

abbrev pub stdout : ℕ
stdout = 1

-- `fd` is one of the three, and so it is for `fputc`.
unfoldable pub stdio_register : Console → ℕ → Option StdioDev → ℕ × Console
stdio_register con fd dev =
    (0, record con { stdio_dev = λ i. if i == fd then dev else con.stdio_dev i })

abbrev pub send : ℕ → ℕ → Console → Console
send putc c con = record con { sent = (putc, c) ∷ con.sent }

-- `dev->putc('\r')` in front of a line feed, and then `dev->putc(c)`.
unfoldable pub put_char : ℕ → ℕ → Console → Console
put_char putc c con = if c == 0x0A then send putc c (send putc 0x0D con) else send putc c con

-- What `stdio_dev[fd]` says about the function.
abbrev pub find_putc : Option StdioDev → Option ℕ
find_putc none = none
find_putc (some dev) = dev.putc

unfoldable pub emit : Option ℕ → ℕ → Console → ℕ × Console
unfolding put_char
emit none c con = (eof, con)
emit (some putc) c con = (c, put_char putc c con)

-- A `char` is unsigned on this machine.
unfoldable pub fputc : Console → ℕ → ℕ → ℕ × Console
unfolding emit
fputc con fd c = emit (find_putc (con.stdio_dev fd)) c con

unfoldable pub putchar : Console → ℕ → ℕ × Console
unfolding fputc
putchar con c = fputc con stdout c

-- `while (*s)`, on fuel; nothing when that is used up.
unfoldable pub puts_loop : ℕ → Memory → Console → ℕ → ℕ → Option (ℕ × Console)
unfolding putchar
puts_loop zero m con s cnt = none
puts_loop (suc fuel) m con s cnt =
    let (r, con') = putchar con (m s) in
    let rest = puts_loop fuel m con' (s + 1) (cnt + 1) in
    if m s == 0
    then some (cnt, con)
    else if r == eof
    then some (if cnt == 0 then eof else cnt, con')
    else rest

unfoldable pub puts : ℕ → Memory → Console → ℕ → Option (ℕ × Console)
unfolding puts_loop
puts fuel m con s = puts_loop fuel m con s 0

-- `vsprintf` with its format and arguments is a parameter: what it returns, and the memory when it
-- has written to `printbuffer`. The result of `puts` is not used.
module _ (vsprintf : Memory → ℕ × Memory) (printbuffer : ℕ) where
  abbrev pub with_result : ℕ → Memory → Option (ℕ × Console) → Option (ℕ × Memory × Console)
  with_result rval m none = none
  with_result rval m (some (r, con)) = some (rval, m, con)

  unfoldable pub printf : ℕ → Memory → Console → Option (ℕ × Memory × Console)
  unfolding puts
  printf fuel m con =
      let (rval, m') = vsprintf m in with_result rval m' (puts fuel m' con printbuffer)
