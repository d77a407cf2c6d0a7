-- ===== src/Console/Tests.antt =====
-- A line of text, and the theorem of src/lib/stdio.c at it.
use miniboot.Common.{◌≡◌, refl, none, some, [], ◌∷◌, arith}
use miniboot.Mem.Text.Tests.{hello, hello-IsString, hello-byte}
use miniboot.Console.{
  StdioDev, Console, stdout, stdio_register, puts, puts_loop, putchar, fputc, emit, put_char,
}
use miniboot.Console.Lines.{put_string, puts-registered}

abbrev silent : Console
silent = record { stdio_dev = λ i. none; sent = [] }

abbrev uart : StdioDev
uart = record { putc = some 7 }

-- "hi" and a line feed go out as four characters.
hello_sent :
    puts 9 hello (stdio_register silent stdout (some uart)).1 0x100
    ≡ some (
      3,
      record (stdio_register silent stdout (some uart)).1 {
        sent = (7, 10) ∷ (7, 13) ∷ (7, 105) ∷ (7, 104) ∷ [];
      },
    )
unfolding puts puts_loop putchar fputc emit put_char stdio_register
hello_sent = refl

puts-registered_example :
    puts 9 hello (stdio_register silent stdout (some uart)).1 0x100
    ≡ some (put_string (some 7) hello 0x100 3 (stdio_register silent stdout (some uart)).1)
puts-registered_example =
    puts-registered 3 9 hello silent 0x100 (some uart) hello-IsString hello-byte (omega arith)
