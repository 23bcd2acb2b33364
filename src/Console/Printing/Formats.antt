-- ===== src/Console/Printing/Formats.antt =====
-- `kprintf` against its format.
use novium_os.Prelude.{
  ℕ, ◌≡◌, refl, ◌∙◌, Bool, true, false, ◌==◌, ◌&&◌, not, if◌then◌else◌, if_false, List, [], ◌∷◌,
  ◌++◌, arith,
}
use novium_os.Console.{Console, console_putchar, console_write, write_by}
use novium_os.Console.Printing.{Argument, rest_of, takes_argument, convert, kprintf}

abbrev pub has_no_percent : List ℕ → Bool
has_no_percent [] = true
has_no_percent (c ∷ cs) = not (c == 0x25) && has_no_percent cs

kprintf_one :
    (c : ℕ) (fmt : List ℕ) (args : List Argument) (s : Console)
    → (c == 0x25) ≡ false
    → kprintf (c ∷ fmt) args s ≡ kprintf fmt args (console_putchar c s)
unfolding kprintf
kprintf_one c [] args s e = if_false (c == 0x25) _ _ e
kprintf_one c (d ∷ fmt) args s e = if_false (c == 0x25) _ _ e

-- Text without a percent sign is written as it stands, and the format behind it goes on with the same
-- arguments.
kprintf-append :
    (cs fmt : List ℕ) (args : List Argument) (s : Console)
    → has_no_percent cs ≡ true
    → kprintf (cs ++ fmt) args s ≡ kprintf fmt args (console_write cs s)
unfolding console_write write_by
kprintf-append [] fmt args s h = refl
kprintf-append (c ∷ cs) fmt args s h =
    kprintf_one c (cs ++ fmt) args s (ground arith)
    ∙ kprintf-append cs fmt args (console_putchar c s) (ground arith)

-- `kprintf` writes the text before a conversion, then the conversion, and goes on behind it with the
-- arguments that are left; a percent sign at the very end is dropped.
kprintf_lem :
    (cs : List ℕ) (d : ℕ) (fmt : List ℕ) (args : List Argument) (s : Console)
    → has_no_percent cs ≡ true
    → (kprintf (cs ++ 0x25 ∷ d ∷ fmt) args s
        ≡ kprintf fmt
            (if takes_argument d then rest_of args else args)
            (convert d args (console_write cs s)))
      × (kprintf (cs ++ 0x25 ∷ []) args s ≡ console_write cs s)
unfolding kprintf
kprintf_lem cs d fmt args s h =
    (kprintf-append cs (0x25 ∷ d ∷ fmt) args s h, kprintf-append cs (0x25 ∷ []) args s h)
