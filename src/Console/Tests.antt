-- ===== src/Console/Tests.antt =====
-- Runs of the console, and its theorems at concrete inputs.
use novium_os.Prelude.{ℕ, ◌+◌, ◌-◌, ◌%◌, ◌^◌, ◌≤◌, ◌<◌, ◌≡◌, ◌⊎◌, refl, true, [], ◌∷◌, arith}
use novium_os.Console.{
  Console, console_scroll, console_write, write_by, console_putchar, putchar, backspace,
  console_set_cursor, update_hardware_cursor,
}
use novium_os.Console.Screen.{IsValid, Safe}
use novium_os.Console.Scrolling.{scrolled, console_scroll_lem}
use novium_os.Console.Depth.{console_putchar_enough}
use novium_os.Console.Writing.{with_text, console_write_lem}
use novium_os.Console.Printing.{decimal, print_signed}
use novium_os.Console.Printing.Numerals.{Printed, print_signed_lem}

-- The cursor in the fourth column of the last row, behind a prompt.
abbrev last_row : Console
last_row = record {
  video_memory = λ i. i % 256;
  cursor = 1923;
  user_cmdline_start = 1922;
  console_line_echo = true;
  ports = (0x3D5, 7) ∷ (0x3D4, 0x0E) ∷ (0x3D5, 131) ∷ (0x3D4, 0x0F) ∷ [];
}

last_row-IsValid : IsValid last_row
last_row-IsValid = record { inside = omega arith; behind_prompt = omega arith; shown = refl }

-- The second of two backspaces meets the prompt.
erases_one : (console_write (8 ∷ 8 ∷ []) last_row).cursor ≡ 1922
unfolding console_write write_by console_putchar putchar backspace console_set_cursor
    update_hardware_cursor
erases_one = refl

-- A tabulator that fills the last row.
console_putchar_enough_example :
    putchar 5 9 (record last_row { cursor = 1998 })
    ≡ console_putchar 9 (record last_row { cursor = 1998 })
console_putchar_enough_example = console_putchar_enough 2 9 (record last_row { cursor = 1998 })

console_scroll_lem_example :
    ((j : ℕ) → (console_scroll last_row).video_memory j ≡ scrolled last_row.video_memory j)
    × ((console_scroll last_row).cursor ≡ 1920)
    × ((console_scroll last_row).user_cmdline_start ≡ 1922 - 80)
    × Safe last_row (console_scroll last_row)
console_scroll_lem_example = console_scroll_lem last_row last_row-IsValid

console_write_lem_example :
    let s' = console_write (72 ∷ 105 ∷ []) last_row in
    ((j : ℕ) → s'.video_memory j ≡ with_text (72 ∷ 105 ∷ []) 1923 last_row.video_memory j)
    × (s'.cursor ≡ 1923 + 2)
    × (s'.user_cmdline_start ≡ 1922)
console_write_lem_example =
    console_write_lem (72 ∷ 105 ∷ []) last_row refl (omega arith) (omega arith)

-- The word of -5.
print_signed_lem_example :
    ((2 ^ 32 - 5 < 2 ^ 31)
      × Printed (2 ^ 32 - 5) 10 10 decimal last_row (print_signed (2 ^ 32 - 5) last_row))
    ⊎ ((2 ^ 31 ≤ 2 ^ 32 - 5)
        × Printed
            (2 ^ 32 - (2 ^ 32 - 5))
            10
            10
            decimal
            (console_write (0x2D ∷ []) last_row)
            (print_signed (2 ^ 32 - 5) last_row))
print_signed_lem_example = print_signed_lem (2 ^ 32 - 5) last_row (omega arith)
