-- ===== src/Console.antt =====
-- The text console, drivers/video/vga_console.c, and kprintf of lib/stdio.c, which prints through it.
-- `video_memory` is the bytes from 0xB8000 on, `ports` what was written to I/O ports, the newest first.
-- Positions are not negative anywhere in the file, so that they are natural numbers.
pub mod Screen
pub mod Cursor
pub mod Scrolling
pub mod Writing
pub mod Depth
pub mod Clearing
pub mod Printing
pub mod Tests
use novium_os.Prelude.{
  ℕ, zero, suc, ◌+◌, ◌-◌, ◌*◌, ◌/◌, ◌%◌, Bool, true, false, ◌&&◌, ltb, leb, ◌==◌, if◌then◌else◌,
  List, [], ◌∷◌, get_or, update,
}
use novium_os.Library.{Memory, memset, memmove, buf_digits}

abbrev pub console_width : ℕ
console_width = 80

abbrev pub console_height : ℕ
console_height = 25

abbrev pub console_cells : ℕ
console_cells = console_width * console_height

-- Light grey on black.
abbrev pub console_attribute : ℕ
console_attribute = 0x07

pub record Console : Type 0 where
  pub video_memory : Memory
  pub cursor : ℕ
  pub user_cmdline_start : ℕ
  pub console_line_echo : Bool
  pub ports : List (ℕ × ℕ)

abbrev pub outb : ℕ → ℕ → Console → Console
outb port value s = record s { ports = (port, value) ∷ s.ports }

unfoldable pub update_hardware_cursor : ℕ → Console → Console
update_hardware_cursor pos s =
    outb 0x3D5 (pos / 256 % 256) (outb 0x3D4 0x0E (outb 0x3D5 (pos % 256) (outb 0x3D4 0x0F s)))

unfoldable pub console_set_cursor : ℕ → Console → Console
unfolding update_hardware_cursor
console_set_cursor position s =
    let inside = if leb console_cells position then console_cells - 1 else position in
    update_hardware_cursor inside (record s { cursor = inside })

-- A cell of the page: the character and its attribute.
unfoldable pub put_cell : ℕ → ℕ → Memory → Memory
put_cell cell c m = update (update m (cell * 2) c) (cell * 2 + 1) console_attribute

-- The loop over the bottom row, from column `i` on, with `n` columns left.
unfoldable pub clear_row : ℕ → ℕ → Memory → Memory
unfolding put_cell
clear_row zero i m = m
clear_row (suc n) i m =
    clear_row n (i + 1) (put_cell (console_width * (console_height - 1) + i) 0x20 m)

unfoldable pub console_scroll : Console → Console
unfolding clear_row console_set_cursor memmove
console_scroll s =
    let copy_size = console_width * (console_height - 1) * 2 in
    let moved = memmove s.video_memory 0 (console_width * 2) copy_size in
    let blank = record s { video_memory = clear_row console_width 0 moved } in
    let at = console_set_cursor (console_width * (console_height - 1)) blank in
    record at {
      user_cmdline_start =
          if leb console_width at.user_cmdline_start
          then at.user_cmdline_start - console_width
          else 0;
    }

-- The cursor goes on to `next`, or the page scrolls.
unfoldable pub advance : ℕ → Console → Console
unfolding console_scroll console_set_cursor
advance next s = if leb console_cells next then console_scroll s else console_set_cursor next s

unfoldable pub backspace : Console → Console
unfolding put_cell console_set_cursor
backspace s =
    let back = s.cursor - 1 in
    let erased = record s { video_memory = put_cell back 0x20 s.video_memory; cursor = back } in
    if ltb s.user_cmdline_start s.cursor then console_set_cursor back erased else s

-- The loop of `console_write`.
unfoldable pub write_by : (ℕ → Console → Console) → List ℕ → Console → Console
write_by put [] s = s
write_by put (c ∷ cs) s = write_by put cs (put c s)

abbrev pub putchar_fuel : ℕ
putchar_fuel = 3

-- `console_putchar` calls itself for a tabulator and, through `console_write`, for the mark of a new
-- row: with fuel for the depth of the calls.
unfoldable pub putchar : ℕ → ℕ → Console → Console
unfolding advance backspace write_by put_cell
putchar zero c s = s
putchar (suc fuel) c s =
    let put = putchar fuel in
    let shown = record s { video_memory = put_cell s.cursor c s.video_memory } in
    let next = advance (s.cursor + 1) shown in
    let marked = write_by put (0x3E ∷ 0x20 ∷ []) next in
    if c == 0x0A
    then advance ((s.cursor / console_width + 1) * console_width) s
    else if c == 0x09
    then write_by put (0x20 ∷ 0x20 ∷ 0x20 ∷ 0x20 ∷ []) s
    else if c == 0x08
    then backspace s
    else if next.console_line_echo && (next.cursor % console_width == 0)
    then marked
    else next

unfoldable pub console_putchar : ℕ → Console → Console
unfolding putchar
console_putchar c s = putchar putchar_fuel c s

unfoldable pub console_write : List ℕ → Console → Console
unfolding write_by console_putchar
console_write cs s = write_by console_putchar cs s

unfoldable pub console_prompt : Console → Console
unfolding console_write
console_prompt s =
    let prompted = console_write (0x3E ∷ 0x20 ∷ []) s in
    record prompted { user_cmdline_start = prompted.cursor }

-- The loop that sets the attributes, from cell `i` on, with `n` cells left.
unfoldable pub set_attributes : ℕ → ℕ → Memory → Memory
set_attributes zero i m = m
set_attributes (suc n) i m = set_attributes n (i + 1) (update m (i * 2 + 1) console_attribute)

unfoldable pub console_clear : Console → Console
unfolding set_attributes console_set_cursor memset
console_clear s =
    let blank = memset s.video_memory 0 0x20 (console_width * console_height * 2) in
    let cleared = record s {
      video_memory = set_attributes (console_width * console_height) 0 blank;
    } in
    let shape = outb 0x3D5 0x0F (outb 0x3D4 0x0B (outb 0x3D5 0x0E (outb 0x3D4 0x0A cleared))) in
    record (console_set_cursor 0 shape) { user_cmdline_start = 0 }

-- The second loop of `print_u32`: from the end of `buf` to its start.
unfoldable pub print_back : List ℕ → List ℕ → Console → Console
unfolding console_putchar
print_back digits [] s = s
print_back digits (d ∷ ds) s = console_putchar (get_or digits d 0) (print_back digits ds s)

unfoldable pub print_u32 : ℕ → ℕ → List ℕ → Console → Console
unfolding print_back buf_digits
print_u32 value base digits s = print_back digits (buf_digits 32 value base) s
