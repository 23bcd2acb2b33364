-- ===== src/Console/Cursor.antt =====
-- `console_putchar`, `console_write`, `console_prompt` and `console_clear` keep the console valid.
use novium_os.Prelude.{
  ℕ, zero, suc, ◌+◌, ◌-◌, ◌*◌, ◌/◌, ◌%◌, ◌≤◌, ◌≡◌, refl, ◌∙◌, inl, inr, ltb, leb, ◌==◌, ◌&&◌, List,
  [], ◌∷◌, arith, Bool-cases, ap, if_both, if_cases,
}
use novium_os.Console.{
  Console, console_width, console_cells, console_set_cursor, update_hardware_cursor, put_cell,
  console_scroll, advance, backspace, write_by, putchar, console_putchar, console_write,
  console_prompt, putchar_fuel,
}
use novium_os.Console.Screen.{
  IsValid, Safe, Safe-trans, Confined-put_cell, console_set_cursor-IsValid, write_by-Safe,
}
use novium_os.Console.Scrolling.{console_scroll_lem}

set_cursor_memory : (p : ℕ) (s : Console) → (console_set_cursor p s).video_memory ≡ s.video_memory
unfolding console_set_cursor update_hardware_cursor
set_cursor_memory p s = refl

-- On a valid console the cursor goes on, or the page scrolls.
advance-Safe : (next : ℕ) (s : Console) → IsValid s → s.cursor ≤ next → Safe s (advance next s)
unfolding advance
advance-Safe next s v h =
    if_cases (Safe s) (leb console_cells next) (console_scroll s) (console_set_cursor next s)
      (λ full. (console_scroll_lem s v).3)
      (λ fits.
        let r = console_set_cursor-IsValid next s (ground arith) (omega (arith, v)) in
        (r.0, λ i k. ap (λ m. m i) (set_cursor_memory next s)))

put_shown :
    (s : Console) (c : ℕ)
    → IsValid s
    → Safe s (record s { video_memory = put_cell s.cursor c s.video_memory })
put_shown s c v = (
  record { inside = v.inside; behind_prompt = v.behind_prompt; shown = v.shown },
  Confined-put_cell s.video_memory s.cursor c v.inside,
)

backspace-Safe : (s : Console) → IsValid s → Safe s (backspace s)
unfolding backspace
backspace-Safe s v = elim (Bool-cases (ltb s.user_cmdline_start s.cursor)) [
  | inl back ↦
      let erased : Console = record s {
        video_memory = put_cell (s.cursor - 1) 0x20 s.video_memory;
        cursor = s.cursor - 1;
      } in
      let r = console_set_cursor-IsValid (s.cursor - 1) erased (omega (arith, v)) (ground arith) in
      rw back (
        r.0,
        λ i k.
            ap (λ m. m i) (set_cursor_memory (s.cursor - 1) erased)
            ∙ Confined-put_cell s.video_memory (s.cursor - 1) 0x20 (omega (arith, v)) i k,
      )
  | inr stays ↦ rw stays (v, λ i k. refl)
]

putchar-Safe : (fuel c : ℕ) (s : Console) → IsValid s → Safe s (putchar fuel c s)
unfolding putchar
putchar-Safe zero c s v = (v, λ i k. refl)
putchar-Safe (suc fuel) c s v =
    let put = putchar fuel in
    let shown : Console = record s { video_memory = put_cell s.cursor c s.video_memory } in
    let next = advance (s.cursor + 1) shown in
    let first = put_shown s c v in
    let moved : Safe s next =
      Safe-trans s shown next first (advance-Safe (s.cursor + 1) shown first.0 (omega arith)) in
    let keeps : (d : ℕ) (t : Console) → IsValid t → Safe t (put d t) =
      λ d t w. putchar-Safe fuel d t w in
    let mark : Safe s (write_by put (0x3E ∷ 0x20 ∷ []) next) =
      Safe-trans s next (write_by put (0x3E ∷ 0x20 ∷ []) next) moved
        (write_by-Safe put (0x3E ∷ 0x20 ∷ []) next keeps moved.0) in
    let spaces : List ℕ = 0x20 ∷ 0x20 ∷ 0x20 ∷ 0x20 ∷ [] in
    if_both (Safe s) (c == 0x0A) _ _
      (advance-Safe ((s.cursor / console_width + 1) * console_width) s v (omega arith))
      (if_both (Safe s) (c == 0x09) _ _ (write_by-Safe put spaces s keeps v) (
        if_both (Safe s) (c == 0x08) _ _ (backspace-Safe s v) (
          if_both (Safe s) (next.console_line_echo && (next.cursor % console_width == 0)) _ _ mark
            moved)))

-- `console_putchar` of any character keeps a valid console valid: the cursor stays on the page, not
-- before the prompt, and is where the hardware shows it; nothing is written behind the page.
pub console_putchar-Safe : (c : ℕ) (s : Console) → IsValid s → Safe s (console_putchar c s)
unfolding console_putchar
console_putchar-Safe c s v = putchar-Safe putchar_fuel c s v

-- So does `console_write` of any string.
console_write-Safe : (cs : List ℕ) (s : Console) → IsValid s → Safe s (console_write cs s)
unfolding console_write
console_write-Safe cs s v = write_by-Safe console_putchar cs s console_putchar-Safe v

-- `console_prompt` leaves the prompt where the cursor is.
pub console_prompt-Safe : (s : Console) → IsValid s → Safe s (console_prompt s)
unfolding console_prompt
console_prompt-Safe s v =
    let r = console_write-Safe (0x3E ∷ 0x20 ∷ []) s v in
    (record { inside = r.0.inside; behind_prompt = omega arith; shown = r.0.shown }, r.1)
