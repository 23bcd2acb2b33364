-- ===== src/Console/Depth.antt =====
-- How deep `console_putchar` calls itself: for a tabulator, and for the mark of a new row.
use novium_os.Prelude.{
  ℕ, suc, ◌+◌, ◌%◌, ◌<◌, ◌≡◌, refl, sym, ap, ◌∙◌, Bool, true, false, ◌&&◌, leb, ◌==◌, if◌then◌else◌,
  [], ◌∷◌, inl, inr, arith, Bool-cases, if_true, if_false, if_cases, ◌*◌, ◌/◌,
}
use novium_os.Console.{
  Console, console_width, console_cells, put_cell, advance, console_scroll, console_set_cursor,
  update_hardware_cursor, write_by, putchar, backspace, console_putchar,
}

set_cursor_at :
    (p : ℕ) (s : Console) → leb console_cells p ≡ false → (console_set_cursor p s).cursor ≡ p
unfolding console_set_cursor update_hardware_cursor
set_cursor_at p s low = ap (λ (b : Bool). if b then 1999 else p) low

advance_cursor :
    (p : ℕ) (s : Console) → (advance p s).cursor ≡ (if leb console_cells p then 1920 else p)
unfolding advance console_scroll console_set_cursor update_hardware_cursor
advance_cursor p s =
    if_cases (λ (k : Console). k.cursor ≡ (if leb console_cells p then 1920 else p))
      (leb console_cells p) (console_scroll s) (console_set_cursor p s)
      (λ high. sym (if_true (leb console_cells p) _ _ high))
      (λ low. set_cursor_at p s low ∙ sym (if_false (leb console_cells p) _ _ low))

-- Not one of the characters that are treated in a special way.
abbrev IsPlain : ℕ → Type 0
IsPlain c = ((c == 0x0A) ≡ false) × ((c == 0x09) ≡ false) × ((c == 0x08) ≡ false)

-- The console with a character shown and the cursor behind it.
abbrev stepped : ℕ → Console → Console
stepped c s =
    advance (s.cursor + 1) (record s { video_memory = put_cell s.cursor c s.video_memory })

abbrev starts_row : Console → Bool
starts_row s = s.console_line_echo && (s.cursor % console_width == 0)

abbrev mark : (ℕ → Console → Console) → Console → Console
mark put s = write_by put (0x3E ∷ 0x20 ∷ []) s

plain_step :
    (fuel c : ℕ) (s : Console)
    → IsPlain c
    → putchar (suc fuel) c s
      ≡ (if starts_row (stepped c s) then mark (putchar fuel) (stepped c s) else stepped c s)
unfolding putchar
plain_step fuel c s p =
    if_false (c == 0x0A) _ _ p.0 ∙ if_false (c == 0x09) _ _ p.1 ∙ if_false (c == 0x08) _ _ p.2

-- Inside a row there is no mark.
inside_row :
    (fuel c : ℕ) (s : Console)
    → IsPlain c
    → s.cursor % 80 < 79
    → s.cursor + 1 < 2000
    → (putchar (suc fuel) c s ≡ stepped c s) × ((stepped c s).cursor ≡ s.cursor + 1)
inside_row fuel c s p column fits =
    let at : (stepped c s).cursor ≡ s.cursor + 1 =
      advance_cursor (s.cursor + 1) _
      ∙ if_false (leb console_cells (s.cursor + 1)) _ _ (ground arith) in
    let off : starts_row (stepped c s) ≡ false = ground (arith, at) in
    (plain_step fuel c s p ∙ if_false (starts_row (stepped c s)) _ _ off, at)

-- The mark itself needs one more call, whatever the fuel.
mark_enough :
    (fuel : ℕ) (s : Console)
    → s.cursor % 80 ≡ 0
    → s.cursor < 2000
    → mark (putchar (suc fuel)) s ≡ stepped 0x20 (stepped 0x3E s)
unfolding write_by
mark_enough fuel s column fits =
    let first =
      inside_row fuel 0x3E s (refl, refl, refl) (omega (arith, column))
        (omega (arith, column, fits)) in
    let second =
      inside_row fuel 0x20 (stepped 0x3E s) (refl, refl, refl) (omega (arith, first.1, column))
        (omega (arith, first.1, column, fits)) in
    ap (putchar (suc fuel) 0x20) first.0 ∙ second.0

plain_enough : (fuel c : ℕ) (s : Console) → IsPlain c → putchar (suc (suc fuel)) c s ≡ putchar 2 c s
plain_enough fuel c s p =
    plain_step (suc fuel) c s p
    ∙ elim (Bool-cases (starts_row (stepped c s))) [
      | inl row ↦
          let at =
            advance_cursor (s.cursor + 1)
              (record s { video_memory = put_cell s.cursor c s.video_memory }) in
          let column : (stepped c s).cursor % 80 ≡ 0 = ground arith in
          let fits : (stepped c s).cursor < 2000 = ground (arith, at) in
          if_true (starts_row (stepped c s)) _ _ row
          ∙ mark_enough fuel (stepped c s) column fits
          ∙ sym (mark_enough 0 (stepped c s) column fits)
          ∙ sym (if_true (starts_row (stepped c s)) _ _ row)
      | inr within ↦
          if_false (starts_row (stepped c s)) _ _ within
          ∙ sym (if_false (starts_row (stepped c s)) _ _ within)
    ]
    ∙ sym (plain_step 1 c s p)

abbrev four_by : (ℕ → Console → Console) → Console → Console
four_by put s = write_by put (0x20 ∷ 0x20 ∷ 0x20 ∷ 0x20 ∷ []) s

special_step :
    (fuel c : ℕ) (s : Console)
    → ((c == 0x0A) ≡ true
        → putchar (suc fuel) c s ≡ advance ((s.cursor / console_width + 1) * console_width) s)
      × ((c == 0x0A) ≡ false
          → (c == 0x09) ≡ true
          → putchar (suc fuel) c s ≡ four_by (putchar fuel) s)
      × ((c == 0x0A) ≡ false
          → (c == 0x09) ≡ false
          → (c == 0x08) ≡ true
          → putchar (suc fuel) c s ≡ backspace s)
unfolding putchar
special_step fuel c s = (
  λ a. if_true (c == 0x0A) _ _ a,
  λ a b. if_false (c == 0x0A) _ _ a ∙ if_true (c == 0x09) _ _ b,
  λ a b d. if_false (c == 0x0A) _ _ a ∙ if_false (c == 0x09) _ _ b ∙ if_true (c == 0x08) _ _ d,
)

four_spaces :
    (put put' : ℕ → Console → Console) (s : Console)
    → ((t : Console) → put 0x20 t ≡ put' 0x20 t)
    → write_by put (0x20 ∷ 0x20 ∷ 0x20 ∷ 0x20 ∷ []) s
      ≡ write_by put' (0x20 ∷ 0x20 ∷ 0x20 ∷ 0x20 ∷ []) s
unfolding write_by
four_spaces put put' s same =
    let one = same s in
    let two = ap (put 0x20) one ∙ same (put' 0x20 s) in
    let three = ap (put 0x20) two ∙ same (put' 0x20 (put' 0x20 s)) in
    ap (put 0x20) three ∙ same (put' 0x20 (put' 0x20 (put' 0x20 s)))

-- The fuel of `console_putchar` is enough: with more of it every character does the same to every
-- console.
pub console_putchar_enough :
    (fuel c : ℕ) (s : Console) → putchar (suc (suc (suc fuel))) c s ≡ console_putchar c s
unfolding console_putchar
console_putchar_enough fuel c s =
    let more = special_step (suc (suc fuel)) c s in
    let three = special_step 2 c s in
    elim (Bool-cases (c == 0x0A)) [
      | inl line ↦ more.0 line ∙ sym (three.0 line)
      | inr a ↦ elim (Bool-cases (c == 0x09)) [
        | inl tab ↦
            more.1 a tab
            ∙ four_spaces (putchar (suc (suc fuel))) (putchar 2) s
                (λ t. plain_enough fuel 0x20 t (refl, refl, refl))
            ∙ sym (three.1 a tab)
        | inr b ↦ elim (Bool-cases (c == 0x08)) [
          | inl back ↦ more.2 a b back ∙ sym (three.2 a b back)
          | inr d ↦ plain_enough (suc fuel) c s (a, b, d) ∙ sym (plain_enough 1 c s (a, b, d))
        ]
      ]
    ]
