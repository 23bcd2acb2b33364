-- ===== src/Console/Writing.antt =====
-- What `console_write` puts on the page.
use novium_os.Prelude.{
  ℕ, suc, ◌+◌, ◌-◌, ◌*◌, ◌/◌, ◌%◌, ◌≤◌, ◌<◌, ◌≡◌, refl, sym, ◌∙◌, ap, subst, inl, inr, Bool, true,
  false, ltb, leb, ◌==◌, ◌&&◌, if◌then◌else◌, List, [], ◌∷◌, length, arith, if_cases, get_or,
  Bool-cases,
}
use novium_os.Console.{
  Console, console_width, console_cells, console_attribute, console_set_cursor,
  update_hardware_cursor, put_cell, advance, write_by, putchar, console_putchar, console_write,
}

-- Characters from the blank on are shown as they are.
abbrev pub are_printable : List ℕ → Bool
are_printable [] = true
are_printable (c ∷ cs) = leb 0x20 c && are_printable cs

abbrev pub shown : ℕ → Console → Console
shown c s =
    console_set_cursor (s.cursor + 1)
      (record s { video_memory = put_cell s.cursor c s.video_memory })

shown_state :
    (c : ℕ) (s : Console)
    → s.cursor + 1 < console_cells
    → ((shown c s).cursor ≡ s.cursor + 1)
      × ((shown c s).video_memory ≡ put_cell s.cursor c s.video_memory)
      × ((shown c s).user_cmdline_start ≡ s.user_cmdline_start)
unfolding console_set_cursor update_hardware_cursor
shown_state c s h =
    let low : leb console_cells (s.cursor + 1) ≡ false = ground arith in (rw low, refl, refl)

advance_fits :
    (next : ℕ) (s : Console) → next < console_cells → advance next s ≡ console_set_cursor next s
unfolding advance
advance_fits next s h =
    if_cases (λ t. t ≡ console_set_cursor next s) (leb console_cells next) _ _
      (λ e. absurd (ground arith)) (λ _. refl)

-- A printable character before the last column takes no more than its cell.
putchar_plain :
    (fuel c : ℕ) (s : Console)
    → 0x20 ≤ c
    → s.cursor % console_width < 79
    → s.cursor < console_cells
    → putchar (suc fuel) c s ≡ shown c s
unfolding putchar
putchar_plain fuel c s h k v =
    let cell : Console = record s { video_memory = put_cell s.cursor c s.video_memory } in
    let on = advance_fits (s.cursor + 1) cell (omega arith) in
    let st = shown_state c s (omega arith) in
    let is_shown = λ (t : Console). t ≡ shown c s in
    let next = advance (s.cursor + 1) cell in
    let at : next.cursor ≡ s.cursor + 1 = ap (λ (t : Console). t.cursor) on ∙ st.0 in
    if_cases is_shown (c == 0x0A) _ _ (λ e. absurd (ground arith))
      (λ _.
        if_cases is_shown (c == 0x09) _ _ (λ e. absurd (ground arith))
          (λ _.
            if_cases is_shown (c == 0x08) _ _ (λ e. absurd (ground arith))
              (λ _.
                if_cases is_shown (next.console_line_echo && (next.cursor % console_width == 0)) _ _
                  (λ e. absurd (ground (arith, at))) (λ _. on))))

-- The cells of a text set one after the other, from cell `at` on.
abbrev texted : List ℕ → ℕ → (ℕ → ℕ) → ℕ → ℕ
texted [] at m = m
texted (c ∷ cs) at m = texted cs (at + 1) (put_cell at c m)

write_by_lem :
    (cs : List ℕ) (s : Console)
    → are_printable cs ≡ true
    → s.cursor % console_width + length cs < console_width
    → s.cursor < console_cells
    → let s' = write_by console_putchar cs s in
      (s'.video_memory ≡ texted cs s.cursor s.video_memory)
      × (s'.cursor ≡ s.cursor + length cs)
      × (s'.user_cmdline_start ≡ s.user_cmdline_start)
unfolding write_by console_putchar
write_by_lem [] s p fits v = (refl, omega arith, refl)
write_by_lem (c ∷ cs) s p fits v =
    let e = putchar_plain 2 c s (ground arith) (omega arith) v in
    let st = shown_state c s (omega arith) in
    let r = write_by_lem cs (shown c s) (ground arith) (omega (arith, st)) (omega (arith, st)) in
    subst
      (λ t.
        let s' = write_by console_putchar cs t in
        (s'.video_memory ≡ texted (c ∷ cs) s.cursor s.video_memory)
        × (s'.cursor ≡ s.cursor + length (c ∷ cs))
        × (s'.user_cmdline_start ≡ s.user_cmdline_start))
      (sym e)
      (
        r.0
            ∙ ap (λ n. texted cs n (shown c s).video_memory) st.0
            ∙ ap (λ m. texted cs (s.cursor + 1) m) st.1,
        omega (arith, r, st),
        r.2 ∙ st.2,
      )

-- The page with a text from cell `at` on, in light grey on black.
abbrev pub with_text : List ℕ → ℕ → (ℕ → ℕ) → ℕ → ℕ
with_text cs at m j =
    if leb (at * 2) j && ltb j ((at + length cs) * 2)
    then (if j % 2 == 0 then get_or cs (j / 2 - at) 0 else console_attribute)
    else m j

texted_lem : (cs : List ℕ) (at : ℕ) (m : ℕ → ℕ) (j : ℕ) → texted cs at m j ≡ with_text cs at m j
unfolding put_cell
texted_lem [] at m j = ground arith
texted_lem (c ∷ cs) at m j =
    texted_lem cs (at + 1) (put_cell at c m) j ∙ elim (Bool-cases (leb ((at + 1) * 2) j)) [
      | inl later ↦
          let step : j / 2 - at ≡ suc (j / 2 - (at + 1)) = ground arith in
          let pick : get_or (c ∷ cs) (j / 2 - at) 0 ≡ get_or cs (j / 2 - (at + 1)) 0 =
            ap (λ i. get_or (c ∷ cs) i 0) step in
          ground (arith, pick)
      | inr here ↦ elim (Bool-cases (leb (at * 2) j)) [
        | inl cell ↦
            let first : j / 2 - at ≡ 0 = ground arith in
            let pick : get_or (c ∷ cs) (j / 2 - at) 0 ≡ c = ap (λ i. get_or (c ∷ cs) i 0) first in
            ground (arith, pick)
        | inr before ↦ ground arith
      ]
    ]

-- `console_write` of printable characters that fit in the row, with a column to spare, shows them from
-- the cursor on, moves the cursor behind them and leaves the prompt and every other byte alone.
pub console_write_lem :
    (cs : List ℕ) (s : Console)
    → are_printable cs ≡ true
    → s.cursor % console_width + length cs < console_width
    → s.cursor < console_cells
    → let s' = console_write cs s in
      ((j : ℕ) → s'.video_memory j ≡ with_text cs s.cursor s.video_memory j)
      × (s'.cursor ≡ s.cursor + length cs)
      × (s'.user_cmdline_start ≡ s.user_cmdline_start)
unfolding console_write
console_write_lem cs s p fits v =
    let r = write_by_lem cs s p fits v in
    (λ j. ap (λ m. m j) r.0 ∙ texted_lem cs s.cursor s.video_memory j, r.1, r.2)
