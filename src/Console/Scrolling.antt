-- ===== src/Console/Scrolling.antt =====
-- `console_scroll`: the rows move up by one and the last row is blank.
use novium_os.Prelude.{
  ℕ, zero, suc, ◌+◌, ◌-◌, ◌*◌, ◌%◌, ◌≡◌, refl, ◌∙◌, inl, inr, true, false, ltb, leb, ◌==◌, ◌&&◌,
  if◌then◌else◌, arith, Bool-cases,
}
use novium_os.Library.{Memory, memmove}
use novium_os.Library.Copying.{memmove_lem, copied, within}
use novium_os.Console.{
  Console, console_width, console_attribute, console_set_cursor, update_hardware_cursor, put_cell,
  clear_row, console_scroll,
}
use novium_os.Console.Screen.{IsValid, Safe}

clear_row_lem :
    (n i : ℕ) (m : Memory) (j : ℕ)
    → clear_row n i m j ≡ (
        if leb ((1920 + i) * 2) j && ltb j ((1920 + i + n) * 2)
        then (if j % 2 == 0 then 0x20 else console_attribute)
        else m j)
unfolding clear_row put_cell
clear_row_lem zero i m j = ground arith
clear_row_lem (suc n) i m j = ground (arith, clear_row_lem n (i + 1) (put_cell (1920 + i) 0x20 m) j)

-- The page after a scroll: a byte is that of the row below, and the last row is blank.
pub scrolled : Memory → ℕ → ℕ
scrolled m j =
    if ltb j 3840
    then m (j + 160)
    else if ltb j 4000
    then (if j % 2 == 0 then 0x20 else console_attribute)
    else m j

moved_then_cleared :
    (m moved : Memory) (j : ℕ)
    → moved j ≡ copied m 0 160 3840 j
    → (if leb 3840 j && ltb j 4000
        then (if j % 2 == 0 then 0x20 else console_attribute)
        else moved j)
      ≡ scrolled m j
unfolding scrolled
moved_then_cleared m moved j e = elim (Bool-cases (ltb j 3840)) [
  | inl above ↦
      let kept : (leb 3840 j && ltb j 4000) ≡ false = ground arith in
      let source : within 0 3840 j ≡ true = ground arith in
      let from : 160 + (j - 0) ≡ j + 160 = omega arith in
      let step : copied m 0 160 3840 j ≡ m (j + 160) = rw (source, from) in
      rw (kept, above) (e ∙ step)
  | inr below ↦
      let off : within 0 3840 j ≡ false = ground arith in
      let step : copied m 0 160 3840 j ≡ m j = rw off in ground (arith, e, step)
]

scroll_memory :
    (s : Console) (j : ℕ) → (console_scroll s).video_memory j ≡ scrolled s.video_memory j
unfolding console_scroll console_set_cursor update_hardware_cursor
scroll_memory s j =
    clear_row_lem console_width 0 (memmove s.video_memory 0 160 3840) j
    ∙ moved_then_cleared s.video_memory (memmove s.video_memory 0 160 3840) j
        (memmove_lem s.video_memory 0 160 3840 j)

scroll_state :
    (s : Console)
    → IsValid s
    → ((console_scroll s).cursor ≡ 1920)
      × ((console_scroll s).user_cmdline_start ≡ s.user_cmdline_start - 80)
      × IsValid (console_scroll s)
unfolding console_scroll console_set_cursor update_hardware_cursor
scroll_state s v =
    let start : (if leb 80 s.user_cmdline_start then s.user_cmdline_start - 80 else 0)
        ≡ s.user_cmdline_start - 80 =
      ground arith in
    (refl, start, record { inside = omega arith; behind_prompt = ground (arith, v); shown = refl })

-- A scroll of a valid console moves every row up, blanks the last one and puts the cursor at its start;
-- the prompt moves with its row, the console stays valid and nothing behind the page changes.
pub console_scroll_lem :
    (s : Console)
    → IsValid s
    → ((j : ℕ) → (console_scroll s).video_memory j ≡ scrolled s.video_memory j)
      × ((console_scroll s).cursor ≡ 1920)
      × ((console_scroll s).user_cmdline_start ≡ s.user_cmdline_start - 80)
      × Safe s (console_scroll s)
unfolding scrolled
console_scroll_lem s v =
    let st = scroll_state s v in
    (scroll_memory s, st.0, st.1, (st.2, λ i h. scroll_memory s i ∙ ground arith))
