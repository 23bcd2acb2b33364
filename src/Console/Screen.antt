-- ===== src/Console/Screen.antt =====
-- What the console keeps: the cursor on the page and shown by the hardware, the prompt before it, and
-- no write outside the page.
use novium_os.Prelude.{
  ℕ, ◌+◌, ◌*◌, ◌≤◌, ◌<◌, ◌≡◌, refl, ◌∙◌, false, leb, ◌==◌, if◌then◌else◌, List, [], ◌∷◌, arith,
  update,
}
use novium_os.Library.{Memory}
use novium_os.Console.{
  Console, console_cells, console_set_cursor, update_hardware_cursor, put_cell, write_by,
}

-- The registers of the display controller after the writes to its two ports: 0x3D4 selects a register
-- and 0x3D5 sets it.
pub record Crtc : Type 0 where
  pub index : ℕ
  pub registers : ℕ → ℕ

abbrev pub crtc : List (ℕ × ℕ) → Crtc
crtc [] = record { index = 0; registers = λ _. 0 }
crtc ((port, value) ∷ older) =
    let r = crtc older in
    if port == 0x3D4
    then record r { index = value }
    else if port == 0x3D5
    then record r { registers = update r.registers r.index value }
    else r

-- Where the hardware shows the cursor.
abbrev pub shown_cursor : Console → ℕ
shown_cursor s = (crtc s.ports).registers 0x0E * 256 + (crtc s.ports).registers 0x0F

pub record IsValid (s : Console) : Type 0 where
  pub inside : s.cursor < console_cells
  pub behind_prompt : s.user_cmdline_start ≤ s.cursor
  pub shown : shown_cursor s ≡ s.cursor

-- The bytes behind the page are those of before.
abbrev pub Confined : Memory → Memory → Type 0
Confined m m' = (i : ℕ) → console_cells * 2 ≤ i → m' i ≡ m i

abbrev pub Safe : Console → Console → Type 0
Safe s s' = IsValid s' × Confined s.video_memory s'.video_memory

pub Safe-trans : (s s' s'' : Console) → Safe s s' → Safe s' s'' → Safe s s''
Safe-trans s s' s'' a b = (b.0, λ i h. b.1 i h ∙ a.1 i h)

pub Confined-put_cell :
    (m : Memory) (cell c : ℕ) → cell < console_cells → Confined m (put_cell cell c m)
unfolding put_cell
Confined-put_cell m cell c h i k = ground arith

pub console_set_cursor-IsValid :
    (p : ℕ) (s : Console)
    → p < console_cells
    → s.user_cmdline_start ≤ p
    → IsValid (console_set_cursor p s) × ((console_set_cursor p s).cursor ≡ p)
unfolding console_set_cursor update_hardware_cursor
console_set_cursor-IsValid p s h k =
    let low : leb console_cells p ≡ false = ground arith in
    rw low (record { inside = h; behind_prompt = k; shown = omega arith }, refl)

pub write_by-Safe :
    (put : ℕ → Console → Console) (cs : List ℕ) (s : Console)
    → ((c : ℕ) (t : Console) → IsValid t → Safe t (put c t))
    → IsValid s
    → Safe s (write_by put cs s)
unfolding write_by
write_by-Safe put [] s keeps v = (v, λ i h. refl)
write_by-Safe put (c ∷ cs) s keeps v =
    let first = keeps c s v in
    Safe-trans s (put c s) (write_by put cs (put c s)) first
      (write_by-Safe put cs (put c s) keeps first.0)
