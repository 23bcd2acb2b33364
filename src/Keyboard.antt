-- ===== src/Keyboard.antt =====
-- The keyboard driver, drivers/input/keyboard.c: the ring of scancodes that the interrupt fills, and
-- the decoding of scancodes to characters. A scancode is what `ps2_read_scancode` has read.
pub mod Queue
pub mod Decoding
pub mod Tests
use novium_os.Prelude.{
  ℕ, zero, suc, ◌+◌, ◌-◌, ◌%◌, Bool, true, false, not, ◌||◌, leb, ◌==◌, if◌then◌else◌, Option, none,
  some, List, [], ◌∷◌, get_or, length, update,
}

abbrev pub buf_size : ℕ
buf_size = 32

-- The two tables by scancode; an entry that the source leaves out is 0.
abbrev pub kbd_layout : List ℕ
kbd_layout =
    0 ∷ 27 ∷ 49 ∷ 50 ∷ 51 ∷ 52 ∷ 53 ∷ 54 ∷ 55 ∷ 56 ∷ 57 ∷ 48 ∷ 45 ∷ 61 ∷ 8 ∷ 9 ∷ 113 ∷ 119 ∷ 101
    ∷ 114 ∷ 116 ∷ 121 ∷ 117 ∷ 105 ∷ 111 ∷ 112 ∷ 91 ∷ 93 ∷ 10 ∷ 0 ∷ 97 ∷ 115 ∷ 100 ∷ 102 ∷ 103 ∷ 104
    ∷ 106 ∷ 107 ∷ 108 ∷ 59 ∷ 39 ∷ 96 ∷ 0 ∷ 92 ∷ 122 ∷ 120 ∷ 99 ∷ 118 ∷ 98 ∷ 110 ∷ 109 ∷ 44 ∷ 46 ∷ 47
    ∷ 0 ∷ 0 ∷ 0 ∷ 32 ∷ []

abbrev pub kbd_layout_shift : List ℕ
kbd_layout_shift =
    0 ∷ 27 ∷ 33 ∷ 64 ∷ 35 ∷ 36 ∷ 37 ∷ 94 ∷ 38 ∷ 42 ∷ 40 ∷ 41 ∷ 95 ∷ 43 ∷ 8 ∷ 9 ∷ 81 ∷ 87 ∷ 69 ∷ 82
    ∷ 84 ∷ 89 ∷ 85 ∷ 73 ∷ 79 ∷ 80 ∷ 123 ∷ 125 ∷ 10 ∷ 0 ∷ 65 ∷ 83 ∷ 68 ∷ 70 ∷ 71 ∷ 72 ∷ 74 ∷ 75 ∷ 76
    ∷ 58 ∷ 34 ∷ 126 ∷ 0 ∷ 124 ∷ 90 ∷ 88 ∷ 67 ∷ 86 ∷ 66 ∷ 78 ∷ 77 ∷ 60 ∷ 62 ∷ 63 ∷ 0 ∷ 0 ∷ 0 ∷ 32
    ∷ []

pub record Keyboard : Type 0 where
  pub buf : ℕ → ℕ
  pub head : ℕ
  pub tail : ℕ
  pub shift_held : Bool

unfoldable pub keyboard_callback : ℕ → Keyboard → Keyboard
keyboard_callback sc k =
    let next = (k.head + 1) % buf_size in
    if next == k.tail then k else record k { buf = update k.buf k.head sc; head = next }

-- `none` is -1.
unfoldable pub keyboard_pop : Keyboard → Option ℕ × Keyboard
keyboard_pop k =
    if k.tail == k.head
    then (none, k)
    else (some (k.buf k.tail), record k { tail = (k.tail + 1) % buf_size })

abbrev pub is_shift : ℕ → Bool
is_shift sc = sc == 0x2A || sc == 0x36

-- The key that a scancode stands for, 0 for none.
unfoldable pub key_of : Bool → ℕ → ℕ
key_of shift_held sc =
    let layout = if shift_held then kbd_layout_shift else kbd_layout in
    if leb (length kbd_layout) sc then 0 else get_or layout sc 0

-- One round of the loop of `keyboard_getchar` with a scancode: `none` where it goes on.
unfoldable pub decode : Bool → ℕ → Option ℕ × Bool
unfolding key_of
decode shift_held sc =
    let key = key_of shift_held sc in
    if leb 0x80 sc
    then (none, if is_shift (sc - 0x80) then false else shift_held)
    else if is_shift sc
    then (none, true)
    else if sc == 0x3A
    then (none, not shift_held)
    else if key == 0
    then (none, shift_held)
    else (some key, shift_held)

-- The loop, with fuel for its rounds. `meanwhile` is what the interrupts do to the driver while the
-- processor is halted.
unfoldable pub getchar_loop : (Keyboard → Keyboard) → ℕ → Keyboard → Option (ℕ × Keyboard)
unfolding keyboard_pop decode
getchar_loop meanwhile zero k = none
getchar_loop meanwhile (suc fuel) k =
    let (popped, k') = keyboard_pop k in
    let idle = getchar_loop meanwhile fuel (meanwhile k') in
    elim popped as (λ _. Option (ℕ × Keyboard)) [
      | none ↦ idle
      | some sc ↦
          let (key, shift) = decode k'.shift_held sc in
          let next = record k' { shift_held = shift } in
          let rest = getchar_loop meanwhile fuel next in
          elim key as (λ _. Option (ℕ × Keyboard)) [ none ↦ rest | some c ↦ some (c, next) ]
    ]

unfoldable pub keyboard_getchar : (Keyboard → Keyboard) → ℕ → Keyboard → Option (ℕ × Keyboard)
unfolding getchar_loop
keyboard_getchar meanwhile fuel k = getchar_loop meanwhile fuel k
