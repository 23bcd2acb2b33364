-- ===== src/Keyboard/Tests.antt =====
-- Runs of the keyboard driver, and its theorems at concrete inputs.
use novium_os.Prelude.{
  ◌≡◌, refl, true, false, ◌==◌, if◌then◌else◌, some, [], ◌∷◌, ◌++◌, length, arith,
}
use novium_os.Keyboard.{
  Keyboard, key_of, decode, keyboard_callback, keyboard_pop, getchar_loop, keyboard_getchar,
}
use novium_os.Keyboard.Queue.{InBounds, scancodes, keyboard_callback_lem}
use novium_os.Keyboard.Decoding.{Typed, keyboard_getchar-Typed}

-- A shift key was pressed, then the key A, then the key 1 was released.
abbrev waiting : Keyboard
waiting = record {
  buf = λ i. if i == 31 then 0x2A else if i == 0 then 0x1E else 0x82;
  head = 2;
  tail = 31;
  shift_held = false;
}

waiting-InBounds : InBounds waiting
waiting-InBounds = record { head_inside = omega arith; tail_inside = omega arith }

in_order : scancodes waiting ≡ 0x2A ∷ 0x1E ∷ 0x82 ∷ []
in_order = refl

types_capital :
    keyboard_getchar (λ k. k) 4 waiting ≡ some (65, record waiting { tail = 1; shift_held = true })
unfolding keyboard_getchar decode key_of keyboard_pop getchar_loop
types_capital = refl

-- Caps Lock shares its state with the shift keys, so that a release of shift ends it.
caps_lock_ends : (decode (decode false 0x3A).1 0xAA).1 ≡ false
unfolding decode key_of
caps_lock_ends = refl

keyboard_callback_lem_example :
    (scancodes (keyboard_callback 0x1F waiting) ≡ (
      if length (scancodes waiting) == 31
      then scancodes waiting
      else scancodes waiting ++ 0x1F ∷ []))
    × InBounds (keyboard_callback 0x1F waiting)
keyboard_callback_lem_example = keyboard_callback_lem 0x1F waiting waiting-InBounds

keyboard_getchar-Typed_example :
    Typed waiting 65 true (0x82 ∷ []) (keyboard_getchar (λ k. k) 3 waiting)
unfolding decode key_of
keyboard_getchar-Typed_example =
    keyboard_getchar-Typed (λ k. k) 3 waiting 65 true (0x82 ∷ []) waiting-InBounds refl
      (omega arith)
