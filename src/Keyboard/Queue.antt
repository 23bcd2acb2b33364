-- ===== src/Keyboard/Queue.antt =====
-- The ring of the keyboard is a queue of at most 31 scancodes.
use novium_os.Prelude.{
  ℕ, suc, ◌+◌, ◌-◌, ◌%◌, ◌<◌, ◌≡◌, refl, sym, ap, subst, inl, inr, true, false, ◌==◌, if◌then◌else◌,
  Option, none, some, List, [], ◌∷◌, ◌++◌, length, arith, Bool-cases,
}
use novium_os.Prelude.Ring.{window, length-window, window-update, window_shift}
use novium_os.Keyboard.{Keyboard, buf_size, keyboard_callback, keyboard_pop}

-- The ring's indices are within bounds.
pub record InBounds (k : Keyboard) : Type 0 where
  pub head_inside : k.head < buf_size
  pub tail_inside : k.tail < buf_size

abbrev pub queued : Keyboard → ℕ
queued k = (k.head + buf_size - k.tail) % buf_size

-- The scancodes of the ring, the oldest first.
abbrev pub scancodes : Keyboard → List ℕ
scancodes k = window k.buf (λ j. (k.tail + j) % buf_size) 0 (queued k)

-- `keyboard_callback`, with the indices in bounds, appends the scancode to the waiting ones, or
-- drops it when 31 wait already, and keeps the indices in bounds.
pub keyboard_callback_lem :
    (sc : ℕ) (k : Keyboard)
    → InBounds k
    → (scancodes (keyboard_callback sc k)
        ≡ (if length (scancodes k) == 31 then scancodes k else scancodes k ++ sc ∷ []))
      × InBounds (keyboard_callback sc k)
unfolding keyboard_callback
keyboard_callback_lem sc k v =
    let at : ℕ → ℕ = λ j. (k.tail + j) % buf_size in
    let n : length (scancodes k) ≡ queued k = length-window k.buf at 0 (queued k) in
    elim (Bool-cases ((k.head + 1) % buf_size == k.tail)) [
      | inl full ↦
          let all : (length (scancodes k) == 31) ≡ true = ground (arith, n, v) in
          rw (full, all) (refl, v)
      | inr room ↦
          let some_left : (length (scancodes k) == 31) ≡ false = ground (arith, n, v) in
          let grown : ((k.head + 1) % buf_size + buf_size - k.tail) % buf_size ≡ suc (queued k) =
            ground (arith, v) in
          rw (room, some_left)
            (
              rw grown (
                  window-update k.buf at 0 (queued k) k.head sc (λ j l h. ground (arith, v))
                    (ground (arith, v))),
              record { head_inside = omega arith; tail_inside = v.tail_inside },
            )
    ]

-- What a read of the ring comes to: the oldest scancode off it, or none and no change.
abbrev pub Popped : Keyboard → Option ℕ × Keyboard → Type 0
Popped k (none, k') = (scancodes k ≡ []) × (k' ≡ k)
Popped k (some sc, k') =
    (scancodes k ≡ sc ∷ scancodes k') × (k'.shift_held ≡ k.shift_held) × InBounds k'

pop_empty : (k : Keyboard) → (k.tail == k.head) ≡ true → keyboard_pop k ≡ (none, k)
unfolding keyboard_pop
pop_empty k e = rw e

pop_some :
    (k : Keyboard)
    → (k.tail == k.head) ≡ false
    → keyboard_pop k ≡ (some (k.buf k.tail), record k { tail = (k.tail + 1) % buf_size })
unfolding keyboard_pop
pop_some k e = rw e

-- `keyboard_pop` takes the oldest scancode off, and finds none exactly when none waits.
pub keyboard_pop_lem : (k : Keyboard) → InBounds k → Popped k (keyboard_pop k)
keyboard_pop_lem k v = elim (Bool-cases (k.tail == k.head)) [
  | inl empty ↦
      let none_left : queued k ≡ 0 = ground (arith, v) in
      subst (λ r. Popped k r) (sym (pop_empty k empty)) (rw none_left, refl)
  | inr more ↦
      let k' : Keyboard = record k { tail = (k.tail + 1) % buf_size } in
      let left : queued k ≡ suc (queued k') = ground (arith, v) in
      let first : (k.tail + 0) % buf_size ≡ k.tail = ground (arith, v) in
      let shift =
        window_shift k.buf (λ j. (k.tail + j) % buf_size) (λ j. (k'.tail + j) % buf_size) 0
          (queued k') (λ j. ground (arith, v)) in
      subst (λ r. Popped k r) (sym (pop_some k more))
        (
          rw (left, first) (ap (λ (xs : List ℕ). k.buf k.tail ∷ xs) shift),
          refl,
          record { head_inside = v.head_inside; tail_inside = omega arith },
        )
]
