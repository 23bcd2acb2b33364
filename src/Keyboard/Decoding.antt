-- ===== src/Keyboard/Decoding.antt =====
-- `keyboard_getchar` against the decoding of the scancodes that wait.
use novium_os.Prelude.{
  ℕ, zero, suc, ◌≤◌, ◌<◌, ◌≡◌, refl, sym, ap, ◌∙◌, subst, inl, inr, Bool, true, false, leb, Option,
  none, some, List, [], ◌∷◌, length, arith, Bool-cases, Option-cases, ltb, get_or, ◌&&◌,
}
use novium_os.Keyboard.{
  Keyboard, kbd_layout, kbd_layout_shift, key_of, decode, keyboard_pop, getchar_loop,
  keyboard_getchar,
}
use novium_os.Keyboard.Queue.{InBounds, scancodes, Popped, keyboard_pop_lem}

-- The first character that a list of scancodes stands for, with the shift state behind it and the
-- scancodes that are left.
abbrev pub first_char : Bool → List ℕ → Option (ℕ × Bool × List ℕ)
first_char shift [] = none
first_char shift (sc ∷ scs) =
    let (key, shift') = decode shift sc in
    let rest = first_char shift' scs in
    elim key as (λ _. Option (ℕ × Bool × List ℕ)) [ none ↦ rest | some c ↦ some (c, shift', scs) ]

-- What a call has returned: that character, with the driver that is left.
pub record Typed (k : Keyboard) (c : ℕ) (shift : Bool) (scs : List ℕ) (r : Option (ℕ × Keyboard))
    : Type 0 where
  pub k' : Keyboard
  pub returns : r ≡ some (c, k')
  pub left : scancodes k' ≡ scs
  pub shift_state : k'.shift_held ≡ shift
  pub valid : InBounds k'

-- One round with a scancode in the ring.
round :
    (meanwhile : Keyboard → Keyboard) (fuel sc : ℕ) (k k' : Keyboard)
    → keyboard_pop k ≡ (some sc, k')
    → getchar_loop meanwhile (suc fuel) k
      ≡ elim (decode k'.shift_held sc).0 as (λ _. Option (ℕ × Keyboard)) [
        | none ↦
            getchar_loop meanwhile fuel (record k' { shift_held = (decode k'.shift_held sc).1 })
        | some c ↦ some (c, record k' { shift_held = (decode k'.shift_held sc).1 })
      ]
unfolding getchar_loop
round meanwhile fuel sc k k' e =
    ap
      (λ (r : Option ℕ × Keyboard). elim r.0 as (λ _. Option (ℕ × Keyboard)) [
        | none ↦ getchar_loop meanwhile fuel (meanwhile r.1)
        | some a ↦ elim (decode r.1.shift_held a).0 as (λ _. Option (ℕ × Keyboard)) [
          | none ↦
              getchar_loop meanwhile fuel (record r.1 { shift_held = (decode r.1.shift_held a).1 })
          | some c ↦ some (c, record r.1 { shift_held = (decode r.1.shift_held a).1 })
        ]
      ])
      e

-- What is popped when scancodes wait.
popped :
    (k : Keyboard) (r : Option ℕ × Keyboard) (sc : ℕ) (now : List ℕ)
    → Popped k r
    → scancodes k ≡ sc ∷ now
    → (r ≡ (some sc, r.1)) × (scancodes r.1 ≡ now) × (r.1.shift_held ≡ k.shift_held) × InBounds r.1
popped k (none, k') sc now p e = cc
popped k (some a, k') sc now p e =
    let same : a ∷ scancodes k' ≡ sc ∷ now = sym p.0 ∙ e in (cc, cc, p.1, p.2)

first_char-none :
    (shift : Bool) (sc : ℕ) (now : List ℕ)
    → (decode shift sc).0 ≡ none
    → first_char shift (sc ∷ now) ≡ first_char (decode shift sc).1 now
first_char-none shift sc now e =
    ap
      (λ (key : Option ℕ). elim key as (λ _. Option (ℕ × Bool × List ℕ)) [
        | none ↦ first_char (decode shift sc).1 now
        | some a ↦ some (a, (decode shift sc).1, now)
      ])
      e

first_char-some :
    (shift : Bool) (sc c : ℕ) (now : List ℕ)
    → (decode shift sc).0 ≡ some c
    → first_char shift (sc ∷ now) ≡ some (c, (decode shift sc).1, now)
first_char-some shift sc c now e =
    ap
      (λ (key : Option ℕ). elim key as (λ _. Option (ℕ × Bool × List ℕ)) [
        | none ↦ first_char (decode shift sc).1 now
        | some a ↦ some (a, (decode shift sc).1, now)
      ])
      e

getchar_loop-Typed :
    (meanwhile : Keyboard → Keyboard) (fuel : ℕ) (k : Keyboard) (c : ℕ) (shift : Bool)
    (now scs : List ℕ)
    → InBounds k
    → scancodes k ≡ now
    → first_char k.shift_held now ≡ some (c, shift, scs)
    → length now ≤ fuel
    → Typed k c shift scs (getchar_loop meanwhile fuel k)
getchar_loop-Typed meanwhile fuel k c shift [] scs v e h f = cc
getchar_loop-Typed meanwhile zero k c shift (sc ∷ now) scs v e h f = absurd (omega arith)
getchar_loop-Typed meanwhile (suc fuel) k c shift (sc ∷ now) scs v e h f =
    let q = popped k (keyboard_pop k) sc now (keyboard_pop_lem k v) e in
    let k' = (keyboard_pop k).1 in
    let next : Keyboard = record k' { shift_held = (decode k'.shift_held sc).1 } in
    let valid : InBounds next = record {
      head_inside = q.3.head_inside;
      tail_inside = q.3.tail_inside;
    } in
    let h' : first_char k'.shift_held (sc ∷ now) ≡ some (c, shift, scs) =
      subst (λ b. first_char b (sc ∷ now) ≡ some (c, shift, scs)) (sym q.2) h in
    let step = round meanwhile fuel sc k k' q.0 in
    elim (Option-cases (decode k'.shift_held sc).0) [
      | inl nothing ↦
          let later = sym (first_char-none k'.shift_held sc now nothing) ∙ h' in
          let r =
            getchar_loop-Typed meanwhile fuel next c shift now scs valid q.1 later (omega arith) in
          record {
            k' = r.k';
            returns = step ∙ rw nothing r.returns;
            left = r.left;
            shift_state = r.shift_state;
            valid = r.valid;
          }
      | inr (a, found) ↦
          let same = sym (first_char-some k'.shift_held sc a now found) ∙ h' in
          record {
            k' = next;
            returns = step ∙ rw found (cc);
            left = q.1 ∙ cc;
            shift_state = cc;
            valid = valid;
          }
    ]

-- With the indices in bounds, when the waiting scancodes contain a character, `keyboard_getchar`
-- returns the first one without halting, with the shift state that the scancodes before it make,
-- and leaves the ones behind it. A round for each waiting scancode is enough.
pub keyboard_getchar-Typed :
    (meanwhile : Keyboard → Keyboard) (fuel : ℕ) (k : Keyboard) (c : ℕ) (shift : Bool)
    (scs : List ℕ)
    → InBounds k
    → first_char k.shift_held (scancodes k) ≡ some (c, shift, scs)
    → length (scancodes k) ≤ fuel
    → Typed k c shift scs (keyboard_getchar meanwhile fuel k)
unfolding keyboard_getchar
keyboard_getchar-Typed meanwhile fuel k c shift scs v h f =
    getchar_loop-Typed meanwhile fuel k c shift (scancodes k) scs v refl h f

abbrev all_below : ℕ → List ℕ → Bool
all_below n [] = true
all_below n (x ∷ xs) = ltb x n && all_below n xs

get_or-lt : (xs : List ℕ) (i n : ℕ) → all_below n xs ≡ true → 0 < n → get_or xs i 0 < n
get_or-lt [] i n h pos = pos
get_or-lt (x ∷ xs) zero n h pos = ground arith
get_or-lt (x ∷ xs) (suc i) n h pos = get_or-lt xs i n (ground arith) pos

key_of-lt : (shift : Bool) (sc : ℕ) → key_of shift sc < 127
unfolding key_of
key_of-lt true sc = ground (arith, get_or-lt kbd_layout_shift sc 127 refl (omega arith))
key_of-lt false sc = ground (arith, get_or-lt kbd_layout sc 127 refl (omega arith))

key_of_outside : (shift : Bool) (sc : ℕ) → 58 ≤ sc → key_of shift sc ≡ 0
unfolding key_of
key_of_outside shift sc h = let out : leb 58 sc ≡ true = ground arith in rw out

-- A decoded key is an ASCII character other than NUL, its scancode lies inside both tables, and the
-- shift state stays.
decode-bounds :
    (shift : Bool) (sc c : ℕ)
    → (decode shift sc).0 ≡ some c
    → (0 < c)
      × (c < 127)
      × (sc < length kbd_layout)
      × (sc < length kbd_layout_shift)
      × ((decode shift sc).1 ≡ shift)
unfolding decode
decode-bounds shift sc c h =
    let low = key_of-lt shift sc in
    elim (Bool-cases (leb 58 sc)) [
      | inl out ↦
          let nothing = key_of_outside shift sc (ground arith) in absurd (ground (arith, nothing))
      | inr inside ↦ ground (arith, low)
    ]
