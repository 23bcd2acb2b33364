-- ===== src/Library/Numbers.antt =====
-- The digits of `print_u32`: their value, their number and their range.
use native.Mathlib.Nat.{div-add-mod, mod-lt, div-lt_iff_lt-mul, pow-suc, pow-zero}
use novium_os.Prelude.{
  ℕ, zero, suc, ◌+◌, ◌*◌, ◌/◌, ◌%◌, ◌^◌, ◌≤◌, ◌<◌, ◌≡◌, inl, inr, Bool, true, false, ◌&&◌, ltb,
  ◌==◌, List, [], ◌∷◌, length, arith, Bool-cases,
}
use novium_os.Library.{buf_digits}

-- The number that a list of digits stands for, the last digit first.
abbrev pub value_of : ℕ → List ℕ → ℕ
value_of base [] = 0
value_of base (d ∷ ds) = base * value_of base ds + d

abbrev pub are_digits : ℕ → List ℕ → Bool
are_digits base [] = true
are_digits base (d ∷ ds) = ltb d base && are_digits base ds

-- At most `n` digits, at least one, that stand for `value`.
abbrev pub Digits : ℕ → ℕ → ℕ → List ℕ → Type 0
Digits base n value ds =
    (value_of base ds ≡ value) × (are_digits base ds ≡ true) × (1 ≤ length ds) × (length ds ≤ n)

buf_digits_last :
    (fuel value base : ℕ)
    → (value / base == 0) ≡ true
    → buf_digits (suc fuel) value base ≡ value % base ∷ []
unfolding buf_digits
buf_digits_last fuel value base e = rw e

buf_digits_more :
    (fuel value base : ℕ)
    → (value / base == 0) ≡ false
    → buf_digits (suc fuel) value base ≡ value % base ∷ buf_digits fuel (value / base) base
unfolding buf_digits
buf_digits_more fuel value base e = rw e

Digits-cons :
    (base n value d : ℕ) (ds : List ℕ)
    → d < base
    → Digits base n (value / base) ds
    → base * (value / base) + d ≡ value
    → Digits base (suc n) value (d ∷ ds)
Digits-cons base n value d ds h r e = (rw r.0 e, ground (arith, r), omega arith, omega (arith, r))

-- A value below a power of the base has at most that many digits, which stand for it, and as many
-- rounds are enough to find them.
pub buf_digits-Digits :
    (n fuel value base : ℕ)
    → 1 < base
    → n ≤ fuel
    → value < base ^ suc n
    → Digits base (suc n) value (buf_digits (suc fuel) value base)
buf_digits-Digits zero fuel value base h enough small =
    let below : value / base < 1 =
      (div-lt_iff_lt-mul {k = base} {x = value} {y = 1} (omega arith)).1
        (grind (arith, small, pow-suc base 0, pow-zero base)) in
    let split = div-add-mod value base in
    let none_left : value / base ≡ 0 = omega arith in
    rw (buf_digits_last fuel value base (ground arith)) (
      rw none_left at split,
      ground (arith, mod-lt value {m = base} (omega arith)),
      omega arith,
      omega arith,
    )
buf_digits-Digits (suc n) zero value base h enough small = absurd (omega arith)
buf_digits-Digits (suc n) (suc fuel) value base h enough small =
    let split = div-add-mod value base in
    let digit = mod-lt value {m = base} (omega arith) in
    elim (Bool-cases (value / base == 0)) [
      | inl last ↦
          let none_left : value / base ≡ 0 = ground arith in
          rw (buf_digits_last (suc fuel) value base last)
            (rw none_left at split, ground arith, omega arith, omega arith)
      | inr more ↦
          let fits : value / base < base ^ suc n =
            (div-lt_iff_lt-mul {k = base} {x = value} {y = base ^ suc n} (omega arith)).1
              (rw pow-suc at small) in
          rw (buf_digits_more (suc fuel) value base more) (
            Digits-cons base (suc n) value (value % base)
              (buf_digits (suc fuel) (value / base) base) digit
              (buf_digits-Digits n fuel (value / base) base h (omega arith) fits) split)
    ]
