-- ===== src/Console/Printing/Numerals.antt =====
-- `print_u32` as a write of the numeral of its value.
use novium_os.Prelude.{
  ℕ, suc, ◌-◌, ◌^◌, ◌≤◌, ◌<◌, ◌≡◌, refl, sym, ◌∙◌, ap, ◌⊎◌, inl, inr, leb, if_true, leb→le, leb→gt,
  if_false, subst, Bool-cases, List, [], ◌∷◌, ◌++◌, get_or, arith,
}
use novium_os.Library.{buf_digits}
use novium_os.Library.Numbers.{Digits, buf_digits-Digits}
use novium_os.Console.{Console, console_putchar, console_write, write_by, print_back, print_u32}
use novium_os.Console.Printing.{decimal, print_signed}

-- The characters of a numeral, the first digit first.
abbrev pub numeral : List ℕ → List ℕ → List ℕ
numeral digits [] = []
numeral digits (d ∷ ds) = numeral digits ds ++ get_or digits d 0 ∷ []

console_write-append :
    (cs ds : List ℕ) (s : Console)
    → console_write (cs ++ ds) s ≡ console_write ds (console_write cs s)
unfolding console_write write_by
console_write-append [] ds s = refl
console_write-append (c ∷ cs) ds s = console_write-append cs ds (console_putchar c s)

console_write-single : (c : ℕ) (s : Console) → console_write (c ∷ []) s ≡ console_putchar c s
unfolding console_write write_by
console_write-single c s = refl

console_write_empty : (s : Console) → s ≡ console_write [] s
unfolding console_write write_by
console_write_empty s = refl

print_back-write :
    (digits ds : List ℕ) (s : Console)
    → print_back digits ds s ≡ console_write (numeral digits ds) s
unfolding print_back
print_back-write digits [] s = console_write_empty s
print_back-write digits (d ∷ ds) s =
    ap (console_putchar (get_or digits d 0)) (print_back-write digits ds s)
    ∙ sym (
        console_write-append (numeral digits ds) (get_or digits d 0 ∷ []) s
        ∙ console_write-single (get_or digits d 0) (console_write (numeral digits ds) s))

-- A print of a value in a base: at most `n` digits that stand for the value, first digit first.
pub record Printed (value base n : ℕ) (digits : List ℕ) (s s' : Console) : Type 0 where
  pub ds : List ℕ
  pub stand : Digits base n value ds
  pub written : s' ≡ console_write (numeral digits ds) s

print_u32-Printed :
    (n value base : ℕ) (digits : List ℕ) (s : Console)
    → 1 < base
    → n ≤ 31
    → value < base ^ suc n
    → Printed value base (suc n) digits s (print_u32 value base digits s)
unfolding print_u32
print_u32-Printed n value base digits s h enough small = record {
  ds = buf_digits 32 value base;
  stand = buf_digits-Digits n 31 value base h enough small;
  written = print_back-write digits (buf_digits 32 value base) s;
}

-- `print_u32` of a 32-bit value in base 10 writes at most 10 digits and in base 16 at most 8, which fit
-- in its buffer of 16; they stand for the value.
print_u32_lem :
    (value : ℕ) (digits : List ℕ) (s : Console)
    → value < 2 ^ 32
    → Printed value 10 10 digits s (print_u32 value 10 digits s)
      × Printed value 16 8 digits s (print_u32 value 16 digits s)
print_u32_lem value digits s h = (
  print_u32-Printed 9 value 10 digits s (omega arith) (omega arith) (omega arith),
  print_u32-Printed 7 value 16 digits s (omega arith) (omega arith) (omega arith),
)

-- `%d` of a word of 32 bits writes the magnitude of the number that it is with its sign, in at most
-- ten digits, after a minus if that is negative; the smallest number too.
pub print_signed_lem :
    (w : ℕ) (s : Console)
    → w < 2 ^ 32
    → ((w < 2 ^ 31) × Printed w 10 10 decimal s (print_signed w s))
      ⊎ ((2 ^ 31 ≤ w)
          × Printed (2 ^ 32 - w) 10 10 decimal (console_write (0x2D ∷ []) s) (print_signed w s))
unfolding print_signed
print_signed_lem w s h = elim (Bool-cases (leb (2 ^ 31) w)) [
  | inl negative ↦
      let large : 2 ^ 31 ≤ w = leb→le (2 ^ 31) w negative in
      let start : Console = console_putchar 0x2D s in
      let r = (print_u32_lem (2 ^ 32 - w) decimal start (omega (arith, large))).0 in
      let out : Printed (2 ^ 32 - w) 10 10 decimal start (print_signed w s) =
        subst (λ t. Printed (2 ^ 32 - w) 10 10 decimal start t)
          (sym (if_true (leb (2 ^ 31) w) _ _ negative)) r in
      inr (
        large,
        subst (λ t. Printed (2 ^ 32 - w) 10 10 decimal t (print_signed w s))
            (sym (console_write-single 0x2D s)) out,
      )
  | inr positive ↦ inl (
    leb→gt (2 ^ 31) w positive,
    subst (λ t. Printed w 10 10 decimal s t) (sym (if_false (leb (2 ^ 31) w) _ _ positive))
        (print_u32_lem w decimal s h).0,
  )
]
