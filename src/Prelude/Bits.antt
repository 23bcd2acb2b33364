-- ===== src/Prelude/Bits.antt =====
-- Single bits of a machine word: `w & (1u << b)`, `w |= 1u << b` and `w &= ~(1u << b)`.
use Prim.Native.Nat.{
  ℕ, zero, suc, ◌+◌, ◌-◌, ◌*◌, ◌/◌, ◌%◌, ◌^◌, ◌≤◌, ◌<◌, min, max, bit_and, bit_or, digits, bitwise,
  bit_and-bitwise, bit_or-bitwise,
}
use mathlib.Core.Path.{◌≡◌, refl, sym, ap, ◌∙◌, subst}
use mathlib.Core.Bool.{Bool, true, false, not, ◌&&◌, ◌||◌}
use native.Mathlib.Nat.{pow-suc, one-le-pow, mul_assoc}
use native.Mathlib.Omega.{arith}
use novium_os.Prelude.Tests.{◌==◌, if◌then◌else◌}

-- `(w & (1u << b)) != 0`
unfoldable pub has_bit : ℕ → ℕ → Bool
has_bit w b = not (bit_and w (2 ^ b) == 0)

-- `w | (1u << b)`
unfoldable pub set_bit : ℕ → ℕ → ℕ
set_bit w b = bit_or w (2 ^ b)

-- `w & ~(1u << b)` on 32 bits
unfoldable pub clear_bit : ℕ → ℕ → ℕ
clear_bit w b = bit_and w (2 ^ 32 - 1 - 2 ^ b)

-- The same bit by halving, on which the proofs recur.
abbrev digit : ℕ → ℕ → Bool
digit w zero = w % 2 == 1
digit w (suc b) = digit (w / 2) b

-- The recursion behind the native operations does not depend on its count of digits.
module _ (z : ℕ → ℕ) (f : ℕ → ℕ → ℕ) where
  digits_enough : (n m a b : ℕ) → a ≤ n → a ≤ m → digits z f n a b ≡ digits z f m a b
  digits_enough zero zero a b p q = refl
  digits_enough zero (suc m) zero b p q = refl
  digits_enough (suc n) zero zero b p q = refl
  digits_enough (suc n) (suc m) zero b p q = refl
  digits_enough zero (suc m) (suc a) b p q = absurd (omega arith)
  digits_enough (suc n) zero (suc a) b p q = absurd (omega arith)
  digits_enough (suc n) (suc m) (suc a) b p q =
      ap (λ (k : ℕ). k * 2 + f (suc a % 2) (b % 2))
        (digits_enough n m (suc a / 2) (b / 2) (omega arith) (omega arith))

  bitwise_half :
      (a b : ℕ)
      → bitwise z f (suc a) b ≡ bitwise z f (suc a / 2) (b / 2) * 2 + f (suc a % 2) (b % 2)
  bitwise_half a b =
      ap (λ (k : ℕ). k * 2 + f (suc a % 2) (b % 2))
        (digits_enough a (suc a / 2) (suc a / 2) (b / 2) (omega arith) (omega arith))

and_half : (a b : ℕ) → bit_and a b ≡ bit_and (a / 2) (b / 2) * 2 + min (a % 2) (b % 2)
and_half zero b = omega (arith, bit_and-bitwise 0 b, bit_and-bitwise 0 (b / 2))
and_half (suc a) b = omega (
  arith,
  bitwise_half (λ _. 0) min a b,
  bit_and-bitwise (suc a) b,
  bit_and-bitwise (suc a / 2) (b / 2),
)

or_half : (a b : ℕ) → bit_or a b ≡ bit_or (a / 2) (b / 2) * 2 + max (a % 2) (b % 2)
or_half zero b = omega (arith, bit_or-bitwise 0 b, bit_or-bitwise 0 (b / 2))
or_half (suc a) b = omega (
  arith,
  bitwise_half (λ y. y) max a b,
  bit_or-bitwise (suc a) b,
  bit_or-bitwise (suc a / 2) (b / 2),
)

digit-bit_or : (x y b : ℕ) → digit (bit_or x y) b ≡ (digit x b || digit y b)
digit-bit_or x y zero = ground (arith, or_half x y)
digit-bit_or x y (suc b) =
    let e : bit_or x y / 2 ≡ bit_or (x / 2) (y / 2) = omega (arith, or_half x y) in
    rw e (digit-bit_or (x / 2) (y / 2) b)

digit-bit_and : (x y b : ℕ) → digit (bit_and x y) b ≡ (digit x b && digit y b)
digit-bit_and x y zero = ground (arith, and_half x y)
digit-bit_and x y (suc b) =
    let e : bit_and x y / 2 ≡ bit_and (x / 2) (y / 2) = omega (arith, and_half x y) in
    rw e (digit-bit_and (x / 2) (y / 2) b)

digit-zero : (b : ℕ) → digit 0 b ≡ false
digit-zero zero = refl
digit-zero (suc b) = digit-zero b

digit-pow : (b c : ℕ) → digit (2 ^ b) c ≡ (b == c)
digit-pow zero zero = refl
digit-pow zero (suc c) = digit-zero c ∙ ground arith
digit-pow (suc b) zero = ground (arith, pow-suc 2 b)
digit-pow (suc b) (suc c) =
    let e : 2 ^ suc b / 2 ≡ 2 ^ b = omega (arith, pow-suc 2 b) in
    rw e (digit-pow b c ∙ ground arith)

-- All bits below `n` are set in `2 ^ n - 1`.
digit_ones : (n c : ℕ) → c < n → digit (2 ^ n - 1) c ≡ true
digit_ones zero c h = elim h [ ]
digit_ones (suc n) zero h = ground (arith, pow-suc 2 n, one-le-pow n 2)
digit_ones (suc n) (suc c) h =
    let e : (2 ^ suc n - 1) / 2 ≡ 2 ^ n - 1 = omega (arith, pow-suc 2 n) in
    rw e (digit_ones n c (omega arith))

pow-lt-pow : (b n : ℕ) → b < n → 2 ^ b < 2 ^ n
pow-lt-pow b zero h = elim h [ ]
pow-lt-pow zero (suc n) h = omega (arith, pow-suc 2 n, one-le-pow n 2)
pow-lt-pow (suc b) (suc n) h = omega (arith, pow-suc 2 n, pow-suc 2 b, pow-lt-pow b n (omega arith))

digit_mask : (n b c : ℕ) → b < n → c < n → digit (2 ^ n - 1 - 2 ^ b) c ≡ not (b == c)
digit_mask zero b c h k = elim h [ ]
digit_mask (suc n) zero zero h k = ground (arith, pow-suc 2 n, one-le-pow n 2)
digit_mask (suc n) zero (suc c) h k =
    let e : (2 ^ suc n - 1 - 2 ^ 0) / 2 ≡ 2 ^ n - 1 = omega (arith, pow-suc 2 n) in
    rw e (digit_ones n c (omega arith) ∙ ground arith)
digit_mask (suc n) (suc b) zero h k =
    ground (arith, pow-suc 2 n, pow-suc 2 b, pow-lt-pow b n (omega arith))
digit_mask (suc n) (suc b) (suc c) h k =
    let e : (2 ^ suc n - 1 - 2 ^ suc b) / 2 ≡ 2 ^ n - 1 - 2 ^ b =
      omega (arith, pow-suc 2 n, pow-suc 2 b) in
    rw e (digit_mask n b c (omega arith) (omega arith) ∙ ground arith)

bit_and-zero : (n a : ℕ) → a ≤ n → bit_and a 0 ≡ 0
bit_and-zero n zero h = bit_and-bitwise 0 0
bit_and-zero zero (suc a) h = absurd (omega arith)
bit_and-zero (suc n) (suc a) h =
    omega (arith, and_half (suc a) 0, bit_and-zero n (suc a / 2) (omega arith))

-- The mask of one bit leaves that bit.
bit_and-pow : (w b : ℕ) → bit_and w (2 ^ b) ≡ (if digit w b then 2 ^ b else 0)
bit_and-pow w zero = ground (arith, and_half w 1, bit_and-zero (w / 2) (w / 2) (omega arith))
bit_and-pow w (suc b) =
    let e : 2 ^ suc b / 2 ≡ 2 ^ b = omega (arith, pow-suc 2 b) in
    let h : bit_and w (2 ^ suc b)
        ≡ bit_and (w / 2) (2 ^ suc b / 2) * 2 + min (w % 2) (2 ^ suc b % 2) =
      and_half w (2 ^ suc b) in
    ground (arith, pow-suc 2 b, rw e at h, bit_and-pow (w / 2) b)

has_bit-digit : (w b : ℕ) → has_bit w b ≡ digit w b
unfolding has_bit
has_bit-digit w b = ground (arith, bit_and-pow w b, one-le-pow b 2)

pub has_bit-zero : (b : ℕ) → has_bit 0 b ≡ false
has_bit-zero b = has_bit-digit 0 b ∙ digit-zero b

-- Setting a bit changes that bit alone.
pub has_bit-set_bit : (w b c : ℕ) → has_bit (set_bit w b) c ≡ (if b == c then true else has_bit w c)
unfolding set_bit
has_bit-set_bit w b c = ground (
  arith,
  has_bit-digit (bit_or w (2 ^ b)) c,
  has_bit-digit w c,
  digit-bit_or w (2 ^ b) c,
  digit-pow b c,
)

-- Clearing a bit of a 32-bit word changes that bit alone.
pub has_bit-clear_bit :
    (w b c : ℕ)
    → b < 32
    → c < 32
    → has_bit (clear_bit w b) c ≡ (if b == c then false else has_bit w c)
unfolding clear_bit
has_bit-clear_bit w b c h k = ground (
  arith,
  has_bit-digit (bit_and w (2 ^ 32 - 1 - 2 ^ b)) c,
  has_bit-digit w c,
  digit-bit_and w (2 ^ 32 - 1 - 2 ^ b) c,
  digit_mask 32 b c h k,
)

bit_or-zero : (n a : ℕ) → a ≤ n → bit_or a 0 ≡ a
bit_or-zero n zero h = bit_or-bitwise 0 0
bit_or-zero zero (suc a) h = absurd (omega arith)
bit_or-zero (suc n) (suc a) h =
    omega (arith, or_half (suc a) 0, bit_or-zero n (suc a / 2) (omega arith))

-- Setting low bits of a multiple of a power of two adds them.
pub bit_or-low : (k a f : ℕ) → f < 2 ^ k → bit_or (a * 2 ^ k) f ≡ a * 2 ^ k + f
bit_or-low zero a f h =
    let none_set : f ≡ 0 = omega arith in
    rw none_set (bit_or-zero (a * 1) (a * 1) (omega arith) ∙ omega arith)
bit_or-low (suc k) a f h =
    let half : a * 2 ^ suc k ≡ a * 2 ^ k * 2 =
      ap (λ (n : ℕ). a * n) (pow-suc 2 k) ∙ sym (mul_assoc a (2 ^ k) 2) in
    let e : bit_or (a * 2 ^ k) (f / 2) ≡ a * 2 ^ k + f / 2 =
      bit_or-low k a (f / 2) (omega (arith, pow-suc 2 k)) in
    let x : a * 2 ^ suc k / 2 ≡ a * 2 ^ k = omega (arith, half) in
    let both : bit_or (a * 2 ^ suc k) f
        ≡ bit_or (a * 2 ^ suc k / 2) (f / 2) * 2 + max (a * 2 ^ suc k % 2) (f % 2) =
      or_half (a * 2 ^ suc k) f in
    omega (
      arith,
      subst (λ n. bit_or (a * 2 ^ suc k) f ≡ bit_or n (f / 2) * 2 + max (a * 2 ^ suc k % 2) (f % 2))
          x both,
      half,
      e,
    )
