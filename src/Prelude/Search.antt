-- ===== src/Prelude/Search.antt =====
-- Linear searches: what a loop that stops at the first hit has found.
use Prim.Native.Nat.{ℕ, ◌+◌, ◌≤◌, ◌<◌}
use mathlib.Core.Path.{◌≡◌}
use mathlib.Core.Logic.{inl, inr}
use mathlib.Core.Bool.{Bool, true, false}
use mathlib.Core.Option.{Option, none, some}
use native.Mathlib.Omega.{arith}
use novium_os.Prelude.Tests.{ltb, ◌==◌, Bool-cases}

-- What a search from `lo` up to `hi` says of a test: the first hit, or none.
abbrev pub Found : (ℕ → Bool) → ℕ → ℕ → Option ℕ → Type 0
Found f lo hi none = (i : ℕ) → lo ≤ i → i < hi → f i ≡ false
Found f lo hi (some p) =
    (lo ≤ p) × (p < hi) × (f p ≡ true) × ((i : ℕ) → lo ≤ i → i < p → f i ≡ false)

-- A search may start lower where the test fails all the way.
pub Found-skip :
    (f : ℕ → Bool) (lo mid hi : ℕ) (o : Option ℕ)
    → lo ≤ mid
    → mid ≤ hi
    → ((i : ℕ) → lo ≤ i → i < mid → f i ≡ false)
    → Found f mid hi o
    → Found f lo hi o
Found-skip f lo mid hi none a b low r = λ i l h. elim (Bool-cases (ltb i mid)) [
  | inl below ↦ low i l (ground arith)
  | inr above ↦ r i (ground arith) h
]
Found-skip f lo mid hi (some p) a b low r = (
  omega arith,
  r.1,
  r.2,
  λ i il ih. elim (Bool-cases (ltb i mid)) [
    | inl below ↦ low i il (ground arith)
    | inr above ↦ r.3 i (ground arith) ih
  ],
)

pub Found-here : (f : ℕ → Bool) (lo hi : ℕ) → f lo ≡ true → lo < hi → Found f lo hi (some lo)
Found-here f lo hi hit h = (omega arith, h, hit, λ i l k. absurd (omega arith))

pub Found-later :
    (f : ℕ → Bool) (lo hi : ℕ) (o : Option ℕ)
    → f lo ≡ false
    → lo < hi
    → Found f (lo + 1) hi o
    → Found f lo hi o
Found-later f lo hi o miss h r =
    Found-skip f lo (lo + 1) hi o (omega arith) (omega arith)
      (λ i l k. elim (Bool-cases (lo == i)) [
        | inl e ↦ ground arith
        | inr e ↦ absurd (ground arith)
      ])
      r

pub Found-empty : (f : ℕ → Bool) (lo hi : ℕ) → hi ≤ lo → Found f lo hi none
Found-empty f lo hi h = λ i l k. absurd (omega arith)
