-- ===== src/Task/Members.antt =====
-- Lists of distinct numbers: membership, removal, and how long they can be.
use novium_os.Prelude.{
  ℕ, zero, suc, ◌≤◌, ◌<◌, ◌≡◌, refl, Bool, true, false, ◌||◌, ◌==◌, if◌then◌else◌, List, [], ◌∷◌,
  ◌++◌, length, arith,
}

abbrev pub mem : ℕ → List ℕ → Bool
mem a [] = false
mem a (x ∷ xs) = x == a || mem a xs

abbrev pub Distinct : List ℕ → Type 0
Distinct [] = Unit {0}
Distinct (x ∷ xs) = (mem x xs ≡ false) × Distinct xs

abbrev pub without : ℕ → List ℕ → List ℕ
without a [] = []
without a (x ∷ xs) = if x == a then xs else x ∷ without a xs

pub mem-append : (a : ℕ) (xs ys : List ℕ) → mem a (xs ++ ys) ≡ (mem a xs || mem a ys)
mem-append a [] ys = refl
mem-append a (x ∷ xs) ys = ground (arith, mem-append a xs ys)

pub Distinct-concat :
    (xs : List ℕ) (a : ℕ) → Distinct xs → mem a xs ≡ false → Distinct (xs ++ a ∷ [])
Distinct-concat [] a d h = (refl, tt)
Distinct-concat (x ∷ xs) a d h =
    (ground (arith, mem-append x xs (a ∷ [])), Distinct-concat xs a d.1 (ground arith))

pub mem-without :
    (a b : ℕ) (xs : List ℕ)
    → Distinct xs
    → mem b (without a xs) ≡ (if a == b then false else mem b xs)
mem-without a b [] d = ground arith
mem-without a b (x ∷ xs) d = ground (arith, mem-without a b xs d.1)

pub Distinct-without : (a : ℕ) (xs : List ℕ) → Distinct xs → Distinct (without a xs)
Distinct-without a [] d = tt
Distinct-without a (x ∷ xs) d = ground (arith, Distinct-without a xs d.1, mem-without a x xs d.1)

pub without_absent : (a : ℕ) (xs : List ℕ) → mem a xs ≡ false → without a xs ≡ xs
without_absent a [] h = refl
without_absent a (x ∷ xs) h = ground (arith, without_absent a xs)

length-without : (a : ℕ) (xs : List ℕ) → length xs ≤ suc (length (without a xs))
length-without a [] = omega arith
length-without a (x ∷ xs) = ground (arith, length-without a xs)

-- Distinct numbers below `n` are at most `n` many.
pub length-le_of_bounded :
    (n : ℕ) (xs : List ℕ) → Distinct xs → ((i : ℕ) → mem i xs ≡ true → i < n) → length xs ≤ n
length-le_of_bounded zero [] d h = omega arith
length-le_of_bounded zero (x ∷ xs) d h = absurd (omega (arith, h x (ground arith)))
length-le_of_bounded (suc n) xs d h = omega (
  arith,
  length-without n xs,
  length-le_of_bounded n (without n xs) (Distinct-without n xs d)
      (λ i e. ground (arith, mem-without n i xs d, h i)),
)
