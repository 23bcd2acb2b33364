-- ===== src/Library/Strings.antt =====
-- `strlen` and `strcmp` on the strings that memory holds.
use novium_os.Prelude.{
  ℕ, zero, suc, ◌+◌, ◌<◌, ◌≡◌, ◌≢◌, refl, ap, ◌∙◌, subst, inl, inr, Bool, true, false, not, ◌&&◌,
  ◌||◌, ltb, ◌==◌, some, List, [], ◌∷◌, length, arith, Bool-cases,
}
use novium_os.Library.{Memory, strlen_from, strlen, strcmp}

-- At `p` stand the bytes of the list and then a zero.
abbrev pub Holds : Memory → ℕ → List ℕ → Type 0
Holds m p [] = m p ≡ 0
Holds m p (x ∷ xs) = (m p ≡ x) × (x ≢ 0) × Holds m (p + 1) xs

strlen_from_lem :
    (fuel : ℕ) (m : Memory) (str len : ℕ) (xs : List ℕ)
    → Holds m (str + len) xs
    → length xs < fuel
    → strlen_from fuel m str len ≡ some (len + length xs)
unfolding strlen_from
strlen_from_lem zero m str len xs h f = elim f [ ]
strlen_from_lem (suc fuel) m str len [] h f =
    let stop : (m (str + len) == 0) ≡ true = ground arith in rw stop (ap some (omega arith))
strlen_from_lem (suc fuel) m str len (x ∷ xs) h f =
    let go : (m (str + len) == 0) ≡ false = ground (arith, h) in
    let next : Holds m (str + (len + 1)) xs = subst (λ p. Holds m p xs) (omega arith) h.2 in
    rw go (strlen_from_lem fuel m str (len + 1) xs next (omega arith) ∙ ap some (omega arith))

-- `strlen` counts the bytes before the zero, and more rounds than bytes are enough.
strlen_lem :
    (fuel : ℕ) (m : Memory) (str : ℕ) (xs : List ℕ)
    → Holds m str xs
    → length xs < fuel
    → strlen fuel m str ≡ some (length xs)
unfolding strlen
strlen_lem fuel m str xs h f =
    strlen_from_lem fuel m str 0 xs (subst (λ p. Holds m p xs) (omega arith) h) f
    ∙ ap some (omega arith)

-- Lexicographic order.
abbrev pub before : List ℕ → List ℕ → Bool
before [] [] = false
before [] (y ∷ ys) = true
before (x ∷ xs) [] = false
before (x ∷ xs) (y ∷ ys) = ltb x y || (x == y && before xs ys)

abbrev pub same : List ℕ → List ℕ → Bool
same [] [] = true
same [] (y ∷ ys) = false
same (x ∷ xs) [] = false
same (x ∷ xs) (y ∷ ys) = x == y && same xs ys

same→eq : (xs ys : List ℕ) → same xs ys ≡ true → xs ≡ ys
same→eq [] [] h = refl
same→eq [] (y ∷ ys) h = cc
same→eq (x ∷ xs) [] h = cc
same→eq (x ∷ xs) (y ∷ ys) h =
    let head : x ≡ y = ground arith in let tail = same→eq xs ys (ground arith) in cc

-- The two bytes whose difference is returned are in the order of the strings.
abbrev pub Compared : List ℕ → List ℕ → ℕ × ℕ → Type 0
Compared xs ys (a, b) = ((a == b) ≡ same xs ys) × (ltb a b ≡ before xs ys)

-- `strcmp` of two strings that memory holds returns 0 exactly when they are the same, and less than 0
-- exactly when the first comes first in lexicographic order.
strcmp_lem :
    (fuel : ℕ) (m : Memory) (s1 s2 : ℕ) (xs ys : List ℕ)
    → Holds m s1 xs
    → Holds m s2 ys
    → length xs < fuel
    → (r : ℕ × ℕ) × (strcmp fuel m s1 s2 ≡ some r) × Compared xs ys r
unfolding strcmp
strcmp_lem zero m s1 s2 xs ys h k f = elim f [ ]
strcmp_lem (suc fuel) m s1 s2 [] [] h k f =
    let stop : (not (m s1 == 0) && (m s1 == m s2)) ≡ false = ground arith in
    ((m s1, m s2), rw stop, (ground arith, ground arith))
strcmp_lem (suc fuel) m s1 s2 [] (y ∷ ys) h k f =
    let stop : (not (m s1 == 0) && (m s1 == m s2)) ≡ false = ground arith in
    ((m s1, m s2), rw stop, (ground (arith, k), ground (arith, k)))
strcmp_lem (suc fuel) m s1 s2 (x ∷ xs) [] h k f =
    let stop : (not (m s1 == 0) && (m s1 == m s2)) ≡ false = ground (arith, h) in
    ((m s1, m s2), rw stop, (ground (arith, h), ground (arith, h)))
strcmp_lem (suc fuel) m s1 s2 (x ∷ xs) (y ∷ ys) h k f = elim (Bool-cases (x == y)) [
  | inl e ↦
      let go : (not (m s1 == 0) && (m s1 == m s2)) ≡ true = ground (arith, h, k) in
      let rest = strcmp_lem fuel m (s1 + 1) (s2 + 1) xs ys h.2 k.2 (omega arith) in
      (rest.0, rw go rest.1, (ground (arith, rest.2), ground (arith, rest.2)))
  | inr e ↦
      let stop : (not (m s1 == 0) && (m s1 == m s2)) ≡ false = ground (arith, h, k) in
      ((m s1, m s2), rw stop, (ground (arith, h, k), ground (arith, h, k)))
]
