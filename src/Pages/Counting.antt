-- ===== src/Pages/Counting.antt =====
-- Counting free pages.
use novium_os.Prelude.{
  ℕ, zero, suc, ◌+◌, ◌≤◌, ◌<◌, ◌≡◌, refl, inl, inr, Bool, true, false, ◌==◌, leb, if◌then◌else◌,
  arith, Bool-cases,
}
use novium_os.Pages.{PageAllocator, page_count, is_free}

-- How many of the pages below `n` satisfy the test.
unfoldable pub count : (ℕ → Bool) → ℕ → ℕ
count f zero = 0
count f (suc n) = (if f n then 1 else 0) + count f n

pub count-le : (f : ℕ → Bool) (n : ℕ) → count f n ≤ n
unfolding count
count-le f zero = omega arith
count-le f (suc n) = ground (arith, count-le f n)

pub count_ext : (f g : ℕ → Bool) (n : ℕ) → ((i : ℕ) → i < n → f i ≡ g i) → count f n ≡ count g n
unfolding count
count_ext f g zero h = refl
count_ext f g (suc n) h =
    ground (arith, h n (omega arith), count_ext f g n (λ i k. h i (omega arith)))

-- Taking one page out of the set.
pub count_take :
    (f g : ℕ → Bool) (p n : ℕ)
    → p < n
    → f p ≡ true
    → ((i : ℕ) → g i ≡ (if p == i then false else f i))
    → count f n ≡ suc (count g n)
unfolding count
count_take f g p zero h fp e = elim h [ ]
count_take f g p (suc n) h fp e = elim (Bool-cases (p == n)) [
  | inl hit ↦ ground (arith, e n, count_ext f g n (λ i k. ground (arith, e i)))
  | inr miss ↦ ground (arith, e n, count_take f g p n (ground arith) fp e)
]

count_zero_of : (f : ℕ → Bool) (n p : ℕ) → count f n ≡ 0 → p < n → f p ≡ false
unfolding count
count_zero_of f zero p e h = elim h [ ]
count_zero_of f (suc n) p e h = elim (Bool-cases (p == n)) [
  | inl hit ↦ ground arith
  | inr miss ↦ count_zero_of f n p (ground arith) (ground arith)
]

-- A run is no longer than the number of free pages.
pub run-le-count :
    (f : ℕ → Bool) (n q k : ℕ)
    → q + n ≤ k
    → ((p : ℕ) → q ≤ p → p < q + n → f p ≡ true)
    → n ≤ count f k
unfolding count
run-le-count f n q zero h free = omega arith
run-le-count f zero q (suc k) h free = omega arith
run-le-count f (suc n) q (suc k) h free = elim (Bool-cases (leb (q + suc n) k)) [
  | inl low ↦ ground (arith, run-le-count f (suc n) q k)
  | inr high ↦ ground (arith, free k, run-le-count f n q k)
]

pub count_none : (f : ℕ → Bool) (n : ℕ) → ((i : ℕ) → i < n → f i ≡ false) → count f n ≡ 0
unfolding count
count_none f zero h = refl
count_none f (suc n) h =
    ground (arith, h n (omega arith), count_none f n (λ i k. h i (omega arith)))

-- Pages from `k` on that fail the test do not count.
pub count_above :
    (f : ℕ → Bool) (k n : ℕ) → ((i : ℕ) → k ≤ i → f i ≡ false) → k ≤ n → count f n ≡ count f k
unfolding count
count_above f k zero h l = let e : k ≡ 0 = omega arith in rw e
count_above f k (suc n) h l = elim (Bool-cases (leb k n)) [
  | inl more ↦ ground (arith, h n (ground arith), count_above f k n h (ground arith))
  | inr done ↦ let e : k ≡ suc n = ground arith in rw e
]

abbrev pub IsCounted : PageAllocator → Type 0
IsCounted s = s.free_pages ≡ count (is_free s) page_count
