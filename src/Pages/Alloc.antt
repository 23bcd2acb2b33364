-- ===== src/Pages/Alloc.antt =====
-- `PageAlloc`, `PageAllocPages` and `PageAllocPagesAt` against the set of free pages.
use novium_os.Prelude.{
  ℕ, zero, suc, ◌+◌, ◌*◌, ◌/◌, ◌%◌, ◌^◌, ◌≤◌, ◌<◌, ◌≡◌, refl, ◌⊎◌, inl, inr, true, false, ◌==◌,
  if◌then◌else◌, Option, none, some, arith, Bool-cases,
}
use novium_os.Pages.{
  PageAllocator, used, page_count, page_size, bitmap_words, is_free, set_run, find_page, find_run,
  take_run, refuses, page_alloc, page_alloc_pages, page_alloc_pages_at,
}
use novium_os.Pages.Update.{IsValid, in_run, is_free-set_run, set_run_used}
use novium_os.Pages.Counting.{count-le, run-le-count}
use novium_os.Prelude.Search.{Found}
use novium_os.Pages.Search.{find_page-Found, RunFree, FoundRun, find_run-FoundRun}

-- The pages of a run were free and are now used, and no other page changed.
pub record Took (s : PageAllocator) (n start : ℕ) (s' : PageAllocator) : Type 0 where
  pub were_free : RunFree s n start
  pub now : (q : ℕ) → is_free s' q ≡ (if in_run start n q then false else is_free s q)
  pub counter : s'.free_pages + n ≡ s.free_pages
  pub valid : IsValid s'

set_run-Took :
    (s : PageAllocator) (n start : ℕ)
    → IsValid s
    → start + n ≤ page_count
    → RunFree s n start
    → Took s n start (set_run n start used s)
set_run-Took s n start v h free =
    let r = set_run_used n start s v h free in
    record {
      were_free = free;
      now = λ q. is_free-set_run n start q used s;
      counter = r.1;
      valid = r.0;
    }

-- The result of a request for `n` pages from page `lo` on: the first run, or 0 and no change.
abbrev pub Granted : PageAllocator → ℕ → ℕ → ℕ × PageAllocator → Type 0
Granted s n lo (address, s') =
    ((address ≡ 0)
      × (s' ≡ s)
      × ((n ≡ 0) ⊎ ((q : ℕ) → lo ≤ q → q + n ≤ page_count → ¬ RunFree s n q)))
    ⊎ ((p : ℕ) × (address ≡ p * page_size)
        × (0 < n)
        × (0 < p)
        × (lo ≤ p)
        × (p + n ≤ page_count)
        × ((q : ℕ) → lo ≤ q → q < p → ¬ RunFree s n q)
        × Took s n p s')

not_page_zero : (s : PageAllocator) (n p : ℕ) → IsValid s → 0 < n → RunFree s n p → 0 < p
not_page_zero s n zero v h free =
    let busy = v.no_page_zero in let open_page = free 0 (omega arith) (omega arith) in absurd (cc)
not_page_zero s n (suc p) v h free = omega arith

Granted-run :
    (s : PageAllocator) (n lo : ℕ) (o : Option ℕ)
    → IsValid s
    → 0 < n
    → FoundRun s n lo o
    → Granted s n lo (elim o as (λ _. ℕ × PageAllocator) [
      | none ↦ (0, s)
      | some page ↦ (page * page_size % 2 ^ 32, set_run n page used s)
    ])
Granted-run s n lo none v h f = inl (refl, refl, inr f)
Granted-run s n lo (some p) v h f = inr (
  p,
  omega (arith, f.1),
  h,
  not_page_zero s n p v h f.2,
  f.0,
  f.1,
  f.3,
  set_run-Took s n p v f.1 f.2,
)

take_run-Granted :
    (s : PageAllocator) (n lo : ℕ)
    → IsValid s
    → 0 < n
    → n ≤ page_count
    → Granted s n lo (take_run s lo n)
unfolding take_run
take_run-Granted s n lo v h small =
    Granted-run s n lo (find_run s n (suc page_count) lo) v h
      (find_run-FoundRun s n (suc page_count) lo small (omega arith))

refused-Granted :
    (s : PageAllocator) (n lo : ℕ) → IsValid s → refuses s n ≡ true → Granted s n lo (0, s)
unfolding refuses
refused-Granted s n lo v r = elim (Bool-cases (n == 0)) [
  | inl none_asked ↦ inl (refl, refl, inl (ground arith))
  | inr some_asked ↦ inl (
    refl,
    refl,
    inr (λ q l h free.
        let fits = run-le-count (is_free s) n q page_count h free in
        let all = count-le (is_free s) page_count in ground (arith, v.counted)),
  )
]

accepted : (s : PageAllocator) (n : ℕ) → refuses s n ≡ false → (0 < n) × (n ≤ page_count)
unfolding refuses
accepted s n r = ground arith

request-Granted :
    (s : PageAllocator) (n lo : ℕ)
    → IsValid s
    → Granted s n lo (if refuses s n then (0, s) else take_run s lo n)
request-Granted s n lo v = elim (Bool-cases (refuses s n)) [
  | inl r ↦ rw r (refused-Granted s n lo v r)
  | inr r ↦ let a = accepted s n r in rw r (take_run-Granted s n lo v a.0 a.1)
]

-- `PageAllocPages` on a valid allocator returns the address of the first run of `n` free pages, takes
-- exactly those pages and lowers the counter by `n`; it returns 0 and changes nothing exactly when
-- `n` is 0 or no such run exists. Skipping past the first used page misses no run.
pub page_alloc_pages-Granted :
    (s : PageAllocator) (n : ℕ) → IsValid s → Granted s n 0 (page_alloc_pages s n)
unfolding page_alloc_pages
page_alloc_pages-Granted s n v = request-Granted s n 0 v

hint_as_page : (h : ℕ) → (if h == 0 then 0 else h / page_size) ≡ h / page_size
hint_as_page h = ground arith

-- `PageAllocPagesAt` does the same from the hint's page on.
pub page_alloc_pages_at-Granted :
    (s : PageAllocator) (start_hint n : ℕ)
    → IsValid s
    → Granted s n (start_hint / page_size) (page_alloc_pages_at s start_hint n)
unfolding page_alloc_pages_at
page_alloc_pages_at-Granted s start_hint n v =
    rw (hint_as_page start_hint) (request-Granted s n (start_hint / page_size) v)

run_of_one : (s : PageAllocator) (p : ℕ) → is_free s p ≡ true → RunFree s 1 p
run_of_one s p e q l h = let same : p ≡ q = omega arith in rw (← same) e

no_run_of_one : (s : PageAllocator) (q : ℕ) → is_free s q ≡ false → ¬ RunFree s 1 q
no_run_of_one s q e free = let open_page = free q (omega arith) (omega arith) in cc

Found-FoundRun :
    (s : PageAllocator) (o : Option ℕ) → Found (is_free s) 0 page_count o → FoundRun s 1 0 o
Found-FoundRun s none f = λ q l h. no_run_of_one s q (f q l (omega arith))
Found-FoundRun s (some p) f =
    (f.0, omega (arith, f.1), run_of_one s p f.2, λ q l h. no_run_of_one s q (f.3 q l h))

-- `PageAlloc` on a valid allocator takes the lowest free page and no other, and returns 0, with no
-- change, only when no page is free.
page_alloc-Granted : (s : PageAllocator) → IsValid s → Granted s 1 0 (page_alloc s)
unfolding page_alloc is_free set_run
page_alloc-Granted s v =
    Granted-run s 1 0 (find_page bitmap_words 0 s.page_bitmap) v (omega arith) (
      Found-FoundRun s (find_page bitmap_words 0 s.page_bitmap)
        (find_page-Found bitmap_words 0 page_count s.page_bitmap (omega arith)))
