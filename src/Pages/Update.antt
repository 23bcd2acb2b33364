-- ===== src/Pages/Update.antt =====
-- `PageSet` seen on the set of free pages, and the counter `FreePages`.
use novium_os.Prelude.{
  ℕ, zero, suc, ◌+◌, ◌-◌, ◌/◌, ◌%◌, ◌^◌, ◌≤◌, ◌<◌, ◌≡◌, inl, inr, ◌≢◌, Bool, true, false, ◌==◌, ltb,
  leb, ◌&&◌, if◌then◌else◌, arith, Bool-cases,
}
use novium_os.Prelude.Bits.{has_bit-set_bit, has_bit-clear_bit}
use novium_os.Pages.{
  PageAllocator, PageState, used, available, page_count, is_free, page_set, set_run,
}
use novium_os.Pages.Counting.{count, count-le, count_take, IsCounted}

abbrev pub is_available : PageState → Bool
is_available used = false
is_available available = true

-- `PageSet` changes the page that it is given and no other.
pub is_free-page_set :
    (s : PageAllocator) (p q : ℕ) (st : PageState)
    → is_free (page_set s p st) q ≡ (if p == q then is_available st else is_free s q)
unfolding page_set
is_free-page_set s p q available =
    ground (arith, has_bit-set_bit (s.page_bitmap (p / 32)) (p % 32) (q % 32))
is_free-page_set s p q used = ground (
  arith,
  has_bit-clear_bit (s.page_bitmap (p / 32)) (p % 32) (q % 32) (omega arith) (omega arith),
)

-- `FreePages` counts the free pages, and page 0, whose address stands for failure, is not free.
pub record IsValid (s : PageAllocator) : Type 0 where
  pub counted : IsCounted s
  pub no_page_zero : is_free s 0 ≡ false

free_pages-le : (s : PageAllocator) → IsValid s → s.free_pages ≤ page_count
free_pages-le s v = omega (arith, v.counted, count-le (is_free s) page_count)

-- A page that is already in the wanted state: nothing happens.
pub page_set_idle :
    (s : PageAllocator) (p : ℕ) (st : PageState)
    → is_free s p ≡ is_available st
    → page_set s p st ≡ s
unfolding page_set
page_set_idle s p used e = ground arith
page_set_idle s p available e = ground arith

counter_used :
    (s : PageAllocator) (p : ℕ)
    → is_free s p ≡ true
    → (page_set s p used).free_pages ≡ (s.free_pages + 2 ^ 32 - 1) % 2 ^ 32
unfolding page_set
counter_used s p e = ground arith

counter_available :
    (s : PageAllocator) (p : ℕ)
    → is_free s p ≡ false
    → (page_set s p available).free_pages ≡ (s.free_pages + 1) % 2 ^ 32
unfolding page_set
counter_available s p e = ground arith

-- Taking a page lowers the counter by one, giving one back raises it, and neither wraps.
free_pages_take :
    (s : PageAllocator) (p : ℕ)
    → IsCounted s
    → p < page_count
    → is_free s p ≡ true
    → (page_set s p used).free_pages + 1 ≡ s.free_pages
free_pages_take s p v h e = omega (
  arith,
  counter_used s p e,
  v,
  count-le (is_free s) page_count,
  count_take (is_free s) (is_free (page_set s p used)) p page_count h e
      (λ i. is_free-page_set s p i used),
)

given_back :
    (s : PageAllocator) (p i : ℕ)
    → is_free s p ≡ false
    → is_free s i ≡ (if p == i then false else is_free (page_set s p available) i)
given_back s p i e = ground (arith, is_free-page_set s p i available)

free_pages_give :
    (s : PageAllocator) (p : ℕ)
    → IsCounted s
    → p < page_count
    → is_free s p ≡ false
    → (page_set s p available).free_pages ≡ s.free_pages + 1
free_pages_give s p v h e = omega (
  arith,
  counter_available s p e,
  v,
  count-le (is_free (page_set s p available)) page_count,
  count_take (is_free (page_set s p available)) (is_free s) p page_count h
      (ground (arith, is_free-page_set s p p available)) (λ i. given_back s p i e),
)

take_counted :
    (s : PageAllocator) (p : ℕ)
    → IsCounted s
    → p < page_count
    → is_free s p ≡ true
    → (page_set s p used).free_pages ≡ count (is_free (page_set s p used)) page_count
take_counted s p v h e = omega (
  arith,
  free_pages_take s p v h e,
  v,
  count_take (is_free s) (is_free (page_set s p used)) p page_count h e
      (λ i. is_free-page_set s p i used),
)

give_counted :
    (s : PageAllocator) (p : ℕ)
    → IsCounted s
    → p < page_count
    → is_free s p ≡ false
    → (page_set s p available).free_pages ≡ count (is_free (page_set s p available)) page_count
give_counted s p v h e = omega (
  arith,
  free_pages_give s p v h e,
  v,
  count_take (is_free (page_set s p available)) (is_free s) p page_count h
      (ground (arith, is_free-page_set s p p available)) (λ i. given_back s p i e),
)

pub page_set-IsCounted :
    (s : PageAllocator) (p : ℕ) (st : PageState)
    → IsCounted s
    → p < page_count
    → IsCounted (page_set s p st)
page_set-IsCounted s p used c h = elim (Bool-cases (is_free s p)) [
  | inl e ↦ take_counted s p c h e
  | inr e ↦ rw (page_set_idle s p used e) c
]
page_set-IsCounted s p available c h = elim (Bool-cases (is_free s p)) [
  | inl e ↦ rw (page_set_idle s p available e) c
  | inr e ↦ give_counted s p c h e
]

page_set_used-IsValid :
    (s : PageAllocator) (p : ℕ) → IsValid s → p < page_count → IsValid (page_set s p used)
page_set_used-IsValid s p v h = elim (Bool-cases (is_free s p)) [
  | inl e ↦ record {
    counted = take_counted s p v.counted h e;
    no_page_zero = ground (arith, is_free-page_set s p 0 used, v.no_page_zero);
  }
  | inr e ↦ rw (page_set_idle s p used e) v
]

pub page_set_available-IsValid :
    (s : PageAllocator) (p : ℕ)
    → IsValid s
    → p < page_count
    → p ≢ 0
    → IsValid (page_set s p available)
page_set_available-IsValid s p v h nz = elim (Bool-cases (is_free s p)) [
  | inl e ↦ rw (page_set_idle s p available e) v
  | inr e ↦ record {
    counted = give_counted s p v.counted h e;
    no_page_zero = ground (arith, is_free-page_set s p 0 available, v.no_page_zero);
  }
]

-- A run of pages.
abbrev pub in_run : ℕ → ℕ → ℕ → Bool
in_run start n p = leb start p && ltb p (start + n)

pub is_free-set_run :
    (n start p : ℕ) (st : PageState) (s : PageAllocator)
    → is_free (set_run n start st s) p ≡ (if in_run start n p then is_available st else is_free s p)
unfolding set_run
is_free-set_run zero start p st s = ground arith
is_free-set_run (suc n) start p st s =
    ground (
      arith,
      is_free-set_run n (start + 1) p st (page_set s start st),
      is_free-page_set s start p st,
    )

pub set_run_used :
    (n start : ℕ) (s : PageAllocator)
    → IsValid s
    → start + n ≤ page_count
    → ((p : ℕ) → start ≤ p → p < start + n → is_free s p ≡ true)
    → IsValid (set_run n start used s) × ((set_run n start used s).free_pages + n ≡ s.free_pages)
unfolding set_run
set_run_used zero start s v h e = (v, omega arith)
set_run_used (suc n) start s v h e =
    let s' = page_set s start used in
    let rest =
      set_run_used n (start + 1) s' (page_set_used-IsValid s start v (omega arith)) (omega arith)
        (λ p lo hi.
          ground (arith, is_free-page_set s start p used, e p (omega arith) (omega arith))) in
    (
      rest.0,
      omega (
        arith,
        rest.1,
        free_pages_take s start v.counted (omega arith) (e start (omega arith) (omega arith)),
      ),
    )

pub set_run_available-IsValid :
    (n start : ℕ) (s : PageAllocator)
    → IsValid s
    → 0 < start
    → start + n ≤ page_count
    → IsValid (set_run n start available s)
unfolding set_run
set_run_available-IsValid zero start s v nz h = v
set_run_available-IsValid (suc n) start s v nz h =
    set_run_available-IsValid n (start + 1) (page_set s start available)
      (page_set_available-IsValid s start v (omega arith) (omega arith)) (omega arith) (omega arith)
