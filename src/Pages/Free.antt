-- ===== src/Pages/Free.antt =====
-- `PageFree` and `PageFreePages`.
use novium_os.Prelude.{
  ℕ, ◌+◌, ◌-◌, ◌*◌, ◌/◌, ◌%◌, ◌≤◌, ◌<◌, ◌≡◌, sym, ◌∙◌, subst, inl, inr, ◌≢◌, false, ◌==◌, ltb, leb,
  ◌||◌, not, arith, Bool-cases,
}
use novium_os.Pages.{
  PageAllocator, available, page_count, page_size, is_free, page_set, set_run, page_alloc_pages,
  page_free, page_free_pages,
}
use novium_os.Pages.Update.{
  IsValid, in_run, is_free-page_set, is_free-set_run, page_set_idle, page_set_available-IsValid,
  set_run_available-IsValid,
}
use novium_os.Pages.Counting.{count_ext}
use novium_os.Pages.Alloc.{Granted, Took, page_alloc_pages-Granted}

-- `PageFree` keeps the allocator valid whatever address it is given.
page_free-IsValid : (s : PageAllocator) (address : ℕ) → IsValid s → IsValid (page_free s address)
unfolding page_free
page_free-IsValid s address v = elim (Bool-cases (address == 0 || not (address % page_size == 0))) [
  | inl bad ↦ rw bad v
  | inr good ↦ elim (Bool-cases (leb page_count (address / page_size))) [
    | inl over ↦ rw (good, over) v
    | inr inside ↦
        rw (good, inside)
          (page_set_available-IsValid s (address / page_size) v (ground arith) (ground arith))
  ]
]

-- A second `PageFree` of the same address changes nothing.
page_free_twice :
    (s : PageAllocator) (address : ℕ)
    → page_free (page_free s address) address ≡ page_free s address
unfolding page_free
page_free_twice s address = elim (Bool-cases (address == 0 || not (address % page_size == 0))) [
  | inl bad ↦ rw bad
  | inr good ↦ elim (Bool-cases (leb page_count (address / page_size))) [
    | inl over ↦ rw (good, over)
    | inr inside ↦
        rw (good, inside)
          (page_set_idle (page_set s (address / page_size) available) (address / page_size)
            available
            (ground
              (arith, is_free-page_set s (address / page_size) (address / page_size) available)))
  ]
]

-- `PageFreePages` keeps the allocator valid whatever range it is given.
page_free_pages-IsValid :
    (s : PageAllocator) (address n : ℕ) → IsValid s → IsValid (page_free_pages s address n)
unfolding page_free_pages
page_free_pages-IsValid s address n v =
    elim (Bool-cases (address == 0 || not (address % page_size == 0) || n == 0)) [
      | inl bad ↦ rw bad v
      | inr good ↦
          elim (Bool-cases
            (leb page_count (address / page_size) || ltb (page_count - address / page_size) n)) [
              | inl over ↦ rw (good, over) v
              | inr inside ↦
                  rw (good, inside)
                    (set_run_available-IsValid n (address / page_size) s v (ground arith)
                      (ground arith))
            ]
    ]

free_run :
    (s : PageAllocator) (p n : ℕ)
    → 0 < p
    → 0 < n
    → p + n ≤ page_count
    → page_free_pages s (p * page_size) n ≡ set_run n p available s
unfolding page_free_pages
free_run s p n hp hn h =
    let e : p * page_size / page_size ≡ p = omega arith in
    let guard : (p * page_size == 0 || not (p * page_size % page_size == 0) || n == 0) ≡ false =
      ground arith in
    let inside : (leb page_count p || ltb (page_count - p) n) ≡ false = ground arith in
    rw (e, guard, inside)

given_back_pages :
    (s s' : PageAllocator) (n p q : ℕ)
    → Took s n p s'
    → is_free (set_run n p available s') q ≡ is_free s q
given_back_pages s s' n p q t = elim (Bool-cases (in_run p n q)) [
  | inl inside ↦
      rw (is_free-set_run n p q available s', inside)
        (sym (t.were_free q (ground arith) (ground arith)))
  | inr outside ↦ rw (is_free-set_run n p q available s', outside) (t.now q ∙ rw outside)
]

restored :
    (s s' : PageAllocator) (n p : ℕ)
    → IsValid s
    → 0 < n
    → 0 < p
    → p + n ≤ page_count
    → Took s n p s'
    → ((q : ℕ) → is_free (page_free_pages s' (p * page_size) n) q ≡ is_free s q)
      × ((page_free_pages s' (p * page_size) n).free_pages ≡ s.free_pages)
      × IsValid (page_free_pages s' (p * page_size) n)
restored s s' n p v hn hp h t =
    let w = set_run_available-IsValid n p s' t.valid hp h in
    let same =
      count_ext (is_free (set_run n p available s')) (is_free s) page_count
        (λ q _. given_back_pages s s' n p q t) in
    rw (free_run s' p n hp hn h)
      (λ q. given_back_pages s s' n p q t, w.counted ∙ same ∙ sym v.counted, w)

-- On a valid allocator, giving back the run that `PageAllocPages` handed out restores the set of free
-- pages and the counter, and the allocator is valid.
pub alloc-free_pages :
    (s : PageAllocator) (n address : ℕ) (s' : PageAllocator)
    → IsValid s
    → page_alloc_pages s n ≡ (address, s')
    → address ≢ 0
    → ((q : ℕ) → is_free (page_free_pages s' address n) q ≡ is_free s q)
      × ((page_free_pages s' address n).free_pages ≡ s.free_pages)
      × IsValid (page_free_pages s' address n)
alloc-free_pages s n address s' v e nz =
    elim (subst (λ r. Granted s n 0 r) e (page_alloc_pages-Granted s n v)) [
      | inl refused ↦ absurd (nz refused.0)
      | inr (p, a, hn, hp, _, h, _, t) ↦ rw a (restored s s' n p v hn hp h t)
    ]
