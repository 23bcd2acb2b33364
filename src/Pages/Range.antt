-- ===== src/Pages/Range.antt =====
-- `PageSetRange`: the pages that a range of bytes comes to.
use novium_os.Prelude.{
  ℕ, zero, suc, ◌+◌, ◌-◌, ◌*◌, ◌/◌, ◌%◌, ◌^◌, ◌≤◌, ◌<◌, ◌≡◌, refl, sym, ap, ◌⊎◌, inl, inr, true,
  false, ltb, leb, ◌||◌, ◌&&◌, if◌then◌else◌, arith, Bool-cases,
}
use novium_os.Pages.{
  PageAllocator, PageState, used, available, page_count, page_size, is_free, page_set, first_byte,
  last_byte, set_pages, page_set_range,
}
use novium_os.Pages.Update.{is_available, is_free-page_set, page_set-IsCounted}
use novium_os.Pages.Counting.{IsCounted}

set_pages_more :
    (fuel a b : ℕ) (st : PageState) (s : PageAllocator)
    → a < b
    → b ≤ page_count
    → set_pages (suc fuel) (a * page_size) (b * page_size) st s
      ≡ set_pages fuel ((a + 1) * page_size) (b * page_size) st (page_set s a st)
unfolding set_pages
set_pages_more fuel a b st s h small =
    let test : ltb (a * page_size) (b * page_size) ≡ true = ground arith in
    let page : a * page_size / page_size ≡ a = omega arith in
    let inside : ltb a page_count ≡ true = ground arith in
    let next : a * page_size + page_size ≡ (a + 1) * page_size = omega arith in
    rw (test, page, inside, next)

set_pages_done :
    (fuel a b : ℕ) (st : PageState) (s : PageAllocator)
    → b ≤ a
    → set_pages fuel (a * page_size) (b * page_size) st s ≡ s
unfolding set_pages
set_pages_done zero a b st s h = refl
set_pages_done (suc fuel) a b st s h =
    let test : ltb (a * page_size) (b * page_size) ≡ false = ground arith in rw test

-- The loop of `PageSetRange` treats the pages from `a` up to `b`.
set_pages_lem :
    (fuel a b : ℕ) (st : PageState) (s : PageAllocator)
    → b ≤ page_count
    → b < a + fuel
    → (q : ℕ)
    → is_free (set_pages fuel (a * page_size) (b * page_size) st s) q
      ≡ (if leb a q && ltb q b then is_available st else is_free s q)
set_pages_lem zero a b st s small enough q =
    rw (set_pages_done 0 a b st s (omega arith)) (ground arith)
set_pages_lem (suc fuel) a b st s small enough q = elim (Bool-cases (ltb a b)) [
  | inl more ↦ ground (
    arith,
    ap (λ t. is_free t q) (set_pages_more fuel a b st s (ground arith) small),
    set_pages_lem fuel (a + 1) b st (page_set s a st) small (omega arith) q,
    is_free-page_set s a q st,
  )
  | inr done ↦ rw (set_pages_done (suc fuel) a b st s (ground arith)) (ground arith)
]

set_pages-IsCounted :
    (fuel a b : ℕ) (st : PageState) (s : PageAllocator)
    → b ≤ page_count
    → IsCounted s
    → IsCounted (set_pages fuel (a * page_size) (b * page_size) st s)
unfolding set_pages
set_pages-IsCounted zero a b st s small c = c
set_pages-IsCounted (suc fuel) a b st s small c = elim (Bool-cases (ltb a b)) [
  | inl more ↦ rw (set_pages_more fuel a b st s (ground arith) small) (
      set_pages-IsCounted fuel (a + 1) b st (page_set s a st) small
        (page_set-IsCounted s a st c (ground arith)))
  | inr done ↦ rw (set_pages_done (suc fuel) a b st s (ground arith)) c
]

-- What a range comes to: nothing, or the pages from `a` up to `b`.
record Ranged (s : PageAllocator) (base length : ℕ) (st : PageState) (s' : PageAllocator)
    : Type 0 where
  a : ℕ
  b : ℕ
  small : b ≤ page_count
  runs : s' ≡ set_pages (suc page_count) (a * page_size) (b * page_size) st s
  inner : st ≡ available → a < b → (base ≤ a * page_size) × (b * page_size ≤ base + length)
  outer :
      st ≡ used
      → base + length < 2 ^ 64
      → (q : ℕ) → q < page_count
      → q * page_size < base + length
      → base < (q + 1) * page_size
      → (a ≤ q) × (q < b)

-- A skipped range counts as no pages.
skipped :
    (s : PageAllocator) (base length : ℕ) (st : PageState)
    → (ltb ((base + length) % 2 ^ 64) base || leb (2 ^ 32) base) ≡ true
    → Ranged s base length st s
skipped s base length st skip = record {
  a = 0;
  b = 0;
  small = omega arith;
  runs = sym (set_pages_done (suc page_count) 0 0 st s (omega arith));
  inner = λ _ h. absurd (omega arith);
  outer = λ _ fits q hq low high. absurd (ground arith);
}

abbrev clipped : ℕ → ℕ → ℕ
clipped base length =
    if ltb (2 ^ 32) ((base + length) % 2 ^ 64) then 2 ^ 32 else (base + length) % 2 ^ 64

page_set_range-Ranged :
    (s : PageAllocator) (base length : ℕ) (st : PageState)
    → Ranged s base length st (page_set_range s base length st)
unfolding page_set_range first_byte last_byte
page_set_range-Ranged s base length available =
    elim (Bool-cases (ltb ((base + length) % 2 ^ 64) base || leb (2 ^ 32) base)) [
      | inl skip ↦ rw skip (skipped s base length available skip)
      | inr go ↦ rw go (record {
        a = (base + page_size - 1) / page_size;
        b = clipped base length / page_size;
        small = ground arith;
        runs = refl;
        inner = λ _ h. (omega arith, ground arith);
        outer = λ e. cc;
      })
    ]
page_set_range-Ranged s base length used =
    elim (Bool-cases (ltb ((base + length) % 2 ^ 64) base || leb (2 ^ 32) base)) [
      | inl skip ↦ rw skip (skipped s base length used skip)
      | inr go ↦ rw go (record {
        a = base / page_size;
        b = (clipped base length + page_size - 1) / page_size;
        small = ground arith;
        runs = refl;
        inner = λ e. cc;
        outer = λ _ fits q hq low high. (omega arith, ground arith);
      })
    ]

pub range-IsCounted :
    (s : PageAllocator) (base length : ℕ) (st : PageState)
    → IsCounted s
    → IsCounted (page_set_range s base length st)
range-IsCounted s base length st c =
    let r = page_set_range-Ranged s base length st in
    rw r.runs (set_pages-IsCounted (suc page_count) r.a r.b st s r.small c)

-- A page that is free after a range was freed was free before, or lies wholly inside the range.
pub range_available :
    (s : PageAllocator) (base length q : ℕ)
    → is_free (page_set_range s base length available) q ≡ true
    → (is_free s q ≡ true) ⊎ ((base ≤ q * page_size) × ((q + 1) * page_size ≤ base + length))
range_available s base length q e =
    let r = page_set_range-Ranged s base length available in
    let now =
      set_pages_lem (suc page_count) r.a r.b available s r.small (omega (arith, r.small)) q in
    let same = ap (λ t. is_free t q) r.runs in
    elim (Bool-cases (leb r.a q && ltb q r.b)) [
      | inl inside ↦
          let bounds = r.inner refl (ground arith) in
          inr (ground (arith, bounds), ground (arith, bounds))
      | inr outside ↦ inl (ground arith)
    ]

-- A page that is free after a range was reserved was free before, and does not meet the range.
pub range_used :
    (s : PageAllocator) (base length q : ℕ)
    → base + length < 2 ^ 64
    → q < page_count
    → is_free (page_set_range s base length used) q ≡ true
    → (is_free s q ≡ true) × ((base + length ≤ q * page_size) ⊎ ((q + 1) * page_size ≤ base))
range_used s base length q fits h e =
    let r = page_set_range-Ranged s base length used in
    let now = set_pages_lem (suc page_count) r.a r.b used s r.small (omega (arith, r.small)) q in
    let same = ap (λ t. is_free t q) r.runs in
    elim (Bool-cases (leb r.a q && ltb q r.b)) [
      | inl inside ↦ cc
      | inr outside ↦ (
        ground arith,
        elim (Bool-cases (leb (base + length) (q * page_size))) [
          | inl below ↦ inl (ground arith)
          | inr low ↦ elim (Bool-cases (leb ((q + 1) * page_size) base)) [
            | inl above ↦ inr (ground arith)
            | inr high ↦
                let meets = r.outer refl fits q h (ground arith) (ground arith) in
                absurd (ground (arith, meets))
          ]
        ],
      )
    ]
