-- ===== src/Pages/Search.antt =====
-- What the search loops of `PageAlloc`, `PageAllocPages` and `PageAllocPagesAt` find.
use novium_os.Prelude.{
  ℕ, zero, suc, ◌+◌, ◌-◌, ◌*◌, ◌/◌, ◌%◌, ◌≤◌, ◌<◌, ◌≡◌, refl, ◌∙◌, inl, inr, ◌≢◌, Bool, true, false,
  ◌==◌, ltb, leb, if◌then◌else◌, Option, none, some, arith, Bool-cases,
}
use novium_os.Prelude.Search.{Found, Found-skip, Found-here, Found-later}
use novium_os.Prelude.Bits.{has_bit, has_bit-zero}
use novium_os.Pages.{PageAllocator, page_count, is_free, find_bit, find_page, run_length, find_run}

find_bit-Found :
    (n bit word hi : ℕ) → bit + n ≡ hi → Found (has_bit word) bit hi (find_bit n bit word)
unfolding find_bit
find_bit-Found zero bit word hi e = λ i l h. absurd (omega arith)
find_bit-Found (suc n) bit word hi e = elim (Bool-cases (has_bit word bit)) [
  | inl hit ↦ rw (hit, find_bit) (Found-here (has_bit word) bit hi hit (omega arith))
  | inr miss ↦
      rw (miss, find_bit)
        (Found-later (has_bit word) bit hi (find_bit n (bit + 1) word) miss (omega arith)
          (find_bit-Found n (bit + 1) word hi (omega arith)))
]

-- The page at a bit of the bitmap.
abbrev page_bit : (ℕ → ℕ) → ℕ → Bool
page_bit bitmap i = has_bit (bitmap (i / 32)) (i % 32)

word_clear :
    (bitmap : ℕ → ℕ) (word : ℕ)
    → ((b : ℕ) → 0 ≤ b → b < 32 → has_bit (bitmap word) b ≡ false)
    → (i : ℕ) → word * 32 ≤ i
    → i < (word + 1) * 32
    → page_bit bitmap i ≡ false
word_clear bitmap word clear i l h =
    let e : i / 32 ≡ word = omega arith in rw e (clear (i % 32) (omega arith) (omega arith))

at_bit :
    (bitmap : ℕ → ℕ) (word b : ℕ)
    → b < 32
    → page_bit bitmap (word * 32 + b) ≡ has_bit (bitmap word) b
at_bit bitmap word b h =
    let e : (word * 32 + b) / 32 ≡ word = omega arith in
    let r : (word * 32 + b) % 32 ≡ b = omega arith in rw (e, r)

-- One word: skipped if it is 0, and otherwise searched for its first bit.
word_step :
    (bitmap : ℕ → ℕ) (word hi : ℕ) (rest : Option ℕ)
    → (word + 1) * 32 ≤ hi
    → Found (page_bit bitmap) ((word + 1) * 32) hi rest
    → (z : Bool) → (bitmap word == 0) ≡ z
    → (o : Option ℕ) → Found (has_bit (bitmap word)) 0 32 o
    → Found (page_bit bitmap) (word * 32) hi (
        if z
        then rest
        else (elim o as (λ _. Option ℕ) [ none ↦ rest | some bit ↦ some (word * 32 + bit) ]))
word_step bitmap word hi rest h r true e o f =
    Found-skip (page_bit bitmap) (word * 32) ((word + 1) * 32) hi rest (omega arith) h
      (word_clear bitmap word
        (λ b _ _. let z : bitmap word ≡ 0 = ground arith in rw z (has_bit-zero b)))
      r
word_step bitmap word hi rest h r false e none f =
    Found-skip (page_bit bitmap) (word * 32) ((word + 1) * 32) hi rest (omega arith) h
      (word_clear bitmap word f) r
word_step bitmap word hi rest h r false e (some b) f = (
  omega arith,
  omega (arith, f.1),
  at_bit bitmap word b f.1 ∙ f.2,
  λ i l k.
      let q : i / 32 ≡ word = omega (arith, f.1) in
      rw q (f.3 (i % 32) (omega arith) (omega (arith, f.1))),
)

pub find_page-Found :
    (n word hi : ℕ) (bitmap : ℕ → ℕ)
    → (word + n) * 32 ≡ hi
    → Found (page_bit bitmap) (word * 32) hi (find_page n word bitmap)
unfolding find_page
find_page-Found zero word hi bitmap e = λ i l h. absurd (omega arith)
find_page-Found (suc n) word hi bitmap e =
    word_step bitmap word hi (find_page n (word + 1) bitmap) (omega arith)
      (find_page-Found n (word + 1) hi bitmap (omega arith)) (bitmap word == 0) refl
      (find_bit 32 0 (bitmap word)) (find_bit-Found 32 0 (bitmap word) 32 refl)

-- Every page of the run is free.
abbrev pub RunFree : PageAllocator → ℕ → ℕ → Type 0
RunFree s count start = (p : ℕ) → start ≤ p → p < start + count → is_free s p ≡ true

-- `Run` counts free pages, and stops only at a used one.
record Counted (s : PageAllocator) (n page run : ℕ) : Type 0 where
  within : run ≤ n
  free : RunFree s run page
  stopped : run < n → is_free s (page + run) ≡ false

run_length-Counted : (s : PageAllocator) (n page : ℕ) → Counted s n page (run_length s n page)
unfolding run_length
run_length-Counted s zero page = record {
  within = omega arith;
  free = λ p l h. absurd (omega arith);
  stopped = λ h. absurd (omega arith);
}
run_length-Counted s (suc n) page =
    let rest = run_length-Counted s n (page + 1) in
    elim (Bool-cases (is_free s page)) [
      | inl hit ↦
          rw (hit, run_length)
            (record {
              within = omega (arith, rest.within);
              free = λ p l h. elim (Bool-cases (page == p)) [
                | inl e ↦ let q : page ≡ p = ground arith in rw (← q) hit
                | inr e ↦ rest.free p (ground arith) (omega arith)
              ];
              stopped = λ h.
                  let e : page + 1 + run_length s n (page + 1)
                      ≡ page + suc (run_length s n (page + 1)) =
                    omega arith in
                  rw e at (rest.stopped (omega arith));
            })
      | inr miss ↦
          rw (miss, run_length)
            (record {
              within = omega arith;
              free = λ p l h. absurd (omega arith);
              stopped = λ h. let e : page + 0 ≡ page = omega arith in rw e miss;
            })
    ]

-- What the loop over `Start` says: the first run from `lo` on that lies in the bitmap, or none.
abbrev pub FoundRun : PageAllocator → ℕ → ℕ → Option ℕ → Type 0
FoundRun s count lo none = (q : ℕ) → lo ≤ q → q + count ≤ page_count → ¬ RunFree s count q
FoundRun s count lo (some p) =
    (lo ≤ p)
    × (p + count ≤ page_count)
    × RunFree s count p
    × ((q : ℕ) → lo ≤ q → q < p → ¬ RunFree s count q)

FoundRun-skip :
    (s : PageAllocator) (count lo mid : ℕ) (o : Option ℕ)
    → lo ≤ mid
    → ((q : ℕ) → lo ≤ q → q < mid → ¬ RunFree s count q)
    → FoundRun s count mid o
    → FoundRun s count lo o
FoundRun-skip s count lo mid none a low r = λ q l h. elim (Bool-cases (ltb q mid)) [
  | inl below ↦ low q l (ground arith)
  | inr above ↦ r q (ground arith) h
]
FoundRun-skip s count lo mid (some p) a low r = (
  omega (arith, r.0),
  r.1,
  r.2,
  λ q l h. elim (Bool-cases (ltb q mid)) [
    | inl below ↦ low q l (ground arith)
    | inr above ↦ r.3 q (ground arith) h
  ],
)

-- No run starts at or before a used page that cuts the run at `start` short.
cut_short :
    (s : PageAllocator) (count start : ℕ)
    → run_length s count start ≢ count
    → (q : ℕ) → start ≤ q
    → q < start + run_length s count start + 1
    → ¬ RunFree s count q
cut_short s count start ne q l h free =
    let c = run_length-Counted s count start in
    let short : run_length s count start < count = omega (arith, c.within) in
    let busy = c.stopped short in
    let open_page = free (start + run_length s count start) (omega arith) (omega arith) in cc

run_step :
    (s : PageAllocator) (count start : ℕ) (rest : Option ℕ)
    → count ≤ page_count
    → FoundRun s count (start + run_length s count start + 1) rest
    → FoundRun s count start (
        if leb start (page_count - count)
        then (if run_length s count start == count then some start else rest)
        else none)
run_step s count start rest small r = elim (Bool-cases (leb start (page_count - count))) [
  | inr over ↦ rw over (λ q l h. absurd (ground arith))
  | inl inside ↦ elim (Bool-cases (run_length s count start == count)) [
    | inl hit ↦
        let e : run_length s count start ≡ count = ground arith in
        rw (inside, hit)
          (
            omega arith,
            ground arith,
            rw e at (run_length-Counted s count start).free,
            λ q l h. absurd (omega arith),
          )
    | inr miss ↦
        rw (inside, miss)
          (FoundRun-skip s count start (start + run_length s count start + 1) rest (omega arith)
            (cut_short s count start (λ e. ground arith)) r)
  ]
]

-- With fuel for the pages that are left, the loop finds the first run or shows that there is none.
pub find_run-FoundRun :
    (s : PageAllocator) (count fuel start : ℕ)
    → count ≤ page_count
    → page_count < start + fuel
    → FoundRun s count start (find_run s count fuel start)
unfolding find_run
find_run-FoundRun s count zero start small enough = λ q l h. absurd (omega arith)
find_run-FoundRun s count (suc fuel) start small enough =
    run_step s count start (find_run s count fuel (start + run_length s count start + 1)) small
      (find_run-FoundRun s count fuel (start + run_length s count start + 1) small (omega arith))
