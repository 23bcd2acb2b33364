-- ===== src/Heap/Allocating.antt =====
-- `kmalloc` as a whole.
use novium_os.Prelude.{
  ℕ, ◌+◌, ◌-◌, ◌*◌, ◌/◌, ◌%◌, ◌^◌, ◌≤◌, ◌<◌, ◌≡◌, ◌⊎◌, inl, inr, refl, sym, ap, subst, true, false,
  ltb, ◌==◌, if◌then◌else◌, List, [], ◌∷◌, arith, Bool-cases, if_cases, ltb→lt,
}
use novium_os.Pages.{page_count}
use novium_os.Pages.Search.{RunFree}
use novium_os.Heap.{
  Block, Heap, walk_fuel, first_fit, align, meta_size, segment_cap, align_up, total_size,
  heap_growth_hint, heap_grow, heap_find_free, heap_list_remove, claim, grow_and_claim, kmalloc,
}
use novium_os.Heap.Walking.{inserted, mem-inserted}
use novium_os.Heap.Fitting.{
  FreeList, Kept, FirstFit, Searched, heap_find_free_lem, heap_list_remove_lem,
}
use novium_os.Heap.Sound.{IsValid, IsHeld, remove-IsHeld}
use novium_os.Heap.Claiming.{Claimed, claim-Claimed}
use novium_os.Heap.Growing.{Grown, WereFree, heap_grow-Grown}
use novium_os.Task.Members.{mem, without}

without-inserted : (b : ℕ) (xs : List ℕ) → mem b xs ≡ false → without b (inserted b xs) ≡ xs
without-inserted b [] h = let here : (b == b) ≡ true = ground arith in rw here
without-inserted b (x ∷ xs) h = elim (Bool-cases (ltb b x)) [
  | inl first ↦ let here : (b == b) ≡ true = ground arith in rw (first, here)
  | inr later ↦
      let other : (x == b) ≡ false = ground arith in
      rw (later, other) (ap (λ (ys : List ℕ). x ∷ ys) (without-inserted b xs (ground arith)))
]

-- A block given out for `size` bytes, at an address that is a multiple of 8, with room for them.
pub record Given (zs : List ℕ) (b size : ℕ) (r : ℕ × Heap) : Type 0 where
  pub claimed : Claimed zs b (total_size size) r
  pub aligned : r.0 % 8 ≡ 0
  pub room : r.0 + size ≤ b + (r.1.blocks b).size

abbrev pub NoneFits : Heap → List ℕ → ℕ → Type 0
NoneFits s xs total = (i : ℕ) → mem i xs ≡ true → (s.blocks i).size < total

-- No more pages for a block of `total` bytes.
abbrev pub NoRoom : Heap → ℕ → Type 0
NoRoom s total =
    let n = (total + 4096 - 1) % 2 ^ 32 / 4096 in
    (segment_cap ≤ s.segment_count)
    ⊎ (n ≡ 0)
    ⊎ ((q : ℕ) → heap_growth_hint s / 4096 ≤ q → q + n ≤ page_count → ¬ RunFree s.pages n q)

-- What a request comes to: 0 and a list as before, with the reason; the first block of the list that is
-- large enough; or a block of new pages.
pub data Served (s : Heap) (xs : List ℕ) (size : ℕ) (r : ℕ × Heap) : Type 0 where
  refused :
      r.0 ≡ 0
      → IsValid r.1 xs
      → (size ≡ 0)
        ⊎ (2 ^ 32 - 25 < size)
        ⊎ (NoneFits s xs (total_size size) × NoRoom s (total_size size))
      → Served s xs size r
  from_list :
      (b : ℕ)
      → FirstFit s.blocks (total_size size) xs b
      → mem b xs ≡ true
      → Given (without b xs) b size r
      → Served s xs size r
  from_pages :
      (b : ℕ)
      → NoneFits s xs (total_size size)
      → mem b xs ≡ false
      → WereFree s b (total_size size)
      → Given xs b size r
      → Served s xs size r

total_size_lem :
    (size : ℕ)
    → 1 ≤ size
    → size ≤ 2 ^ 32 - 25
    → (size + 16 ≤ total_size size)
      × (total_size size < size + 24)
      × (24 ≤ total_size size)
      × (total_size size % 8 ≡ 0)
unfolding align_up
total_size_lem size low high = (omega arith, omega arith, omega arith, omega arith)

Claimed-Given :
    (zs : List ℕ) (b size : ℕ) (r : ℕ × Heap)
    → size + 16 ≤ total_size size
    → Claimed zs b (total_size size) r
    → Given zs b size r
Claimed-Given zs b size r fits c = record {
  claimed = c;
  aligned = omega (arith, c.address, c.held.block.aligned);
  room = omega (arith, c.address, c.enough, fits);
}

rounded_pages :
    (total : ℕ)
    → total < 2 ^ 32
    → 24 ≤ (total + 4096 - 1) % 2 ^ 32 / 4096 * 4096
    → total ≤ (total + 4096 - 1) % 2 ^ 32 / 4096 * 4096
rounded_pages total small some_page = omega arith

module _ (s : Heap) (xs : List ℕ) (size : ℕ) (v : IsValid s xs) (low : 1 ≤ size)
    (high : size ≤ 2 ^ 32 - 25) where
  from_list_Served :
      (b : ℕ) (s' : Heap)
      → mem b xs ≡ true
      → FirstFit s.blocks (total_size size) xs b
      → total_size size ≤ (s.blocks b).size
      → FreeList s' (without b xs)
      → Kept s s'
      → Served s xs size (claim b (total_size size) s')
  from_list_Served b s' on fit enough l k =
      let (w, h) = remove-IsHeld s s' xs b v on l k in
      let t = total_size_lem size low high in
      from_list b fit on (
        Claimed-Given (without b xs) b size _ t.0 (
          claim-Claimed s' (without b xs) b (total_size size) w h t.2
            (rw (ap (λ (k : Block). k.size) (k.headers b)) enough) t.3))

  pages_Served :
      (b : ℕ) (g : Heap)
      → NoneFits s xs (total_size size)
      → 0 < b
      → IsValid g (inserted b xs)
      → mem b xs ≡ false
      → (g.blocks b).size ≡ (total_size size + 4096 - 1) % 2 ^ 32 / 4096 * 4096
      → WereFree s b ((total_size size + 4096 - 1) % 2 ^ 32 / 4096 * 4096)
      → Served s xs size (claim b (total_size size) (heap_list_remove b g))
  pages_Served b g small pos w off sized were =
      let on : mem b (inserted b xs) ≡ true = ground (arith, mem-inserted b b xs) in
      let (l, k) = heap_list_remove_lem g b (inserted b xs) w.list on in
      let (w', h) = remove-IsHeld g (heap_list_remove b g) (inserted b xs) b w on l k in
      let back : without b (inserted b xs) ≡ xs = without-inserted b xs off in
      let t = total_size_lem size low high in
      let same = ap (λ (k : Block). k.size) (k.headers b) in
      let reach =
        rounded_pages (total_size size) (omega (arith, t)) (rw (← sized) (w.blocks b on).large) in
      from_pages b small off (λ q low high. were q low (omega (arith, reach)))
        (Claimed-Given xs b size _ t.0 (
          claim-Claimed (heap_list_remove b g) xs b (total_size size)
            (subst (λ ys. IsValid (heap_list_remove b g) ys) back w')
            (subst (λ ys. IsHeld (heap_list_remove b g) ys b) back h) t.2 (rw same (rw sized reach))
            t.3))

  Grown-Served :
      (r : ℕ × Heap)
      → NoneFits s xs (total_size size)
      → Grown s xs ((total_size size + 4096 - 1) % 2 ^ 32 / 4096) r
      → Served s xs size
          (if r.0 == 0 then (0, r.1) else claim r.0 (total_size size) (heap_list_remove r.0 r.1))
  unfolding Grown
  Grown-Served (b, g) small (inl fails) =
      if_cases (Served s xs size) (b == 0) _ _
        (λ stop. refused refl fails.1 (inr (inr (small, fails.2))))
        (λ go. absurd (ground (arith, fails.0)))
  Grown-Served (b, g) small (inr made) =
      if_cases (Served s xs size) (b == 0) _ _ (λ stop. absurd (ground (arith, made.0)))
        (λ go. pages_Served b g small made.0 made.1 made.2 made.3 made.4)

  grow_and_claim-Served :
      NoneFits s xs (total_size size) → Served s xs size (grow_and_claim (total_size size) s)
  unfolding grow_and_claim
  grow_and_claim-Served small =
      let n = (total_size size + 4096 - 1) % 2 ^ 32 / 4096 in
      Grown-Served (heap_grow n s) small (heap_grow-Grown s xs n v)

abbrev found_by : Heap → Heap → ℕ → ℕ × Heap
found_by s t b = if b == 0 then (0, s) else (b, t)

same_if_none : (s t : Heap) (b : ℕ) → (found_by s t b).0 ≡ 0 → (found_by s t b).1 ≡ s
same_if_none s t b =
    if_cases (λ (r : ℕ × Heap). r.0 ≡ 0 → r.1 ≡ s) (b == 0) (0, s) (b, t) (λ stop h. refl)
      (λ go h. absurd (ground (arith, h, go)))

heap_find_free-none :
    (s : Heap) (total : ℕ) → (heap_find_free total s).0 ≡ 0 → (heap_find_free total s).1 ≡ s
unfolding heap_find_free
heap_find_free-none s total =
    let b = first_fit walk_fuel s.blocks total s.free_head in
    same_if_none s (heap_list_remove b s) b

Searched-Served :
    (s : Heap) (xs : List ℕ) (size : ℕ) (r : ℕ × Heap)
    → IsValid s xs
    → 1 ≤ size
    → size ≤ 2 ^ 32 - 25
    → (r.0 ≡ 0 → r.1 ≡ s)
    → Searched s (total_size size) xs r
    → Served s xs size
        (if r.0 == 0 then grow_and_claim (total_size size) r.1 else claim r.0 (total_size size) r.1)
Searched-Served s xs size (b, found) v low high same (inl fails, l, k) =
    if_cases (Served s xs size) (b == 0) _ _
      (λ stop.
        subst (λ k. Served s xs size (grow_and_claim (total_size size) k)) (sym (same fails.0))
          (grow_and_claim-Served s xs size v low high fails.1))
      (λ go. absurd (ground (arith, fails.0)))
Searched-Served s xs size (b, found) v low high same (inr fit, l, k) =
    if_cases (Served s xs size) (b == 0) _ _ (λ stop. absurd (ground (arith, fit.0)))
      (λ go.
        from_list_Served s xs size v low high b found fit.1 (inr fit) fit.2
          (subst (λ t. FreeList found (if t then xs else without b xs)) go l) k)

-- With a sound free list `kmalloc` gives out an aligned block with room for the request, marked as
-- in use and apart from all free blocks: the first block of the list that is large enough, cut to
-- size, else one of new pages. It returns 0 only for a request for nothing or for more than 2^32 -
-- 25 bytes, or when it finds neither. The free list stays sound on every branch.
pub kmalloc-Served :
    (s : Heap) (xs : List ℕ) (size : ℕ) → IsValid s xs → Served s xs size (kmalloc size s)
unfolding kmalloc
kmalloc-Served s xs size v =
    if_cases (Served s xs size) (size == 0) _ _ (λ nothing. refused refl v (inl (ground arith)))
      (λ some_size.
        if_cases (Served s xs size) (ltb (2 ^ 32 - 1 - meta_size - align) size) _ _
          (λ large. refused refl v (inr (inl (ltb→lt _ size large))))
          (λ fits.
            Searched-Served s xs size (heap_find_free (total_size size) s) v (ground arith)
              (ground arith) (heap_find_free-none s (total_size size))
              (heap_find_free_lem s (total_size size) xs v.list)))
