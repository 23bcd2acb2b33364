-- ===== src/Heap/Growing.antt =====
-- `HeapGrow`: pages of the page allocator become a block of the heap.
use novium_os.Prelude.{
  ℕ, ◌+◌, ◌-◌, ◌*◌, ◌/◌, ◌%◌, ◌^◌, ◌≤◌, ◌<◌, ◌≡◌, ◌≢◌, ◌⊎◌, inl, inr, refl, sym, ap, subst, ◌∙◌,
  true, false, leb, ◌==◌, if◌then◌else◌, List, arith, Bool-cases, if_cases, leb→le, update_same,
  update_other,
}
use novium_os.Pages.{PageAllocator, is_free, page_count, page_alloc_pages_at}
use novium_os.Pages.Search.{RunFree}
use novium_os.Pages.Alloc.{Granted, Took, page_alloc_pages_at-Granted}
use novium_os.Heap.{
  Block, Heap, heap_magic, segment_cap, heap_growth_hint, add_segment, heap_list_insert, heap_grow,
}
use novium_os.Heap.Walking.{inserted}
use novium_os.Heap.Sound.{
  IsBlock, IsValid, IsHeld, view, Unseen, IsValid-Unseen, insert-IsValid, insert-size,
}
use novium_os.Task.Members.{mem}

-- The new state of the page allocator, with the old blocks.
with_pages-IsValid :
    (s : Heap) (xs : List ℕ) (n p : ℕ) (pages : PageAllocator)
    → IsValid s xs
    → Took s.pages n p pages
    → IsValid (record s { pages = pages }) xs
with_pages-IsValid s xs n p pages v t =
    let still : (q : ℕ) → is_free s.pages q ≡ false → is_free pages q ≡ false =
      λ q used. ground (arith, t.now q) in
    record {
      list = record {
        linked = v.list.linked;
        ascending = v.list.ascending;
        inside = v.list.inside;
      };
      blocks = λ i m.
          let k = v.blocks i m in
          record {
            positive = k.positive;
            aligned = k.aligned;
            large = k.large;
            below = k.below;
            owned = λ q low high. still q (k.owned q low high);
          };
      marked = v.marked;
      apart = v.apart;
      pages = t.valid;
      top_used = still (page_count - 1) v.top_used;
    }

-- Free pages meet no block.
run_apart :
    (s : Heap) (i n p : ℕ)
    → IsBlock s i
    → RunFree s.pages n p
    → 0 < n
    → (i + (s.blocks i).size ≤ p * 4096) ⊎ ((p + n) * 4096 ≤ i)
run_apart s i n p k free pos = elim (Bool-cases (leb (i + (s.blocks i).size) (p * 4096))) [
  | inl below ↦ inl (ground arith)
  | inr high ↦ elim (Bool-cases (leb ((p + n) * 4096) i)) [
    | inl above ↦ inr (ground arith)
    | inr low ↦ elim (Bool-cases (leb i (p * 4096))) [
      | inl first ↦
          let used = k.owned p (ground arith) (ground arith) in
          let open_page = free p (omega arith) (omega arith) in absurd (cc)
      | inr later ↦
          let used = k.owned (i / 4096) (ground arith) (omega (arith, k.large)) in
          let open_page = free (i / 4096) (ground arith) (ground arith) in absurd (cc)
    ]
  ]
]

module _ (s : Heap) (xs : List ℕ) (n p : ℕ) (pages : PageAllocator) (v : IsValid s xs)
    (t : Took s.pages n p pages) (pos : 0 < n) (first : 0 < p) (fits : p + n ≤ page_count) where
  abbrev grown : Heap
  grown = record s { pages = pages }

  abbrev added : Heap
  added = add_segment (p * 4096) n grown

  not_top : p + n < page_count
  not_top = elim (Bool-cases (p + n == page_count)) [
    | inl all ↦
        let used = v.top_used in
        let open_page = t.were_free (page_count - 1) (ground arith) (ground arith) in absurd (cc)
    | inr less ↦ ground arith
  ]

  new_off : mem (p * 4096) xs ≡ false
  new_off = elim (Bool-cases (mem (p * 4096) xs)) [
    | inl on ↦
        let k = v.blocks (p * 4096) on in
        let used = k.owned p (omega arith) (omega (arith, k.large)) in
        let open_page = t.were_free p (omega arith) (omega arith) in absurd (cc)
    | inr off ↦ off
  ]

  new_header :
      (added.blocks (p * 4096)).size ≡ n * 4096
      × ((added.blocks (p * 4096)).magic ≡ heap_magic)
      × ((added.blocks (p * 4096)).is_free ≡ true)
  unfolding add_segment
  new_header =
      let small : n * 4096 % 2 ^ 32 ≡ n * 4096 = omega (arith, not_top) in
      let own = update_same s.blocks (p * 4096) (record (s.blocks (p * 4096)) {
        magic = heap_magic;
        size = n * 4096 % 2 ^ 32;
        prev_size = 0;
        is_free = true;
      }) in
      (
        ap (λ (k : Block). k.size) own ∙ small,
        ap (λ (k : Block). k.magic) own,
        ap (λ (k : Block). k.is_free) own,
      )

  added-Unseen : Unseen grown added xs
  unfolding add_segment
  added-Unseen = record {
    views = λ i on.
        let ne : p * 4096 ≢ i = ground (arith, new_off) in
        ap view (update_other s.blocks (p * 4096) i _ ne);
    head = refl;
    pages = refl;
  }

  added-IsValid : IsValid added xs
  added-IsValid = IsValid-Unseen grown added xs added-Unseen (with_pages-IsValid s xs n p pages v t)

  added-IsHeld : IsHeld added xs (p * 4096)
  added-IsHeld =
      let size = new_header.0 in
      record {
        block = record {
          positive = omega (arith, first);
          aligned = (omega arith, rw size (omega arith));
          large = rw size (omega (arith, pos));
          below = rw size (omega (arith, not_top));
          owned = λ q low high. rw (added-Unseen.pages) (ground (arith, t.now q, size, low, high));
        };
        off = new_off;
        clear = λ i on.
            let same : (added.blocks i).size ≡ (s.blocks i).size =
              ap (λ (k : Block). k.size) (added-Unseen.views i on) in
            elim (run_apart s i n p (v.blocks i on) t.were_free pos) [
              | inl below ↦ inl (omega (arith, same, below))
              | inr above ↦ inr (omega (arith, size, above))
            ];
      }

-- The pages of the `size` bytes from `b` on were free.
abbrev pub WereFree : Heap → ℕ → ℕ → Type 0
WereFree s b size = (q : ℕ) → b < (q + 1) * 4096 → q * 4096 < b + size → is_free s.pages q ≡ true

-- What `HeapGrow` comes to: no block, with the reason, and the list as it was; or a free block of those
-- pages, which were free and which is on the list.
unfoldable pub Grown : Heap → List ℕ → ℕ → ℕ × Heap → Type 0
Grown s xs n (b, s') =
    ((b ≡ 0)
      × IsValid s' xs
      × ((segment_cap ≤ s.segment_count)
          ⊎ (n ≡ 0)
          ⊎ ((q : ℕ) → heap_growth_hint s / 4096 ≤ q → q + n ≤ page_count → ¬ RunFree s.pages n q)))
    ⊎ ((0 < b)
        × IsValid s' (inserted b xs)
        × (mem b xs ≡ false)
        × ((s'.blocks b).size ≡ n * 4096)
        × WereFree s b (n * 4096))

-- `HeapGrow` for an answer of the page allocator.
abbrev grow_by : Heap → ℕ → ℕ × PageAllocator → ℕ × Heap
grow_by s n (b, p) =
    let grown = record s { pages = p } in
    if leb segment_cap s.segment_count
    then (0, s)
    else if b == 0
    then (0, grown)
    else (b, heap_list_insert b (add_segment b n grown))

listed-Grown :
    (s : Heap) (xs : List ℕ) (n p : ℕ) (pages : PageAllocator)
    → IsValid s xs
    → Took s.pages n p pages
    → 0 < n
    → 0 < p
    → p + n ≤ page_count
    → Grown s xs n (
      p * 4096,
      heap_list_insert (p * 4096) (add_segment (p * 4096) n (record s { pages = pages })),
    )
unfolding Grown
listed-Grown s xs n p pages v t pos first fits =
    let w = added-IsValid s xs n p pages v t pos first fits in
    let h = added-IsHeld s xs n p pages v t pos first fits in
    let k = new_header s xs n p pages v t pos first fits in
    inr (
      omega (arith, first),
      insert-IsValid _ xs (p * 4096) w h k.1 k.2,
      h.off,
      insert-size _ xs (p * 4096) w h ∙ k.0,
      λ q low high. t.were_free q (omega arith) (omega arith),
    )

grow_by-Grown :
    (s : Heap) (xs : List ℕ) (n : ℕ) (r : ℕ × PageAllocator)
    → IsValid s xs
    → Granted s.pages n (heap_growth_hint s / 4096) r
    → Grown s xs n (grow_by s n r)
unfolding Grown
grow_by-Grown s xs n (b, p) v (inl refused) =
    if_cases (Grown s xs n) (leb segment_cap s.segment_count) _ _
      (λ full. inl (refl, v, inl (leb→le segment_cap s.segment_count full)))
      (λ room.
        if_cases (Grown s xs n) (b == 0) _ _
          (λ none_left. inl (
            refl,
            subst (λ k. IsValid (record s { pages = k }) xs) (sym refused.1) v,
            inr refused.2,
          ))
          (λ some_left. absurd (ground (arith, refused))))
grow_by-Grown s xs n (b, p) v (inr (page, at, pos, first, _, fits, _, took)) =
    if_cases (Grown s xs n) (leb segment_cap s.segment_count) _ _
      (λ full. inl (refl, v, inl (leb→le segment_cap s.segment_count full)))
      (λ room.
        if_cases (Grown s xs n) (b == 0) _ _ (λ none_left. absurd (ground (arith, at, first)))
          (λ some_left.
            subst
              (λ k. Grown s xs n (k, heap_list_insert k (add_segment k n (record s { pages = p }))))
              (sym at) (listed-Grown s xs n page p v took pos first fits)))

-- `HeapGrow` makes a free block of pages that were free and puts it on the list, or finds no room: all
-- eight segments are in use, or there is no run of free pages from the end of the heap on.
pub heap_grow-Grown : (s : Heap) (xs : List ℕ) (n : ℕ) → IsValid s xs → Grown s xs n (heap_grow n s)
unfolding heap_grow
heap_grow-Grown s xs n v =
    grow_by-Grown s xs n (page_alloc_pages_at s.pages (heap_growth_hint s) n) v
      (page_alloc_pages_at-Granted s.pages (heap_growth_hint s) n v.pages)
