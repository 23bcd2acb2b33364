-- ===== src/Heap/Starting.antt =====
-- `HeapInit`: where the invariant of the heap comes from.
use novium_os.Prelude.{
  ℕ, ◌*◌, ◌-◌, ◌<◌, ◌≤◌, ◌+◌, ◌/◌, ◌≡◌, ◌⊎◌, inl, inr, refl, false, [], ◌∷◌, arith,
}
use novium_os.Pages.{is_free, page_count}
use novium_os.Pages.Update
use novium_os.Pages.Search.{RunFree}
use novium_os.Heap.{Heap, grow_pages, segment_cap, heap_growth_hint, heap_grow, heap_init}
use novium_os.Heap.Sound.{IsValid}
use novium_os.Heap.Growing.{Grown, WereFree, heap_grow-Grown}

-- The free list of a heap that was started: one block of 16 pages that
-- were free, or none, with the reason.
abbrev pub Started : Heap → Heap → Type 0
Started s s' =
    ((b : ℕ) × (0 < b)
      × IsValid s' (b ∷ [])
      × ((s'.blocks b).size ≡ grow_pages * 4096)
      × WereFree s b (grow_pages * 4096))
    ⊎ (IsValid s' []
        × ((segment_cap ≤ s.segment_count)
            ⊎ ((q : ℕ)
                → heap_growth_hint s / 4096 ≤ q
                → q + grow_pages ≤ page_count
                → ¬ RunFree s.pages grow_pages q)))

empty-IsValid :
    (s : Heap)
    → Update.IsValid s.pages
    → is_free s.pages (page_count - 1) ≡ false
    → IsValid (record s { free_head = 0 }) []
empty-IsValid s v top = record {
  list = record { linked = refl; ascending = tt; inside = λ i h. cc };
  blocks = λ i h. cc;
  marked = λ i h. cc;
  apart = λ i j h k ne. cc;
  pages = v;
  top_used = top;
}

Grown-Started :
    (s : Heap) (r : ℕ × Heap) → Grown (record s { free_head = 0 }) [] grow_pages r → Started s r.1
unfolding Grown heap_growth_hint
Grown-Started s (b, s') (inl (zero_block, v, inl full)) = inr (v, inl full)
Grown-Started s (b, s') (inl (zero_block, v, inr (inl nothing))) = absurd (omega (arith, nothing))
Grown-Started s (b, s') (inl (zero_block, v, inr (inr none_free))) = inr (v, inr none_free)
Grown-Started s (b, s') (inr made) = inl (b, made.0, made.1, made.3, made.4)

-- On a page allocator that is valid and does not give the last page out, `HeapInit` starts the heap with
-- one free block of 16 pages that were free, or with none if no segment or no run of 16 pages is left.
-- The heap is sound whatever was in the memory and on the list.
pub heap_init-Started :
    (s : Heap)
    → Update.IsValid s.pages
    → is_free s.pages (page_count - 1) ≡ false
    → Started s (heap_init s)
unfolding heap_init
heap_init-Started s v top =
    Grown-Started s (heap_grow grow_pages (record s { free_head = 0 }))
      (heap_grow-Grown (record s { free_head = 0 }) [] grow_pages (empty-IsValid s v top))
