-- ===== src/Startup/Memory.antt =====
-- Memory after the start: the page allocator and the heap on it.
use novium_os.Prelude.{
  ℕ, ◌<◌, ◌+◌, ◌*◌, ◌/◌, ◌≤◌, ◌⊎◌, [], ◌∷◌, ◌-◌, some, Bool-cases, inl, inr, arith, ◌≡◌, true,
}
use novium_os.Pages.{BootInfo, Machine, is_free, page_count, page_alloc_init}
use novium_os.Pages.Boot.{Allowed, KernelPlaced, MapGiven, page_alloc_init-Allowed}
use novium_os.Pages.Search.{RunFree}
use novium_os.Heap.{Heap, segment_cap, heap_growth_hint}
use novium_os.Heap.Sound.{IsValid}
use novium_os.Heap.Starting.{Started, heap_init-Started}
use novium_os.Startup.{memory_init}

-- The heap of the start: sound, with one free block of 16 pages, all of which the map and the kernel's
-- image allow, or with no block, because no segment or no run of 16 free pages is left.
unfoldable pub Based : Machine → BootInfo → Heap → Heap → Type 0
Based m boot s s' =
    ((b : ℕ) × (0 < b)
      × IsValid s' (b ∷ [])
      × ((s'.blocks b).size ≡ 16 * 4096)
      × ((q : ℕ) → b < (q + 1) * 4096 → q * 4096 < b + 16 * 4096 → Allowed m boot q))
    ⊎ (IsValid s' []
        × ((segment_cap ≤ s.segment_count)
            ⊎ ((q : ℕ)
                → heap_growth_hint s / 4096 ≤ q
                → q + 16 ≤ page_count
                → ¬ RunFree (page_alloc_init m (some boot) s.pages) 16 q)))

of_Started :
    (m : Machine) (boot : BootInfo) (s s' : Heap)
    → ((q : ℕ)
        → q < page_count
        → is_free (page_alloc_init m (some boot) s.pages) q ≡ true
        → Allowed m boot q)
    → Started (record s { pages = page_alloc_init m (some boot) s.pages }) s'
    → Based m boot s s'
unfolding Based heap_growth_hint
of_Started m boot s s' allowed (inl (b, pos, v, size, were)) =
    let k = v.blocks b (ground arith) in
    inl (b, pos, v, size, λ q low high. allowed q (omega (arith, k.below, size)) (were q low high))
of_Started m boot s s' allowed (inr none_left) = inr none_left

-- With the kernel's image in its place and a memory map whose entries do not offer the last page of the
-- address space, the heap starts sound: with one free block of 16 pages that the map and the kernel's
-- image allow, or with none if no segment or no run of 16 free pages is left.
pub memory_init-Based :
    (m : Machine) (boot : BootInfo) (s : Heap)
    → KernelPlaced m
    → MapGiven boot
    → ¬ Allowed m boot (page_count - 1)
    → Based m boot s (memory_init m (some boot) s)
unfolding memory_init
memory_init-Based m boot s placed given top =
    let pages = page_alloc_init m (some boot) s.pages in
    let a = page_alloc_init-Allowed m boot s.pages placed given in
    of_Started m boot s _ a.1 (
      heap_init-Started (record s { pages = pages }) a.0
        (elim (Bool-cases (is_free pages (page_count - 1))) [
          | inl free ↦ absurd (top (a.1 (page_count - 1) (omega arith) free))
          | inr used ↦ used
        ]))
