-- ===== src/Pages/Tests.antt =====
-- Runs of the page allocator, and its theorems at concrete inputs.
use novium_os.Prelude.{
  ℕ, ◌*◌, ◌/◌, ◌%◌, ◌≤◌, ◌<◌, ◌≡◌, refl, sym, true, false, ◌==◌, if◌then◌else◌, some, arith,
}
use novium_os.Prelude.Bits.{has_bit, clear_bit, has_bit-zero}
use novium_os.Pages.{
  PageAllocator, page_count, is_free, page_set, BootInfo, Machine, page_alloc, page_alloc_pages,
  page_free_pages, page_alloc_init,
}
use novium_os.Pages.Update.{IsValid}
use novium_os.Pages.Counting.{count, count_above}
use novium_os.Pages.Alloc.{Granted, page_alloc_pages-Granted}
use novium_os.Pages.Free.{alloc-free_pages}
use novium_os.Pages.Boot.{Allowed, page_alloc_init-Allowed}

-- Pages 33, 34 and 36 to 39 are free.
abbrev sample : PageAllocator
sample = record { page_bitmap = λ w. if w == 1 then 0xf6 else 0; free_pages = 6 }

alloc_lowest : (page_alloc sample).0 ≡ 33 * 4096
unfolding page_alloc has_bit
alloc_lowest = refl

-- The run of two pages at 33 is too short, so the search goes on behind page 35.
alloc_first_fit :
    ((page_alloc_pages sample 3).0 ≡ 36 * 4096) × ((page_alloc_pages sample 3).1.free_pages ≡ 3)
unfolding page_alloc_pages has_bit is_free page_set clear_bit
alloc_first_fit = (refl, refl)

alloc_too_many : page_alloc_pages sample 7 ≡ (0, sample)
unfolding page_alloc_pages
alloc_too_many = refl

sample-above : (i : ℕ) → 64 ≤ i → is_free sample i ≡ false
unfolding is_free
sample-above i h =
    let other : (i / 32 == 1) ≡ false = ground arith in rw other (has_bit-zero (i % 32))

sample-IsValid : IsValid sample
unfolding is_free has_bit count
sample-IsValid = record {
  counted = sym (count_above (is_free sample) 64 page_count sample-above (omega arith));
  no_page_zero = refl;
}

page_alloc_pages-Granted_example : Granted sample 3 0 (page_alloc_pages sample 3)
page_alloc_pages-Granted_example = page_alloc_pages-Granted sample 3 sample-IsValid

abbrev taken : PageAllocator
taken = (page_alloc_pages sample 3).1

alloc-free_pages_example :
    ((q : ℕ) → is_free (page_free_pages taken (36 * 4096) 3) q ≡ is_free sample q)
    × ((page_free_pages taken (36 * 4096) 3).free_pages ≡ 6)
    × IsValid (page_free_pages taken (36 * 4096) 3)
unfolding page_alloc_pages has_bit is_free page_set clear_bit
alloc-free_pages_example =
    alloc-free_pages sample 3 (36 * 4096) taken sample-IsValid refl (omega arith)

-- One region of a MiB above the first, with four pages of it under the kernel.
abbrev machine : Machine
machine = record {
  entry_at = λ _. record { size = 20; base_addr = 0x100000; length = 0x100000; kind = 1 };
  kernel_start = 0x100000;
  kernel_end = 0x104000;
}

abbrev boot : BootInfo
boot = record { memory_map_addr = 4096; memory_map_length = 24 }

page_alloc_init-Allowed_example :
    IsValid (page_alloc_init machine (some boot) sample)
    × ((q : ℕ)
        → q < page_count
        → is_free (page_alloc_init machine (some boot) sample) q ≡ true
        → Allowed machine boot q)
page_alloc_init-Allowed_example =
    page_alloc_init-Allowed machine boot sample (omega arith) (omega arith)
