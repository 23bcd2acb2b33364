-- ===== src/Heap/Tests.antt =====
-- Runs of the heap, and its theorems at concrete inputs.
use novium_os.Prelude.{
  ℕ, ◌/◌, ◌%◌, ◌-◌, ◌≤◌, ◌≡◌, refl, sym, true, false, ◌==◌, if◌then◌else◌, List, [], ◌∷◌, arith,
}
use novium_os.Prelude.Bits.{has_bit, set_bit, has_bit-zero}
use novium_os.Pages.{PageAllocator, page_count, is_free, page_free_pages, set_run, page_set}
use novium_os.Pages.Update
use novium_os.Pages.Counting.{count, count_above}
use novium_os.Heap.{Block, Heap, heap_magic, kmalloc, kfree, heap_find_free, first_fit}
use novium_os.Heap.Sound.{IsValid}
use novium_os.Heap.Allocating.{Served, kmalloc-Served}
use novium_os.Task.Members.{mem}

-- Pages 36 to 39 are free.
abbrev pages : PageAllocator
pages = record { page_bitmap = λ w. if w == 1 then 0xf0 else 0; free_pages = 4 }

pages-above : (i : ℕ) → 64 ≤ i → is_free pages i ≡ false
unfolding is_free
pages-above i h =
    let other : (i / 32 == 1) ≡ false = ground arith in rw other (has_bit-zero (i % 32))

pages-IsValid : Update.IsValid pages
unfolding is_free has_bit count
pages-IsValid = record {
  counted = sym (count_above (is_free pages) 64 page_count pages-above (omega arith));
  no_page_zero = refl;
}

abbrev blank : Block
blank = record { magic = 0; size = 0; prev_size = 0; is_free = false; prev = 0; next = 0 }

-- Page 33 is one free block.
abbrev heap : Heap
heap = record {
  blocks = λ a.
      if a == 0x21000
      then record blank { magic = heap_magic; size = 4096; is_free = true }
      else blank;
  segments = record { base = 0x21000; end = 0x22000 } ∷ [];
  segment_count = 1;
  free_head = 0x21000;
  pages = pages;
}

abbrev listed : List ℕ
listed = 0x21000 ∷ []

only : (i : ℕ) → mem i listed ≡ true → i ≡ 0x21000
only i h = ground arith

page_33-used : is_free pages 33 ≡ false
unfolding is_free has_bit
page_33-used = refl

top-used : is_free pages (page_count - 1) ≡ false
unfolding is_free has_bit
top-used = refl

heap-IsValid : IsValid heap listed
heap-IsValid = record {
  list = record {
    linked = (refl, refl, refl);
    ascending = (omega arith, tt);
    inside = λ i h. omega (arith, only i h);
  };
  blocks = λ i h. rw (only i h) (record {
    positive = omega arith;
    aligned = (refl, refl);
    large = omega arith;
    below = omega arith;
    owned = λ q low high. let same : q ≡ 33 = omega arith in rw same page_33-used;
  });
  marked = λ i h. rw (only i h) (refl, refl);
  apart = λ i j h k ne. absurd (omega (arith, ne, only i h, only j k));
  pages = pages-IsValid;
  top_used = top-used;
}

kmalloc-Served_example : Served heap listed 100 (kmalloc 100 heap)
kmalloc-Served_example = kmalloc-Served heap listed 100 heap-IsValid

-- The first 120 bytes are given out; the rest stays on the list.
first_request :
    ((kmalloc 100 heap).0 ≡ 0x21010)
    × (((kmalloc 100 heap).1.blocks 0x21000).size ≡ 120)
    × ((kmalloc 100 heap).1.free_head ≡ 0x21078)
unfolding kmalloc heap_find_free first_fit
first_request = (refl, refl, refl)

-- A block of 17 pages in use from page 33 on, with a block behind it in its segment.
abbrev long_lived : Heap
long_lived = record heap {
  blocks = λ a.
      if a == 0x21000
      then record blank { magic = heap_magic; size = 0x11000 }
      else if a == 0x32000
      then record blank { magic = heap_magic; size = 4096; prev_size = 0x11000 }
      else blank;
  segments = record { base = 0x21000; end = 0x33000 } ∷ [];
  free_head = 0;
}

-- Its last page goes back to the page allocator and stays on the free list of the heap too; the block
-- behind does not know the page as its neighbour.
owned_twice :
    (is_free (kfree 0x21010 long_lived).pages 49 ≡ true)
    × ((kfree 0x21010 long_lived).free_head ≡ 0x21000)
    × (((kfree 0x21010 long_lived).blocks 0x21000).next ≡ 0x31000)
    × (((kfree 0x21010 long_lived).blocks 0x31000).size ≡ 4096)
    × (((kfree 0x21010 long_lived).blocks 0x32000).prev_size ≡ 0x10000)
unfolding kfree is_free has_bit page_free_pages set_run page_set set_bit
owned_twice = (refl, refl, refl, refl, refl)
