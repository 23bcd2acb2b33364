-- ===== src/Pages.antt =====
-- The physical page allocator, mm/page_alloc.c, with the memory map of include/novium/boot_info.h.
-- `PageBitmap` is a function from the word's index, and the addresses that the linker and GRUB
-- supply are arguments. Masks of low bits are written as division and remainder.
pub mod Counting
pub mod Update
pub mod Search
pub mod Alloc
pub mod Free
pub mod Range
pub mod Boot
mod Tests
use novium_os.Prelude.{
  ℕ, zero, suc, ◌+◌, ◌-◌, ◌*◌, ◌/◌, ◌%◌, ◌^◌, Bool, true, false, not, ◌&&◌, ◌||◌, Option, none,
  some, ltb, leb, ◌==◌, if◌then◌else◌, update,
}
use novium_os.Prelude.Bits.{has_bit, set_bit, clear_bit}

abbrev pub page_size : ℕ
page_size = 4096

abbrev pub page_count : ℕ
page_count = 1048576

abbrev pub bitmap_words : ℕ
bitmap_words = page_count / 32

-- The static variables of the file.
pub record PageAllocator : Type 0 where
  pub page_bitmap : ℕ → ℕ
  pub free_pages : ℕ

pub data PageState : Type 0 where
  used available : PageState

-- `PageBitmap[Page / 32u] & (1u << (Page % 32u))` is not 0.
unfoldable pub is_free : PageAllocator → ℕ → Bool
is_free s page = has_bit (s.page_bitmap (page / 32)) (page % 32)

unfoldable pub page_set : PageAllocator → ℕ → PageState → PageAllocator
unfolding is_free
page_set s page available = if is_free s page then s else record s {
  page_bitmap = update s.page_bitmap (page / 32) (set_bit (s.page_bitmap (page / 32)) (page % 32));
  free_pages = (s.free_pages + 1) % 2 ^ 32;
}
page_set s page used =
    if is_free s page
    then record s {
      page_bitmap =
          update s.page_bitmap (page / 32) (clear_bit (s.page_bitmap (page / 32)) (page % 32));
      free_pages = (s.free_pages + 2 ^ 32 - 1) % 2 ^ 32;
    }
    else s

-- The two ways in which a range is rounded to pages.
pub first_byte : PageState → ℕ → ℕ
first_byte available base = (base + page_size - 1) / page_size * page_size
first_byte used base = base / page_size * page_size

pub last_byte : PageState → ℕ → ℕ
last_byte available end = end / page_size * page_size
last_byte used end = (end + page_size - 1) / page_size * page_size

-- `for (; First < Last; First += PAGE_SIZE)`, with fuel for the rounds.
pub set_pages : ℕ → ℕ → ℕ → PageState → PageAllocator → PageAllocator
set_pages zero first last state s = s
set_pages (suc fuel) first last state s =
    let page = first / page_size in
    let s' = if ltb page page_count then page_set s page state else s in
    let rest = set_pages fuel (first + page_size) last state s' in
    if ltb first last then rest else s

pub page_set_range : PageAllocator → ℕ → ℕ → PageState → PageAllocator
unfolding first_byte last_byte
page_set_range s base length state =
    let end = (base + length) % 2 ^ 64 in
    let clipped = if ltb (2 ^ 32) end then 2 ^ 32 else end in
    if ltb end base || leb (2 ^ 32) base
    then s
    else set_pages (suc page_count) (first_byte state base) (last_byte state clipped) state s

pub record BootInfo : Type 0 where
  pub memory_map_addr : ℕ
  pub memory_map_length : ℕ

-- `struct multiboot_mmap`; `kind` is its field `type`, and 1 is `MultibootMemoryAvailable`.
pub record MemoryMapEntry : Type 0 where
  pub size : ℕ
  pub base_addr : ℕ
  pub length : ℕ
  pub kind : ℕ

-- The first `n` words of the bitmap set to 0, in the loop's order.
pub clear_words : ℕ → ℕ → (ℕ → ℕ) → ℕ → ℕ
clear_words zero index bitmap = bitmap
clear_words (suc n) index bitmap = clear_words n (index + 1) (update bitmap index 0)

-- What GRUB and the linker leave in memory: the entries by address, and the kernel's image.
pub record Machine : Type 0 where
  pub entry_at : ℕ → MemoryMapEntry
  pub kernel_start : ℕ
  pub kernel_end : ℕ

unfoldable pub map_entry : Machine → BootInfo → ℕ → MemoryMapEntry
map_entry m boot offset = m.entry_at ((boot.memory_map_addr + offset) % 2 ^ 32)

-- The loop's condition, and that its first `if` does not break.
pub entry_fits : Machine → BootInfo → ℕ → Bool
unfolding map_entry
entry_fits m boot offset =
    let size = (map_entry m boot offset).size in
    let room = (boot.memory_map_length + 2 ^ 32 + 2 ^ 32 - offset - 4) % 2 ^ 32 in
    leb ((offset + 4) % 2 ^ 32) boot.memory_map_length && not (ltb size 20 || ltb room size)

pub read_entry : Machine → BootInfo → ℕ → PageAllocator → PageAllocator
unfolding map_entry
read_entry m boot offset s =
    let entry = map_entry m boot offset in
    if entry.kind == 1 then page_set_range s entry.base_addr entry.length available else s

pub next_offset : Machine → BootInfo → ℕ → ℕ
unfolding map_entry
next_offset m boot offset = (offset + (4 + (map_entry m boot offset).size)) % 2 ^ 32

-- The `while` loop over the memory map, with fuel for its rounds.
pub read_map : Machine → BootInfo → ℕ → ℕ → PageAllocator → PageAllocator
unfolding entry_fits read_entry next_offset
read_map m boot zero offset s = s
read_map m boot (suc fuel) offset s =
    let rest = read_map m boot fuel (next_offset m boot offset) (read_entry m boot offset s) in
    if entry_fits m boot offset then rest else s

pub protect : Machine → PageAllocator → PageAllocator
protect m s =
    page_set_range (page_set_range s 0 0x100000 used) m.kernel_start
      ((m.kernel_end + 2 ^ 32 - m.kernel_start) % 2 ^ 32) used

init_from : Machine → BootInfo → PageAllocator → PageAllocator
unfolding protect
init_from m boot s =
    if boot.memory_map_addr == 0 || boot.memory_map_length == 0
    then s
    else protect m (read_map m boot boot.memory_map_length 0 s)

pub cleared : PageAllocator → PageAllocator
cleared s = record s { page_bitmap = clear_words bitmap_words 0 s.page_bitmap; free_pages = 0 }

pub page_alloc_init : Machine → Option BootInfo → PageAllocator → PageAllocator
unfolding cleared init_from
page_alloc_init m none s = cleared s
page_alloc_init m (some boot) s = init_from m boot (cleared s)

-- The inner loop of `PageAlloc`, with `n` bits left to test.
pub find_bit : ℕ → ℕ → ℕ → Option ℕ
find_bit zero bit word = none
find_bit (suc n) bit word =
    let rest = find_bit n (bit + 1) word in if has_bit word bit then some bit else rest

-- The outer loop, with `n` words left: the first free page.
pub find_page : ℕ → ℕ → (ℕ → ℕ) → Option ℕ
find_page zero word bitmap = none
find_page (suc n) word bitmap =
    let rest = find_page n (word + 1) bitmap in
    let here = elim (find_bit 32 0 (bitmap word)) as (λ _. Option ℕ) [
      | none ↦ rest
      | some bit ↦ some (word * 32 + bit)
    ] in
    if bitmap word == 0 then rest else here

pub page_alloc : PageAllocator → ℕ × PageAllocator
unfolding find_page find_bit
page_alloc s = elim (find_page bitmap_words 0 s.page_bitmap) [
  | none ↦ (0, s)
  | some page ↦ (page * page_size % 2 ^ 32, page_set s page used)
]

-- `Run` when the inner loop stops: how many of the `n` pages from `page` on are free in a row.
pub run_length : PageAllocator → ℕ → ℕ → ℕ
run_length s zero page = 0
run_length s (suc n) page =
    let rest = suc (run_length s n (page + 1)) in if is_free s page then rest else 0

-- The loop over `Start`. Behind a used page it goes on with the page after that.
pub find_run : PageAllocator → ℕ → ℕ → ℕ → Option ℕ
find_run s count zero start = none
find_run s count (suc fuel) start =
    let run = run_length s count start in
    let rest = find_run s count fuel (start + run + 1) in
    let here = if run == count then some start else rest in
    if leb start (page_count - count) then here else none

-- `for (Run = 0; Run < count; Run++) PageSet(Start + Run, State)`
unfoldable pub set_run : ℕ → ℕ → PageState → PageAllocator → PageAllocator
set_run zero page state s = s
set_run (suc n) page state s = set_run n (page + 1) state (page_set s page state)

-- Both functions that take several pages run this from their first page on.
pub take_run : PageAllocator → ℕ → ℕ → ℕ × PageAllocator
unfolding find_run run_length set_run
take_run s start count = elim (find_run s count (suc page_count) start) [
  | none ↦ (0, s)
  | some page ↦ (page * page_size % 2 ^ 32, set_run count page used s)
]

pub refuses : PageAllocator → ℕ → Bool
refuses s count = count == 0 || ltb s.free_pages count || ltb page_count count

pub page_alloc_pages : PageAllocator → ℕ → ℕ × PageAllocator
unfolding take_run refuses
page_alloc_pages s count = if refuses s count then (0, s) else take_run s 0 count

pub page_alloc_pages_at : PageAllocator → ℕ → ℕ → ℕ × PageAllocator
unfolding take_run refuses
page_alloc_pages_at s start_hint count =
    let hint_page = if start_hint == 0 then 0 else start_hint / page_size in
    if refuses s count then (0, s) else take_run s hint_page count

pub page_free : PageAllocator → ℕ → PageAllocator
page_free s address =
    if address == 0 || not (address % page_size == 0)
    then s
    else if leb page_count (address / page_size)
    then s
    else page_set s (address / page_size) available

unfoldable pub page_free_pages : PageAllocator → ℕ → ℕ → PageAllocator
unfolding set_run
page_free_pages s address count =
    let start = address / page_size in
    if address == 0 || not (address % page_size == 0) || count == 0
    then s
    else if leb page_count start || ltb (page_count - start) count
    then s
    else set_run count start available s

unfoldable pub page_alloc_free_count : PageAllocator → ℕ
page_alloc_free_count s = s.free_pages
