-- ===== src/Pages/Boot.antt =====
-- `PageAllocInit`: the memory map, and what may be free afterwards.
use novium_os.Prelude.{
  ℕ, zero, suc, ◌+◌, ◌-◌, ◌*◌, ◌/◌, ◌%◌, ◌^◌, ◌≤◌, ◌<◌, ◌≡◌, sym, subst, ◌⊎◌, inl, inr, ◌≢◌, true,
  false, ◌==◌, ltb, leb, ◌||◌, ◌&&◌, if◌then◌else◌, none, some, arith, Bool-cases, update,
}
use novium_os.Prelude.Bits.{has_bit-zero}
use novium_os.Pages.{
  PageAllocator, used, available, page_count, page_size, bitmap_words, is_free, page_set_range,
  BootInfo, Machine, MemoryMapEntry, clear_words, map_entry, entry_fits, read_entry, next_offset,
  read_map, protect, cleared, page_alloc_init,
}
use novium_os.Pages.Update.{IsValid}
use novium_os.Pages.Counting.{IsCounted, count_none}
use novium_os.Pages.Range.{range-IsCounted, range_available, range_used}

-- Where an entry of the memory map begins: the first at its start, and each later one right behind an
-- entry that is well formed, whose `size` does not count its own four bytes.
pub data StartsEntry (m : Machine) (boot : BootInfo) : ℕ → Type 0 where
  first_entry : StartsEntry m boot 0
  next_entry :
      (offset : ℕ)
      → StartsEntry m boot offset
      → 20 ≤ (m.entry_at ((boot.memory_map_addr + offset) % 2 ^ 32)).size
      → offset + 4 + (m.entry_at ((boot.memory_map_addr + offset) % 2 ^ 32)).size
        ≤ boot.memory_map_length
      → StartsEntry m boot
          (offset + 4 + (m.entry_at ((boot.memory_map_addr + offset) % 2 ^ 32)).size)

-- The page lies wholly inside an available region of the memory map.
abbrev pub InMap : Machine → BootInfo → ℕ → Type 0
InMap m boot q =
    (offset : ℕ) × StartsEntry m boot offset
    × (offset + 4 + (map_entry m boot offset).size ≤ boot.memory_map_length)
    × ((map_entry m boot offset).kind ≡ 1)
    × ((map_entry m boot offset).base_addr ≤ q * page_size)
    × ((q + 1) * page_size ≤ (map_entry m boot offset).base_addr + (map_entry m boot offset).length)

-- What holds while the memory map is read.
record MapInv (m : Machine) (boot : BootInfo) (s : PageAllocator) : Type 0 where
  counted : IsCounted s
  from_map : (q : ℕ) → q < page_count → is_free s q ≡ true → InMap m boot q

read_entry-MapInv :
    (m : Machine) (boot : BootInfo) (offset : ℕ) (s : PageAllocator)
    → StartsEntry m boot offset
    → offset + 4 + (map_entry m boot offset).size ≤ boot.memory_map_length
    → MapInv m boot s
    → MapInv m boot (read_entry m boot offset s)
unfolding read_entry
read_entry-MapInv m boot offset s starts fits v =
    elim (Bool-cases ((map_entry m boot offset).kind == 1)) [
      | inr other ↦ rw other v
      | inl kind ↦ rw kind (record {
        counted = range-IsCounted s entry.base_addr entry.length available v.counted;
        from_map = λ q h e. elim (range_available s entry.base_addr entry.length q e) [
          | inl before ↦ v.from_map q h before
          | inr inside ↦ (offset, starts, fits, ground arith, inside.0, inside.1)
        ];
      })
    ]
  where
    entry : MemoryMapEntry
    entry = map_entry m boot offset

-- An entry that passes the tests ends inside the map, and the offset does not wrap.
entry_fits_lem :
    (m : Machine) (boot : BootInfo) (offset : ℕ)
    → boot.memory_map_length + 4 < 2 ^ 32
    → offset ≤ boot.memory_map_length
    → entry_fits m boot offset ≡ true
    → (offset + 4 + (map_entry m boot offset).size ≤ boot.memory_map_length)
      × (next_offset m boot offset ≡ offset + 4 + (map_entry m boot offset).size)
      × (offset + 24 ≤ next_offset m boot offset)
unfolding entry_fits next_offset
entry_fits_lem m boot offset small inside e = (ground arith, ground arith, ground arith)

-- The offset behind an entry that passes the tests is where the next one begins.
next_offset-StartsEntry :
    (m : Machine) (boot : BootInfo) (offset : ℕ)
    → boot.memory_map_length + 4 < 2 ^ 32
    → offset ≤ boot.memory_map_length
    → entry_fits m boot offset ≡ true
    → StartsEntry m boot offset
    → StartsEntry m boot (next_offset m boot offset)
unfolding map_entry
next_offset-StartsEntry m boot offset small inside e starts =
    let f = entry_fits_lem m boot offset small inside e in
    subst (StartsEntry m boot) (sym f.1) (next_entry offset starts (omega (arith, f.1, f.2)) f.0)

read_map-MapInv :
    (m : Machine) (boot : BootInfo) (fuel offset : ℕ) (s : PageAllocator)
    → boot.memory_map_length + 4 < 2 ^ 32
    → offset ≤ boot.memory_map_length
    → StartsEntry m boot offset
    → MapInv m boot s
    → MapInv m boot (read_map m boot fuel offset s)
unfolding read_map
read_map-MapInv m boot zero offset s small inside starts v = v
read_map-MapInv m boot (suc fuel) offset s small inside starts v =
    elim (Bool-cases (entry_fits m boot offset)) [
      | inr stop ↦ rw stop v
      | inl more ↦
          let f = entry_fits_lem m boot offset small inside more in
          rw more (
            read_map-MapInv m boot fuel (next_offset m boot offset) (read_entry m boot offset s)
              small (omega (arith, f.0, f.1))
              (next_offset-StartsEntry m boot offset small inside more starts)
              (read_entry-MapInv m boot offset s starts f.0 v))
    ]

-- Once the fuel covers the rest of the memory map, more fuel changes nothing: `PageAllocInit` reads
-- the map to its end or to the first malformed entry.
read_map_enough :
    (m : Machine) (boot : BootInfo) (fuel extra offset : ℕ) (s : PageAllocator)
    → boot.memory_map_length + 4 < 2 ^ 32
    → offset ≤ boot.memory_map_length
    → boot.memory_map_length < offset + 24 * fuel
    → read_map m boot (fuel + extra) offset s ≡ read_map m boot fuel offset s
unfolding read_map
read_map_enough m boot zero extra offset s small inside enough = absurd (omega arith)
read_map_enough m boot (suc fuel) extra offset s small inside enough =
    let count : suc fuel + extra ≡ suc (fuel + extra) = omega arith in
    elim (Bool-cases (entry_fits m boot offset)) [
      | inr stop ↦ rw (count, read_map, stop)
      | inl more ↦
          let f = entry_fits_lem m boot offset small inside more in
          rw (count, read_map, more)
            (read_map_enough m boot fuel extra (next_offset m boot offset)
              (read_entry m boot offset s) small (omega (arith, f.0, f.1)) (omega (arith, f.2)))
    ]

clear_words_lem :
    (n index : ℕ) (bitmap : ℕ → ℕ) (w : ℕ)
    → clear_words n index bitmap w ≡ (if leb index w && ltb w (index + n) then 0 else bitmap w)
unfolding clear_words
clear_words_lem zero index bitmap w = ground arith
clear_words_lem (suc n) index bitmap w =
    ground (arith, clear_words_lem n (index + 1) (update bitmap index 0) w)

cleared_lem : (s : PageAllocator) (q : ℕ) → q < page_count → is_free (cleared s) q ≡ false
unfolding cleared is_free
cleared_lem s q h =
    let zero_word : clear_words bitmap_words 0 s.page_bitmap (q / 32) ≡ 0 =
      ground (arith, clear_words_lem bitmap_words 0 s.page_bitmap (q / 32)) in
    rw zero_word (has_bit-zero (q % 32))

cleared-MapInv : (m : Machine) (boot : BootInfo) (s : PageAllocator) → MapInv m boot (cleared s)
unfolding cleared
cleared-MapInv m boot s = record {
  counted = sym (count_none (is_free (cleared s)) page_count (cleared_lem s));
  from_map = λ q h e. let used_page = cleared_lem s q h in cc;
}

-- The kernel's image, as the linker places it.
abbrev pub KernelPlaced : Machine → Type 0
KernelPlaced m = (m.kernel_start ≤ m.kernel_end) × (m.kernel_end < 2 ^ 32)

-- What a free page is allowed to be after `PageAllocInit`.
pub record Allowed (m : Machine) (boot : BootInfo) (q : ℕ) : Type 0 where
  pub in_map : InMap m boot q
  pub above_low : 0x100000 ≤ q * page_size
  pub off_kernel : (m.kernel_end ≤ q * page_size) ⊎ ((q + 1) * page_size ≤ m.kernel_start)

-- The low memory is reserved first, and then the kernel's image.
protected_page :
    (m : Machine) (boot : BootInfo) (s : PageAllocator) (q : ℕ)
    → KernelPlaced m
    → MapInv m boot s
    → q < page_count
    → is_free (protect m s) q ≡ true
    → Allowed m boot q
unfolding protect
protected_page m boot s q placed v h e =
    let size = (m.kernel_end + 2 ^ 32 - m.kernel_start) % 2 ^ 32 in
    let low_reserved = page_set_range s 0 0x100000 used in
    let kernel = range_used low_reserved m.kernel_start size q (omega arith) h e in
    let low = range_used s 0 0x100000 q (omega arith) h kernel.0 in
    record {
      in_map = v.from_map q h low.0;
      above_low = omega (arith, low.1);
      off_kernel = elim kernel.1 [ inl a ↦ inl (omega arith) | inr b ↦ inr b ];
    }

protect-IsValid :
    (m : Machine) (boot : BootInfo) (s : PageAllocator)
    → KernelPlaced m
    → MapInv m boot s
    → IsValid (protect m s)
unfolding protect
protect-IsValid m boot s placed v = record {
  counted =
      range-IsCounted (page_set_range s 0 0x100000 used) m.kernel_start
        ((m.kernel_end + 2 ^ 32 - m.kernel_start) % 2 ^ 32) used
        (range-IsCounted s 0 0x100000 used v.counted);
  no_page_zero = elim (Bool-cases (is_free (protect m s) 0)) [
    | inr no_page ↦ no_page
    | inl page ↦
        let a = protected_page m boot s 0 placed v (omega arith) page in
        absurd (omega (arith, a.above_low))
  ];
}

-- A memory map that is there and whose length leaves room for the last `Offset + 4`.
abbrev pub MapGiven : BootInfo → Type 0
MapGiven boot =
    (boot.memory_map_addr ≢ 0)
    × (boot.memory_map_length ≢ 0)
    × (boot.memory_map_length + 4 < 2 ^ 32)

-- After `PageAllocInit` with a memory map the allocator is valid, and every page that it holds free
-- lies wholly inside a type 1 region of the map, above the first MiB and outside the kernel's image. The
-- region is that of one of the entries that follow each other from the start of the map.
pub page_alloc_init-Allowed :
    (m : Machine) (boot : BootInfo) (s : PageAllocator)
    → KernelPlaced m
    → MapGiven boot
    → IsValid (page_alloc_init m (some boot) s)
      × ((q : ℕ)
          → q < page_count
          → is_free (page_alloc_init m (some boot) s) q ≡ true
          → Allowed m boot q)
unfolding page_alloc_init
page_alloc_init-Allowed m boot s placed given =
    let there : (boot.memory_map_addr == 0 || boot.memory_map_length == 0) ≡ false = ground arith in
    let v =
      read_map-MapInv m boot boot.memory_map_length 0 (cleared s) given.2 (omega arith) first_entry
        (cleared-MapInv m boot s) in
    rw there (protect-IsValid m boot _ placed v, λ q h e. protected_page m boot _ q placed v h e)

-- Without a memory map every page stays used, and the allocator is valid.
page_alloc_init-none :
    (m : Machine) (s : PageAllocator)
    → IsValid (page_alloc_init m none s)
      × ((q : ℕ) → q < page_count → is_free (page_alloc_init m none s) q ≡ false)
unfolding page_alloc_init
page_alloc_init-none m s = (
  record {
    counted = sym (count_none (is_free (cleared s)) page_count (cleared_lem s));
    no_page_zero = cleared_lem s 0 (omega arith);
  },
  cleared_lem s,
)
