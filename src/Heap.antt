-- ===== src/Heap.antt =====
-- The kernel heap, mm/heap.c. Memory is read as a header at each address: blocks are at least 24 bytes
-- long, as long as a header with its links, so that the headers of two blocks do not overlap. A pointer
-- is an address and 0 is null. The entries of `HeapSegmentTable` are only ever linked in front, so the
-- list `HeapSegments` is a list, the newest segment first. The page allocator below is part of the state.
pub mod FreeList
pub mod Walking
pub mod Fitting
pub mod Sound
pub mod Carving
pub mod Claiming
pub mod Growing
pub mod Starting
pub mod Allocating
pub mod Tests
use novium_os.Prelude.{
  ℕ, zero, suc, ◌+◌, ◌-◌, ◌*◌, ◌/◌, ◌%◌, ◌^◌, Bool, true, false, not, ◌&&◌, ◌||◌, ltb, leb, ◌==◌,
  if◌then◌else◌, Option, none, some, List, [], ◌∷◌, update,
}
use novium_os.Pages.{PageAllocator, page_size, page_alloc_pages_at, page_free_pages}

abbrev pub heap_magic : ℕ
heap_magic = 0x48454150

abbrev pub grow_pages : ℕ
grow_pages = 16

abbrev pub keep_pages : ℕ
keep_pages = grow_pages

abbrev pub segment_cap : ℕ
segment_cap = 8

abbrev pub meta_size : ℕ
meta_size = 16

abbrev pub align : ℕ
align = 8

-- `HEAP_ALIGN_UP` on 32 bits: the mask of the low three bits is written as a division.
unfoldable pub align_up : ℕ → ℕ
align_up x = (x + (align - 1)) % 2 ^ 32 / align * align

-- `BlockMeta` and the `FreeNode` behind it.
pub record Block : Type 0 where
  pub magic : ℕ
  pub size : ℕ
  pub prev_size : ℕ
  pub is_free : Bool
  pub prev : ℕ
  pub next : ℕ

pub record HeapSegment : Type 0 where
  pub base : ℕ
  pub end : ℕ

abbrev pub Blocks : Type 0
Blocks = ℕ → Block

pub record Heap : Type 0 where
  pub blocks : Blocks
  pub segments : List HeapSegment
  pub segment_count : ℕ
  pub free_head : ℕ
  pub pages : PageAllocator

-- A sum of a pointer and a number of bytes.
abbrev pub offset : ℕ → ℕ → ℕ
offset a n = (a + n) % 2 ^ 32

abbrev pub set_prev : Blocks → ℕ → ℕ → Blocks
set_prev m a v = update m a (record (m a) { prev = v })

abbrev pub set_next : Blocks → ℕ → ℕ → Blocks
set_next m a v = update m a (record (m a) { next = v })

abbrev pub set_prev_size : Blocks → ℕ → ℕ → Blocks
set_prev_size m a v = update m a (record (m a) { prev_size = v })

abbrev pub set_size : Blocks → ℕ → ℕ → Blocks
set_size m a v = update m a (record (m a) { size = v })

-- The four fields of the header; the links stay.
abbrev pub set_meta : Blocks → ℕ → ℕ → ℕ → ℕ → Bool → Blocks
set_meta m a magic size prev_size is_free =
    update m a
      (record (m a) { magic = magic; size = size; prev_size = prev_size; is_free = is_free })

unfoldable pub growth_hint : ℕ → List HeapSegment → ℕ
growth_hint hint [] = hint
growth_hint hint (seg ∷ segs) = growth_hint (if ltb hint seg.end then seg.end else hint) segs

unfoldable pub heap_growth_hint : Heap → ℕ
unfolding growth_hint
heap_growth_hint s = growth_hint 0 s.segments

unfoldable pub owner_of : ℕ → List HeapSegment → Option HeapSegment
owner_of b [] = none
owner_of b (seg ∷ segs) =
    let rest = owner_of b segs in if leb seg.base b && ltb b seg.end then some seg else rest

unfoldable pub heap_find_segment : Heap → ℕ → Option HeapSegment
unfolding owner_of
heap_find_segment s b = if b == 0 then none else owner_of b s.segments

-- The loop of `HeapListInsert` from `prev` and `cur`, with fuel for its rounds.
unfoldable pub insert_place : ℕ → Blocks → ℕ → ℕ → ℕ → ℕ × ℕ
insert_place zero m b prev cur = (prev, cur)
insert_place (suc fuel) m b prev cur =
    let rest = insert_place fuel m b cur (m cur).next in
    if not (cur == 0) && ltb cur b then rest else (prev, cur)

-- Its writes behind the loop.
unfoldable pub link : Blocks → ℕ → ℕ → ℕ → Blocks
link m b prev cur =
    let own = update m b (record (m b) { prev = prev; next = cur }) in
    let before = if prev == 0 then own else set_next own prev b in
    if cur == 0 then before else set_prev before cur b

abbrev pub walk_fuel : ℕ
walk_fuel = 2 ^ 32

unfoldable pub heap_list_insert : ℕ → Heap → Heap
unfolding insert_place link
heap_list_insert b s =
    let (prev, cur) = insert_place walk_fuel s.blocks b 0 s.free_head in
    record s { blocks = link s.blocks b prev cur; free_head = if prev == 0 then b else s.free_head }

unfoldable pub unlink : Blocks → ℕ → Blocks
unlink m b =
    let n = (m b).next in
    let before = if (m b).prev == 0 then m else set_next m (m b).prev n in
    let after = if n == 0 then before else set_prev before n (before b).prev in
    update after b (record (after b) { prev = 0; next = 0 })

unfoldable pub heap_list_remove : ℕ → Heap → Heap
unfolding unlink
heap_list_remove b s = record s {
  blocks = unlink s.blocks b;
  free_head = if (s.blocks b).prev == 0 then (s.blocks b).next else s.free_head;
}

-- The block at which the loop of `HeapFindFree` stops, or 0.
unfoldable pub first_fit : ℕ → Blocks → ℕ → ℕ → ℕ
first_fit zero m size b = 0
first_fit (suc fuel) m size b =
    let rest = first_fit fuel m size (m b).next in
    let here = if leb size (m b).size then b else rest in if b == 0 then 0 else here

unfoldable pub heap_find_free : ℕ → Heap → ℕ × Heap
unfolding first_fit heap_list_remove
heap_find_free size s =
    let b = first_fit walk_fuel s.blocks size s.free_head in
    if b == 0 then (0, s) else (b, heap_list_remove b s)

-- The part of `HeapGrow` behind the request for pages.
unfoldable pub add_segment : ℕ → ℕ → Heap → Heap
add_segment b pages s =
    let size = pages * page_size % 2 ^ 32 in
    record s {
      blocks = set_meta s.blocks b heap_magic size 0 true;
      segments = record { base = b; end = offset b size } ∷ s.segments;
      segment_count = s.segment_count + 1;
    }

unfoldable pub heap_grow : ℕ → Heap → ℕ × Heap
unfolding add_segment heap_list_insert heap_growth_hint
heap_grow pages s =
    let (b, p) = page_alloc_pages_at s.pages (heap_growth_hint s) pages in
    let grown = record s { pages = p } in
    if leb segment_cap s.segment_count
    then (0, s)
    else if b == 0
    then (0, grown)
    else (b, heap_list_insert b (add_segment b pages grown))

-- `next->Meta.PrevSize = size` if `next` is inside the segment of `b`.
unfoldable pub mark_next : ℕ → ℕ → ℕ → Heap → Heap
unfolding heap_find_segment
mark_next b next size s = elim (heap_find_segment s b) [
  | none ↦ s
  | some seg ↦
      if ltb next seg.end then record s { blocks = set_prev_size s.blocks next size } else s
]

unfoldable pub heap_split : ℕ → ℕ → Heap → Heap
unfolding mark_next heap_list_insert
heap_split b size s =
    let left_over = ((s.blocks b).size + 2 ^ 32 - size) % 2 ^ 32 in
    let rest = offset b size in
    let cut = record s { blocks = set_meta s.blocks rest heap_magic left_over size true } in
    let marked = mark_next b (offset rest left_over) left_over cut in
    if ltb left_over (align + meta_size)
    then s
    else heap_list_insert rest (record marked { blocks = set_size marked.blocks b size })

unfoldable pub heap_init : Heap → Heap
unfolding heap_grow
heap_init s = (heap_grow grow_pages (record s { free_head = 0 })).1

abbrev pub total_size : ℕ → ℕ
total_size size = align_up (size + meta_size)

-- `kmalloc` once it has taken a block off the free list.
unfoldable pub claim : ℕ → ℕ → Heap → ℕ × Heap
unfolding heap_split mark_next
claim b total s =
    let sized =
      if ltb total (s.blocks b).size
      then heap_split b total s
      else record s { blocks = set_size s.blocks b total } in
    let size = (sized.blocks b).size in
    let taken = record sized {
      blocks =
          update sized.blocks b (record (sized.blocks b) { magic = heap_magic; is_free = false });
    } in
    (offset b meta_size, mark_next b (offset b size) size taken)

unfoldable pub grow_and_claim : ℕ → Heap → ℕ × Heap
unfolding heap_grow claim heap_list_remove
grow_and_claim total s =
    let (b, grown) = heap_grow ((total + page_size - 1) % 2 ^ 32 / page_size) s in
    if b == 0 then (0, grown) else claim b total (heap_list_remove b grown)

unfoldable pub kmalloc : ℕ → Heap → ℕ × Heap
unfolding heap_find_free claim grow_and_claim align_up
kmalloc size s =
    let total = total_size size in
    let (b, found) = heap_find_free total s in
    if size == 0
    then (0, s)
    else if ltb (2 ^ 32 - 1 - meta_size - align) size
    then (0, s)
    else if b == 0
    then grow_and_claim total found
    else claim b total found

-- A block that has become part of its neighbour.
abbrev pub absorb : Blocks → ℕ → Blocks
absorb m a = set_meta m a 0 0 0 false

-- The block that `kfree` goes on with, and whether it is the one on the left.
unfoldable pub merge_left : ℕ → Heap → ℕ × Bool × Heap
merge_left b s =
    let left = (b + 2 ^ 32 - (s.blocks b).prev_size) % 2 ^ 32 in
    let larger = set_size s.blocks left (((s.blocks left).size + (s.blocks b).size) % 2 ^ 32) in
    if (s.blocks b).prev_size == 0
    then (b, false, s)
    else if (s.blocks left).magic == heap_magic && (s.blocks left).is_free
    then (left, true, record s { blocks = absorb larger b })
    else (b, false, s)

unfoldable pub take_in : ℕ → ℕ → Heap → Heap
unfolding heap_list_remove
take_in b next s =
    let next_size = (s.blocks next).size in
    let off = heap_list_remove next s in
    let larger = set_size off.blocks b (((off.blocks b).size + next_size) % 2 ^ 32) in
    record off { blocks = absorb larger next }

unfoldable pub merge_right : ℕ → Heap → Heap
unfolding take_in heap_find_segment
merge_right b s =
    let next = offset b (s.blocks b).size in
    elim (heap_find_segment s b) as (λ _. Heap) [
      | none ↦ s
      | some seg ↦ if ltb next seg.end && (s.blocks next).is_free then take_in b next s else s
    ]

unfoldable pub ends_segment : ℕ → Heap → Bool
unfolding heap_find_segment
ends_segment b s = elim (heap_find_segment s b) [
  | none ↦ false
  | some seg ↦ leb seg.end (offset b (s.blocks b).size)
]

-- The end of `kfree`: all but the first 16 pages of the block are given back.
unfoldable pub give_back : ℕ → Heap → Heap
unfolding mark_next heap_list_insert
give_back b s =
    let keep = keep_pages * page_size in
    let give = (s.blocks b).size - keep in
    let count = give / page_size in
    let split = offset b keep in
    let cut = record s { blocks = set_meta s.blocks split heap_magic give keep true } in
    let marked = mark_next b (offset split give) keep cut in
    let listed =
      heap_list_insert split (record marked { blocks = set_size marked.blocks b keep }) in
    if not (ltb keep (s.blocks b).size) || count == 0
    then s
    else record listed { pages = page_free_pages listed.pages split count }

unfoldable pub kfree : ℕ → Heap → Heap
unfolding merge_left merge_right mark_next heap_list_insert ends_segment give_back
kfree addr s =
    let b = (addr + 2 ^ 32 - meta_size) % 2 ^ 32 in
    let (c, merged_left, left) = merge_left b s in
    let right = merge_right c left in
    let size = (right.blocks c).size in
    let marked = mark_next c (offset c size) size right in
    let freed = record marked {
      blocks = update marked.blocks c (record (marked.blocks c) { is_free = true });
    } in
    let listed = if merged_left then freed else heap_list_insert c freed in
    if not ((s.blocks b).magic == heap_magic) || (s.blocks b).is_free
    then s
    else if ends_segment c listed
    then listed
    else give_back c listed
