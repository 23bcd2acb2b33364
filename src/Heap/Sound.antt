-- ===== src/Heap/Sound.antt =====
-- When the heap's free blocks are sound, and what keeps them so.
use novium_os.Prelude.{
  ℕ, ◌+◌, ◌-◌, ◌*◌, ◌%◌, ◌^◌, ◌≤◌, ◌<◌, ◌≡◌, ◌≢◌, ◌⊎◌, inl, inr, sym, ap, subst, ◌∙◌, true, false,
  ◌==◌, List, arith, Bool-cases,
}
use novium_os.Pages.{is_free, page_count}
use novium_os.Pages.Update
use novium_os.Heap.{Block, Heap, heap_magic, heap_list_insert}
use novium_os.Heap.FreeList.{Linked, Linked-frame}
use novium_os.Heap.Walking.{inserted, mem-inserted}
use novium_os.Heap.Fitting.{FreeList, Kept, meta, mem-without-FreeList, heap_list_insert_lem}
use novium_os.Task.Members.{mem, without}

-- A block of the heap: aligned, long enough for its header and links, below 4 GiB, and every page that
-- it touches is taken from the page allocator.
pub record IsBlock (s : Heap) (b : ℕ) : Type 0 where
  pub positive : 0 < b
  pub aligned : (b % 8 ≡ 0) × ((s.blocks b).size % 8 ≡ 0)
  pub large : 24 ≤ (s.blocks b).size
  pub below : b + (s.blocks b).size < 2 ^ 32
  pub owned :
      (q : ℕ) → b < (q + 1) * 4096 → q * 4096 < b + (s.blocks b).size → is_free s.pages q ≡ false

abbrev pub Apart : Heap → ℕ → ℕ → Type 0
Apart s a b = (a + (s.blocks a).size ≤ b) ⊎ (b + (s.blocks b).size ≤ a)

-- The free list is sound: its blocks are free blocks of the heap and do not overlap. The last page of
-- the address space is not to be had.
pub record IsValid (s : Heap) (xs : List ℕ) : Type 0 where
  pub list : FreeList s xs
  pub blocks : (i : ℕ) → mem i xs ≡ true → IsBlock s i
  pub marked :
      (i : ℕ) → mem i xs ≡ true → ((s.blocks i).magic ≡ heap_magic) × ((s.blocks i).is_free ≡ true)
  pub apart : (i j : ℕ) → mem i xs ≡ true → mem j xs ≡ true → i ≢ j → Apart s i j
  pub pages : Update.IsValid s.pages
  pub top_used : is_free s.pages (page_count - 1) ≡ false

-- A block that is not on the free list and overlaps no block of it.
pub record IsHeld (s : Heap) (xs : List ℕ) (b : ℕ) : Type 0 where
  pub block : IsBlock s b
  pub off : mem b xs ≡ false
  pub clear : (i : ℕ) → mem i xs ≡ true → Apart s i b

-- All of a header but the size of the block before.
abbrev pub view : Block → Block
view b = record b { prev_size = 0 }

IsBlock-same :
    (s s' : Heap) (b : ℕ)
    → s'.pages ≡ s.pages
    → (s'.blocks b).size ≡ (s.blocks b).size
    → IsBlock s b
    → IsBlock s' b
IsBlock-same s s' b p e k = record {
  positive = k.positive;
  aligned = (k.aligned.0, rw e k.aligned.1);
  large = rw e k.large;
  below = rw e k.below;
  owned = λ q low high. rw p (k.owned q low (subst (λ n. q * 4096 < b + n) e high));
}

-- A change that the blocks of the list do not see.
pub record Unseen (s s' : Heap) (xs : List ℕ) : Type 0 where
  pub views : (i : ℕ) → mem i xs ≡ true → view (s'.blocks i) ≡ view (s.blocks i)
  pub head : s'.free_head ≡ s.free_head
  pub pages : s'.pages ≡ s.pages

size_of_view : (a b : Block) → view a ≡ view b → a.size ≡ b.size
size_of_view a b e = ap (λ (k : Block). k.size) e

pub IsValid-Unseen : (s s' : Heap) (xs : List ℕ) → Unseen s s' xs → IsValid s xs → IsValid s' xs
IsValid-Unseen s s' xs u v =
    let size : (i : ℕ) → mem i xs ≡ true → (s'.blocks i).size ≡ (s.blocks i).size =
      λ i h. size_of_view (s'.blocks i) (s.blocks i) (u.views i h) in
    record {
      list = record {
        linked =
            subst (λ h. Linked s'.blocks 0 h xs) (sym u.head)
              (Linked-frame s.blocks s'.blocks 0 s.free_head xs
                (λ i h. (
                  ap (λ (k : Block). k.prev) (u.views i h),
                  ap (λ (k : Block). k.next) (u.views i h),
                ))
                v.list.linked);
        ascending = v.list.ascending;
        inside = v.list.inside;
      };
      blocks = λ i h. IsBlock-same s s' i u.pages (size i h) (v.blocks i h);
      marked = λ i h. (
        ap (λ (k : Block). k.magic) (u.views i h) ∙ (v.marked i h).0,
        ap (λ (k : Block). k.is_free) (u.views i h) ∙ (v.marked i h).1,
      );
      apart = λ i j h k ne. rw (size i h, size j k) (v.apart i j h k ne);
      pages = rw u.pages v.pages;
      top_used = rw u.pages v.top_used;
    }

pub IsHeld-Unseen :
    (s s' : Heap) (xs : List ℕ) (b : ℕ)
    → Unseen s s' xs
    → (s'.blocks b).size ≡ (s.blocks b).size
    → IsHeld s xs b
    → IsHeld s' xs b
IsHeld-Unseen s s' xs b u e h = record {
  block = IsBlock-same s s' b u.pages e h.block;
  off = h.off;
  clear = λ i k. rw (size_of_view (s'.blocks i) (s.blocks i) (u.views i k), e) (h.clear i k);
}

meta_fields :
    (a b : Block)
    → meta a ≡ meta b
    → (a.size ≡ b.size) × (a.magic ≡ b.magic) × (a.is_free ≡ b.is_free)
meta_fields a b e =
    (ap (λ (k : Block). k.size) e, ap (λ (k : Block). k.magic) e, ap (λ (k : Block). k.is_free) e)

pub inserted_cases :
    (b i : ℕ) (xs : List ℕ) → mem i (inserted b xs) ≡ true → (b ≡ i) ⊎ (mem i xs ≡ true)
inserted_cases b i xs m = elim (Bool-cases (b == i)) [
  | inl e ↦ inl (ground arith)
  | inr e ↦ inr (ground (arith, mem-inserted b i xs))
]

either :
    (P : ℕ → Type 0) (b i : ℕ) (xs : List ℕ)
    → P b
    → ((j : ℕ) → mem j xs ≡ true → P j)
    → mem i (inserted b xs) ≡ true
    → P i
either P b i xs k all m = elim (inserted_cases b i xs m) [ inl e ↦ subst P e k | inr e ↦ all i e ]

Apart-inserted :
    (s : Heap) (xs : List ℕ) (b i j : ℕ)
    → IsValid s xs
    → IsHeld s xs b
    → mem i (inserted b xs) ≡ true
    → mem j (inserted b xs) ≡ true
    → i ≢ j
    → Apart s i j
Apart-inserted s xs b i j v h m n ne = elim (inserted_cases b i xs m) [
  | inl e ↦ elim (inserted_cases b j xs n) [
    | inl f ↦ absurd (ne (sym e ∙ f))
    | inr f ↦ elim (subst (λ k. Apart s j k) e (h.clear j f)) [ inl a ↦ inr a | inr a ↦ inl a ]
  ]
  | inr e ↦ elim (inserted_cases b j xs n) [
    | inl f ↦ subst (λ k. Apart s i k) f (h.clear i e)
    | inr f ↦ v.apart i j e f ne
  ]
]

-- A held block that is marked free may go on the list.
pub insert-IsValid :
    (s : Heap) (xs : List ℕ) (b : ℕ)
    → IsValid s xs
    → IsHeld s xs b
    → (s.blocks b).magic ≡ heap_magic
    → (s.blocks b).is_free ≡ true
    → IsValid (heap_list_insert b s) (inserted b xs)
insert-IsValid s xs b v h magic free =
    let s' = heap_list_insert b s in
    let (l, k) =
      heap_list_insert_lem s b xs v.list h.block.positive (omega (arith, h.block.below)) h.off in
    let f : (i : ℕ)
        → ((s'.blocks i).size ≡ (s.blocks i).size)
          × ((s'.blocks i).magic ≡ (s.blocks i).magic)
          × ((s'.blocks i).is_free ≡ (s.blocks i).is_free) =
      λ i. meta_fields (s'.blocks i) (s.blocks i) (k.headers i) in
    record {
      list = l;
      blocks =
          λ i m. IsBlock-same s s' i k.pages (f i).0 (either (IsBlock s) b i xs h.block v.blocks m);
      marked = λ i m.
          let marks =
            λ (k : ℕ). ((s.blocks k).magic ≡ heap_magic) × ((s.blocks k).is_free ≡ true) in
          let r = either marks b i xs (magic, free) v.marked m in ((f i).1 ∙ r.0, (f i).2 ∙ r.1);
      apart = λ i j m n ne. rw ((f i).0, (f j).0) (Apart-inserted s xs b i j v h m n ne);
      pages = rw k.pages v.pages;
      top_used = rw k.pages v.top_used;
    }

-- A block that is taken off the list is held.
pub remove-IsHeld :
    (s s' : Heap) (xs : List ℕ) (b : ℕ)
    → IsValid s xs
    → mem b xs ≡ true
    → FreeList s' (without b xs)
    → Kept s s'
    → IsValid s' (without b xs) × IsHeld s' (without b xs) b
remove-IsHeld s s' xs b v on l k =
    let f : (i : ℕ)
        → ((s'.blocks i).size ≡ (s.blocks i).size)
          × ((s'.blocks i).magic ≡ (s.blocks i).magic)
          × ((s'.blocks i).is_free ≡ (s.blocks i).is_free) =
      λ i. meta_fields (s'.blocks i) (s.blocks i) (k.headers i) in
    let was : (i : ℕ) → mem i (without b xs) ≡ true → (mem i xs ≡ true) × (i ≢ b) =
      λ i m. ground (arith, mem-without-FreeList s b i xs v.list) in
    (
      record {
        list = l;
        blocks = λ i m. IsBlock-same s s' i k.pages (f i).0 (v.blocks i (was i m).0);
        marked = λ i m. let r = v.marked i (was i m).0 in ((f i).1 ∙ r.0, (f i).2 ∙ r.1);
        apart = λ i j m n ne. rw ((f i).0, (f j).0) (v.apart i j (was i m).0 (was j n).0 ne);
        pages = rw k.pages v.pages;
        top_used = rw k.pages v.top_used;
      },
      record {
        block = IsBlock-same s s' b k.pages (f b).0 (v.blocks b on);
        off = ground (arith, mem-without-FreeList s b b xs v.list);
        clear = λ i m. rw ((f i).0, (f b).0) (v.apart i b (was i m).0 on (was i m).1);
      },
    )

-- An insertion leaves the sizes alone.
pub insert-size :
    (s : Heap) (xs : List ℕ) (b : ℕ)
    → IsValid s xs
    → IsHeld s xs b
    → ((heap_list_insert b s).blocks b).size ≡ (s.blocks b).size
insert-size s xs b v h =
    let k =
      (heap_list_insert_lem s b xs v.list h.block.positive (omega (arith, h.block.below))
        h.off).1 in
    (meta_fields ((heap_list_insert b s).blocks b) (s.blocks b) (k.headers b)).0
