-- ===== src/Heap/Fitting.antt =====
-- The free list as a whole: `HeapListInsert`, `HeapListRemove` and the first fit of `HeapFindFree`.
use novium_os.Prelude.{
  ℕ, zero, suc, ◌+◌, ◌^◌, ◌≤◌, ◌<◌, ◌≡◌, ◌⊎◌, inl, inr, refl, sym, subst, true, false, ◌==◌, leb,
  if◌then◌else◌, List, [], ◌∷◌, arith, Bool-cases, length,
}
use novium_os.Heap.{
  Block, Blocks, Heap, walk_fuel, link, unlink, insert_place, heap_list_insert, heap_list_remove,
  first_fit, heap_find_free,
}
use novium_os.Heap.FreeList.{Linked, Ascending, mem-Ascending, unlink-Linked, is_first}
use novium_os.Heap.Walking.{inserted, mem-inserted, Ascending-inserted, link-Linked}
use novium_os.Task.Members.{mem, without}

-- The header of a block without its links.
abbrev pub meta : Block → Block
meta b = record b { prev = 0; next = 0 }

-- The free list of the heap is `xs`: in ascending order, linked both ways, within 32 bits.
pub record FreeList (s : Heap) (xs : List ℕ) : Type 0 where
  pub linked : Linked s.blocks 0 s.free_head xs
  pub ascending : Ascending 0 xs
  pub inside : (i : ℕ) → mem i xs ≡ true → i < 2 ^ 32

-- What an operation on the list leaves alone.
pub record Kept (s s' : Heap) : Type 0 where
  pub headers : (i : ℕ) → meta (s'.blocks i) ≡ meta (s.blocks i)
  pub segments : s'.segments ≡ s.segments
  pub segment_count : s'.segment_count ≡ s.segment_count
  pub pages : s'.pages ≡ s.pages

length-Ascending :
    (p n : ℕ) (xs : List ℕ)
    → p < n
    → Ascending p xs
    → ((i : ℕ) → mem i xs ≡ true → i < n)
    → length xs + p < n
length-Ascending p n [] low a h = omega arith
length-Ascending p n (x ∷ xs) low a h =
    omega (arith, a, length-Ascending x n xs (h x (ground arith)) a.1 (λ i k. h i (ground arith)))

mem-without-Ascending :
    (p b i : ℕ) (xs : List ℕ)
    → Ascending p xs
    → mem i (without b xs) ≡ (if b == i then false else mem i xs)
mem-without-Ascending p b i [] a = ground arith
mem-without-Ascending p b i (x ∷ xs) a =
    ground (arith, mem-without-Ascending x b i xs a.1, mem-Ascending x i xs a.1)

Ascending-lower : (p q : ℕ) (xs : List ℕ) → p < q → Ascending q xs → Ascending p xs
Ascending-lower p q [] h a = tt
Ascending-lower p q (x ∷ xs) h a = (omega (arith, a), a.1)

Ascending-without : (p b : ℕ) (xs : List ℕ) → Ascending p xs → Ascending p (without b xs)
Ascending-without p b [] a = tt
Ascending-without p b (x ∷ xs) a = elim (Bool-cases (x == b)) [
  | inl e ↦ rw e (Ascending-lower p x xs a.0 a.1)
  | inr e ↦ rw e (a.0, Ascending-without x b xs a.1)
]

pub mem-without-FreeList :
    (s : Heap) (b i : ℕ) (xs : List ℕ)
    → FreeList s xs
    → mem i (without b xs) ≡ (if b == i then false else mem i xs)
mem-without-FreeList s b i xs f = mem-without-Ascending 0 b i xs f.ascending

meta-link : (m : Blocks) (b q c i : ℕ) → meta (link m b q c i) ≡ meta (m i)
unfolding link
meta-link m b q c i = ground arith

meta-unlink : (m : Blocks) (b i : ℕ) → meta (unlink m b i) ≡ meta (m i)
unfolding unlink
meta-unlink m b i = ground arith

-- `HeapListInsert` of a block that is not on the list puts it in its place, by address.
pub heap_list_insert_lem :
    (s : Heap) (b : ℕ) (xs : List ℕ)
    → FreeList s xs
    → 0 < b
    → b < 2 ^ 32
    → mem b xs ≡ false
    → FreeList (heap_list_insert b s) (inserted b xs) × Kept s (heap_list_insert b s)
unfolding heap_list_insert
heap_list_insert_lem s b xs f pos small off =
    let short : length xs < walk_fuel =
      omega (arith, length-Ascending 0 (2 ^ 32) xs (omega arith) f.ascending f.inside) in
    let r = insert_place walk_fuel s.blocks b 0 s.free_head in
    (
      record {
        linked =
            link-Linked walk_fuel s.blocks b 0 s.free_head xs f.linked f.ascending pos off short;
        ascending = Ascending-inserted 0 b xs f.ascending pos off;
        inside = λ i h. ground (arith, mem-inserted b i xs, f.inside i);
      },
      record {
        headers = λ i. meta-link s.blocks b r.0 r.1 i;
        segments = refl;
        segment_count = refl;
        pages = refl;
      },
    )

-- `HeapListRemove` of a block on the list takes it off and keeps the order of the others.
pub heap_list_remove_lem :
    (s : Heap) (b : ℕ) (xs : List ℕ)
    → FreeList s xs
    → mem b xs ≡ true
    → FreeList (heap_list_remove b s) (without b xs) × Kept s (heap_list_remove b s)
unfolding heap_list_remove
heap_list_remove_lem s b xs f on = (
  record {
    linked =
        subst
          (λ t.
            Linked (unlink s.blocks b) 0 (if t then (s.blocks b).next else s.free_head)
              (without b xs))
          (sym (is_first s.blocks 0 s.free_head b xs f.linked f.ascending on))
          (unlink-Linked s.blocks 0 s.free_head b xs f.linked f.ascending on);
    ascending = Ascending-without 0 b xs f.ascending;
    inside = λ i h. ground (arith, mem-without-FreeList s b i xs f, f.inside i);
  },
  record {
    headers = λ i. meta-unlink s.blocks b i;
    segments = refl;
    segment_count = refl;
    pages = refl;
  },
)

-- The first block of the list with at least `size` bytes, or none.
abbrev pub FirstFit : Blocks → ℕ → List ℕ → ℕ → Type 0
FirstFit m size xs b =
    ((b ≡ 0) × ((i : ℕ) → mem i xs ≡ true → (m i).size < size))
    ⊎ ((0 < b)
        × (mem b xs ≡ true)
        × (size ≤ (m b).size)
        × ((i : ℕ) → mem i xs ≡ true → i < b → (m i).size < size))

FirstFit-head :
    (m : Blocks) (size x i : ℕ) (xs : List ℕ)
    → Ascending x xs
    → mem i (x ∷ xs) ≡ true
    → i < x
    → (m i).size < size
FirstFit-head m size x i xs a k h = absurd (ground (arith, mem-Ascending x i xs a))

FirstFit-behind :
    (m : Blocks) (size x : ℕ) (xs : List ℕ) (b : ℕ)
    → Ascending x xs
    → (m x).size < size
    → FirstFit m size xs b
    → FirstFit m size (x ∷ xs) b
FirstFit-behind m size x xs b a small (inl fails) = inl (
  fails.0,
  λ i k. elim (Bool-cases (x == i)) [
    | inl e ↦ let same : x ≡ i = ground arith in rw (← same) small
    | inr e ↦ fails.1 i (ground arith)
  ],
)
FirstFit-behind m size x xs b a small (inr found) = inr (
  found.0,
  ground (arith, found),
  found.2,
  λ i k h. elim (Bool-cases (x == i)) [
    | inl e ↦ let same : x ≡ i = ground arith in rw (← same) small
    | inr e ↦ found.3 i (ground arith) h
  ],
)

first_fit-FirstFit :
    (fuel : ℕ) (m : Blocks) (size p head : ℕ) (xs : List ℕ)
    → Linked m p head xs
    → Ascending p xs
    → length xs < fuel
    → FirstFit m size xs (first_fit fuel m size head)
unfolding first_fit
first_fit-FirstFit zero m size p head xs l a f = elim f [ ]
first_fit-FirstFit (suc fuel) m size p head [] l a f =
    let stop : (head == 0) ≡ true = ground arith in rw stop (inl (refl, λ i h. cc))
first_fit-FirstFit (suc fuel) m size p head (x ∷ xs) l a f =
    let go : (x == 0) ≡ false = ground (arith, a) in
    elim (Bool-cases (leb size (m x).size)) [
      | inl fits ↦
          rw (l.0, go, fits)
            (inr (
              omega (arith, a),
              ground arith,
              ground arith,
              λ i k h. FirstFit-head m size x i xs a.1 k h,
            ))
      | inr small ↦
          let on : first_fit (suc fuel) m size head ≡ first_fit fuel m size (m x).next =
            rw (l.0, go, small) in
          subst (λ b. FirstFit m size (x ∷ xs) b) (sym on)
            (FirstFit-behind m size x xs (first_fit fuel m size (m x).next) a.1 (ground arith)
              (first_fit-FirstFit fuel m size x (m x).next xs l.2 a.1 (omega arith)))
    ]

-- A search for `size` bytes in the free list `xs` and what it leaves.
abbrev pub Searched : Heap → ℕ → List ℕ → ℕ × Heap → Type 0
Searched s size xs (b, s') =
    FirstFit s.blocks size xs b × FreeList s' (if b == 0 then xs else without b xs) × Kept s s'

Kept-refl : (s : Heap) → Kept s s
Kept-refl s = record { headers = λ i. refl; segments = refl; segment_count = refl; pages = refl }

Searched-fit :
    (s : Heap) (size b : ℕ) (xs : List ℕ)
    → FreeList s xs
    → FirstFit s.blocks size xs b
    → Searched s size xs (if b == 0 then (0, s) else (b, heap_list_remove b s))
Searched-fit s size b xs f (inl fails) =
    let stop : (b == 0) ≡ true = ground (arith, fails) in
    rw stop (inl (refl, fails.1), f, Kept-refl s)
Searched-fit s size b xs f (inr found) =
    let go : (b == 0) ≡ false = ground (arith, found) in
    let r = heap_list_remove_lem s b xs f found.1 in
    rw go (
      inr found,
      subst (λ t. FreeList (heap_list_remove b s) (if t then xs else without b xs)) (sym go) r.0,
      r.1,
    )

-- `HeapFindFree` takes the first block that is large enough off the list, or finds that no block is.
pub heap_find_free_lem :
    (s : Heap) (size : ℕ) (xs : List ℕ) → FreeList s xs → Searched s size xs (heap_find_free size s)
unfolding heap_find_free
heap_find_free_lem s size xs f =
    let short : length xs < walk_fuel =
      omega (arith, length-Ascending 0 (2 ^ 32) xs (omega arith) f.ascending f.inside) in
    Searched-fit s size (first_fit walk_fuel s.blocks size s.free_head) xs f
      (first_fit-FirstFit walk_fuel s.blocks size 0 s.free_head xs f.linked f.ascending short)
