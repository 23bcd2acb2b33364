-- ===== src/Heap/Carving.antt =====
-- `HeapSplit`: a block is cut in two and the rest goes on the free list.
use novium_os.Prelude.{
  ℕ, ◌+◌, ◌-◌, ◌%◌, ◌^◌, ◌≤◌, ◌<◌, ◌≡◌, ◌≢◌, ◌⊎◌, inl, inr, refl, sym, ap, subst, ◌∙◌, true, ltb,
  if◌then◌else◌, Option, none, some, List, arith, Bool-cases, if_cases, update_same, update_other,
}
use novium_os.Heap.{
  Block, Heap, HeapSegment, heap_magic, offset, set_meta, set_size, set_prev_size,
  heap_find_segment, mark_next, heap_list_insert, heap_split,
}
use novium_os.Heap.Walking.{inserted, mem-inserted}
use novium_os.Heap.Fitting.{Kept, heap_list_insert_lem}
use novium_os.Heap.Sound.{
  IsValid, IsHeld, view, Unseen, IsValid-Unseen, insert-IsValid, inserted_cases,
}
use novium_os.Task.Members.{mem}

-- Only sizes of blocks before may differ.
pub record Marked (s s' : Heap) : Type 0 where
  pub views : (i : ℕ) → view (s'.blocks i) ≡ view (s.blocks i)
  pub head : s'.free_head ≡ s.free_head
  pub pages : s'.pages ≡ s.pages

Marked-refl : (s : Heap) → Marked s s
Marked-refl s = record { views = λ i. refl; head = refl; pages = refl }

Marked-set :
    (s : Heap) (next size : ℕ) → Marked s (record s { blocks = set_prev_size s.blocks next size })
Marked-set s next size = record { views = λ i. ground arith; head = refl; pages = refl }

Marked-at :
    (s : Heap) (next size : ℕ) (o : Option HeapSegment)
    → Marked s (elim o as (λ _. Heap) [
      | none ↦ s
      | some seg ↦
          if ltb next seg.end then record s { blocks = set_prev_size s.blocks next size } else s
    ])
Marked-at s next size none = Marked-refl s
Marked-at s next size (some seg) =
    if_cases (Marked s) (ltb next seg.end) _ s (λ _. Marked-set s next size) (λ _. Marked-refl s)

pub mark_next-Marked : (b next size : ℕ) (s : Heap) → Marked s (mark_next b next size s)
unfolding mark_next
mark_next-Marked b next size s = Marked-at s next size (heap_find_segment s b)

-- What a held block of at least `total` bytes comes to when it is cut: it keeps `total` bytes, and the
-- rest is a free block of the list, or it is left whole since the rest would be too small.
pub record Carved (s : Heap) (xs : List ℕ) (b total : ℕ) (s' : Heap) : Type 0 where
  pub ys : List ℕ
  pub valid : IsValid s' ys
  pub held : IsHeld s' ys b
  pub enough : total ≤ (s'.blocks b).size
  pub tight : (s'.blocks b).size < total + 24
  pub parts :
      ((ys ≡ xs) × ((s'.blocks b).size ≡ (s.blocks b).size))
      ⊎ ((ys ≡ inserted (b + total) xs)
          × ((s'.blocks b).size ≡ total)
          × ((s'.blocks (b + total)).size + total ≡ (s.blocks b).size))

module _ (s : Heap) (xs : List ℕ) (b total : ℕ) (v : IsValid s xs) (h : IsHeld s xs b)
    (pos : 24 ≤ total) (fits : total + 24 ≤ (s.blocks b).size) (aligned : total % 8 ≡ 0) where
  abbrev left_over : ℕ
  left_over = (s.blocks b).size - total

  abbrev cut : Heap
  cut = record s { blocks = set_meta s.blocks (b + total) heap_magic left_over total true }

  abbrev shrunk : Heap → Heap
  shrunk m = record m { blocks = set_size m.blocks b total }

  rest_off : (i : ℕ) → mem i xs ≡ true → (i ≢ b + total) × (i ≢ b)
  rest_off i m =
      let large = (v.blocks i m).large in
      elim (h.clear i m) [
        | inl below ↦ (omega arith, omega arith)
        | inr above ↦ (omega arith, omega arith)
      ]

  shrunk-Unseen : (m : Heap) → Marked cut m → Unseen s (shrunk m) xs
  shrunk-Unseen m k = record {
    views = λ i on.
        let off = rest_off i on in
        let same = k.views i in
        let there : view (cut.blocks i) ≡ view (s.blocks i) = ground (arith, off) in
        let mine : view ((shrunk m).blocks i) ≡ view (m.blocks i) = ground (arith, off) in
        mine ∙ same ∙ there;
    head = k.head;
    pages = k.pages;
  }

  rest_header :
      (m : Heap)
      → Marked cut m
      → (((shrunk m).blocks (b + total)).size ≡ left_over)
        × (((shrunk m).blocks (b + total)).magic ≡ heap_magic)
        × (((shrunk m).blocks (b + total)).is_free ≡ true)
        × (((shrunk m).blocks b).size ≡ total)
  rest_header m k =
      let apart : b ≢ b + total = omega arith in
      let mine : (shrunk m).blocks (b + total) ≡ m.blocks (b + total) =
        update_other m.blocks b (b + total) _ apart in
      let header : Block = record (s.blocks (b + total)) {
        magic = heap_magic;
        size = left_over;
        prev_size = total;
        is_free = true;
      } in
      let there : view ((shrunk m).blocks (b + total)) ≡ view header =
        ap view mine ∙ k.views (b + total) ∙ ap view (update_same s.blocks (b + total) header) in
      (
        ap (λ (k : Block). k.size) there,
        ap (λ (k : Block). k.magic) there,
        ap (λ (k : Block). k.is_free) there,
        ap (λ (k : Block). k.size) (update_same m.blocks b (record (m.blocks b) { size = total })),
      )

  rest-IsHeld : (m : Heap) → Marked cut m → IsHeld (shrunk m) xs (b + total)
  rest-IsHeld m k =
      let u = shrunk-Unseen m k in
      let r = rest_header m k in
      record {
        block = record {
          positive = omega (arith, h.block.positive);
          aligned = (
            omega (arith, h.block.aligned, aligned),
            rw r.0 (omega (arith, h.block.aligned, aligned)),
          );
          large = rw r.0 (omega (arith, fits));
          below = rw r.0 (omega (arith, fits, h.block.below));
          owned = λ q low high.
              rw u.pages (h.block.owned q (omega arith) (omega (arith, r.0, high, fits)));
        };
        off = elim (Bool-cases (mem (b + total) xs)) [
          | inl on ↦ absurd ((rest_off (b + total) on).0 refl)
          | inr off ↦ off
        ];
        clear = λ i on.
            let size : ((shrunk m).blocks i).size ≡ (s.blocks i).size =
              ap (λ (k : Block). k.size) (u.views i on) in
            elim (h.clear i on) [
              | inl below ↦ inl (omega (arith, size, below))
              | inr above ↦ inr (omega (arith, r.0, above, fits))
            ];
      }

  split-Carved :
      (m : Heap) → Marked cut m → Carved s xs b total (heap_list_insert (b + total) (shrunk m))
  split-Carved m k =
      let u = shrunk-Unseen m k in
      let r = rest_header m k in
      let rest = rest-IsHeld m k in
      let w = IsValid-Unseen s (shrunk m) xs u v in
      let s' = heap_list_insert (b + total) (shrunk m) in
      let kept : Kept (shrunk m) s' =
        (heap_list_insert_lem (shrunk m) (b + total) xs w.list rest.block.positive
          (omega (arith, rest.block.below)) rest.off).1 in
      let size : (i : ℕ) → (s'.blocks i).size ≡ ((shrunk m).blocks i).size =
        λ i. ap (λ (k : Block). k.size) (kept.headers i) in
      let own : (s'.blocks b).size ≡ total = size b ∙ r.3 in
      record {
        ys = inserted (b + total) xs;
        valid = insert-IsValid (shrunk m) xs (b + total) w rest r.1 r.2;
        held = record {
          block = record {
            positive = h.block.positive;
            aligned = (h.block.aligned.0, rw own aligned);
            large = omega (arith, own, pos);
            below = rw own (omega (arith, h.block.below, fits));
            owned = λ q low high.
                rw (kept.pages ∙ u.pages) (h.block.owned q low (omega (arith, own, high, fits)));
          };
          off = ground (arith, mem-inserted (b + total) b xs, h.off);
          clear = λ i on. elim (inserted_cases (b + total) i xs on) [
            | inl e ↦ inr (omega (arith, own, e))
            | inr old ↦
                let same : (s'.blocks i).size ≡ (s.blocks i).size =
                  size i ∙ ap (λ (k : Block). k.size) (u.views i old) in
                elim (h.clear i old) [
                  | inl below ↦ inl (omega (arith, same, below))
                  | inr above ↦ inr (omega (arith, own, above, fits))
                ]
          ];
        };
        enough = omega (arith, own);
        tight = omega (arith, own);
        parts = inr (refl, own, omega (arith, size (b + total), r.0, fits));
      }

-- The body of `HeapSplit` for an address and a size of the rest.
abbrev split_body : Heap → ℕ → ℕ → ℕ → ℕ → Heap
split_body s b total rest left =
    let cut = record s { blocks = set_meta s.blocks rest heap_magic left total true } in
    let marked = mark_next b (offset rest left) left cut in
    if ltb left 24
    then s
    else heap_list_insert rest (record marked { blocks = set_size marked.blocks b total })

heap_split_eq :
    (s : Heap) (b total : ℕ)
    → heap_split b total s
      ≡ split_body s b total (offset b total) (((s.blocks b).size + 2 ^ 32 - total) % 2 ^ 32)
unfolding heap_split
heap_split_eq s b total = refl

-- `HeapSplit` of a held block keeps the free list sound, and the sizes of the parts add up.
pub heap_split-Carved :
    (s : Heap) (xs : List ℕ) (b total : ℕ)
    → IsValid s xs
    → IsHeld s xs b
    → 24 ≤ total
    → total ≤ (s.blocks b).size
    → total % 8 ≡ 0
    → Carved s xs b total (heap_split b total s)
heap_split-Carved s xs b total v h pos fits aligned =
    let place : offset b total ≡ b + total = omega (arith, h.block.below) in
    let left : ((s.blocks b).size + 2 ^ 32 - total) % 2 ^ 32 ≡ (s.blocks b).size - total =
      omega (arith, h.block.below) in
    let e =
      heap_split_eq s b total
      ∙ ap (λ r. split_body s b total r (((s.blocks b).size + 2 ^ 32 - total) % 2 ^ 32)) place
      ∙ ap (λ l. split_body s b total (b + total) l) left in
    subst (Carved s xs b total) (sym e) (
      if_cases (Carved s xs b total) (ltb ((s.blocks b).size - total) 24) s _
        (λ small. record {
          ys = xs;
          valid = v;
          held = h;
          enough = fits;
          tight = ground (arith, fits);
          parts = inl (refl, refl);
        })
        (λ large. split-Carved s xs b total v h pos (ground (arith, fits)) aligned _ (
          mark_next-Marked b (offset (b + total) ((s.blocks b).size - total))
            ((s.blocks b).size - total) _)))
