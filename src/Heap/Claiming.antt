-- ===== src/Heap/Claiming.antt =====
-- The end of `kmalloc`: a block in hand is cut to size and marked as in use.
use novium_os.Prelude.{
  ℕ, ◌+◌, ◌%◌, ◌≤◌, ◌<◌, ◌≡◌, ◌≢◌, ◌⊎◌, inl, inr, refl, ap, ◌∙◌, false, ltb, if◌then◌else◌, List,
  arith, if_cases, update, update_same, update_other,
}
use novium_os.Heap.{
  Block, Heap, heap_magic, meta_size, offset, set_size, mark_next, heap_split, claim,
}
use novium_os.Heap.Walking.{inserted}
use novium_os.Heap.Sound.{IsValid, IsHeld, view, Unseen, IsValid-Unseen, IsHeld-Unseen}
use novium_os.Heap.Carving.{Marked, mark_next-Marked, Carved, heap_split-Carved}
use novium_os.Task.Members.{mem}

-- A block that was given out: the address behind its header, its size, and the free list `ys` that is
-- left of `zs`, with or without a rest of the block.
pub record Claimed (zs : List ℕ) (b total : ℕ) (r : ℕ × Heap) : Type 0 where
  pub address : r.0 ≡ b + 16
  pub ys : List ℕ
  pub valid : IsValid r.1 ys
  pub held : IsHeld r.1 ys b
  pub in_use : ((r.1.blocks b).magic ≡ heap_magic) × ((r.1.blocks b).is_free ≡ false)
  pub enough : total ≤ (r.1.blocks b).size
  pub tight : (r.1.blocks b).size < total + 24
  pub left : (ys ≡ zs) ⊎ (ys ≡ inserted (b + total) zs)

Unseen-update :
    (s : Heap) (ys : List ℕ) (b : ℕ) (k : Block)
    → mem b ys ≡ false
    → Unseen s (record s { blocks = update s.blocks b k }) ys
Unseen-update s ys b k off = record {
  views = λ i on. let ne : b ≢ i = ground arith in ap view (update_other s.blocks b i k ne);
  head = refl;
  pages = refl;
}

Unseen-Marked : (s s' : Heap) (ys : List ℕ) → Marked s s' → Unseen s s' ys
Unseen-Marked s s' ys m = record { views = λ i on. m.views i; head = m.head; pages = m.pages }

sized-Carved :
    (s : Heap) (zs : List ℕ) (b total : ℕ)
    → IsValid s zs
    → IsHeld s zs b
    → 24 ≤ total
    → total ≤ (s.blocks b).size
    → total % 8 ≡ 0
    → Carved s zs b total (
        if ltb total (s.blocks b).size
        then heap_split b total s
        else record s { blocks = set_size s.blocks b total })
sized-Carved s zs b total v h pos fits aligned =
    if_cases (Carved s zs b total) (ltb total (s.blocks b).size) _ _
      (λ larger. heap_split-Carved s zs b total v h pos fits aligned)
      (λ exact.
        let same : total ≡ (s.blocks b).size = ground arith in
        let s' : Heap = record s { blocks = set_size s.blocks b total } in
        let u : Unseen s s' zs =
          Unseen-update s zs b (record (s.blocks b) { size = total }) h.off in
        let own : (s'.blocks b).size ≡ total =
          ap (λ (k : Block). k.size)
            (update_same s.blocks b (record (s.blocks b) { size = total })) in
        record {
          ys = zs;
          valid = IsValid-Unseen s s' zs u v;
          held = IsHeld-Unseen s s' zs b u (own ∙ same) h;
          enough = omega (arith, own);
          tight = omega (arith, own);
          parts = inl (refl, own ∙ same);
        })

-- The last writes of `kmalloc`.
abbrev finished : ℕ → Heap → ℕ × Heap
finished b sized =
    let size = (sized.blocks b).size in
    let taken = record sized {
      blocks =
          update sized.blocks b (record (sized.blocks b) { magic = heap_magic; is_free = false });
    } in
    (offset b meta_size, mark_next b (offset b size) size taken)

finished-Claimed :
    (s : Heap) (zs : List ℕ) (b total : ℕ) (sized : Heap)
    → Carved s zs b total sized
    → Claimed zs b total (finished b sized)
finished-Claimed s zs b total sized c =
    let header : Block = record (sized.blocks b) { magic = heap_magic; is_free = false } in
    let taken : Heap = record sized { blocks = update sized.blocks b header } in
    let size = (sized.blocks b).size in
    let s' = mark_next b (offset b size) size taken in
    let m : Marked taken s' = mark_next-Marked b (offset b size) size taken in
    let u : Unseen sized taken c.ys = Unseen-update sized c.ys b header c.held.off in
    let w : Unseen taken s' c.ys = Unseen-Marked taken s' c.ys m in
    let own : taken.blocks b ≡ header = update_same sized.blocks b header in
    let seen : view (s'.blocks b) ≡ view header = m.views b ∙ ap view own in
    let same : (s'.blocks b).size ≡ size = ap (λ (k : Block). k.size) seen in
    record {
      address = omega (arith, c.held.block.below);
      ys = c.ys;
      valid = IsValid-Unseen taken s' c.ys w (IsValid-Unseen sized taken c.ys u c.valid);
      held =
          IsHeld-Unseen taken s' c.ys b w (ap (λ (k : Block). k.size) (m.views b))
            (IsHeld-Unseen sized taken c.ys b u (ap (λ (k : Block). k.size) own) c.held);
      in_use = (ap (λ (k : Block). k.magic) seen, ap (λ (k : Block). k.is_free) seen);
      enough = rw same c.enough;
      tight = rw same c.tight;
      left = elim c.parts [ inl whole ↦ inl whole.0 | inr cut ↦ inr cut.0 ];
    }

-- `claim` of a held block gives it out, marked as in use, and keeps the free list sound.
pub claim-Claimed :
    (s : Heap) (zs : List ℕ) (b total : ℕ)
    → IsValid s zs
    → IsHeld s zs b
    → 24 ≤ total
    → total ≤ (s.blocks b).size
    → total % 8 ≡ 0
    → Claimed zs b total (claim b total s)
unfolding claim
claim-Claimed s zs b total v h pos fits aligned =
    finished-Claimed s zs b total _ (sized-Carved s zs b total v h pos fits aligned)
