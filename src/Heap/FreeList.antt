-- ===== src/Heap/FreeList.antt =====
-- The free list of the heap: doubly linked, in the order of the addresses. What `HeapListInsert` and
-- `HeapListRemove` do to it.
use novium_os.Prelude.{
  ℕ, ◌<◌, ◌≡◌, ◌⊎◌, inl, inr, ◌≢◌, subst, true, false, ◌==◌, if◌then◌else◌, List, [], ◌∷◌, arith,
  Bool-cases,
}
use novium_os.Heap.{Blocks, unlink}
use novium_os.Task.Members.{mem, without}

-- From `head` along `next` stand exactly the blocks of the list, and `prev` leads back, to `p` at last.
abbrev pub Linked : Blocks → ℕ → ℕ → List ℕ → Type 0
Linked m p head [] = head ≡ 0
Linked m p head (x ∷ xs) = (head ≡ x) × ((m x).prev ≡ p) × Linked m x (m x).next xs

-- Ascending, and above `p`.
abbrev pub Ascending : ℕ → List ℕ → Type 0
Ascending p [] = Unit {0}
Ascending p (x ∷ xs) = (p < x) × Ascending x xs

pub mem-Ascending : (p i : ℕ) (xs : List ℕ) → Ascending p xs → mem i xs ≡ true → p < i
mem-Ascending p i [] a h = cc
mem-Ascending p i (x ∷ xs) a h = elim (Bool-cases (x == i)) [
  | inl e ↦ ground (arith, a)
  | inr e ↦ ground (arith, a, mem-Ascending x i xs a.1)
]

-- A list does not see the links of the blocks off it.
pub Linked-frame :
    (m m' : Blocks) (p head : ℕ) (xs : List ℕ)
    → ((i : ℕ) → mem i xs ≡ true → ((m' i).prev ≡ (m i).prev) × ((m' i).next ≡ (m i).next))
    → Linked m p head xs
    → Linked m' p head xs
Linked-frame m m' p head [] same l = l
Linked-frame m m' p head (x ∷ xs) same l =
    let here = same x (ground arith) in
    let rest = Linked-frame m m' x (m x).next xs (λ i h. same i (ground arith)) l.2 in
    (l.0, ground (arith, here, l.1), rw here.1 rest)

-- What stands before a member: the bound below if it is the head, or else a member.
before_member :
    (m : Blocks) (p head b : ℕ) (xs : List ℕ)
    → Linked m p head xs
    → mem b xs ≡ true
    → (((m b).prev ≡ p) × (head ≡ b)) ⊎ (mem (m b).prev xs ≡ true)
before_member m p head b [] l h = cc
before_member m p head b (x ∷ xs) l h = elim (Bool-cases (x == b)) [
  | inl e ↦ let same : x ≡ b = ground arith in inl (rw (← same) (l.1, l.0))
  | inr e ↦ elim (before_member m x (m x).next b xs l.2 (ground arith)) [
    | inl first ↦ inr (ground (arith, first))
    | inr later ↦ inr (ground arith)
  ]
]

-- What stands behind a member: nothing, or a member.
behind_member :
    (m : Blocks) (p head b : ℕ) (xs : List ℕ)
    → Linked m p head xs
    → mem b xs ≡ true
    → ((m b).next ≡ 0) ⊎ (mem (m b).next xs ≡ true)
behind_member m p head b [] l h = cc
behind_member m p head b (x ∷ []) l h = inl (ground (arith, l))
behind_member m p head b (x ∷ y ∷ ys) l h = elim (Bool-cases (x == b)) [
  | inl e ↦ inr (ground (arith, l))
  | inr e ↦ elim (behind_member m x (m x).next b (y ∷ ys) l.2 (ground arith)) [
    | inl last ↦ inl last
    | inr more ↦ inr (ground arith)
  ]
]

next-unlink :
    (m : Blocks) (b i : ℕ)
    → i ≢ 0
    → (unlink m b i).next
      ≡ (if b == i then 0 else if (m b).prev == i then (m b).next else (m i).next)
unfolding unlink
next-unlink m b i h = ground arith

prev-unlink :
    (m : Blocks) (b i : ℕ)
    → i ≢ 0
    → (unlink m b i).prev
      ≡ (if b == i then 0 else if (m b).next == i then (m b).prev else (m i).prev)
unfolding unlink
prev-unlink m b i h = ground arith

-- Without its head, a list goes on from the head's successor.
unlink_head :
    (m : Blocks) (p b : ℕ) (xs : List ℕ)
    → (m b).prev ≡ p
    → Linked m b (m b).next xs
    → p < b
    → Ascending b xs
    → Linked (unlink m b) p (m b).next xs
unlink_head m p b [] e l h a = l
unlink_head m p b (y ∷ ys) e l h a =
    let ne : y ≢ 0 = omega (arith, a) in
    let rest =
      Linked-frame m (unlink m b) y (m y).next ys
        (λ i k.
          let above = mem-Ascending y i ys a.1 k in
          (
            ground (arith, prev-unlink m b i (omega arith), a, l),
            ground (arith, next-unlink m b i (omega arith), a),
          ))
        l.2 in
    let same : (unlink m b y).next ≡ (m y).next = ground (arith, next-unlink m b y ne, a) in
    (l.0, ground (arith, prev-unlink m b y ne, l, a), rw same rest)

prev_of_head :
    (m : Blocks) (p head : ℕ) (xs : List ℕ) → Linked m p head xs → head ≢ 0 → (m head).prev ≡ p
prev_of_head m p head [] l h = absurd (h l)
prev_of_head m p head (x ∷ xs) l h = rw l.0 l.1

-- The head's own links, when a later member goes.
unlink_later :
    (m : Blocks) (p head b x : ℕ) (xs : List ℕ)
    → Linked m p head (x ∷ xs)
    → Ascending p (x ∷ xs)
    → mem b xs ≡ true
    → ((unlink m b x).prev ≡ p)
      × ((unlink m b x).next ≡ (if (m x).next == b then (m b).next else (m x).next))
unlink_later m p head b x xs l a h =
    let ne : x ≢ 0 = omega (arith, a) in
    let b_above = mem-Ascending x b xs a.1 h in
    let behind : x ≢ (m b).next = elim (behind_member m x (m x).next b xs l.2 h) [
      | inl last ↦ omega (arith, last, a)
      | inr more ↦ omega (arith, mem-Ascending x (m b).next xs a.1 more)
    ] in
    let prev : (unlink m b x).prev ≡ p = ground (arith, prev-unlink m b x ne, l, b_above) in
    elim (before_member m x (m x).next b xs l.2 h) [
      | inl first ↦ (prev, ground (arith, next-unlink m b x ne, first, b_above))
      | inr later ↦
          let above = mem-Ascending x (m b).prev xs a.1 later in
          let other : (m x).next ≢ b = λ e.
            let back = prev_of_head m x (m x).next xs l.2 (omega (arith, b_above)) in
            let same : (m b).prev ≡ x = subst (λ k. (m k).prev ≡ x) e back in omega arith in
          (prev, ground (arith, next-unlink m b x ne, b_above))
    ]

-- `HeapListRemove` takes a member out of a list and keeps the others.
pub unlink-Linked :
    (m : Blocks) (p head b : ℕ) (xs : List ℕ)
    → Linked m p head xs
    → Ascending p xs
    → mem b xs ≡ true
    → Linked (unlink m b) p (if head == b then (m b).next else head) (without b xs)
unlink-Linked m p head b [] l a h = cc
unlink-Linked m p head b (x ∷ xs) l a h = elim (Bool-cases (x == b)) [
  | inl e ↦
      let same : x ≡ b = ground arith in
      let at_head : (head == b) ≡ true = ground (arith, l) in
      let r =
        unlink_head m p b xs (subst (λ k. (m k).prev ≡ p) same l.1)
          (subst (λ k. Linked m k (m k).next xs) same l.2) (omega (arith, a))
          (subst (λ k. Ascending k xs) same a.1) in
      rw (e, at_head) r
  | inr e ↦
      let inside : mem b xs ≡ true = ground arith in
      let links = unlink_later m p head b x xs l a inside in
      let rest = unlink-Linked m x (m x).next b xs l.2 a.1 inside in
      let at_head : (head == b) ≡ false = ground (arith, l) in
      rw (e, at_head) (l.0, links.0, rw links.1 rest)
]

-- A member leads back to the bound exactly when it is the head.
pub is_first :
    (m : Blocks) (p head b : ℕ) (xs : List ℕ)
    → Linked m p head xs
    → Ascending p xs
    → mem b xs ≡ true
    → ((m b).prev == p) ≡ (head == b)
is_first m p head b xs l a h = elim (before_member m p head b xs l h) [
  | inl first ↦ ground (arith, first)
  | inr later ↦
      let above = mem-Ascending p (m b).prev xs a later in
      let b_above = mem-Ascending p b xs a h in
      let other : head ≢ b = λ e.
        let back = prev_of_head m p head xs l (omega (arith, b_above)) in
        let same : (m b).prev ≡ p = subst (λ k. (m k).prev ≡ p) e back in omega arith in
      ground arith
]
