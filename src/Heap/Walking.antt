-- ===== src/Heap/Walking.antt =====
-- `HeapListInsert`: where its loop stops, and the list that it leaves.
use novium_os.Prelude.{
  ℕ, zero, suc, ◌<◌, ◌≡◌, ◌⊎◌, inl, inr, refl, ◌≢◌, sym, subst, true, false, ◌==◌, ltb, not, ◌&&◌,
  if◌then◌else◌, List, [], ◌∷◌, arith, Bool-cases, length,
}
use novium_os.Heap.{Blocks, link, insert_place}
use novium_os.Heap.FreeList.{Linked, Ascending, mem-Ascending, Linked-frame}
use novium_os.Task.Members.{mem}

abbrev pub inserted : ℕ → List ℕ → List ℕ
inserted b [] = b ∷ []
inserted b (x ∷ xs) = if ltb b x then b ∷ x ∷ xs else x ∷ inserted b xs

pub mem-inserted :
    (b i : ℕ) (xs : List ℕ) → mem i (inserted b xs) ≡ (if b == i then true else mem i xs)
mem-inserted b i [] = ground arith
mem-inserted b i (x ∷ xs) = ground (arith, mem-inserted b i xs)

pub Ascending-inserted :
    (p b : ℕ) (xs : List ℕ)
    → Ascending p xs
    → p < b
    → mem b xs ≡ false
    → Ascending p (inserted b xs)
Ascending-inserted p b [] a h n = (h, tt)
Ascending-inserted p b (x ∷ xs) a h n = elim (Bool-cases (ltb b x)) [
  | inl here ↦ rw here (h, (ground arith, a.1))
  | inr later ↦ rw later (a.0, Ascending-inserted x b xs a.1 (ground arith) (ground arith))
]

-- Where the walk from `p` stops: before the head if that is above `b`, or behind a member.
Place : ℕ → ℕ → ℕ → List ℕ → ℕ × ℕ → Type 0
Place b p head xs (q, c) =
    (((q ≡ p) × (c ≡ head)) ⊎ ((mem q xs ≡ true) × (head < b) × (head ≢ 0)))
    × (q < b)
    × ((c ≡ 0) ⊎ ((mem c xs ≡ true) × (b < c)))

Place-behind :
    (b p x head : ℕ) (xs : List ℕ) (r : ℕ × ℕ)
    → x < b
    → 0 < x
    → Place b x head xs r
    → Place b p x (x ∷ xs) r
unfolding Place
Place-behind b p x head xs (q, c) below pos (inl first, low, high) = (
  inr (ground (arith, first), below, omega arith),
  low,
  elim high [ inl last ↦ inl last | inr more ↦ inr (ground (arith, more), more.1) ],
)
Place-behind b p x head xs (q, c) below pos (inr later, low, high) = (
  inr (ground (arith, later), below, omega arith),
  low,
  elim high [ inl last ↦ inl last | inr more ↦ inr (ground (arith, more), more.1) ],
)

insert_place_on :
    (fuel : ℕ) (m : Blocks) (b p x : ℕ)
    → (not (x == 0) && ltb x b) ≡ true
    → insert_place (suc fuel) m b p x ≡ insert_place fuel m b x (m x).next
unfolding insert_place
insert_place_on fuel m b p x go = rw go

insert_place_stop :
    (fuel : ℕ) (m : Blocks) (b p x : ℕ)
    → (not (x == 0) && ltb x b) ≡ false
    → insert_place (suc fuel) m b p x ≡ (p, x)
unfolding insert_place
insert_place_stop fuel m b p x stop = rw stop

insert_place-Place :
    (fuel : ℕ) (m : Blocks) (b p head : ℕ) (xs : List ℕ)
    → Linked m p head xs
    → Ascending p xs
    → p < b
    → mem b xs ≡ false
    → length xs < fuel
    → Place b p head xs (insert_place fuel m b p head)
unfolding Place
insert_place-Place zero m b p head xs l a h n f = elim f [ ]
insert_place-Place (suc fuel) m b p head [] l a h n f =
    let stop : (not (head == 0) && ltb head b) ≡ false = ground arith in
    rw (insert_place_stop fuel m b p head stop) (inl (refl, refl), h, inl l)
insert_place-Place (suc fuel) m b p head (x ∷ xs) l a h n f = elim (Bool-cases (ltb x b)) [
  | inl below ↦
      let go : (not (x == 0) && ltb x b) ≡ true = ground (arith, a) in
      let rest =
        insert_place-Place fuel m b x (m x).next xs l.2 a.1 (ground arith) (ground arith)
          (omega arith) in
      let on : insert_place (suc fuel) m b p head ≡ insert_place fuel m b x (m x).next =
        rw l.0 (insert_place_on fuel m b p x go) in
      subst (λ r. Place b p head (x ∷ xs) r) (sym on)
        (rw l.0 (
          Place-behind b p x (m x).next xs (insert_place fuel m b x (m x).next) (ground arith)
            (omega (arith, a)) rest))
  | inr above ↦
      let stop : (not (head == 0) && ltb head b) ≡ false = ground (arith, l, a) in
      rw (insert_place_stop fuel m b p head stop)
        (inl (refl, refl), h, inr (ground (arith, l), ground (arith, l)))
]

next-link :
    (m : Blocks) (b q c i : ℕ)
    → i ≢ 0
    → q ≢ b
    → (link m b q c i).next ≡ (if b == i then c else if q == i then b else (m i).next)
unfolding link
next-link m b q c i h n = ground arith

prev-link :
    (m : Blocks) (b q c i : ℕ)
    → i ≢ 0
    → c ≢ b
    → (link m b q c i).prev ≡ (if b == i then q else if c == i then b else (m i).prev)
unfolding link
prev-link m b q c i h n = ground arith

-- A block put in front of a list, where it was looked for from `p` on.
link_front :
    (m : Blocks) (b p head : ℕ) (xs : List ℕ)
    → Linked m p head xs
    → Ascending b xs
    → p < b
    → Linked (link m b p head) p b (b ∷ xs)
link_front m b p head [] l a h =
    let ne : head ≢ b = omega (arith, l) in
    (
      refl,
      ground (arith, prev-link m b p head b (omega arith) ne),
      ground (arith, next-link m b p head b (omega arith) (omega arith), l),
    )
link_front m b p head (x ∷ xs) l a h =
    let ne : head ≢ b = omega (arith, l, a) in
    let m' = link m b p head in
    let next : (m' b).next ≡ head =
      ground (arith, next-link m b p head b (omega arith) (omega arith)) in
    let same : (m' x).next ≡ (m x).next =
      ground (arith, next-link m b p head x (omega (arith, a)) (omega arith), a) in
    let rest =
      Linked-frame m m' x (m x).next xs
        (λ i k.
          let above = mem-Ascending x i xs a.1 k in
          (
            ground (arith, prev-link m b p head i (omega arith) ne, l, a),
            ground (arith, next-link m b p head i (omega arith) (omega arith), a),
          ))
        l.2 in
    (
      refl,
      ground (arith, prev-link m b p head b (omega arith) ne),
      (
        ground (arith, next, l),
        ground (arith, prev-link m b p head x (omega (arith, a)) ne, l, a),
        rw same rest,
      ),
    )

-- A block that went in behind `x` leaves the links of `x` as they should be.
Linked-behind :
    (m : Blocks) (b p head x q c : ℕ) (xs : List ℕ)
    → Linked m p head (x ∷ xs)
    → Ascending p (x ∷ xs)
    → x < b
    → Place b x (m x).next xs (q, c)
    → Linked (link m b q c) x (if q == x then b else (m x).next) (inserted b xs)
    → Linked
        (link m b q c)
        p
        (if q == p then b else head)
        (if ltb b x then b ∷ x ∷ xs else x ∷ inserted b xs)
unfolding Place
Linked-behind m b p head x q c xs l a below place rest =
    let ne : x ≢ 0 = omega (arith, a) in
    let low : q ≢ b = omega (arith, place) in
    let past : (c ≢ b) × (c ≢ x) = elim place.2 [
      | inl last ↦ (omega arith, omega arith)
      | inr more ↦ (omega (arith, more), omega (arith, more))
    ] in
    let above : p < q = elim place.0 [
      | inl first ↦ omega (arith, first, a)
      | inr later ↦ omega (arith, mem-Ascending x q xs a.1 later.0, a)
    ] in
    let other : (q == p) ≡ false = ground arith in
    let later : ltb b x ≡ false = ground arith in
    let next : (link m b q c x).next ≡ (if q == x then b else (m x).next) =
      ground (arith, next-link m b q c x ne low) in
    rw (other, later) (l.0, ground (arith, prev-link m b q c x ne past.0, past, l), rw next rest)

-- `HeapListInsert`, its loop and its writes, puts a block in its place.
pub link-Linked :
    (fuel : ℕ) (m : Blocks) (b p head : ℕ) (xs : List ℕ)
    → Linked m p head xs
    → Ascending p xs
    → p < b
    → mem b xs ≡ false
    → length xs < fuel
    → let r = insert_place fuel m b p head in
      Linked (link m b r.0 r.1) p (if r.0 == p then b else head) (inserted b xs)
link-Linked zero m b p head xs l a h n f = elim f [ ]
link-Linked (suc fuel) m b p head [] l a h n f =
    let stop : (not (head == 0) && ltb head b) ≡ false = ground (arith, l) in
    let first : (p == p) ≡ true = ground arith in
    rw (insert_place_stop fuel m b p head stop, first) (link_front m b p head [] l tt h)
link-Linked (suc fuel) m b p head (x ∷ xs) l a h n f = elim (Bool-cases (ltb x b)) [
  | inl below ↦
      let go : (not (x == 0) && ltb x b) ≡ true = ground (arith, a) in
      let r = insert_place fuel m b x (m x).next in
      let place : Place b x (m x).next xs r =
        insert_place-Place fuel m b x (m x).next xs l.2 a.1 (ground arith) (ground arith)
          (omega arith) in
      let rest =
        link-Linked fuel m b x (m x).next xs l.2 a.1 (ground arith) (ground arith) (omega arith) in
      let on : insert_place (suc fuel) m b p head ≡ insert_place fuel m b x (m x).next =
        rw l.0 (insert_place_on fuel m b p x go) in
      rw on (Linked-behind m b p head x r.0 r.1 xs l a (ground arith) place rest)
  | inr above ↦
      let stop : (not (head == 0) && ltb head b) ≡ false = ground (arith, l) in
      let first : (p == p) ≡ true = ground arith in
      let here : ltb b x ≡ true = ground arith in
      rw (insert_place_stop fuel m b p head stop, first, here)
        (link_front m b p head (x ∷ xs) l (ground arith, a.1) h)
]
