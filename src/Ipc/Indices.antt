-- ===== src/Ipc/Indices.antt =====
-- Where an id stands in a wait queue.
use novium_os.Prelude.{
  ℕ, zero, suc, ◌+◌, ◌≤◌, ◌<◌, ◌≡◌, ◌≢◌, refl, sym, Bool, true, false, ◌==◌, Option, none, some,
  arith, inl, inr, Bool-cases,
}
use novium_os.Prelude.Search.{Found, Found-here, Found-later, Found-empty}
use novium_os.Ipc.{IpcWait, max_waiters, find_id, is_found}

-- The test of the loops over the entries.
abbrev pub entry_is : IpcWait → ℕ → ℕ → Bool
entry_is w id i = w.ids i == id

find_from-Found :
    (w : IpcWait) (id n index hi : ℕ)
    → index + n ≡ hi
    → Found (entry_is w id) index hi (find_id w.ids n index id)
unfolding find_id
find_from-Found w id zero index hi e = Found-empty (entry_is w id) index hi (omega arith)
find_from-Found w id (suc n) index hi e = elim (Bool-cases (entry_is w id index)) [
  | inl hit ↦ rw (hit, find_id) (Found-here (entry_is w id) index hi hit (omega arith))
  | inr miss ↦
      rw (miss, find_id)
        (Found-later (entry_is w id) index hi (find_id w.ids n (index + 1) id) miss (omega arith)
          (find_from-Found w id n (index + 1) hi (omega arith)))
]

pub find_id-Found :
    (w : IpcWait) (id : ℕ) → Found (entry_is w id) 0 w.count (find_id w.ids w.count 0 id)
find_id-Found w id = find_from-Found w id w.count 0 w.count (omega arith)

-- The id is one of the entries in use.
unfoldable pub holds : IpcWait → ℕ → Bool
holds w id = is_found (find_id w.ids w.count 0 id)

held_by :
    (w : IpcWait) (x i : ℕ) (o : Option ℕ)
    → Found (entry_is w x) 0 w.count o
    → i < w.count
    → w.ids i ≡ x
    → is_found o ≡ true
held_by w x i none f h e = ground (arith, f i)
held_by w x i (some k) f h e = refl

pub holds_at : (w : IpcWait) (x i : ℕ) → i < w.count → w.ids i ≡ x → holds w x ≡ true
unfolding holds
holds_at w x i h e = held_by w x i (find_id w.ids w.count 0 x) (find_id-Found w x) h e

index_by :
    (w : IpcWait) (x : ℕ) (o : Option ℕ)
    → Found (entry_is w x) 0 w.count o
    → is_found o ≡ true
    → (i : ℕ) × (i < w.count) × (w.ids i ≡ x)
index_by w x none f e = absurd (ground arith)
index_by w x (some k) f e = (k, f.1, ground (arith, f.2))

pub index_of : (w : IpcWait) (x : ℕ) → holds w x ≡ true → (i : ℕ) × (i < w.count) × (w.ids i ≡ x)
unfolding holds
index_of w x e = index_by w x (find_id w.ids w.count 0 x) (find_id-Found w x) e

-- Two tests agree if each holds where the other does.
pub same_test : (a b : Bool) → (a ≡ true → b ≡ true) → (b ≡ true → a ≡ true) → a ≡ b
same_test true b f g = sym (f refl)
same_test false true f g = g refl
same_test false false f g = refl

-- A queue between calls: no more entries than there is room for, no task twice, and no 0.
pub record IsValid (w : IpcWait) : Type 0 where
  pub fits : w.count ≤ max_waiters
  pub distinct : (i j : ℕ) → i < w.count → j < w.count → w.ids i ≡ w.ids j → i ≡ j
  pub not_0 : (i : ℕ) → i < w.count → w.ids i ≢ 0
