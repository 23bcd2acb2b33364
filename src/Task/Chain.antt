-- ===== src/Task/Chain.antt =====
-- Linked lists in the descriptor array as lists of indices.
use novium_os.Prelude.{ℕ, ◌≡◌, true, ◌==◌, if◌then◌else◌, List, [], ◌∷◌, Option, none, some, arith}
use novium_os.Task.{Task, Tasks, set_next}
use novium_os.Task.Members.{mem}

-- From `head` along `Next` stand exactly the descriptors of the list.
abbrev pub Chain : Tasks → Option ℕ → List ℕ → Type 0
Chain tasks head [] = head ≡ none
Chain tasks head (x ∷ xs) = (head ≡ some x) × Chain tasks (tasks x).next xs

-- A chain does not see the descriptors off it.
pub Chain-frame :
    (tasks tasks' : Tasks) (head : Option ℕ) (xs : List ℕ)
    → ((i : ℕ) → mem i xs ≡ true → (tasks' i).next ≡ (tasks i).next)
    → Chain tasks head xs
    → Chain tasks' head xs
Chain-frame tasks tasks' head [] same c = c
Chain-frame tasks tasks' head (x ∷ xs) same c = (
  c.0,
  rw (same x (ground arith))
      (Chain-frame tasks tasks' (tasks x).next xs (λ i m. same i (ground arith)) c.1),
)

-- All of a descriptor but its link.
abbrev pub content : Task → Task
content t = record t { next = none }

pub content-set_next :
    (tasks : Tasks) (t i : ℕ) (v : Option ℕ) → content (set_next tasks t v i) ≡ content (tasks i)
content-set_next tasks t i v = ground arith

next-set_next :
    (tasks : Tasks) (t i : ℕ) (v : Option ℕ)
    → (set_next tasks t v i).next ≡ (if t == i then v else (tasks i).next)
next-set_next tasks t i v = ground arith

-- The same list from the same head.
pub Chain-head :
    (tasks : Tasks) (h h' : Option ℕ) (xs : List ℕ) → h ≡ h' → Chain tasks h xs → Chain tasks h' xs
Chain-head tasks h h' xs e c = rw (← e) c
