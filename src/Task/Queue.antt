-- ===== src/Task/Queue.antt =====
-- `SchedQueueAdd` and `SchedQueueRemove` on a well-formed queue.
use novium_os.Prelude.{
  ℕ, zero, suc, ◌≤◌, ◌≡◌, ◌≢◌, refl, sym, ◌∙◌, subst, true, false, ◌||◌, ◌==◌, List, [], ◌∷◌, ◌++◌,
  Option, none, some, arith, length,
}
use novium_os.Task.{Tasks, set_next, max_tasks, last_of, queue_add}
use novium_os.Task.Members.{mem, Distinct}
use novium_os.Task.Chain.{Chain, Chain-frame, Chain-head, content, content-set_next}

abbrev last : ℕ → List ℕ → ℕ
last x [] = x
last x (y ∷ ys) = last y ys

mem-last : (x : ℕ) (xs : List ℕ) → (x == last x xs || mem (last x xs) xs) ≡ true
mem-last x [] = ground arith
mem-last x (y ∷ ys) = ground (arith, mem-last y ys)

last_of-Chain :
    (tasks : Tasks) (fuel x : ℕ) (xs : List ℕ)
    → length xs ≤ fuel
    → Chain tasks (tasks x).next xs
    → last_of tasks fuel x ≡ last x xs
unfolding last_of
last_of-Chain tasks zero x [] h c = refl
last_of-Chain tasks zero x (y ∷ ys) h c = absurd (omega arith)
last_of-Chain tasks (suc fuel) x [] h c = rw (c, last_of)
last_of-Chain tasks (suc fuel) x (y ∷ ys) h c =
    rw (c.0, last_of) (last_of-Chain tasks fuel y ys (omega arith) c.1)

-- Linking `t` behind the last descriptor.
attach-Chain :
    (tasks : Tasks) (t x : ℕ) (xs : List ℕ)
    → Distinct (x ∷ xs)
    → mem t (x ∷ xs) ≡ false
    → (tasks t).next ≡ none
    → Chain tasks (tasks x).next xs
    → Chain
        (set_next tasks (last x xs) (some t))
        (set_next tasks (last x xs) (some t) x).next
        (xs ++ t ∷ [])
attach-Chain tasks t x [] d m e c = (ground arith, ground arith)
attach-Chain tasks t x (y ∷ ys) d m e c =
    (ground (arith, mem-last y ys), attach-Chain tasks t y ys d.1 (ground arith) e c.1)

-- With the link of `t` cleared the walk still ends at the last descriptor.
cut_last :
    (tasks : Tasks) (t x : ℕ) (xs : List ℕ)
    → length xs ≤ max_tasks
    → mem t (x ∷ xs) ≡ false
    → Chain tasks (tasks x).next xs
    → Chain (set_next tasks t none) (set_next tasks t none x).next xs
      × (last_of (set_next tasks t none) max_tasks x ≡ last x xs)
cut_last tasks t x xs l m c = (c', last_of-Chain (set_next tasks t none) max_tasks x xs l c')
  where
    c' : Chain (set_next tasks t none) (set_next tasks t none x).next xs
    c' =
        Chain-head (set_next tasks t none) (tasks x).next (set_next tasks t none x).next xs
          (ground arith)
          (Chain-frame tasks (set_next tasks t none) (tasks x).next xs (λ i k. ground arith) c)

add_to_some :
    (tasks : Tasks) (t x : ℕ) (xs : List ℕ)
    → Distinct (x ∷ xs)
    → length xs ≤ max_tasks
    → mem t (x ∷ xs) ≡ false
    → Chain tasks (tasks x).next xs
    → Chain (queue_add tasks (some x) t).0 (queue_add tasks (some x) t).1 ((x ∷ xs) ++ t ∷ [])
unfolding queue_add
add_to_some tasks t x xs d l m c =
    let (c', e) = cut_last tasks t x xs l m c in
    subst (λ k. Chain (set_next (set_next tasks t none) k (some t)) (some x) ((x ∷ xs) ++ t ∷ []))
      (sym e) (refl, attach-Chain (set_next tasks t none) t x xs d m (ground arith) c')

add_to_none :
    (tasks : Tasks) (t : ℕ) → Chain (queue_add tasks none t).0 (queue_add tasks none t).1 (t ∷ [])
unfolding queue_add
add_to_none tasks t = (refl, ground arith)

-- The queue behind `queue_add` is the old one with the task at its end.
pub queue_add-Chain :
    (tasks : Tasks) (head : Option ℕ) (t : ℕ) (xs : List ℕ)
    → Distinct xs
    → length xs ≤ max_tasks
    → mem t xs ≡ false
    → Chain tasks head xs
    → Chain (queue_add tasks head t).0 (queue_add tasks head t).1 (xs ++ t ∷ [])
queue_add-Chain tasks head t [] d l m c =
    subst (λ h. Chain (queue_add tasks h t).0 (queue_add tasks h t).1 (t ∷ [])) (sym c)
      (add_to_none tasks t)
queue_add-Chain tasks head t (x ∷ xs) d l m c =
    subst (λ h. Chain (queue_add tasks h t).0 (queue_add tasks h t).1 ((x ∷ xs) ++ t ∷ []))
      (sym c.0) (add_to_some tasks t x xs d (omega arith) m c.1)

-- It changes the links of the queue and of the task alone, and nothing but links.
pub queue_add_frame :
    (tasks : Tasks) (head : Option ℕ) (t : ℕ) (xs : List ℕ) (i : ℕ)
    → length xs ≤ max_tasks
    → mem t xs ≡ false
    → Chain tasks head xs
    → mem i xs ≡ false
    → t ≢ i
    → ((queue_add tasks head t).0 i).next ≡ (tasks i).next
unfolding queue_add
queue_add_frame tasks none t xs i l m c off ne = ground arith
queue_add_frame tasks (some h) t [] i l m c off ne = cc
queue_add_frame tasks (some h) t (x ∷ xs) i l m c off ne =
    let same : h ≡ x = cc in
    let e = (cut_last tasks t x xs (omega arith) m c.1).1 in
    let k : last_of (set_next tasks t none) max_tasks h ≡ last x xs = rw same e in
    ground (arith, k, mem-last x xs)

pub content-queue_add :
    (tasks : Tasks) (head : Option ℕ) (t i : ℕ)
    → content ((queue_add tasks head t).0 i) ≡ content (tasks i)
unfolding queue_add
content-queue_add tasks none t i = content-set_next tasks t i none
content-queue_add tasks (some h) t i =
    content-set_next (set_next tasks t none) (last_of (set_next tasks t none) max_tasks h) i
      (some t)
    ∙ content-set_next tasks t i none
