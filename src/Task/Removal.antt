-- ===== src/Task/Removal.antt =====
-- `SchedQueueRemove` on a well-formed queue.
use novium_os.Prelude.{
  ℕ, zero, suc, ◌≤◌, ◌≡◌, refl, sym, ◌∙◌, subst, false, ◌==◌, List, [], ◌∷◌, Option, none, some,
  arith, inl, inr, Bool-cases, length, ==_iff,
}
use novium_os.Task.{Tasks, set_next, max_tasks, unlink, remove_from, queue_remove}
use novium_os.Task.Members.{mem, Distinct, without}
use novium_os.Task.Chain.{Chain, Chain-frame, Chain-head, content, content-set_next}

abbrev pub first : List ℕ → Option ℕ
first [] = none
first (x ∷ xs) = some x

pub Chain-first : (tasks : Tasks) (h : Option ℕ) (xs : List ℕ) → Chain tasks h xs → h ≡ first xs
Chain-first tasks h [] c = c
Chain-first tasks h (x ∷ xs) c = c.0

-- What the loop leaves behind the descriptor `p`, where the list `ys` stood.
record Removed (tasks : Tasks) (head : Option ℕ) (p t : ℕ) (ys : List ℕ) (r : Tasks × Option ℕ)
    : Type 0 where
  head_kept : r.1 ≡ head
  chain : Chain r.0 (r.0 p).next (without t ys)
  frame : (i : ℕ) → mem i (p ∷ ys) ≡ false → (r.0 i).next ≡ (tasks i).next
  contents : (i : ℕ) → content (r.0 i) ≡ content (tasks i)

abbrev ChainAt : Tasks → Option ℕ → List ℕ → Type 0
ChainAt tasks h xs = Chain tasks h xs

without_self : (y : ℕ) (zs : List ℕ) → without y (y ∷ zs) ≡ zs
without_self y zs = ground arith

without_other : (t y : ℕ) (zs : List ℕ) → (y == t) ≡ false → without t (y ∷ zs) ≡ y ∷ without t zs
without_other t y zs e = ground arith

unlink-Removed :
    (tasks : Tasks) (head : Option ℕ) (p y : ℕ) (zs : List ℕ)
    → Distinct (p ∷ y ∷ zs)
    → Chain tasks (tasks y).next zs
    → Removed tasks head p y (y ∷ zs) (unlink tasks head (some p) y)
unfolding unlink
unlink-Removed tasks head p y zs d c = record {
  head_kept = refl;
  chain =
      subst
        (ChainAt (set_next (set_next tasks p (tasks y).next) y none)
          (set_next (set_next tasks p (tasks y).next) y none p).next)
        (sym (without_self y zs))
        (Chain-head (set_next (set_next tasks p (tasks y).next) y none) (tasks y).next
          (set_next (set_next tasks p (tasks y).next) y none p).next zs (ground arith)
          (Chain-frame tasks (set_next (set_next tasks p (tasks y).next) y none) (tasks y).next zs
            (λ i m. ground arith) c));
  frame = λ i m. ground arith;
  contents = λ i.
      content-set_next (set_next tasks p (tasks y).next) y i none
      ∙ content-set_next tasks p i (tasks y).next;
}

-- One round: the wanted descriptor is unlinked, and another one is left behind.
passed-Removed :
    (tasks : Tasks) (head : Option ℕ) (p t y : ℕ) (zs : List ℕ) (r : Tasks × Option ℕ)
    → Distinct (p ∷ y ∷ zs)
    → (tasks p).next ≡ some y
    → (y == t) ≡ false
    → Removed tasks head y t zs r
    → Removed tasks head p t (y ∷ zs) r
passed-Removed tasks head p t y zs r d e miss v = record {
  head_kept = v.head_kept;
  chain =
      subst (Chain r.0 (r.0 p).next) (sym (without_other t y zs miss))
        (v.frame p (ground arith) ∙ e, v.chain);
  frame = λ i m. v.frame i (ground arith);
  contents = v.contents;
}

remove_from-Removed :
    (fuel : ℕ) (tasks : Tasks) (head : Option ℕ) (p t : ℕ) (ys : List ℕ)
    → length ys ≤ fuel
    → Distinct (p ∷ ys)
    → (tasks p).next ≡ first ys
    → Chain tasks (first ys) ys
    → Removed tasks head p t ys (remove_from fuel tasks head (some p) (first ys) t)
unfolding remove_from
remove_from-Removed zero tasks head p t [] l d e c = record {
  head_kept = refl;
  chain = e;
  frame = λ i m. refl;
  contents = λ i. refl;
}
remove_from-Removed (suc fuel) tasks head p t [] l d e c = record {
  head_kept = refl;
  chain = e;
  frame = λ i m. refl;
  contents = λ i. refl;
}
remove_from-Removed zero tasks head p t (y ∷ zs) l d e c = absurd (omega arith)
remove_from-Removed (suc fuel) tasks head p t (y ∷ zs) l d e c = elim (Bool-cases (y == t)) [
  | inl hit ↦
      rw (hit, remove_from)
        (subst (λ k. Removed tasks head p k (y ∷ zs) (unlink tasks head (some p) y))
          ((==_iff y t).0 hit) (unlink-Removed tasks head p y zs d c.1))
  | inr miss ↦
      rw (miss, remove_from)
        (passed-Removed tasks head p t y zs (remove_from fuel tasks head (some y) (tasks y).next t)
          d e miss
          (subst (λ k. Removed tasks head y t zs (remove_from fuel tasks head (some y) k t))
            (sym (Chain-first tasks (tasks y).next zs c.1))
            (remove_from-Removed fuel tasks head y t zs (omega arith) d.1
              (Chain-first tasks (tasks y).next zs c.1)
              (Chain-head tasks (tasks y).next (first zs) zs
                (Chain-first tasks (tasks y).next zs c.1) c.1))))
]

-- What `SchedQueueRemove` makes of a queue that holds `xs`.
pub record Dropped (tasks : Tasks) (t : ℕ) (xs : List ℕ) (r : Tasks × Option ℕ) : Type 0 where
  pub chain : Chain r.0 r.1 (without t xs)
  pub frame : (i : ℕ) → mem i xs ≡ false → (r.0 i).next ≡ (tasks i).next
  pub contents : (i : ℕ) → content (r.0 i) ≡ content (tasks i)

drop_head :
    (tasks : Tasks) (x : ℕ) (xs : List ℕ)
    → Distinct (x ∷ xs)
    → Chain tasks (tasks x).next xs
    → Dropped tasks x (x ∷ xs) (unlink tasks (some x) none x)
unfolding unlink
drop_head tasks x xs d c = record {
  chain =
      subst (Chain (set_next tasks x none) (tasks x).next) (sym (without_self x xs))
        (Chain-frame tasks (set_next tasks x none) (tasks x).next xs (λ i m. ground arith) c);
  frame = λ i m. ground arith;
  contents = λ i. content-set_next tasks x i none;
}

drop_later :
    (tasks : Tasks) (t x : ℕ) (xs : List ℕ) (r : Tasks × Option ℕ)
    → Distinct (x ∷ xs)
    → (x == t) ≡ false
    → Removed tasks (some x) x t xs r
    → Dropped tasks t (x ∷ xs) r
drop_later tasks t x xs r d miss v = record {
  chain = subst (Chain r.0 r.1) (sym (without_other t x xs miss)) (v.head_kept, v.chain);
  frame = v.frame;
  contents = v.contents;
}

drop_some :
    (fuel : ℕ) (tasks : Tasks) (t x : ℕ) (xs : List ℕ)
    → length xs ≤ fuel
    → Distinct (x ∷ xs)
    → Chain tasks (tasks x).next xs
    → Dropped tasks t (x ∷ xs) (remove_from (suc fuel) tasks (some x) none (some x) t)
unfolding remove_from
drop_some fuel tasks t x xs l d c = elim (Bool-cases (x == t)) [
  | inl hit ↦
      rw (hit, remove_from)
        (subst (λ k. Dropped tasks k (x ∷ xs) (unlink tasks (some x) none x)) ((==_iff x t).0 hit)
          (drop_head tasks x xs d c))
  | inr miss ↦
      rw (miss, remove_from)
        (drop_later tasks t x xs (remove_from fuel tasks (some x) (some x) (tasks x).next t) d miss
          (subst (λ k. Removed tasks (some x) x t xs (remove_from fuel tasks (some x) (some x) k t))
            (sym (Chain-first tasks (tasks x).next xs c))
            (remove_from-Removed fuel tasks (some x) x t xs l d
              (Chain-first tasks (tasks x).next xs c)
              (Chain-head tasks (tasks x).next (first xs) xs (Chain-first tasks (tasks x).next xs c)
                c))))
]

drop_none : (tasks : Tasks) (t : ℕ) → Dropped tasks t [] (queue_remove tasks none t)
unfolding queue_remove remove_from
drop_none tasks t = record { chain = refl; frame = λ i m. refl; contents = λ i. refl }

-- `SchedQueueRemove` takes the task out of the queue wherever it stands, and changes no link off the
-- queue and nothing but links. A task that is not on the queue leaves it as it was.
pub queue_remove-Dropped :
    (tasks : Tasks) (head : Option ℕ) (t : ℕ) (xs : List ℕ)
    → length xs ≤ max_tasks
    → Distinct xs
    → Chain tasks head xs
    → Dropped tasks t xs (queue_remove tasks head t)
unfolding queue_remove
queue_remove-Dropped tasks head t [] l d c =
    subst (λ h. Dropped tasks t [] (queue_remove tasks h t)) (sym c) (drop_none tasks t)
queue_remove-Dropped tasks head t (x ∷ xs) l d c =
    subst (λ h. Dropped tasks t (x ∷ xs) (queue_remove tasks h t)) (sym c.0)
      (drop_some 31 tasks t x xs (omega arith) d c.1)
