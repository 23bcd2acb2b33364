-- ===== src/Sched/Highest.antt =====
-- `SchedFindPriority` against the list that is the ready queue.
use novium_os.Prelude.{
  ℕ, zero, suc, ◌≤◌, ◌<◌, ◌≡◌, refl, sym, ap, ◌∙◌, subst, true, ltb, if◌then◌else◌, List, [], ◌∷◌,
  ◌++◌, Option, none, some, arith, inl, inr, Bool-cases, length,
}
use mathlib.Core.List.{append_assoc, append-nil}
use novium_os.Task.{Tasks, max_tasks}
use novium_os.Task.Members.{mem, mem-append}
use novium_os.Task.Chain.{Chain}
use novium_os.Task.Removal.{first, Chain-first}
use novium_os.Task.Linked.{short}
use novium_os.Sched.{Scheduler}
use novium_os.Sched.Invariant.{Queued}
use novium_os.Sched.Select.{find_best, find_priority}

-- `t` has the highest priority of a list, and the tasks ahead of it have lower ones.
pub record Best (tasks : Tasks) (xs : List ℕ) (t : ℕ) : Type 0 where
  pub ahead : List ℕ
  pub behind : List ℕ
  pub split : xs ≡ ahead ++ t ∷ behind
  pub above_ahead : (i : ℕ) → mem i ahead ≡ true → (tasks i).priority < (tasks t).priority
  pub above_behind : (i : ℕ) → mem i behind ≡ true → (tasks i).priority ≤ (tasks t).priority

Best-keep :
    (tasks : Tasks) (xs : List ℕ) (t x : ℕ)
    → (tasks x).priority ≤ (tasks t).priority
    → Best tasks xs t
    → Best tasks (xs ++ x ∷ []) t
Best-keep tasks xs t x le k = record {
  ahead = k.ahead;
  behind = k.behind ++ x ∷ [];
  split = ap (λ ys. ys ++ x ∷ []) k.split ∙ append_assoc k.ahead (t ∷ k.behind) (x ∷ []);
  above_ahead = k.above_ahead;
  above_behind = λ i m. ground (arith, mem-append i k.behind (x ∷ []), k.above_behind i);
}

Best-above :
    (tasks : Tasks) (xs : List ℕ) (t : ℕ)
    → Best tasks xs t
    → (i : ℕ) → mem i xs ≡ true
    → (tasks i).priority ≤ (tasks t).priority
Best-above tasks xs t k i m =
    let m' : mem i (k.ahead ++ t ∷ k.behind) ≡ true = subst (λ ys. mem i ys ≡ true) k.split m in
    ground (arith, mem-append i k.ahead (t ∷ k.behind), k.above_ahead i, k.above_behind i)

Best-new :
    (tasks : Tasks) (xs : List ℕ) (t x : ℕ)
    → (tasks t).priority < (tasks x).priority
    → Best tasks xs t
    → Best tasks (xs ++ x ∷ []) x
Best-new tasks xs t x lt k = record {
  ahead = xs;
  behind = [];
  split = refl;
  above_ahead = λ i m. omega (arith, Best-above tasks xs t k i m);
  above_behind = λ i m. ground arith;
}

-- What the search must return on a list.
unfoldable pub Chosen : Tasks → List ℕ → Option ℕ → Type 0
Chosen tasks xs none = xs ≡ []
Chosen tasks xs (some t) = Best tasks xs t

-- The link behind the first task of a chain.
pub next_first :
    (tasks : Tasks) (x : ℕ) (rest : List ℕ)
    → Chain tasks (first (x ∷ rest)) (x ∷ rest)
    → ((tasks x).next ≡ first rest) × Chain tasks (first rest) rest
next_first tasks x rest c =
    let e = Chain-first tasks (tasks x).next rest c.1 in (e, subst (λ h. Chain tasks h rest) e c.1)

find_best-Chosen :
    (tasks : Tasks) (fuel : ℕ) (seen : List ℕ) (t : ℕ) (rest : List ℕ)
    → length rest ≤ fuel
    → Chain tasks (first rest) rest
    → Best tasks seen t
    → Chosen tasks (seen ++ rest) (find_best tasks fuel (first rest) (some t))
unfolding find_best Chosen
find_best-Chosen tasks zero seen t [] l c k =
    subst (λ ys. Best tasks ys t) (sym (append-nil seen)) k
find_best-Chosen tasks zero seen t (x ∷ rest) l c k = absurd (omega arith)
find_best-Chosen tasks (suc fuel) seen t [] l c k =
    subst (λ ys. Best tasks ys t) (sym (append-nil seen)) k
find_best-Chosen tasks (suc fuel) seen t (x ∷ rest) l c k =
    let link = next_first tasks x rest c in
    subst
      (λ ys. Chosen tasks ys (
        find_best tasks fuel (tasks x).next
          (if ltb (tasks t).priority (tasks x).priority then some x else some t)))
      (append_assoc seen (x ∷ []) rest)
      (rw (link.0, find_best)
        (elim (Bool-cases (ltb (tasks t).priority (tasks x).priority)) [
          | inl higher ↦
              rw (higher, find_best)
                (find_best-Chosen tasks fuel (seen ++ x ∷ []) x rest (omega arith) link.1
                  (Best-new tasks seen t x (ground arith) k))
          | inr lower ↦
              rw (lower, find_best)
                (find_best-Chosen tasks fuel (seen ++ x ∷ []) t rest (omega arith) link.1
                  (Best-keep tasks seen t x (ground arith) k))
        ]))

from_first-Chosen :
    (tasks : Tasks) (xs : List ℕ)
    → length xs ≤ max_tasks
    → Chain tasks (first xs) xs
    → Chosen tasks xs (find_best tasks max_tasks (first xs) none)
unfolding find_best Chosen
from_first-Chosen tasks [] l c = refl
from_first-Chosen tasks (x ∷ rest) l c =
    let link = next_first tasks x rest c in
    rw (link.0, find_best)
      (find_best-Chosen tasks 31 (x ∷ []) x rest (omega arith) link.1 (record {
        ahead = [];
        behind = [];
        split = refl;
        above_ahead = λ i m. ground arith;
        above_behind = λ i m. ground arith;
      }))

-- With sound queues `SchedFindPriority` picks, on the list that the ready queue stands for, the first of the tasks with
-- the highest priority, and none only from the empty list.
pub find_priority-Chosen :
    {s : Scheduler} {r b d : List ℕ} → Queued s r b d → Chosen s.tasks r (find_priority s)
unfolding find_priority
find_priority-Chosen {s} {r} q =
    let e = Chain-first s.tasks s.ready_queue r q.links.chain_x in
    rw e (
      from_first-Chosen s.tasks r (short q.links)
        (subst (λ h. Chain s.tasks h r) e q.links.chain_x))
