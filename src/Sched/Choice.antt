-- ===== src/Sched/Choice.antt =====
-- `SchedFindRoundRobin` and `SchedFindNext` against the list that is the ready queue.
use novium_os.Prelude.{
  ℕ, zero, suc, ◌≤◌, ◌≡◌, refl, sym, ap, ◌∙◌, subst, Bool, true, ltb, if◌then◌else◌, List, [], ◌∷◌,
  Option, none, some, arith, length,
}
use novium_os.Task.{Tasks, max_tasks}
use novium_os.Task.Members.{mem, mem-append}
use novium_os.Task.Chain.{Chain}
use novium_os.Task.Removal.{first, Chain-first}
use novium_os.Task.Linked.{short}
use novium_os.Sched.{Scheduler, SchedPolicy, round_robin, priority_first}
use novium_os.Sched.Invariant.{Queued}
use novium_os.Sched.Select.{find_above, find_round_robin, by_policy, find_next}
use novium_os.Sched.Highest.{Best, Chosen, next_first, find_priority-Chosen}

-- The first task of a list that passes a test.
abbrev pub first_such : (ℕ → Bool) → List ℕ → Option ℕ
first_such p [] = none
first_such p (x ∷ xs) = if p x then some x else first_such p xs

abbrev pub or_else : Option ℕ → Option ℕ → Option ℕ
or_else none h = h
or_else (some t) h = some t

-- The first task behind the id `id` in the list's order, or else the list's head.
abbrev pub in_turn : Tasks → ℕ → List ℕ → Option ℕ
in_turn tasks id xs = or_else (first_such (λ i. ltb id (tasks i).id) xs) (first xs)

find_above-first_such :
    (tasks : Tasks) (fuel id : ℕ) (xs : List ℕ)
    → length xs ≤ fuel
    → Chain tasks (first xs) xs
    → find_above tasks fuel (first xs) id ≡ first_such (λ i. ltb id (tasks i).id) xs
unfolding find_above
find_above-first_such tasks zero id [] l c = refl
find_above-first_such tasks zero id (x ∷ xs) l c = absurd (omega arith)
find_above-first_such tasks (suc fuel) id [] l c = refl
find_above-first_such tasks (suc fuel) id (x ∷ xs) l c =
    let link = next_first tasks x xs c in
    rw (link.0, find_above-first_such tasks fuel id xs (omega arith) link.1) refl

from_current :
    (s : Scheduler) (c : ℕ)
    → s.current_task ≡ some c
    → find_round_robin s
      ≡ or_else (find_above s.tasks max_tasks s.ready_queue (s.tasks c).id) s.ready_queue
unfolding find_round_robin
from_current s c at_c = ground arith

-- With sound queues and a current task, `SchedFindRoundRobin` picks the first task in the order of the
-- ready queue whose id is above that of the current task, which need not be the least such id, and the
-- head of the ready queue if there is none.
pub find_round_robin_lem :
    {s : Scheduler} {r b d : List ℕ} (c : ℕ)
    → Queued s r b d
    → s.current_task ≡ some c
    → find_round_robin s ≡ in_turn s.tasks (s.tasks c).id r
find_round_robin_lem {s} {r} c q at_c =
    let id = (s.tasks c).id in
    let e = Chain-first s.tasks s.ready_queue r q.links.chain_x in
    let a =
      find_above-first_such s.tasks max_tasks id r (short q.links)
        (subst (λ h. Chain s.tasks h r) e q.links.chain_x) in
    from_current s c at_c
    ∙ ap (λ h. or_else (find_above s.tasks max_tasks h id) h) e
    ∙ ap (λ o. or_else o (first r)) a

first_such-mem : (p : ℕ → Bool) (xs : List ℕ) (t : ℕ) → first_such p xs ≡ some t → mem t xs ≡ true
first_such-mem p [] t e = ground arith
first_such-mem p (x ∷ xs) t e = ground (arith, first_such-mem p xs t)

first-mem : (xs : List ℕ) (t : ℕ) → first xs ≡ some t → mem t xs ≡ true
first-mem [] t e = ground arith
first-mem (x ∷ xs) t e = ground arith

in_turn-mem :
    (tasks : Tasks) (id : ℕ) (xs : List ℕ) (t : ℕ) → in_turn tasks id xs ≡ some t → mem t xs ≡ true
in_turn-mem tasks id xs t e =
    ground (arith, first-mem xs t, first_such-mem (λ i. ltb id (tasks i).id) xs t)

in_turn_empty : (tasks : Tasks) (id : ℕ) (xs : List ℕ) → in_turn tasks id xs ≡ none → xs ≡ []
in_turn_empty tasks id [] e = refl
in_turn_empty tasks id (x ∷ xs) e = ground arith

Chosen-mem : (tasks : Tasks) (xs : List ℕ) (t : ℕ) → Best tasks xs t → mem t xs ≡ true
Chosen-mem tasks xs t k =
    subst (λ ys. mem t ys ≡ true) (sym k.split)
      (ground (arith, mem-append t k.ahead (t ∷ k.behind)))

-- Whatever the policy, the next task is one of the ready queue, and there is none only if that is
-- empty.
unfoldable pub Ready : List ℕ → Option ℕ → Type 0
Ready xs none = xs ≡ []
Ready xs (some t) = mem t xs ≡ true

pub Chosen-Ready : (tasks : Tasks) (xs : List ℕ) (o : Option ℕ) → Chosen tasks xs o → Ready xs o
unfolding Chosen Ready
Chosen-Ready tasks xs none c = c
Chosen-Ready tasks xs (some t) c = Chosen-mem tasks xs t c

in_turn-Ready :
    (tasks : Tasks) (id : ℕ) (xs : List ℕ) (o : Option ℕ) → in_turn tasks id xs ≡ o → Ready xs o
unfolding Ready
in_turn-Ready tasks id xs none e = in_turn_empty tasks id xs e
in_turn-Ready tasks id xs (some t) e = in_turn-mem tasks id xs t e

by_policy-Ready :
    {s : Scheduler} {r b d : List ℕ} (c : ℕ) (p : SchedPolicy)
    → Queued s r b d
    → s.current_task ≡ some c
    → Ready r (by_policy p s)
unfolding by_policy
by_policy-Ready {s} {r} c round_robin q at_c =
    in_turn-Ready s.tasks (s.tasks c).id r _ (sym (find_round_robin_lem c q at_c))
by_policy-Ready {s} {r} c priority_first q at_c = Chosen-Ready s.tasks r _ (find_priority-Chosen q)

pub find_next-Ready :
    {s : Scheduler} {r b d : List ℕ} (c : ℕ)
    → Queued s r b d
    → s.current_task ≡ some c
    → Ready r (find_next s)
unfolding find_next
find_next-Ready {s} c q at_c = by_policy-Ready c s.current_policy q at_c
