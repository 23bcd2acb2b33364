-- ===== src/Sched/Select.antt =====
-- Which task runs next: `SchedFindRoundRobin`, `SchedFindPriority`, `SchedFindNext`.
use novium_os.Prelude.{ℕ, zero, suc, Bool, true, Option, none, some, ltb, if◌then◌else◌}
use novium_os.Task.{Tasks, max_tasks}
use novium_os.Sched.{Scheduler, SchedPolicy, round_robin, priority_first}

-- The first task from `current` on whose id is above `id`.
unfoldable pub find_above : Tasks → ℕ → Option ℕ → ℕ → Option ℕ
find_above tasks zero current id = none
find_above tasks (suc fuel) none id = none
find_above tasks (suc fuel) (some t) id =
    let rest = find_above tasks fuel (tasks t).next id in
    if ltb id (tasks t).id then some t else rest

unfoldable pub find_round_robin : Scheduler → Option ℕ
find_round_robin s = elim s.current_task [
  | none ↦ s.ready_queue
  | some c ↦ elim (find_above s.tasks max_tasks s.ready_queue (s.tasks c).id) [
    | none ↦ s.ready_queue
    | some t ↦ some t
  ]
]

-- `Best == 0 || Current->Priority > Best->Priority`
abbrev pub better : Tasks → ℕ → Option ℕ → Bool
better tasks t none = true
better tasks t (some best) = ltb (tasks best).priority (tasks t).priority

unfoldable pub find_best : Tasks → ℕ → Option ℕ → Option ℕ → Option ℕ
find_best tasks zero current best = best
find_best tasks (suc fuel) none best = best
find_best tasks (suc fuel) (some t) best =
    find_best tasks fuel (tasks t).next (if better tasks t best then some t else best)

unfoldable pub find_priority : Scheduler → Option ℕ
find_priority s = find_best s.tasks max_tasks s.ready_queue none

unfoldable pub by_policy : SchedPolicy → Scheduler → Option ℕ
unfolding find_round_robin find_priority
by_policy priority_first s = find_priority s
by_policy round_robin s = find_round_robin s

unfoldable pub find_next : Scheduler → Option ℕ
unfolding by_policy
find_next s = by_policy s.current_policy s
