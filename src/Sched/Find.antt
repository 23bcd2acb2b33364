-- ===== src/Sched/Find.antt =====
-- The searches through the descriptor array: `SchedFind`, and the free descriptor of `SchedCreate`.
use novium_os.Prelude.{ℕ, zero, suc, ◌+◌, ◌≡◌, Bool, not, ◌&&◌, ◌==◌, arith, inl, inr, Bool-cases}
use novium_os.Prelude.Search.{Found, Found-here, Found-later, Found-empty}
use novium_os.Task.{Tasks, max_tasks}
use novium_os.Sched.{Scheduler, is_dead, find_from, sched_find}
use novium_os.Sched.Life.{first_dead}

-- The descriptor belongs to a living task with this id.
abbrev pub has_id : Tasks → ℕ → ℕ → Bool
has_id tasks id i = not (is_dead (tasks i).state) && (tasks i).id == id

find_from-Found :
    (tasks : Tasks) (n index id hi : ℕ)
    → index + n ≡ hi
    → Found (has_id tasks id) index hi (find_from tasks n index id)
unfolding find_from
find_from-Found tasks zero index id hi e = Found-empty (has_id tasks id) index hi (omega arith)
find_from-Found tasks (suc n) index id hi e = elim (Bool-cases (has_id tasks id index)) [
  | inl hit ↦ rw (hit, find_from) (Found-here (has_id tasks id) index hi hit (omega arith))
  | inr miss ↦
      rw (miss, find_from)
        (Found-later (has_id tasks id) index hi (find_from tasks n (index + 1) id) miss
          (omega arith) (find_from-Found tasks n (index + 1) id hi (omega arith)))
]

-- `SchedFind` returns the first descriptor of a living task with the id, or null when no living task
-- has it.
pub sched_find-Found :
    (id : ℕ) (s : Scheduler) → Found (has_id s.tasks id) 0 max_tasks (sched_find id s)
unfolding sched_find
sched_find-Found id s = find_from-Found s.tasks max_tasks 0 id max_tasks (omega arith)

abbrev dead_at : Tasks → ℕ → Bool
dead_at tasks i = is_dead (tasks i).state

first_dead-Found :
    (tasks : Tasks) (n index hi : ℕ)
    → index + n ≡ hi
    → Found (dead_at tasks) index hi (first_dead tasks n index)
unfolding first_dead
first_dead-Found tasks zero index hi e = Found-empty (dead_at tasks) index hi (omega arith)
first_dead-Found tasks (suc n) index hi e = elim (Bool-cases (dead_at tasks index)) [
  | inl hit ↦ rw (hit, first_dead) (Found-here (dead_at tasks) index hi hit (omega arith))
  | inr miss ↦
      rw (miss, first_dead)
        (Found-later (dead_at tasks) index hi (first_dead tasks n (index + 1)) miss (omega arith)
          (first_dead-Found tasks n (index + 1) hi (omega arith)))
]

pub free_descriptor :
    (tasks : Tasks) → Found (dead_at tasks) 0 max_tasks (first_dead tasks max_tasks 0)
free_descriptor tasks = first_dead-Found tasks max_tasks 0 max_tasks (omega arith)
