-- ===== src/Sched/Tests.antt =====
-- The scheduler's theorems at work on the states of a run.
use novium_os.Prelude.{ℕ, ◌≡◌, refl, false, not, [], ◌∷◌, ◌++◌, some, arith, length}
use novium_os.Sched.Runs.{
  blank, name_a, one_task, started, two_tasks, two_tasks-IsValid, task_1_runs, task_1_runs-IsValid,
  task_2_runs, task_2_runs-IsValid, entered_of,
}
use novium_os.Sched.Invariant.{IsValid}
use novium_os.Sched.Creating.{sched_create_lem, Creates}
use novium_os.Sched.Choice.{find_round_robin_lem, in_turn}
use novium_os.Sched.Highest.{Chosen, find_priority-Chosen}
use novium_os.Sched.Expiry.{sched_wake_expired_lem, select}
use novium_os.Task.{queue_add, queue_remove, last_of, unlink, remove_from}
use novium_os.Sched.Exiting.{Exits, sched_exit_lem}
use novium_os.Sched.Life.{sched_exit}
use novium_os.Prelude.{subst}
use novium_os.Prelude.{◌==◌, none, if◌then◌else◌}
use novium_os.Sched.{Scheduler}
use novium_os.Sched.Select.{find_above}
use novium_os.Sched.{SchedStats, no_counts, sched_get_stats, count_states, count_state}
use novium_os.Sched.Switch.{yield_step, enter, requeue}
use novium_os.Sched.Select.{find_next, by_policy, find_priority, find_best, find_round_robin}
use novium_os.Sched.Yielding.{Yields, yield_step-Yields}
use novium_os.Sched.Wait.{is_due, sched_wake_expired}
use novium_os.Sched.{
  set_state, ready_remove, set_task, ready_add, dead_remove, lock_irq, unlock_irq, sched_find,
  find_from,
}
use novium_os.Sched.Life.{
  parent_of, sched_init, sched_create, fill, sched_init_stack, push_words, copy_name, reset,
  reset_all, idle_from, first_dead,
}

sched_create_lem_example :
    Creates 5 name_a 64 4096 started (sched_create 5 (some name_a) 64 4096 (sched_init blank))
sched_create_lem_example = sched_create_lem 5 name_a 64 4096 started

find_priority-Chosen_example : Chosen two_tasks.tasks (1 ∷ 2 ∷ []) (find_priority two_tasks)
find_priority-Chosen_example = find_priority-Chosen two_tasks-IsValid.queued

idle_is_current : two_tasks.current_task ≡ some 0
unfolding task_1_runs entered_of two_tasks one_task Yields yield_step sched_create first_dead
    sched_init reset_all reset idle_from lock_irq fill push_words sched_init_stack set_task
    ready_add dead_remove unlock_irq parent_of copy_name queue_add queue_remove last_of unlink
    remove_from find_next by_policy find_priority find_best enter requeue set_state ready_remove
idle_is_current = refl

find_round_robin_lem_example :
    find_round_robin two_tasks ≡ in_turn two_tasks.tasks (two_tasks.tasks 0).id (1 ∷ 2 ∷ [])
find_round_robin_lem_example = find_round_robin_lem 0 two_tasks-IsValid.queued idle_is_current

-- Tasks 3 and 2 are ready, in this order, and task 1 runs.
abbrev three_tasks : Scheduler
three_tasks = record blank {
  tasks = λ i. record (blank.tasks i) {
    id = if i == 1 then 3 else if i == 2 then 2 else 1;
    next = if i == 1 then some 2 else none;
  };
  ready_queue = some 1;
  current_task = some 0;
}

not_the_next_id :
    (find_round_robin three_tasks ≡ some 1)
    × ((three_tasks.tasks 1).id ≡ 3)
    × ((three_tasks.tasks 2).id ≡ 2)
unfolding find_round_robin find_above
not_the_next_id = (refl, refl, refl)

yield_step-Yields_example :
    Yields two_tasks (1 ∷ 2 ∷ []) [] [] two_tasks-IsValid.current (yield_step two_tasks)
yield_step-Yields_example = yield_step-Yields two_tasks-IsValid

finds_1 : (sched_find 1 task_1_runs ≡ some 1) × (task_1_runs.current_task ≡ some 1)
unfolding sched_find find_from task_1_runs entered_of two_tasks one_task Yields yield_step
    sched_create first_dead sched_init reset_all reset idle_from lock_irq fill push_words
    sched_init_stack set_task ready_add dead_remove unlock_irq parent_of copy_name queue_add
    queue_remove last_of unlink remove_from find_next by_policy find_priority find_best enter
    requeue set_state ready_remove
finds_1 = (refl, refl)

sched_wake_expired_lem_example :
    let due = λ (i : ℕ). is_due 100 (task_2_runs.tasks i) in
    let o = sched_wake_expired 100 task_2_runs in
    (o.0 ≡ length (select due (1 ∷ [])))
    × IsValid o.1 ((0 ∷ []) ++ select due (1 ∷ [])) (select (λ i. not (due i)) (1 ∷ [])) []
sched_wake_expired_lem_example = sched_wake_expired_lem 100 task_2_runs-IsValid

abbrev blank_stats : SchedStats
blank_stats = no_counts blank

abbrev all_ready : SchedStats
all_ready = record blank_stats { ready_tasks = 32 }

counts_blank : (sched_get_stats (some blank_stats) blank).0 ≡ some all_ready
unfolding sched_get_stats count_states count_state
counts_blank = refl

named_1 : ((task_1_runs.tasks 1).id == 0) ≡ false
unfolding task_1_runs entered_of two_tasks one_task Yields yield_step sched_create first_dead
    sched_init reset_all reset idle_from lock_irq fill push_words sched_init_stack set_task
    ready_add dead_remove unlock_irq parent_of copy_name queue_add queue_remove last_of unlink
    remove_from find_next by_policy find_priority find_best enter requeue set_state ready_remove
named_1 = refl

current_is_1 : 1 ≡ task_1_runs-IsValid.current
current_is_1 = ground (arith, finds_1, task_1_runs-IsValid.is_current)

named_current : ((task_1_runs.tasks task_1_runs-IsValid.current).id == 0) ≡ false
named_current = subst (λ c. ((task_1_runs.tasks c).id == 0) ≡ false) current_is_1 named_1

sched_exit_lem_example : Exits task_1_runs-IsValid (sched_exit task_1_runs)
sched_exit_lem_example = sched_exit_lem task_1_runs-IsValid named_current
