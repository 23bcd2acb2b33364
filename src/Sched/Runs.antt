-- ===== src/Sched/Runs.antt =====
-- A run of the scheduler on concrete memory, for the tests: two tasks are made, the first is entered
-- and parks itself, and the second is entered.
use novium_os.Prelude.{ℕ, ◌<◌, ◌≡◌, refl, sym, subst, true, false, List, [], ◌∷◌, none, some, arith}
use novium_os.Task.{queue_add, queue_remove, last_of, unlink, remove_from, Task, ready, max_tasks}
use novium_os.Sched.Switch.{Yielded, stays, switches, yield_step, enter, requeue}
use novium_os.Sched.Select.{find_next, by_policy, find_priority, find_best}
use novium_os.Sched.Yielding.{Yields, yield_step-Yields}
use novium_os.Sched.Wait.{park}
use novium_os.Sched.Blocking.{Leaves, yield_step-Leaves, park-Queued, parked_state}
use novium_os.Sched.{
  is_running, blocked_add, set_state, ready_remove, set_task, ready_add, dead_remove, Scheduler,
  lock_irq, unlock_irq, priority_first,
}
use novium_os.Sched.Invariant.{Queued, IsValid}
use novium_os.Sched.Life.{
  parent_of, sched_init, sched_create, fill, sched_init_stack, push_words, copy_name, reset,
  reset_all, idle_from, first_dead,
}
use novium_os.Sched.Creating.{sched_init-IsValid, sched_create_lem, Creates}

-- Memory before `SchedInit`.
abbrev blank_task : Task
blank_task = record {
  id = 7;
  parent_id = 7;
  eip = 0;
  esp = 0;
  ebp = 0;
  priority = 9;
  time_slice = 0;
  time_used = 3;
  runtime = 0;
  switches = 0;
  wake_tick = 5;
  state = ready;
  name = λ i. 0;
  next = some 3;
}

abbrev pub blank : Scheduler
blank = record {
  tasks = λ i. blank_task;
  ready_queue = none;
  blocked_queue = some 2;
  dead_queue = none;
  current_task = none;
  current_policy = priority_first;
  task_count = 0;
  next_task_id = 0;
  scheduler_ticks = 0;
  context_switches = 0;
  scheduler_locked = 0;
  preempt_pending = false;
  irqs_enabled = true;
  stack = λ i. 0;
}

abbrev pub name_a : List ℕ
name_a = b'a' ∷ []

pub started : IsValid (sched_init blank) [] [] []
started = sched_init-IsValid blank

unfoldable pub one_task : Scheduler
one_task = (sched_create 5 (some name_a) 64 4096 (sched_init blank)).1

pub one_task-IsValid : IsValid one_task (1 ∷ []) [] []
unfolding one_task Creates sched_create first_dead sched_init reset_all reset idle_from lock_irq
one_task-IsValid =
    let made : Creates 5 name_a 64 4096 started
        (sched_create 5 (some name_a) 64 4096 (sched_init blank)) =
      sched_create_lem 5 name_a 64 4096 started in
    made.3

unfoldable pub two_tasks : Scheduler
two_tasks = (sched_create 5 (some name_a) 64 8192 one_task).1

pub two_tasks-IsValid : IsValid two_tasks (1 ∷ 2 ∷ []) [] []
unfolding two_tasks one_task Creates sched_create first_dead sched_init reset_all reset idle_from
    lock_irq fill push_words sched_init_stack set_task ready_add dead_remove unlock_irq parent_of
    copy_name queue_add queue_remove last_of unlink remove_from
two_tasks-IsValid =
    let made : Creates 5 name_a 64 8192 one_task-IsValid
        (sched_create 5 (some name_a) 64 8192 one_task) =
      sched_create_lem 5 name_a 64 8192 one_task-IsValid in
    made.3

unfoldable pub entered_of : Yielded → Scheduler
entered_of (stays s) = s
entered_of (switches p t s) = s

-- The policy is `priority_first`: of two tasks with the same priority the first one is entered.
unfoldable pub task_1_runs : Scheduler
task_1_runs = entered_of (yield_step two_tasks)

pub task_1_runs-IsValid : IsValid task_1_runs (2 ∷ 0 ∷ []) [] []
unfolding task_1_runs entered_of two_tasks one_task Yields yield_step sched_create first_dead
    sched_init reset_all reset idle_from lock_irq fill push_words sched_init_stack set_task
    ready_add dead_remove unlock_irq parent_of copy_name queue_add queue_remove last_of unlink
    remove_from find_next by_policy find_priority find_best enter requeue set_state ready_remove
task_1_runs-IsValid =
    let y : Yields two_tasks (1 ∷ 2 ∷ []) [] [] two_tasks-IsValid.current (yield_step two_tasks) =
      yield_step-Yields two_tasks-IsValid in
    let idle_runs : 0 ≡ two_tasks-IsValid.current = ground (arith, two_tasks-IsValid.is_current) in
    subst (λ (c : ℕ). IsValid task_1_runs (2 ∷ c ∷ []) [] []) (sym idle_runs) y.5

-- Task 1 parks itself and leaves for task 2.
pub parked_1 : Scheduler
parked_1 = park 1 task_1_runs

parked_1-Queued : Queued parked_1 (2 ∷ 0 ∷ []) (1 ∷ []) []
unfolding parked_1
parked_1-Queued = park-Queued task_1_runs-IsValid.queued 1 (omega arith) refl

pub runs_1 : task_1_runs.current_task ≡ some 1
unfolding task_1_runs entered_of two_tasks one_task Yields yield_step sched_create first_dead
    sched_init reset_all reset idle_from lock_irq fill push_words sched_init_stack set_task
    ready_add dead_remove unlock_irq parent_of copy_name queue_add queue_remove last_of unlink
    remove_from find_next by_policy find_priority find_best enter requeue set_state ready_remove
runs_1 = refl

waits_1 : (i : ℕ) → i < max_tasks → is_running (parked_1.tasks i).state ≡ false
unfolding parked_1
waits_1 i h =
    let q = task_1_runs-IsValid.queued in
    ground (arith, parked_state q 1 i, q.running_only i h, runs_1)

unfoldable pub task_2_runs : Scheduler
task_2_runs = entered_of (yield_step parked_1)

pub task_2_runs-IsValid : IsValid task_2_runs (0 ∷ []) (1 ∷ []) []
unfolding Leaves task_2_runs parked_1 park blocked_add task_1_runs entered_of two_tasks one_task
    Yields yield_step sched_create first_dead sched_init reset_all reset idle_from lock_irq fill
    push_words sched_init_stack set_task ready_add dead_remove unlock_irq parent_of copy_name
    queue_add queue_remove last_of unlink remove_from find_next by_policy find_priority find_best
    enter requeue set_state ready_remove
task_2_runs-IsValid =
    let y : Leaves parked_1 (2 ∷ 0 ∷ []) (1 ∷ []) [] 1 (yield_step parked_1) =
      yield_step-Leaves parked_1-Queued 1 runs_1 refl waits_1 (omega arith) in
    y.4
