-- ===== src/Sched/Life.antt =====
-- Making and ending tasks: `SchedInit`, `SchedInitStack`, `SchedCreate`, `SchedExit`, `SchedKill`.
-- A C string is the list of its bytes, and the address of `SchedExitStub` is an argument.
use novium_os.Prelude.{
  ℕ, zero, suc, ◌+◌, ◌-◌, ◌%◌, ◌^◌, Bool, false, Option, none, some, ltb, leb, ◌==◌, if◌then◌else◌,
  List, [], ◌∷◌, update,
}
use novium_os.Task.{Task, Tasks, max_tasks, name_length, dead, ready, running}
use novium_os.Sched.{
  Scheduler, lock_irq, unlock_irq, ready_add, ready_remove, blocked_remove, dead_add, dead_remove,
  set_task, set_state, is_dead, sched_find,
}
use novium_os.Sched.Switch.{Yielded, stays, switches, yield_step}

-- `SchedResetTask`
unfoldable pub reset : Task → Task
reset task = record {
  id = 0;
  parent_id = 0;
  eip = 0;
  esp = 0;
  ebp = 0;
  priority = 1;
  time_slice = 10;
  time_used = 0;
  runtime = 0;
  switches = 0;
  wake_tick = 0;
  state = dead;
  name = update task.name 0 0;
  next = none;
}

unfoldable pub reset_all : ℕ → ℕ → Tasks → Tasks
reset_all zero index tasks = tasks
reset_all (suc n) index tasks = reset_all n (index + 1) (update tasks index (reset (tasks index)))

-- The bytes of "Idle".
idle_name : (ℕ → ℕ) → ℕ → ℕ
idle_name name = update (update (update (update (update name 0 b'I') 1 b'd') 2 b'l') 3 b'e') 4 0

unfoldable pub idle_from : Task → Task
unfolding idle_name
idle_from task = record task {
  id = 0;
  parent_id = 0;
  priority = 0;
  time_slice = 10;
  state = running;
  name = idle_name task.name;
}

unfoldable pub sched_init : Scheduler → Scheduler
unfolding idle_from
sched_init s =
    let tasks = reset_all max_tasks 0 s.tasks in
    record s {
      tasks = update tasks 0 (idle_from (tasks 0));
      ready_queue = none;
      blocked_queue = none;
      dead_queue = none;
      current_task = some 0;
      task_count = 1;
      next_task_id = 1;
      scheduler_ticks = 0;
      context_switches = 0;
      scheduler_locked = 0;
      preempt_pending = false;
    }

-- The words that `*--sp = ...` writes, first to last.
unfoldable pub push_words : List ℕ → ℕ → (ℕ → ℕ) → ℕ × (ℕ → ℕ)
push_words [] sp stack = (sp, stack)
push_words (w ∷ ws) sp stack =
    let sp' = (sp + 2 ^ 32 - 4) % 2 ^ 32 in push_words ws sp' (update stack sp' w)

unfoldable pub sched_init_stack : ℕ → ℕ → ℕ → ℕ → Scheduler → Scheduler
unfolding push_words set_task
sched_init_stack exit_stub t entry stack_top s =
    let r = push_words (entry ∷ 0 ∷ exit_stub ∷ 0x202 ∷ 0 ∷ 0 ∷ 0 ∷ 0 ∷ []) stack_top s.stack in
    record (set_task t (record (s.tasks t) { esp = r.0 }) s) { stack = r.1 }

-- The first dead descriptor, by the loop of `SchedCreate`.
unfoldable pub first_dead : Tasks → ℕ → ℕ → Option ℕ
first_dead tasks zero index = none
first_dead tasks (suc n) index =
    let rest = first_dead tasks n (index + 1) in
    if is_dead (tasks index).state then some index else rest

-- The loop that copies a name, with `n` characters of room, and the 0 behind it.
unfoldable pub copy_name : ℕ → ℕ → List ℕ → (ℕ → ℕ) → ℕ → ℕ
copy_name zero index cs name = update name index 0
copy_name (suc n) index [] name = update name index 0
copy_name (suc n) index (c ∷ cs) name =
    let rest = copy_name n (index + 1) cs (update name index c) in
    if c == 0 then update name index 0 else rest

-- `CurrentTask != 0 ? CurrentTask->Id : 0`
unfoldable pub parent_of : Scheduler → ℕ
parent_of s = elim s.current_task [ none ↦ 0 | some c ↦ (s.tasks c).id ]

-- What `SchedCreate` writes into the descriptor, around the call of `SchedInitStack`.
unfoldable pub fill : ℕ → ℕ → List ℕ → ℕ → ℕ → Scheduler → Scheduler
unfolding parent_of
fill exit_stub t name eip esp s =
    let numbered = record (set_task t (record (s.tasks t) { id = s.next_task_id }) s) {
      next_task_id = (s.next_task_id + 1) % 2 ^ 32;
    } in
    let child =
      set_task t (record (numbered.tasks t) { parent_id = parent_of numbered }) numbered in
    let stacked = sched_init_stack exit_stub t eip esp child in
    let task = stacked.tasks t in
    set_task t
      (record task {
        eip = eip;
        ebp = task.esp;
        priority = 1;
        time_slice = 10;
        time_used = 0;
        runtime = 0;
        switches = 0;
        state = ready;
        name = copy_name (name_length - 1) 0 name task.name;
      })
      stacked

-- A null name is `none`.
unfoldable pub sched_create : ℕ → Option (List ℕ) → ℕ → ℕ → Scheduler → Option ℕ × Scheduler
sched_create exit_stub none eip esp s = (none, s)
sched_create exit_stub (some name) eip esp s0 =
    let s = lock_irq s0 in
    if leb max_tasks s0.task_count
    then (none, s0)
    else elim (first_dead s.tasks max_tasks 0) as (λ _. Option ℕ × Scheduler) [
      | none ↦ (none, unlock_irq s0.irqs_enabled s)
      | some t ↦
          let queued = ready_add t (fill exit_stub t name eip esp (dead_remove t s)) in
          (
            some t,
            unlock_irq s0.irqs_enabled
                (record queued { task_count = (queued.task_count + 1) % 2 ^ 32 }),
          )
    ]

-- What `SchedExit` and `SchedKill` do to a task.
unfoldable pub retire : ℕ → Scheduler → Scheduler
retire t s =
    let off = blocked_remove t (ready_remove t s) in
    let queued = dead_add t (set_task t (reset (off.tasks t)) off) in
    record queued {
      task_count = if ltb 0 queued.task_count then queued.task_count - 1 else queued.task_count;
    }

-- The end of `SchedExit`, which is reached if the yield found no task.
unfoldable pub fall_back : Scheduler → Scheduler
fall_back s = elim s.current_task [
  | some c ↦ s
  | none ↦ record (set_state 0 running s) { current_task = some 0 }
]

-- `SchedExit`. A switch from it is for good: the task that is left is not resumed.
unfoldable pub sched_exit : Scheduler → Yielded
sched_exit s = elim s.current_task [
  | none ↦ stays s
  | some c ↦
      let gone = record (retire c (lock_irq s)) { current_task = none } in
      let left = yield_step (unlock_irq s.irqs_enabled gone) in
      if (s.tasks c).id == 0 then stays s else (elim left as (λ _. Yielded) [
        | stays s' ↦ stays (fall_back s')
        | switches p t s' ↦ switches p t s'
      ])
]

-- `CurrentTask != 0 && CurrentTask->Id == Id`
unfoldable pub is_current_id : ℕ → Scheduler → Bool
is_current_id id s = elim s.current_task [ none ↦ false | some c ↦ (s.tasks c).id == id ]

unfoldable pub sched_kill : ℕ → Scheduler → Yielded
sched_kill id s0 =
    let s = lock_irq s0 in
    let give_up = stays (unlock_irq s0.irqs_enabled s) in
    if id == 0
    then stays s0
    else if is_current_id id s0
    then sched_exit s0
    else elim (sched_find id s) as (λ _. Yielded) [
      | none ↦ give_up
      | some t ↦
          if (s.tasks t).id == 0 then give_up else stays (unlock_irq s0.irqs_enabled (retire t s))
    ]
