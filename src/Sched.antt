-- ===== src/Sched.antt =====
-- The static variables of kernel/sched.c, the interrupt flag that its functions save and restore,
-- the queues, and the operations that take no part in switching tasks. `stack` is the memory that
-- `SchedInitStack` writes, by byte address.
pub mod Select
pub mod Switch
pub mod Wait
pub mod Life
pub mod Invariant
pub mod Find
pub mod Waking
pub mod Sleepers
pub mod Expiry
pub mod Highest
pub mod Choice
pub mod Yielding
pub mod Blocking
pub mod Parking
pub mod Ending
pub mod Creating
pub mod Ticking
pub mod Exiting
pub mod Runs
mod Tests
use novium_os.Prelude.{
  ℕ, zero, suc, ◌+◌, ◌-◌, ◌%◌, ◌^◌, Bool, true, false, Option, none, some, ltb, leb, ◌==◌,
  if◌then◌else◌, update, not, ◌&&◌,
}
use novium_os.Task.{
  Task, Tasks, TaskState, dead, ready, running, blocked, max_tasks, queue_add, queue_remove,
}

pub data SchedPolicy : Type 0 where
  round_robin priority_first : SchedPolicy

pub record Scheduler : Type 0 where
  pub tasks : Tasks
  pub ready_queue : Option ℕ
  pub blocked_queue : Option ℕ
  pub dead_queue : Option ℕ
  pub current_task : Option ℕ
  pub current_policy : SchedPolicy
  pub task_count : ℕ
  pub next_task_id : ℕ
  pub scheduler_ticks : ℕ
  pub context_switches : ℕ
  pub scheduler_locked : ℕ
  pub preempt_pending : Bool
  pub irqs_enabled : Bool
  pub stack : ℕ → ℕ

-- `SchedLockIrq` hands out `irqs_enabled` as it was.
unfoldable pub lock_irq : Scheduler → Scheduler
lock_irq s = record s { irqs_enabled = false }

unfoldable pub unlock_irq : Bool → Scheduler → Scheduler
unlock_irq was_enabled s = if was_enabled then record s { irqs_enabled = true } else s

-- `SchedQueueAdd` and `SchedQueueRemove` on each of the three queues.
unfoldable pub ready_add : ℕ → Scheduler → Scheduler
ready_add t s =
    let r = queue_add s.tasks s.ready_queue t in record s { tasks = r.0; ready_queue = r.1 }

unfoldable pub ready_remove : ℕ → Scheduler → Scheduler
ready_remove t s =
    let r = queue_remove s.tasks s.ready_queue t in record s { tasks = r.0; ready_queue = r.1 }

unfoldable pub blocked_add : ℕ → Scheduler → Scheduler
blocked_add t s =
    let r = queue_add s.tasks s.blocked_queue t in record s { tasks = r.0; blocked_queue = r.1 }

unfoldable pub blocked_remove : ℕ → Scheduler → Scheduler
blocked_remove t s =
    let r = queue_remove s.tasks s.blocked_queue t in record s { tasks = r.0; blocked_queue = r.1 }

unfoldable pub dead_add : ℕ → Scheduler → Scheduler
dead_add t s =
    let r = queue_add s.tasks s.dead_queue t in record s { tasks = r.0; dead_queue = r.1 }

unfoldable pub dead_remove : ℕ → Scheduler → Scheduler
dead_remove t s =
    let r = queue_remove s.tasks s.dead_queue t in record s { tasks = r.0; dead_queue = r.1 }

-- Writes to one descriptor.
unfoldable pub set_task : ℕ → Task → Scheduler → Scheduler
set_task t task s = record s { tasks = update s.tasks t task }

unfoldable pub set_state : ℕ → TaskState → Scheduler → Scheduler
unfolding set_task
set_state t state s = set_task t (record (s.tasks t) { state = state }) s

unfoldable pub sched_current : Scheduler → Option ℕ
sched_current s = s.current_task

abbrev pub is_dead : TaskState → Bool
is_dead dead = true
is_dead ready = false
is_dead running = false
is_dead blocked = false

abbrev pub is_blocked : TaskState → Bool
is_blocked dead = false
is_blocked ready = false
is_blocked running = false
is_blocked blocked = true

abbrev pub is_ready : TaskState → Bool
is_ready dead = false
is_ready ready = true
is_ready running = false
is_ready blocked = false

abbrev pub is_running : TaskState → Bool
is_running dead = false
is_running ready = false
is_running running = true
is_running blocked = false

-- The `for` loop of `SchedFind`, from `index` on.
unfoldable pub find_from : Tasks → ℕ → ℕ → ℕ → Option ℕ
find_from tasks zero index id = none
find_from tasks (suc n) index id =
    let rest = find_from tasks n (index + 1) id in
    if not (is_dead (tasks index).state) && (tasks index).id == id then some index else rest

unfoldable pub sched_find : ℕ → Scheduler → Option ℕ
sched_find id s = find_from s.tasks max_tasks 0 id

unfoldable pub sched_task_count : Scheduler → ℕ
sched_task_count s = s.task_count

-- The check of the policy's range has no counterpart: there are two policies.
unfoldable pub sched_set_policy : SchedPolicy → Scheduler → Scheduler
sched_set_policy policy s = record s { current_policy = policy }

unfoldable pub sched_get_policy : Scheduler → SchedPolicy
sched_get_policy s = s.current_policy

unfoldable pub sched_set_priority : Option ℕ → ℕ → Scheduler → Scheduler
unfolding set_task
sched_set_priority none priority s = s
sched_set_priority (some t) priority s =
    if is_dead (s.tasks t).state
    then s
    else set_task t (record (s.tasks t) { priority = if ltb 255 priority then 255 else priority }) s

unfoldable pub sched_get_priority : Option ℕ → Scheduler → ℕ
sched_get_priority none s = 0
sched_get_priority (some t) s = (s.tasks t).priority

unfoldable pub sched_lock : Scheduler → Scheduler
sched_lock s = record s { scheduler_locked = (s.scheduler_locked + 1) % 2 ^ 32 }

unfoldable pub sched_unlock : Scheduler → Scheduler
sched_unlock s =
    if ltb 0 s.scheduler_locked then record s { scheduler_locked = s.scheduler_locked - 1 } else s

pub record SchedStats : Type 0 where
  pub total_tasks : ℕ
  pub running_tasks : ℕ
  pub ready_tasks : ℕ
  pub blocked_tasks : ℕ
  pub dead_tasks : ℕ
  pub ticks : ℕ
  pub switches : ℕ

-- The `switch` of `SchedGetStats`.
unfoldable pub count_state : TaskState → SchedStats → SchedStats
count_state running c = record c { running_tasks = c.running_tasks + 1 }
count_state ready c = record c { ready_tasks = c.ready_tasks + 1 }
count_state blocked c = record c { blocked_tasks = c.blocked_tasks + 1 }
count_state dead c = record c { dead_tasks = c.dead_tasks + 1 }

unfoldable pub count_states : Tasks → ℕ → ℕ → SchedStats → SchedStats
unfolding count_state
count_states tasks zero index c = c
count_states tasks (suc n) index c =
    count_states tasks n (index + 1) (count_state (tasks index).state c)

abbrev pub no_counts : Scheduler → SchedStats
no_counts s = record {
  total_tasks = s.task_count;
  running_tasks = 0;
  ready_tasks = 0;
  blocked_tasks = 0;
  dead_tasks = 0;
  ticks = s.scheduler_ticks;
  switches = s.context_switches;
}

-- `none` is a null pointer.
unfoldable pub sched_get_stats : Option SchedStats → Scheduler → Option SchedStats × Scheduler
sched_get_stats none s = (none, s)
sched_get_stats (some stats) s =
    (some (count_states s.tasks max_tasks 0 (no_counts s)), unlock_irq s.irqs_enabled (lock_irq s))
