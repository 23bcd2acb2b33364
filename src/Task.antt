-- ===== src/Task.antt =====
-- Task descriptors of include/novium/sched.h, and the queues of kernel/sched.c: linked lists through
-- the descriptors' `Next`. A `Task *` is the index of a descriptor in `Tasks`, a null pointer `none`.
-- A walk along a queue takes `max_tasks` as fuel.
pub mod Members
pub mod Chain
pub mod Queue
pub mod Removal
pub mod Linked
use novium_os.Prelude.{
  ℕ, zero, suc, ◌+◌, ◌-◌, ◌%◌, ◌^◌, Bool, true, false, Option, none, some, ltb, leb, ◌==◌,
  if◌then◌else◌, update,
}

abbrev pub max_tasks : ℕ
max_tasks = 32

abbrev pub name_length : ℕ
name_length = 32

pub data TaskState : Type 0 where
  dead ready running blocked : TaskState

pub record Task : Type 0 where
  pub id : ℕ
  pub parent_id : ℕ
  pub eip : ℕ
  pub esp : ℕ
  pub ebp : ℕ
  pub priority : ℕ
  pub time_slice : ℕ
  pub time_used : ℕ
  pub runtime : ℕ
  pub switches : ℕ
  pub wake_tick : ℕ
  pub state : TaskState
  pub name : ℕ → ℕ
  pub next : Option ℕ

-- The array `Tasks`.
abbrev pub Tasks : Type 0
Tasks = ℕ → Task

abbrev pub set_next : Tasks → ℕ → Option ℕ → Tasks
set_next tasks t v = update tasks t (record (tasks t) { next = v })

-- The last descriptor of a list, by the `while` loop of `SchedQueueAdd`.
unfoldable pub last_of : Tasks → ℕ → ℕ → ℕ
last_of tasks zero current = current
last_of tasks (suc fuel) current = elim (tasks current).next [
  | none ↦ current
  | some following ↦ last_of tasks fuel following
]

-- `SchedQueueAdd`: the array and the queue's head afterwards.
unfoldable pub queue_add : Tasks → Option ℕ → ℕ → Tasks × Option ℕ
queue_add tasks none t = (set_next tasks t none, some t)
queue_add tasks (some head) t =
    let tasks' = set_next tasks t none in
    (set_next tasks' (last_of tasks' max_tasks head) (some t), some head)

-- Takes the descriptor `c` out of a queue, behind `previous` or at its head.
unfoldable pub unlink : Tasks → Option ℕ → Option ℕ → ℕ → Tasks × Option ℕ
unlink tasks head none c = (set_next tasks c none, (tasks c).next)
unlink tasks head (some previous) c =
    (set_next (set_next tasks previous (tasks c).next) c none, head)

-- The `while` loop of `SchedQueueRemove`.
unfoldable pub remove_from : ℕ → Tasks → Option ℕ → Option ℕ → Option ℕ → ℕ → Tasks × Option ℕ
unfolding unlink
remove_from zero tasks head previous current t = (tasks, head)
remove_from (suc fuel) tasks head previous none t = (tasks, head)
remove_from (suc fuel) tasks head previous (some c) t = elim (c == t) [
  | true ↦ unlink tasks head previous c
  | false ↦ remove_from fuel tasks head (some c) (tasks c).next t
]

-- `SchedQueueRemove`, which all callers give a queue and a task that are not null.
unfoldable pub queue_remove : Tasks → Option ℕ → ℕ → Tasks × Option ℕ
queue_remove tasks head t = remove_from max_tasks tasks head none head t
