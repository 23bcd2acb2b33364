-- ===== src/Ipc.antt =====
-- ipc/ipc.c: the wait queues that semaphores, mutexes and message ports share, and parking a task on
-- one. `IpcWait.Ids` is a function of the index.
pub mod Park
pub mod Sync
pub mod Message
pub mod Indices
pub mod Waiting
pub mod Waking
pub mod Rounds
pub mod Permits
pub mod Locking
pub mod Ownership
pub mod Fifo
pub mod Ports
pub mod Attempts
pub mod Sending
mod Tests
use novium_os.Prelude.{
  ℕ, zero, suc, ◌+◌, ◌-◌, ◌%◌, ◌^◌, Bool, true, false, not, ◌&&◌, Option, none, some, ltb, leb,
  ◌==◌, if◌then◌else◌, update,
}
use novium_os.Sched.{Scheduler, lock_irq, unlock_irq, sched_find}
use novium_os.Sched.Wait.{sched_wake_task}

abbrev pub max_waiters : ℕ
max_waiters = 16

pub data IpcStatus : Type 0 where
  ipc_ok err_invalid err_full err_empty err_busy err_owner err_no_task : IpcStatus

pub record IpcWait : Type 0 where
  pub ids : ℕ → ℕ
  pub count : ℕ

-- A queue whose every entry is 0, as the initialisers leave it.
abbrev pub no_waiters : IpcWait
no_waiters = record { ids = λ i. 0; count = 0 }

unfoldable pub ipc_self_id : Scheduler → ℕ
ipc_self_id s = elim s.current_task [ none ↦ 0 | some c ↦ (s.tasks c).id ]

-- The loops over `Ids`: the first of `n` entries from `index` on that is `id`.
unfoldable pub find_id : (ℕ → ℕ) → ℕ → ℕ → ℕ → Option ℕ
find_id ids zero index id = none
find_id ids (suc n) index id =
    let rest = find_id ids n (index + 1) id in if ids index == id then some index else rest

-- `IpcWaitAdd`
unfoldable pub wait_add : IpcWait → ℕ → Bool × IpcWait
wait_add w id =
    if leb max_waiters w.count
    then (false, w)
    else elim (find_id w.ids w.count 0 id) as (λ _. Bool × IpcWait) [
      | some i ↦ (true, w)
      | none ↦ (true, record { ids = update w.ids w.count id; count = w.count + 1 })
    ]

-- `IpcWaitRemove`
unfoldable pub wait_remove : IpcWait → ℕ → IpcWait
wait_remove w id = elim (find_id w.ids w.count 0 id) as (λ _. IpcWait) [
  | none ↦ w
  | some i ↦ record {
    ids = update (update w.ids i (w.ids (w.count - 1))) (w.count - 1) 0;
    count = w.count - 1;
  }
]

abbrev is_found : Option ℕ → Bool
is_found none = false
is_found (some t) = true

-- `IpcWaitIsLive`
unfoldable pub wait_is_live : Scheduler → ℕ → Bool
wait_is_live s id = not (id == 0) && is_found (sched_find id s)

-- The first loop of `IpcWaitTakeLive`, which leaves 0 if it finds nobody.
unfoldable pub first_live : (ℕ → Bool) → (ℕ → ℕ) → ℕ → ℕ → ℕ
first_live live ids zero index = 0
first_live live ids (suc n) index =
    let rest = first_live live ids n (index + 1) in
    if not (ids index == 0) && live (ids index) then ids index else rest

-- The second loop, with the `Index--` behind a removal and the `Index++` of every round.
unfoldable pub drop_stale : (ℕ → Bool) → ℕ → ℕ → IpcWait → IpcWait
drop_stale live zero index w = w
drop_stale live (suc fuel) index w =
    let id = w.ids index in
    let stale = not (id == 0) && not (live id) in
    let index' = if stale then (index + 2 ^ 32 - 1) % 2 ^ 32 else index in
    let rest =
      drop_stale live fuel ((index' + 1) % 2 ^ 32) (if stale then wait_remove w id else w) in
    if ltb index w.count then rest else w

-- `IpcWaitTakeLive`. Every round of the second loop brings the index and the count closer by one.
unfoldable pub wait_take_live : Scheduler → IpcWait → ℕ × IpcWait
wait_take_live s w =
    let id = first_live (wait_is_live s) w.ids w.count 0 in
    if not (id == 0) then (id, wait_remove w id) else (0, drop_stale (wait_is_live s) w.count 0 w)

-- `IpcWakeOne`
unfoldable pub ipc_wake_one : IpcWait → Scheduler → IpcWait × Scheduler
ipc_wake_one w s0 =
    let s = lock_irq s0 in
    let r = wait_take_live s w in
    let s' = unlock_irq s0.irqs_enabled s in
    (r.1, if not (r.0 == 0) then sched_wake_task r.0 s' else s')
