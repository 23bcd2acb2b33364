-- ===== src/Ipc/Sync.antt =====
-- ipc/sync.c: semaphores and mutexes. A null pointer is `none`.
use novium_os.Prelude.{
  ℕ, zero, suc, ◌+◌, ◌-◌, ◌%◌, ◌^◌, Bool, true, false, not, ◌&&◌, ◌||◌, Option, none, some, ltb,
  leb, ◌==◌, if◌then◌else◌,
}
use novium_os.Sched.{Scheduler, lock_irq, unlock_irq}
use novium_os.Sched.Wait.{sched_wake_task}
use novium_os.Ipc.{
  IpcStatus, ipc_ok, err_invalid, err_full, err_empty, err_busy, err_owner, IpcWait, no_waiters,
  ipc_self_id, wait_take_live, ipc_wake_one,
}
use novium_os.Ipc.Park.{Waitable, Others, ipc_park}

abbrev pub is_ok : IpcStatus → Bool
is_ok ipc_ok = true
is_ok _ = false

abbrev pub is_busy : IpcStatus → Bool
is_busy err_busy = true
is_busy _ = false

abbrev pub is_empty : IpcStatus → Bool
is_empty err_empty = true
is_empty _ = false

pub record IpcSemaphore : Type 0 where
  pub count : ℕ
  pub limit : ℕ
  pub wait : IpcWait

-- What a call returns and leaves.
abbrev pub Called : Type 0 → Type 0
Called A = IpcStatus × Option A × Scheduler

-- The semaphore that `SemInit` leaves at an address that is not null.
unfoldable pub sem_init : ℕ → ℕ → IpcSemaphore
sem_init initial limit = record {
  count = if not (limit == 0) && ltb limit initial then limit else initial;
  limit = limit;
  wait = no_waiters;
}

-- `SemHasPermit`, with the semaphore's wait queue.
abbrev pub for_permit : Waitable IpcSemaphore
for_permit = record {
  queue = λ sem. sem.wait;
  set_queue = λ w sem. record sem { wait = w };
  is_ready = λ sem. ltb 0 sem.count;
}

unfoldable pub sem_try_wait : Option IpcSemaphore → Scheduler → Called IpcSemaphore
sem_try_wait none s = (err_invalid, none, s)
sem_try_wait (some sem) s0 =
    let s = unlock_irq s0.irqs_enabled (lock_irq s0) in
    if sem.count == 0
    then (err_empty, some sem, s)
    else (ipc_ok, some (record sem { count = sem.count - 1 }), s)

module _ (others : Others IpcSemaphore) where
  -- The loop of `SemWait`: no result if the caller still waits after `fuel` rounds.
  unfoldable pub sem_wait : ℕ → Option IpcSemaphore → Scheduler → Option (Called IpcSemaphore)
  sem_wait zero sem s = none
  sem_wait (suc fuel) none s = some (err_invalid, none, s)
  sem_wait (suc fuel) (some sem) s =
      let tried = sem_try_wait (some sem) s in
      if not (is_empty tried.0)
      then some tried
      else elim (ipc_park for_permit others (suc fuel) sem tried.2)
          as (λ _. Option (Called IpcSemaphore)) [
            | none ↦ none
            | some parked ↦ elim (is_ok parked.0) as (λ _. Option (Called IpcSemaphore)) [
              | true ↦ sem_wait fuel (some parked.1) parked.2
              | false ↦ some (parked.0, some parked.1, parked.2)
            ]
          ]

unfoldable pub sem_post : Option IpcSemaphore → Scheduler → Called IpcSemaphore
sem_post none s = (err_invalid, none, s)
sem_post (some sem) s0 =
    let s = unlock_irq s0.irqs_enabled (lock_irq s0) in
    let woken = ipc_wake_one sem.wait s in
    if not (sem.limit == 0) && leb sem.limit sem.count
    then (err_full, some sem, s)
    else (ipc_ok, some (record sem { count = (sem.count + 1) % 2 ^ 32; wait = woken.0 }), woken.1)

unfoldable pub sem_count : Option IpcSemaphore → ℕ
sem_count none = 0
sem_count (some sem) = sem.count

pub record IpcMutex : Type 0 where
  pub locked : Bool
  pub owner : ℕ
  pub wait : IpcWait

-- `MutexInit`
unfoldable pub mutex_init : IpcMutex
mutex_init = record { locked = false; owner = 0; wait = no_waiters }

unfoldable pub mutex_held_by_caller : Option IpcMutex → Scheduler → Bool
mutex_held_by_caller none s = false
mutex_held_by_caller (some mutex) s =
    if not mutex.locked then false else mutex.owner == ipc_self_id s

-- `MutexIsFree`, with the mutex's wait queue.
abbrev pub for_mutex : Waitable IpcMutex
for_mutex = record {
  queue = λ mutex. mutex.wait;
  set_queue = λ w mutex. record mutex { wait = w };
  is_ready = λ mutex. not mutex.locked;
}

unfoldable pub mutex_try_lock : Option IpcMutex → Scheduler → Called IpcMutex
mutex_try_lock none s = (err_invalid, none, s)
mutex_try_lock (some mutex) s0 =
    let s = unlock_irq s0.irqs_enabled (lock_irq s0) in
    if mutex.locked
    then (err_busy, some mutex, s)
    else (ipc_ok, some (record mutex { locked = true; owner = ipc_self_id (lock_irq s0) }), s)

module _ (others : Others IpcMutex) where
  -- The loop of `MutexLock`: no result if the caller still waits after `fuel` rounds.
  unfoldable pub lock_loop : ℕ → IpcMutex → Scheduler → Option (Called IpcMutex)
  lock_loop zero mutex s = none
  lock_loop (suc fuel) mutex s =
      let tried = mutex_try_lock (some mutex) s in
      if is_busy tried.0 && mutex_held_by_caller tried.1 tried.2
      then some (ipc_ok, tried.1, tried.2)
      else if not (is_busy tried.0)
      then some tried
      else elim (ipc_park for_mutex others (suc fuel) mutex tried.2)
          as (λ _. Option (Called IpcMutex)) [
            | none ↦ none
            | some parked ↦ elim (is_ok parked.0) as (λ _. Option (Called IpcMutex)) [
              | true ↦ lock_loop fuel parked.1 parked.2
              | false ↦ some (parked.0, some parked.1, parked.2)
            ]
          ]

  unfoldable pub mutex_lock : ℕ → Option IpcMutex → Scheduler → Option (Called IpcMutex)
  mutex_lock fuel none s = some (err_invalid, none, s)
  mutex_lock fuel (some mutex) s =
      let rest = lock_loop fuel mutex s in
      if mutex_held_by_caller (some mutex) s then some (err_owner, some mutex, s) else rest

-- What `MutexUnlock` makes of the mutex of its caller, with the waiter `next` or without one.
unfoldable pub hand_over : ℕ → IpcWait → IpcMutex → IpcMutex
hand_over next w mutex =
    if not (next == 0)
    then record mutex { owner = next; wait = w }
    else record { locked = false; owner = 0; wait = w }

unfoldable pub mutex_unlock : Option IpcMutex → Scheduler → Called IpcMutex
mutex_unlock none s = (err_invalid, none, s)
mutex_unlock (some mutex) s0 =
    let s = lock_irq s0 in
    let r = wait_take_live s mutex.wait in
    let s' = unlock_irq s0.irqs_enabled s in
    if not mutex.locked || not (mutex.owner == ipc_self_id s)
    then (err_owner, some mutex, s')
    else (
      ipc_ok,
      some (hand_over r.0 r.1 mutex),
      if not (r.0 == 0) then sched_wake_task r.0 s' else s',
    )
