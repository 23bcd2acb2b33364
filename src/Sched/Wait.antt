-- ===== src/Sched/Wait.antt =====
-- Blocking, waking and sleeping.
use novium_os.Prelude.{
  ℕ, zero, suc, ◌+◌, ◌-◌, ◌%◌, ◌^◌, Bool, true, false, not, ◌&&◌, ◌||◌, Option, none, some, ltb,
  ◌==◌, if◌then◌else◌,
}
use novium_os.Task.{Task, Tasks, max_tasks, ready, running, blocked}
use novium_os.Sched.{
  Scheduler, lock_irq, unlock_irq, ready_add, ready_remove, blocked_add, blocked_remove, set_task,
  set_state, is_dead, is_blocked, is_ready, sched_find,
}
use novium_os.Sched.Switch.{same_task, sched_yield}

-- A blocked task leaves the blocked queue for the end of the ready queue.
unfoldable pub make_ready : ℕ → Scheduler → Scheduler
make_ready t s = ready_add t (set_state t ready (blocked_remove t s))

unfoldable pub sched_unblock : Option ℕ → Scheduler → Scheduler
sched_unblock none s = s
sched_unblock (some t) s =
    if not (is_blocked (s.tasks t).state)
    then s
    else unlock_irq s.irqs_enabled (make_ready t (lock_irq s))

unfoldable pub sched_wake_task : ℕ → Scheduler → Scheduler
sched_wake_task id s = elim (sched_find id s) [ none ↦ s | some t ↦ sched_unblock (some t) s ]

-- `(s32)(NowTick - WakeTick) >= 0`
unfoldable pub tick_passed : ℕ → ℕ → Bool
tick_passed now wake = ltb ((now + 2 ^ 32 - wake) % 2 ^ 32) (2 ^ 31)

unfoldable pub is_due : ℕ → Task → Bool
unfolding tick_passed
is_due now task = not (task.wake_tick == 0) && tick_passed now task.wake_tick

unfoldable pub wake : ℕ → Scheduler → Scheduler
wake t s = make_ready t (set_task t (record (s.tasks t) { wake_tick = 0 }) s)

-- The loop of `SchedWakeExpired` from the task `cursor` on, with `Woken` so far.
unfoldable pub wake_from : ℕ → ℕ → Option ℕ → Scheduler → ℕ → ℕ × Scheduler
wake_from now zero cursor s woken = (woken, s)
wake_from now (suc fuel) none s woken = (woken, s)
wake_from now (suc fuel) (some t) s woken =
    let due = is_due now (s.tasks t) in
    wake_from now fuel (s.tasks t).next (if due then wake t s else s)
      (if due then (woken + 1) % 2 ^ 32 else woken)

unfoldable pub sched_wake_expired : ℕ → Scheduler → ℕ × Scheduler
sched_wake_expired now s =
    let r = wake_from now max_tasks s.blocked_queue (lock_irq s) 0 in
    (r.0, unlock_irq s.irqs_enabled r.1)

-- The loop of `SchedHasRunnable`.
unfoldable pub other_than : Tasks → ℕ → Option ℕ → Option ℕ → Bool
other_than tasks zero cursor current = false
other_than tasks (suc fuel) none current = false
other_than tasks (suc fuel) (some t) current =
    let rest = other_than tasks fuel (tasks t).next current in
    if same_task t current then rest else true

unfoldable pub sched_has_runnable : Scheduler → Bool × Scheduler
sched_has_runnable s = (
  other_than s.tasks max_tasks s.ready_queue s.current_task,
  unlock_irq s.irqs_enabled (lock_irq s),
)

-- The current task goes from where it is to the end of the blocked queue.
unfoldable pub park : ℕ → Scheduler → Scheduler
park t s = blocked_add t (set_state t blocked (ready_remove t s))

-- Another task goes there, from the ready queue if it is on it.
unfoldable pub block_other : ℕ → Scheduler → Scheduler
block_other t s =
    blocked_add t (set_state t blocked (if is_ready (s.tasks t).state then ready_remove t s else s))

-- The check behind the `SchedYield` of `SchedBlockTask`: nothing else could run.
unfoldable pub undo_block : ℕ → Scheduler → Scheduler
undo_block t s0 =
    let s = lock_irq s0 in
    unlock_irq s0.irqs_enabled
      (if is_blocked (s.tasks t).state then set_state t running (blocked_remove t s) else s)

module _ (resume : Option ℕ → ℕ → Scheduler → Scheduler) where
  unfoldable pub sched_block_task : ℕ → Scheduler → Scheduler
  sched_block_task id s0 =
      let s = lock_irq s0 in
      let give_up = unlock_irq s0.irqs_enabled s in
      elim (sched_find id s) as (λ _. Scheduler) [
        | none ↦ give_up
        | some t ↦
            if is_dead (s.tasks t).state || (s.tasks t).id == 0 || is_blocked (s.tasks t).state
            then give_up
            else if same_task t s.current_task
            then undo_block t (sched_yield resume (unlock_irq s0.irqs_enabled (park t s)))
            else unlock_irq s0.irqs_enabled (block_other t s)
      ]

  unfoldable pub sched_block : Scheduler → Scheduler
  sched_block s = elim s.current_task [
    | none ↦ s
    | some c ↦ if (s.tasks c).id == 0 then s else sched_block_task (s.tasks c).id s
  ]

  unfoldable pub sched_sleep_until : ℕ → Scheduler → Scheduler
  sched_sleep_until tick s = elim s.current_task [
    | none ↦ s
    | some c ↦
        let asleep =
          sched_block_task (s.tasks c).id
            (set_task c (record (s.tasks c) { wake_tick = tick }) s) in
        if (s.tasks c).id == 0
        then s
        else set_task c (record (asleep.tasks c) { wake_tick = 0 }) asleep
  ]
