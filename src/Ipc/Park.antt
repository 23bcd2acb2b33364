-- ===== src/Ipc/Park.antt =====
-- `IpcPark` on an object of type `A` with a wait queue. What the other tasks do until the caller runs
-- again is `resume` for the scheduler and `meanwhile` for the object.
use novium_os.Prelude.{ℕ, zero, suc, Bool, not, Option, none, some, ◌==◌, if◌then◌else◌}
use novium_os.Sched.{Scheduler, lock_irq, unlock_irq}
use novium_os.Sched.Wait.{sched_block}
use novium_os.Ipc.{
  IpcStatus, ipc_ok, err_full, err_no_task, IpcWait, ipc_self_id, wait_add, wait_remove,
}

-- An object that tasks park on: where its wait queue is, and the test of an `IpcReadyFn`.
pub record Waitable (A : Type 0) : Type 0 where
  pub queue : A → IpcWait
  pub set_queue : IpcWait → A → A
  pub is_ready : A → Bool

pub record Others (A : Type 0) : Type 0 where
  pub resume : A → Option ℕ → ℕ → Scheduler → Scheduler
  pub meanwhile : A → Scheduler → A

-- One round of the loop: a return, or another round.
pub data Round (A : Type 0) : Type 0 where
  returns : IpcStatus → A → Scheduler → Round A
  again : A → Scheduler → Round A

module _ {A : Type 0} (on : Waitable A) (others : Others A) where
  unfoldable pub park_round : ℕ → A → Scheduler → Round A
  park_round self a s0 =
      let s = lock_irq s0 in
      let r = wait_add (on.queue a) self in
      let waiting = on.set_queue r.1 a in
      let woken = others.meanwhile waiting s in
      let s' = sched_block (others.resume waiting) s in
      if on.is_ready a
      then returns ipc_ok a (unlock_irq s0.irqs_enabled s)
      else if not r.0
      then returns err_full a (unlock_irq s0.irqs_enabled s)
      else again (on.set_queue (wait_remove (on.queue woken) self) woken)
          (unlock_irq s0.irqs_enabled (lock_irq s'))

  -- No result if the caller is still parked after `fuel` rounds.
  unfoldable pub park_loop : ℕ → ℕ → A → Scheduler → Option (IpcStatus × A × Scheduler)
  park_loop zero self a s = none
  park_loop (suc fuel) self a s =
      elim (park_round self a s) as (λ _. Option (IpcStatus × A × Scheduler)) [
        | returns status a' s' ↦ some (status, a', s')
        | again a' s' ↦ park_loop fuel self a' s'
      ]

  unfoldable pub ipc_park : ℕ → A → Scheduler → Option (IpcStatus × A × Scheduler)
  ipc_park fuel a s =
      let rest = park_loop fuel (ipc_self_id s) a s in
      if ipc_self_id s == 0 then some (err_no_task, a, s) else rest
