-- ===== src/Ipc/Permits.antt =====
-- Semaphores: permits are neither lost nor made up, and the count stays at or below the limit.
use novium_os.Prelude.{
  ℕ, ◌+◌, ◌-◌, ◌%◌, ◌^◌, ◌≤◌, ◌<◌, ◌≡◌, ◌≢◌, refl, false, not, ◌&&◌, leb, some, arith, inl, inr,
  Bool-cases, ◌⊎◌, ◌==◌,
}
use novium_os.Sched.{Scheduler, lock_irq, unlock_irq}
use novium_os.Ipc.{ipc_ok, err_full, err_empty, ipc_wake_one}
use novium_os.Ipc.Indices
use novium_os.Ipc.Waking.{ipc_wake_one-IsValid, no_waiters-IsValid}
use novium_os.Ipc.Sync.{IpcSemaphore, Called, sem_init, sem_try_wait, sem_post}

-- `Count <= Limit` where there is a limit, and a sound queue.
pub record IsSound (sem : IpcSemaphore) : Type 0 where
  pub bounded : (sem.limit ≡ 0) ⊎ (sem.count ≤ sem.limit)
  pub word : sem.count < 2 ^ 32
  pub queue : Indices.IsValid sem.wait

-- `SemInit` leaves a sound semaphore with the permits that were asked for, cut off at the limit.
sem_init-IsSound :
    (initial limit : ℕ) → initial < 2 ^ 32 → limit < 2 ^ 32 → IsSound (sem_init initial limit)
unfolding sem_init
sem_init-IsSound initial limit h k = record {
  bounded = elim (Bool-cases (limit == 0)) [
    | inl e ↦ inl (ground arith)
    | inr e ↦ inr (ground arith)
  ];
  word = ground arith;
  queue = no_waiters-IsValid;
}

-- A call that succeeded and left a sound semaphore with this count and the same limit.
pub Counts : IpcSemaphore → ℕ → Called IpcSemaphore → Type 0
Counts sem n r =
    (sem' : IpcSemaphore) × (r.0 ≡ ipc_ok)
    × (r.1 ≡ some sem')
    × (sem'.count ≡ n)
    × (sem'.limit ≡ sem.limit)
    × IsSound sem'

module _ {sem : IpcSemaphore} (v : IsSound sem) (s : Scheduler) where
  -- On a sound semaphore `SemTryWait` reports that there is no permit and leaves the semaphore, or
  -- takes exactly one permit and leaves it sound.
  sem_try_wait_lem :
      let r = sem_try_wait (some sem) s in
      (sem.count ≡ 0 → (r.0 ≡ err_empty) × (r.1 ≡ some sem))
      × ((n : ℕ) → sem.count ≡ n + 1 → Counts sem n r)
  unfolding sem_try_wait Counts
  sem_try_wait_lem = (
    λ e. ground arith,
    λ n e.
        let more : (sem.count == 0) ≡ false = ground arith in
        rw more (
          record sem { count = sem.count - 1 },
          refl,
          refl,
          omega arith,
          refl,
          record {
            bounded = elim v.bounded [
              | inl none_set ↦ inl none_set
              | inr below ↦ inr (omega arith)
            ];
            word = omega (arith, v.word);
            queue = v.queue;
          },
        ),
  )

  posted : IpcSemaphore
  posted = record sem {
    count = (sem.count + 1) % 2 ^ 32;
    wait = (ipc_wake_one sem.wait (unlock_irq s.irqs_enabled (lock_irq s))).0;
  }

  -- On a sound semaphore `SemPost` at the limit is refused and leaves the semaphore. Below it, or with
  -- no limit, the count goes up by one, whether or not a task waits, and wraps to 0 at 2^32, which only
  -- a semaphore without a limit reaches; the semaphore stays sound.
  pub sem_post_lem :
      let r = sem_post (some sem) s in
      (sem.limit ≢ 0 → sem.count ≡ sem.limit → (r.0 ≡ err_full) × (r.1 ≡ some sem))
      × (((sem.limit ≡ 0) ⊎ (sem.count < sem.limit))
          → sem.limit < 2 ^ 32
          → Counts sem ((sem.count + 1) % 2 ^ 32) r)
  unfolding sem_post Counts posted
  sem_post_lem = (
    λ limited full. ground arith,
    λ room h.
        let below : (not (sem.limit == 0) && leb sem.limit sem.count) ≡ false = ground arith in
        rw below (
          posted,
          refl,
          refl,
          refl,
          refl,
          record {
            bounded = elim room [ inl none_set ↦ inl none_set | inr under ↦ inr (omega arith) ];
            word = omega arith;
            queue = ipc_wake_one-IsValid (unlock_irq s.irqs_enabled (lock_irq s)) v.queue;
          },
        ),
  )
