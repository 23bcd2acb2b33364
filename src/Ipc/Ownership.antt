-- ===== src/Ipc/Ownership.antt =====
-- Mutexes: who holds one, and to whom it passes.
use novium_os.Prelude.{ℕ, ◌≡◌, refl, true, false, not, ◌||◌, some, arith, inl, inr, ◌⊎◌, ◌==◌}
use novium_os.Sched.{Scheduler, lock_irq}
use novium_os.Ipc.{
  IpcStatus, ipc_ok, err_full, err_owner, ipc_self_id, wait_is_live, wait_take_live, IpcWait,
}
use novium_os.Ipc.Indices
use novium_os.Ipc.Waking.{First, AllGone, TakesLive, wait_take_live_lem}
use novium_os.Ipc.Park.{Others, park_loop}
use novium_os.Ipc.Rounds.{Back, park_loop-Back, park_loop_keeps}
use novium_os.Ipc.Sync.{IpcMutex, for_mutex, mutex_held_by_caller, hand_over, mutex_unlock}

-- What `MutexUnlock` by the holder leaves: the mutex of the first waiter that is alive, or a free one.
pub Passed : Scheduler → IpcMutex → IpcMutex → Type 0
Passed s mutex mutex' =
    ((o : ℕ × IpcWait) × First (wait_is_live (lock_irq s)) mutex.wait o
      × (mutex' ≡ record { locked = true; owner = o.0; wait = o.1 }))
    ⊎ (AllGone (wait_is_live (lock_irq s)) mutex.wait
        × (mutex'.locked ≡ false)
        × (mutex'.wait.count ≡ 0))

Passed-by :
    (s : Scheduler) (mutex : IpcMutex) (o : ℕ × IpcWait)
    → mutex.locked ≡ true
    → Indices.IsValid mutex.wait
    → TakesLive (wait_is_live (lock_irq s)) mutex.wait o
    → Passed s mutex (hand_over o.0 o.1 mutex)
unfolding hand_over Passed TakesLive
Passed-by s mutex o locked v (inl f) =
    let nonzero : (o.0 == 0) ≡ false = ground (arith, v.not_0 f.index f.inside, f.at_index) in
    rw (nonzero, hand_over) (inl (o, f, rw locked refl))
Passed-by s mutex o locked v (inr e) =
    let nobody : (o.0 == 0) ≡ true = ground (arith, e.1) in
    rw (nobody, hand_over) (inr (e.0, refl, e.2))

-- On a mutex whose wait queue is valid, `MutexUnlock` by a task that does not hold it is refused and
-- leaves it. By the holder it passes the mutex, still locked, to the first waiter that is alive, and frees it if there is none.
pub mutex_unlock_lem :
    (mutex : IpcMutex) (s : Scheduler)
    → Indices.IsValid mutex.wait
    → let r = mutex_unlock (some mutex) s in
      (mutex_held_by_caller (some mutex) s ≡ false → (r.0 ≡ err_owner) × (r.1 ≡ some mutex))
      × (mutex_held_by_caller (some mutex) s ≡ true
          → (mutex' : IpcMutex) × (r.0 ≡ ipc_ok) × (r.1 ≡ some mutex') × Passed s mutex mutex')
unfolding mutex_unlock mutex_held_by_caller ipc_self_id lock_irq
mutex_unlock_lem mutex s v = (
  λ e. ground arith,
  λ e.
      let self = ipc_self_id (lock_irq s) in
      let locked : mutex.locked ≡ true = ground arith in
      let mine : (not mutex.locked || not (mutex.owner == ipc_self_id s)) ≡ false = ground arith in
      let r = wait_take_live (lock_irq s) mutex.wait in
      rw mine (
        hand_over r.0 r.1 mutex,
        refl,
        refl,
        Passed-by s mutex r locked v (wait_take_live_lem (lock_irq s) v),
      ),
)

-- While the other tasks keep a mutex locked, whoever owns it, a task that parks for it returns from
-- the loop of `IpcPark`, if at all, because the queue is full: never with success, however often it is
-- woken.
pub locked_parks :
    (others : Others IpcMutex) (self fuel : ℕ) (mutex : IpcMutex) (s : Scheduler)
    (o : IpcStatus × IpcMutex × Scheduler)
    → ((m : IpcMutex) (t : Scheduler) → m.locked ≡ true → (others.meanwhile m t).locked ≡ true)
    → mutex.locked ≡ true
    → park_loop for_mutex others fuel self mutex s ≡ some o
    → o.0 ≡ err_full
unfolding Back
locked_parks others self fuel mutex s o keeps locked e =
    let still =
      park_loop_keeps for_mutex others self (λ m. m.locked ≡ true) (λ w m h. h) keeps fuel mutex s o
        locked e in
    elim (park_loop-Back for_mutex others self fuel mutex s o e) [
      | inl back ↦ absurd (ground (arith, back.1, still))
      | inr back ↦ back.0
    ]
