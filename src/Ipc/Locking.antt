-- ===== src/Ipc/Locking.antt =====
-- `MutexLock`: whoever gets success holds the mutex.
use novium_os.Prelude.{
  ℕ, zero, suc, ◌≡◌, refl, sym, ap, subst, Bool, true, false, ==_refl, Option, none, some, arith,
  inl, inr, Bool-cases,
}
use novium_os.Sched.{Scheduler, lock_irq, unlock_irq}
use novium_os.Ipc.{IpcStatus, ipc_ok, err_busy, err_owner, ipc_self_id}
use novium_os.Ipc.Park.{Others, ipc_park}
use novium_os.Ipc.Sync.{
  IpcMutex, Called, is_ok, for_mutex, mutex_held_by_caller, mutex_try_lock, lock_loop, mutex_lock,
}

abbrev HeldAt : Option IpcMutex → Scheduler → Type 0
HeldAt m s = mutex_held_by_caller m s ≡ true

taken_by_caller :
    (mutex : IpcMutex) (s : Scheduler)
    → mutex_held_by_caller
        (some (record mutex { locked = true; owner = ipc_self_id (lock_irq s) }))
        (unlock_irq s.irqs_enabled (lock_irq s))
      ≡ true
unfolding mutex_held_by_caller ipc_self_id lock_irq unlock_irq
taken_by_caller mutex s = elim (Bool-cases s.irqs_enabled) [
  | inl on ↦ rw on (==_refl (ipc_self_id s))
  | inr off ↦ rw off (==_refl (ipc_self_id s))
]

module _ (others : Others IpcMutex) where
  -- A result of `MutexLock` that reports success is one where the caller holds the mutex.
  Held : Option (Called IpcMutex) → Type 0
  Held none = Unit {0}
  Held (some r) = r.0 ≡ ipc_ok → HeldAt r.1 r.2

  Held-none : Held none
  unfolding Held
  Held-none = tt

  Held-some : (r : Called IpcMutex) → (r.0 ≡ ipc_ok → HeldAt r.1 r.2) → Held (some r)
  unfolding Held
  Held-some r h = h

  after_park :
      (fuel : ℕ) (parked : Option (IpcStatus × IpcMutex × Scheduler))
      → ((m : IpcMutex) (t : Scheduler) → Held (lock_loop others fuel m t))
      → Held (elim parked as (λ _. Option (Called IpcMutex)) [
        | none ↦ none
        | some p ↦ elim (is_ok p.0) as (λ _. Option (Called IpcMutex)) [
          | true ↦ lock_loop others fuel p.1 p.2
          | false ↦ some (p.0, some p.1, p.2)
        ]
      ])
  unfolding Held
  after_park fuel none later = tt
  after_park fuel (some p) later = elim (Bool-cases (is_ok p.0)) [
    | inl ok ↦
        subst
          (λ (b : Bool). Held (elim b as (λ _. Option (Called IpcMutex)) [
            | true ↦ lock_loop others fuel p.1 p.2
            | false ↦ some (p.0, some p.1, p.2)
          ]))
          (sym ok) (later p.1 p.2)
    | inr failed ↦
        subst
          (λ (b : Bool). Held (elim b as (λ _. Option (Called IpcMutex)) [
            | true ↦ lock_loop others fuel p.1 p.2
            | false ↦ some (p.0, some p.1, p.2)
          ]))
          (sym failed) (λ e. absurd (ground (arith, ap is_ok e)))
  ]

  busy :
      (mutex : IpcMutex) (s : Scheduler)
      → mutex.locked ≡ true
      → mutex_try_lock (some mutex) s
        ≡ (err_busy, some mutex, unlock_irq s.irqs_enabled (lock_irq s))
  unfolding mutex_try_lock
  busy mutex s taken = rw taken refl

  free_lock :
      (mutex : IpcMutex) (s : Scheduler)
      → mutex.locked ≡ false
      → mutex_try_lock (some mutex) s ≡ (
        ipc_ok,
        some (record mutex { locked = true; owner = ipc_self_id (lock_irq s) }),
        unlock_irq s.irqs_enabled (lock_irq s),
      )
  unfolding mutex_try_lock
  free_lock mutex s free = rw free refl

  lock_loop-Held :
      (fuel : ℕ) (mutex : IpcMutex) (s : Scheduler) → Held (lock_loop others fuel mutex s)
  unfolding lock_loop
  lock_loop-Held zero mutex s = Held-none
  lock_loop-Held (suc fuel) mutex s = elim (Bool-cases mutex.locked) [
    | inr free ↦ rw (free_lock mutex s free, lock_loop) (Held-some _ (λ _. taken_by_caller mutex s))
    | inl taken ↦
        let s' = unlock_irq s.irqs_enabled (lock_irq s) in
        elim (Bool-cases (mutex_held_by_caller (some mutex) s')) [
          | inl mine ↦
              rw (busy mutex s taken, lock_loop) (rw (mine, lock_loop) (Held-some _ (λ _. mine)))
          | inr other ↦
              rw (busy mutex s taken, lock_loop)
                (rw (other, lock_loop)
                  (after_park fuel (ipc_park for_mutex others (suc fuel) mutex s')
                    (λ m t. lock_loop-Held fuel m t)))
        ]
  ]

  not_held :
      (mutex : IpcMutex) (s : Scheduler)
      → mutex.locked ≡ false
      → mutex_held_by_caller (some mutex) s ≡ false
  unfolding mutex_held_by_caller
  not_held mutex s free = rw free refl

  free_loop :
      (fuel : ℕ) (mutex : IpcMutex) (s : Scheduler)
      → mutex.locked ≡ false
      → lock_loop others (suc fuel) mutex s
        ≡ some (
          ipc_ok,
          some (record mutex { locked = true; owner = ipc_self_id (lock_irq s) }),
          unlock_irq s.irqs_enabled (lock_irq s),
        )
  unfolding lock_loop
  free_loop fuel mutex s free = rw (free_lock mutex s free, lock_loop) refl

  from_Held :
      (o : Option (Called IpcMutex)) (r : Called IpcMutex)
      → Held o
      → o ≡ some r
      → r.0 ≡ ipc_ok
      → HeldAt r.1 r.2
  unfolding Held
  from_Held o r h e = subst Held e h

  -- `MutexLock` takes a free mutex at once and refuses the holder. In all cases, when it reports
  -- success the caller holds the mutex.
  pub mutex_lock_lem :
      (fuel : ℕ) (mutex : IpcMutex) (s : Scheduler)
      → (mutex.locked ≡ false
          → (r : Called IpcMutex) × (mutex_lock others (suc fuel) (some mutex) s ≡ some r)
            × (r.0 ≡ ipc_ok)
            × (mutex_held_by_caller r.1 r.2 ≡ true))
        × (mutex_held_by_caller (some mutex) s ≡ true
            → mutex_lock others fuel (some mutex) s ≡ some (err_owner, some mutex, s))
        × ((r : Called IpcMutex)
            → mutex_lock others fuel (some mutex) s ≡ some r
            → r.0 ≡ ipc_ok
            → mutex_held_by_caller r.1 r.2 ≡ true)
  unfolding mutex_lock
  mutex_lock_lem fuel mutex s = (
    λ free. (
      (
        ipc_ok,
        some (record mutex { locked = true; owner = ipc_self_id (lock_irq s) }),
        unlock_irq s.irqs_enabled (lock_irq s),
      ),
      rw (not_held mutex s free) (free_loop fuel mutex s free),
      refl,
      taken_by_caller mutex s,
    ),
    λ mine. rw mine refl,
    λ r e ok. elim (Bool-cases (mutex_held_by_caller (some mutex) s)) [
      | inl mine ↦
          from_Held (some (err_owner, some mutex, s)) r
            (Held-some _ (λ k. absurd (ground (arith, ap is_ok k)))) (rw (mine, mutex_lock) at e) ok
      | inr other ↦
          from_Held (lock_loop others fuel mutex s) r (lock_loop-Held fuel mutex s)
            (rw (other, mutex_lock) at e) ok
    ],
  )
