-- ===== src/Ipc/Rounds.antt =====
-- How `IpcPark` comes back, round by round.
use novium_os.Prelude.{
  ℕ, zero, suc, ◌≡◌, refl, ap, subst, true, false, Option, none, some, arith, inl, inr, Bool-cases,
  ◌⊎◌, ◌==◌,
}
use novium_os.Sched.{Scheduler}
use novium_os.Ipc.{IpcStatus, ipc_ok, err_full, IpcWait, wait_add, ipc_self_id, err_no_task}
use novium_os.Ipc.Park.{Waitable, Others, Round, returns, again, park_round, park_loop, ipc_park}

value_or : {X : Type 0} → X → Option X → X
value_or d none = d
value_or d (some x) = x

RoundKeeps : {A : Type 0} → (A → Type 0) → Round A → Type 0
RoundKeeps P (returns status a s) = P a
RoundKeeps P (again a s) = P a

module _ {A : Type 0} (on : Waitable A) (others : Others A) (self : ℕ) where
  -- The ways to return: the object is ready, or it is not and the queue is full.
  unfoldable pub Back : IpcStatus × A × Scheduler → Type 0
  Back o =
      ((o.0 ≡ ipc_ok) × (on.is_ready o.1 ≡ true))
      ⊎ ((o.0 ≡ err_full) × (on.is_ready o.1 ≡ false) × ((wait_add (on.queue o.1) self).0 ≡ false))

  RoundBack : Round A → Type 0
  RoundBack (returns status a s) = Back (status, a, s)
  RoundBack (again a s) = Unit {0}

  round_back : (a : A) (s : Scheduler) → RoundBack (park_round on others self a s)
  unfolding park_round RoundBack Back
  round_back a s = elim (Bool-cases (on.is_ready a)) [
    | inl e ↦ rw (e, park_round) (inl (refl, e))
    | inr e ↦ elim (Bool-cases (wait_add (on.queue a) self).0) [
      | inl room ↦ rw (e, room, park_round) tt
      | inr full ↦ rw (e, full, park_round) (inr (refl, e, full))
    ]
  ]

  -- `IpcPark`, when it returns, returns success with a ready object or reports a full queue; it never
  -- returns success with an object that is not ready.
  pub park_loop-Back :
      (fuel : ℕ) (a : A) (s : Scheduler) (o : IpcStatus × A × Scheduler)
      → park_loop on others fuel self a s ≡ some o
      → Back o
  unfolding park_loop RoundBack value_or
  park_loop-Back zero a s o e = ground arith
  park_loop-Back (suc fuel) a s o e =
      from_round (park_round on others self a s) (round_back a s)
        (λ a' s'. park_loop-Back fuel a' s' o) e
    where
      from_round :
          (r : Round A)
          → RoundBack r
          → ((a' : A) (s' : Scheduler) → park_loop on others fuel self a' s' ≡ some o → Back o)
          → (elim r as (λ _. Option (IpcStatus × A × Scheduler)) [
            | returns status a' s' ↦ some (status, a', s')
            | again a' s' ↦ park_loop on others fuel self a' s'
          ])
            ≡ some o
          → Back o
      from_round (returns status a' s') b later e =
          subst Back (ap (λ k. value_or (status, a', s') k) e) b
      from_round (again a' s') b later e = later a' s' e

  round_keeps :
      (P : A → Type 0)
      → ((w : IpcWait) (a : A) → P a → P (on.set_queue w a))
      → ((a : A) (s : Scheduler) → P a → P (others.meanwhile a s))
      → (a : A) (s : Scheduler) → P a
      → RoundKeeps P (park_round on others self a s)
  unfolding park_round RoundKeeps
  round_keeps P by_queue by_others a s p = elim (Bool-cases (on.is_ready a)) [
    | inl e ↦ rw (e, park_round) p
    | inr e ↦ elim (Bool-cases (wait_add (on.queue a) self).0) [
      | inl room ↦ rw (e, room, park_round) (by_queue _ _ (by_others _ _ (by_queue _ a p)))
      | inr full ↦ rw (e, full, park_round) p
    ]
  ]

  -- What the other tasks keep of the object, and its queue does not matter to, holds of the object
  -- that `IpcPark` returns with.
  pub park_loop_keeps :
      (P : A → Type 0)
      → ((w : IpcWait) (a : A) → P a → P (on.set_queue w a))
      → ((a : A) (s : Scheduler) → P a → P (others.meanwhile a s))
      → (fuel : ℕ) (a : A) (s : Scheduler) (o : IpcStatus × A × Scheduler) → P a
      → park_loop on others fuel self a s ≡ some o
      → P o.1
  unfolding park_loop RoundKeeps value_or
  park_loop_keeps P by_queue by_others zero a s o p e = ground arith
  park_loop_keeps P by_queue by_others (suc fuel) a s o p e =
      from_round (park_round on others self a s) (round_keeps P by_queue by_others a s p)
        (λ a' s' k. park_loop_keeps P by_queue by_others fuel a' s' o k) e
    where
      from_round :
          (r : Round A)
          → RoundKeeps P r
          → ((a' : A) (s' : Scheduler)
              → P a'
              → park_loop on others fuel self a' s' ≡ some o
              → P o.1)
          → (elim r as (λ _. Option (IpcStatus × A × Scheduler)) [
            | returns status a' s' ↦ some (status, a', s')
            | again a' s' ↦ park_loop on others fuel self a' s'
          ])
            ≡ some o
          → P o.1
      from_round (returns status a' s') k later e =
          subst P
            (ap (λ (x : Option (IpcStatus × A × Scheduler)). (value_or (status, a', s') x).1) e) k
      from_round (again a' s') k later e = later a' s' k e

pub ipc_park_keeps :
    {A : Type 0} (on : Waitable A) (others : Others A) (P : A → Type 0)
    → ((w : IpcWait) (a : A) → P a → P (on.set_queue w a))
    → ((a : A) (s : Scheduler) → P a → P (others.meanwhile a s))
    → (fuel : ℕ) (a : A) (s : Scheduler) (o : IpcStatus × A × Scheduler) → P a
    → ipc_park on others fuel a s ≡ some o
    → P o.1
unfolding ipc_park value_or
ipc_park_keeps {A} on others P by_queue by_others fuel a s o p e =
    elim (Bool-cases (ipc_self_id s == 0)) [
      | inl idle ↦
          subst P
            (ap (λ (x : Option (IpcStatus × A × Scheduler)). (value_or (err_no_task, a, s) x).1)
              (rw (idle, ipc_park) at e))
            p
      | inr awake ↦
          park_loop_keeps on others (ipc_self_id s) P by_queue by_others fuel a s o p
            (rw (awake, ipc_park) at e)
    ]
