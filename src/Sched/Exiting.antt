-- ===== src/Sched/Exiting.antt =====
-- `SchedExit`: the task that ends, and the one that runs instead.
use novium_os.Prelude.{
  ℕ, ◌<◌, ◌≡◌, ◌≢◌, refl, sym, ap, ◌∙◌, subst, true, false, ◌==◌, if◌then◌else◌, List, [], ◌∷◌,
  ◌++◌, Option, none, some, arith, inl, inr, Bool-cases, ◌⊎◌, update_other,
}
use novium_os.Task.{Task, Tasks, max_tasks, running, dead}
use novium_os.Task.Linked.{relink}
use novium_os.Task.Members.{mem, without, without_absent}
use novium_os.Task.Removal.{first, Chain-first}
use novium_os.Sched.{
  Scheduler, SchedPolicy, round_robin, priority_first, lock_irq, unlock_irq, ready_remove,
  blocked_remove, dead_add, set_task, set_state, is_running,
}
use novium_os.Sched.Invariant.{
  Links, Queued, IsValid, off_queues, lock_irq-Queued, unlock_irq-Queued, unlock_irq_lem,
}
use novium_os.Sched.Select.{find_round_robin, by_policy, find_next}
use novium_os.Sched.Choice.{Ready, Chosen-Ready}
use novium_os.Sched.Highest.{find_priority-Chosen}
use novium_os.Sched.Switch.{Yielded, stays, switches, requeue, enter, same_task, yield_step}
use novium_os.Sched.Yielding.{entered-Queued}
use novium_os.Sched.Ending.{retire-Queued, retire-StateSet}
use novium_os.Sched.Life.{retire, sched_exit, fall_back}

first-Ready : (r : List ℕ) → Ready r (first r)
unfolding Ready
first-Ready [] = refl
first-Ready (x ∷ r) = ground arith

module _ {s : Scheduler} {r b d : List ℕ} (q : Queued s r b d)
    (nobody : s.current_task ≡ none) where
  round_robin-Ready : Ready r (find_round_robin s)
  unfolding find_round_robin
  round_robin-Ready =
      rw nobody (
        subst (Ready r) (sym (Chain-first s.tasks s.ready_queue r q.links.chain_x)) (first-Ready r))

  by_policy-Ready_of_none : (p : SchedPolicy) → Ready r (by_policy p s)
  unfolding by_policy
  by_policy-Ready_of_none round_robin = round_robin-Ready
  by_policy-Ready_of_none priority_first = Chosen-Ready s.tasks r _ (find_priority-Chosen q)

  next-Ready : Ready r (find_next s)
  unfolding find_next
  next-Ready = by_policy-Ready_of_none s.current_policy

-- What a `SchedYield` may do when no task is the current one.
unfoldable pub Enters : Scheduler → List ℕ → List ℕ → List ℕ → Yielded → Type 0
Enters s r b d (stays s') =
    ((s.scheduler_locked ≢ 0) ⊎ (r ≡ [])) × (s' ≡ unlock_irq s.irqs_enabled (lock_irq s))
Enters s r b d (switches p t s') =
    (s.scheduler_locked ≡ 0)
    × (find_next (lock_irq s) ≡ some t)
    × (p ≡ none)
    × (mem t r ≡ true)
    × (s'.current_task ≡ some t)
    × IsValid s' (without t r) b d

requeue-none : (s : Scheduler) (o : Option ℕ) → o ≡ none → requeue o s ≡ s
unfolding requeue
requeue-none s o e = rw e refl

other_of_none : (t : ℕ) (o : Option ℕ) → o ≡ none → same_task t o ≡ false
other_of_none t o e = rw e refl

module _ {s : Scheduler} {r b d : List ℕ} (q : Queued s r b d) (nobody : s.current_task ≡ none)
    (idle : (i : ℕ) → i < max_tasks → is_running (s.tasks i).state ≡ false) where
  start : ℕ → Scheduler
  start t = enter t (requeue (lock_irq s).current_task (ready_remove t (lock_irq s)))

  start-IsValid :
      (t : ℕ)
      → mem t r ≡ true
      → ((start t).current_task ≡ some t) × IsValid (start t) (without t r) b d
  unfolding start enter set_task lock_irq
  start-IsValid t m =
      subst
        (λ (k : Scheduler).
          ((enter t k).current_task ≡ some t) × IsValid (enter t k) (without t r) b d)
        (sym (requeue-none (ready_remove t (lock_irq s)) s.current_task nobody))
        (
          refl,
          record {
            queued = entered-Queued (lock_irq-Queued s r b d q) t m idle;
            current = t;
            is_current = refl;
            current_inside = q.links.inside_x t m;
            current_runs = ground arith;
          },
        )

  none_under_lock : (lock_irq s).current_task ≡ none
  unfolding lock_irq
  none_under_lock = nobody

  enter_by_choice :
      (o : Option ℕ)
      → find_next (lock_irq s) ≡ o
      → Ready r o
      → s.scheduler_locked ≡ 0
      → Enters s r b d (elim o as (λ _. Yielded) [
        | none ↦ stays (unlock_irq s.irqs_enabled (lock_irq s))
        | some t ↦
            if same_task t (lock_irq s).current_task
            then stays (unlock_irq s.irqs_enabled (lock_irq s))
            else switches (lock_irq s).current_task t (start t)
      ])
  unfolding Enters Ready
  enter_by_choice none e m free = (inr m, refl)
  enter_by_choice (some t) e m free =
      rw (other_of_none t (lock_irq s).current_task none_under_lock)
        (free, e, none_under_lock, m, (start-IsValid t m).0, (start-IsValid t m).1)

  yield_step-Enters : Enters s r b d (yield_step s)
  unfolding yield_step Enters lock_irq start
  yield_step-Enters = elim (Bool-cases (s.scheduler_locked == 0)) [
    | inl free ↦
        rw (free, yield_step)
          (enter_by_choice (find_next (lock_irq s)) refl
            (next-Ready (lock_irq-Queued s r b d q) none_under_lock) (ground arith))
    | inr locked ↦ rw (locked, yield_step) (inl (ground arith), refl)
  ]

module _ {s : Scheduler} {r b d : List ℕ} (v : IsValid s r b d) where
  ended : Scheduler
  ended = unlock_irq s.irqs_enabled (record (retire v.current (lock_irq s)) { current_task = none })

  retired : Queued (retire v.current (lock_irq s)) r b (d ++ v.current ∷ [])
  unfolding lock_irq
  retired =
      let off = off_queues v.queued v.current v.current_inside v.current_runs in
      let q =
        retire-Queued (lock_irq-Queued s r b d v.queued) v.current v.current_inside
          (ground (arith, off)) in
      subst (λ xs. Queued (retire v.current (lock_irq s)) xs b (d ++ v.current ∷ []))
        (without_absent v.current r (ground (arith, off)))
        (subst
          (λ ys.
            Queued (retire v.current (lock_irq s)) (without v.current r) ys (d ++ v.current ∷ []))
          (without_absent v.current b (ground (arith, off))) q)

  none_runs :
      (i : ℕ) → i < max_tasks → is_running ((retire v.current (lock_irq s)).tasks i).state ≡ false
  unfolding lock_irq
  none_runs i h = ground (
    arith,
    retire-StateSet (lock_irq-Queued s r b d v.queued) v.current i,
    v.queued.running_only i h,
    v.is_current,
  )

  ended_same :
      (ended.tasks ≡ (retire v.current (lock_irq s)).tasks)
      × (ended.current_task ≡ none)
      × (ended.scheduler_locked ≡ s.scheduler_locked)
  unfolding ended unlock_irq retire lock_irq dead_add set_task ready_remove blocked_remove
  ended_same = ground arith

  ended-Queued : Queued ended r b (d ++ v.current ∷ [])
  unfolding ended
  ended-Queued =
      unlock_irq-Queued s.irqs_enabled
        (record (retire v.current (lock_irq s)) { current_task = none }) r b (d ++ v.current ∷ [])
        (record {
          links = retired.links;
          on_ready = retired.on_ready;
          on_blocked = retired.on_blocked;
          on_dead = retired.on_dead;
          running_only = λ i h k. absurd (ground (arith, none_runs i h));
        })

  idle_ended : (i : ℕ) → i < max_tasks → is_running (ended.tasks i).state ≡ false
  idle_ended i h = ap (λ (k : Tasks). is_running (k i).state) ended_same.0 ∙ none_runs i h

  fall_back_of_none :
      (k : Scheduler) (o : Option ℕ)
      → k.current_task ≡ o
      → o ≡ none
      → fall_back k ≡ record (set_state 0 running k) { current_task = some 0 }
  unfolding fall_back
  fall_back_of_none k o e f = rw (e ∙ f) refl

  -- The task that ends is on the dead queue and the idle task, descriptor 0, runs as the current one,
  -- in whatever queue it is; the queues, and the states of the other tasks, are as a switch would leave them.
  pub record FallenBack (s' : Scheduler) : Type 0 where
    pub is_current : s'.current_task ≡ some 0
    pub runs : is_running (s'.tasks 0).state ≡ true
    pub links : Links s' r b (d ++ v.current ∷ [])
    pub states :
        (i : ℕ) → 0 ≢ i → (s'.tasks i).state ≡ (if v.current == i then dead else (s.tasks i).state)

  -- What `SchedExit` may do: without the lock enter the ready task that the policy picks, for good,
  -- with the task that ends on the dead queue; else, or with no task ready, fall back to the idle task.
  pub Exits : Yielded → Type 0
  Exits (stays s') = ((s.scheduler_locked ≢ 0) ⊎ (r ≡ [])) × FallenBack s'
  Exits (switches p t s') =
      (s.scheduler_locked ≡ 0)
      × (find_next (lock_irq ended) ≡ some t)
      × (mem t r ≡ true)
      × (s'.current_task ≡ some t)
      × IsValid s' (without t r) b (d ++ v.current ∷ [])

  fallen : FallenBack (fall_back (unlock_irq ended.irqs_enabled (lock_irq ended)))
  unfolding set_state set_task lock_irq
  fallen =
      let k = unlock_irq ended.irqs_enabled (lock_irq ended) in
      let same = unlock_irq_lem ended.irqs_enabled (lock_irq ended) in
      let q =
        unlock_irq-Queued ended.irqs_enabled (lock_irq ended) r b (d ++ v.current ∷ [])
          (lock_irq-Queued ended r b (d ++ v.current ∷ []) ended-Queued) in
      let off : k.current_task ≡ none = same.1 ∙ ended_same.1 in
      subst FallenBack (sym (fall_back_of_none k k.current_task refl off)) (record {
        is_current = refl;
        runs = ground arith;
        links = relink q.links (set_state 0 running k).tasks (λ i m. ground arith);
        states = λ i ne.
            ap (λ (x : Task). x.state) (update_other k.tasks 0 i _ ne)
            ∙ ap (λ (f : Tasks). (f i).state) (same.0 ∙ ended_same.0)
            ∙ retire-StateSet (lock_irq-Queued s r b d v.queued) v.current i;
      })

  from_left :
      (y : Yielded)
      → Enters ended r b (d ++ v.current ∷ []) y
      → Exits (elim y as (λ _. Yielded) [
        | stays s' ↦ stays (fall_back s')
        | switches p t s' ↦ switches p t s'
      ])
  unfolding Enters Exits
  from_left (stays s') e = (
    elim e.0 [ inl locked ↦ inl (λ k. locked (ended_same.2 ∙ k)) | inr empty ↦ inr empty ],
    subst (λ k. FallenBack (fall_back k)) (sym e.1) fallen,
  )
  from_left (switches p t s') e = (sym ended_same.2 ∙ e.0, e.1, e.3, e.4, e.5)

  -- `SchedExit` of a task whose id is not 0, on a valid scheduler, puts the task at the end of the dead
  -- queue. Unless the scheduler is locked or no task is ready, the task that the policy picks is entered
  -- on a valid scheduler; otherwise the idle task, descriptor 0, runs, and no queue and no other state
  -- changes.
  pub sched_exit_lem : ((s.tasks v.current).id == 0) ≡ false → Exits (sched_exit s)
  unfolding sched_exit ended
  sched_exit_lem named =
      subst
        (λ (o : Option ℕ). Exits (elim o as (λ _. Yielded) [
          | none ↦ stays s
          | some c ↦
              if (s.tasks c).id == 0
              then stays s
              else (elim (yield_step (
                    unlock_irq s.irqs_enabled
                      (record (retire c (lock_irq s)) { current_task = none })))
                  as (λ _. Yielded) [
                    | stays s' ↦ stays (fall_back s')
                    | switches p t s' ↦ switches p t s'
                  ])
        ]))
        (sym v.is_current)
        (rw named
          (from_left (yield_step ended) (yield_step-Enters ended-Queued ended_same.1 idle_ended)))
