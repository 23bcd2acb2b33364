-- ===== src/Sched/Yielding.antt =====
-- `SchedYield` up to the switch: which queues it leaves, and the task it enters.
use novium_os.Prelude.{
  ℕ, ◌<◌, ◌≡◌, ◌≢◌, refl, sym, ap, ◌∙◌, subst, true, false, ◌==◌, if◌then◌else◌, List, [], ◌∷◌,
  ◌++◌, Option, none, some, arith, inl, inr, Bool-cases, ◌⊎◌,
}
use novium_os.Task.{Task, Tasks, ready, max_tasks}
use novium_os.Task.Members.{mem, mem-append, mem-without, without}
use novium_os.Task.Queue.{content-queue_add}
use novium_os.Task.Linked.{relink, add-Linked, remove-Linked, content-remove}
use novium_os.Sched.{
  Scheduler, lock_irq, unlock_irq, ready_add, ready_remove, set_task, set_state, is_running,
}
use novium_os.Sched.Invariant.{
  Links, Queued, IsValid, off_queues, lock_irq-Queued, unlock_irq-Queued, unlock_irq_lem,
}
use novium_os.Sched.Select.{find_next}
use novium_os.Sched.Choice.{Ready, find_next-Ready}
use novium_os.Sched.Switch.{Yielded, stays, switches, requeue, enter, same_task, yield_step}

module _ {s : Scheduler} {r b d : List ℕ} (q : Queued s r b d) (t : ℕ) (m : mem t r ≡ true) where
  removed-Links : Links (ready_remove t s) (without t r) b d
  unfolding ready_remove
  removed-Links = remove-Linked q.links t

  pub removed_state : (i : ℕ) → ((ready_remove t s).tasks i).state ≡ (s.tasks i).state
  unfolding ready_remove
  removed_state i = ap (λ (k : Task). k.state) (content-remove q.links t i)

  -- The next task is entered while the previous one waits elsewhere.
  pub entered-Queued :
      ((i : ℕ) → i < max_tasks → is_running (s.tasks i).state ≡ false)
      → Queued (enter t (ready_remove t s)) (without t r) b d
  unfolding enter set_task
  entered-Queued none_runs = record {
    links = relink removed-Links (enter t (ready_remove t s)).tasks (λ i k. ground arith);
    on_ready = λ i h.
        ground (arith, removed_state i, mem-without t i r q.links.distinct_x, q.on_ready i h);
    on_blocked = λ i h.
        ground (arith, removed_state i, q.on_blocked i h, q.links.apart_xy i, q.on_ready i h);
    on_dead = λ i h. ground (arith, removed_state i, q.on_dead i h, q.links.apart_zx i h);
    running_only = λ i h k. ground (arith, removed_state i, none_runs i h);
  }

  module _ (p : ℕ) (inside : p < max_tasks) (runs : is_running (s.tasks p).state ≡ true) where
    requeued : Scheduler
    requeued = ready_add p (set_state p ready (ready_remove t s))

    requeued-Links : Links requeued (without t r ++ p ∷ []) b d
    unfolding requeued ready_add set_state set_task
    requeued-Links =
        add-Linked
          (relink removed-Links (set_state p ready (ready_remove t s)).tasks (λ i k. ground arith))
          p inside
          (ground (arith, mem-without t p r q.links.distinct_x, off_queues q p inside runs))

    requeued_state :
        (i : ℕ) → (requeued.tasks i).state ≡ (if p == i then ready else (s.tasks i).state)
    unfolding requeued ready_add set_state set_task
    requeued_state i =
        ap (λ (k : Task). k.state)
          (content-queue_add (set_state p ready (ready_remove t s)).tasks
            (ready_remove t s).ready_queue p i)
        ∙ ground (arith, removed_state i)

    -- The next task is entered and the previous one, which ran, goes to the end of the ready queue.
    pub swapped-Queued :
        s.current_task ≡ some p
        → Queued
            (enter t (ready_add p (set_state p ready (ready_remove t s))))
            (without t r ++ p ∷ [])
            b
            d
    unfolding enter set_task requeued
    swapped-Queued c =
        let apart = off_queues q p inside runs in
        record {
          links = relink requeued-Links (enter t requeued).tasks (λ i k. ground arith);
          on_ready = λ i h. ground (
            arith,
            requeued_state i,
            mem-append i (without t r) (p ∷ []),
            mem-without t i r q.links.distinct_x,
            q.on_ready i h,
          );
          on_blocked =
              λ i h. ground (arith, requeued_state i, q.on_blocked i h, q.links.apart_xy i);
          on_dead = λ i h. ground (arith, requeued_state i, q.on_dead i h, q.links.apart_zx i h);
          running_only = λ i h k. ground (arith, requeued_state i, q.running_only i h);
        }

-- What a `SchedYield` of the current task `c` may do: without the lock and with a ready task it leaves
-- `c` for the task that the policy picks, which runs, and puts `c` last in the ready queue. Otherwise
-- it stays.
unfoldable pub Yields : Scheduler → List ℕ → List ℕ → List ℕ → ℕ → Yielded → Type 0
Yields s r b d c (stays s') = ((s.scheduler_locked ≢ 0) ⊎ (r ≡ [])) × IsValid s' r b d
Yields s r b d c (switches p t s') =
    (s.scheduler_locked ≡ 0)
    × (p ≡ some c)
    × (find_next (lock_irq s) ≡ some t)
    × (mem t r ≡ true)
    × (s'.current_task ≡ some t)
    × IsValid s' (without t r ++ c ∷ []) b d

same_current : (t c : ℕ) (o : Option ℕ) → o ≡ some c → same_task t o ≡ (t == c)
same_current t c o e = ground arith

requeue_running :
    (p : ℕ) (s : Scheduler) (o : Option ℕ)
    → o ≡ some p
    → is_running (s.tasks p).state ≡ true
    → requeue o s ≡ ready_add p (set_state p ready s)
unfolding requeue
requeue_running p s o e runs = ground arith

module _ {s : Scheduler} {r b d : List ℕ} (v : IsValid s r b d) where
  pub quiet-IsValid : IsValid (unlock_irq s.irqs_enabled (lock_irq s)) r b d
  unfolding lock_irq
  quiet-IsValid =
      let same = unlock_irq_lem s.irqs_enabled (lock_irq s) in
      record {
        queued =
            unlock_irq-Queued s.irqs_enabled (lock_irq s) r b d (lock_irq-Queued s r b d v.queued);
        current = v.current;
        is_current = same.1 ∙ v.is_current;
        current_inside = v.current_inside;
        current_runs = ap (λ (k : Tasks). is_running (k v.current).state) same.0 ∙ v.current_runs;
      }

  other_task : (t : ℕ) → mem t r ≡ true → same_task t (lock_irq s).current_task ≡ false
  unfolding lock_irq
  other_task t m =
      let off = off_queues v.queued v.current v.current_inside v.current_runs in
      same_current t v.current s.current_task v.is_current ∙ (elim (Bool-cases (t == v.current)) [
        | inl e ↦ let e' : t ≡ v.current = ground arith in absurd (ground (arith, rw e' at m))
        | inr e ↦ e
      ])

  entered : ℕ → Scheduler
  entered t =
      enter t (ready_add v.current (set_state v.current ready (ready_remove t (lock_irq s))))

  entered_by :
      (t : ℕ)
      → mem t r ≡ true
      → enter t (requeue (lock_irq s).current_task (ready_remove t (lock_irq s))) ≡ entered t
  unfolding entered lock_irq ready_remove
  entered_by t m =
      let q = lock_irq-Queued s r b d v.queued in
      let s' = ready_remove t (lock_irq s) in
      ap (enter t) (
        requeue_running v.current s' s.current_task v.is_current
          (ap is_running (removed_state q t m v.current) ∙ v.current_runs))

  entered-IsValid :
      (t : ℕ) → mem t r ≡ true → IsValid (entered t) (without t r ++ v.current ∷ []) b d
  unfolding entered enter set_task lock_irq
  entered-IsValid t m =
      let q = lock_irq-Queued s r b d v.queued in
      record {
        queued = swapped-Queued q t m v.current v.current_inside v.current_runs v.is_current;
        current = t;
        is_current = refl;
        current_inside = v.queued.links.inside_x t m;
        current_runs = ground arith;
      }

  entered_current : (t : ℕ) → (entered t).current_task ≡ some t
  unfolding entered enter
  entered_current t = refl

  current_under_lock : (lock_irq s).current_task ≡ some v.current
  unfolding lock_irq
  current_under_lock = v.is_current

  by_choice :
      (o : Option ℕ)
      → find_next (lock_irq s) ≡ o
      → Ready r o
      → s.scheduler_locked ≡ 0
      → Yields s r b d v.current (elim o as (λ _. Yielded) [
        | none ↦ stays (unlock_irq s.irqs_enabled (lock_irq s))
        | some t ↦
            if same_task t (lock_irq s).current_task
            then stays (unlock_irq s.irqs_enabled (lock_irq s))
            else switches
                (lock_irq s).current_task
                t
                (enter t (requeue (lock_irq s).current_task (ready_remove t (lock_irq s))))
      ])
  unfolding Yields Ready
  by_choice none e m free = (inr m, quiet-IsValid)
  by_choice (some t) e m free = rw (other_task t m) (
    free,
    current_under_lock,
    e,
    m,
    ap (λ (k : Scheduler). k.current_task) (entered_by t m) ∙ entered_current t,
    subst (λ (k : Scheduler). IsValid k (without t r ++ v.current ∷ []) b d) (sym (entered_by t m))
        (entered-IsValid t m),
  )

  -- Every `SchedYield` of a valid scheduler is one of these.
  pub yield_step-Yields : Yields s r b d v.current (yield_step s)
  unfolding yield_step Yields lock_irq
  yield_step-Yields = elim (Bool-cases (s.scheduler_locked == 0)) [
    | inl free ↦
        rw (free, yield_step)
          (by_choice (find_next (lock_irq s)) refl
            (find_next-Ready v.current (lock_irq-Queued s r b d v.queued) v.is_current)
            (ground arith))
    | inr locked ↦ rw (locked, yield_step) (inl (ground arith), quiet-IsValid)
  ]
