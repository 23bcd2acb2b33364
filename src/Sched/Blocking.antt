-- ===== src/Sched/Blocking.antt =====
-- Blocking: `SchedBlockTask` of the current task and of another one, and the block that is undone.
use novium_os.Prelude.{
  ℕ, ◌<◌, ◌≡◌, ◌≢◌, refl, sym, ap, ◌∙◌, subst, true, false, ◌||◌, ◌==◌, if◌then◌else◌, List, [],
  ◌∷◌, ◌++◌, Option, none, some, arith, inl, inr, Bool-cases, ◌⊎◌,
}
use novium_os.Task.{blocked, max_tasks}
use novium_os.Task.Members.{mem, mem-append, mem-without, without}
use novium_os.Task.Queue.{content-queue_add}
use novium_os.Task.Linked.{rotate, relink, add-Linked, remove-Linked, content-remove}
use novium_os.Sched.{
  Scheduler, lock_irq, unlock_irq, ready_remove, blocked_add, set_task, set_state, is_running,
}
use novium_os.Sched.Invariant.{
  Links, Queued, IsValid, StateSet, Restated, Restated-StateSet, Moves, moved-Queued,
  lock_irq-Queued,
}
use novium_os.Sched.Select.{find_next}
use novium_os.Sched.Choice.{Ready, find_next-Ready}
use novium_os.Sched.Switch.{Yielded, stays, switches, requeue, enter, same_task, yield_step}
use novium_os.Sched.Yielding.{entered-Queued, removed_state}
use novium_os.Sched.Wait.{park}

module _ {s : Scheduler} {r b d : List ℕ} (q : Queued s r b d) where
  -- A task that is on the ready queue or on none goes to the end of the blocked queue.
  park-Links :
      (t : ℕ)
      → t < max_tasks
      → (mem t b || mem t d) ≡ false
      → Links (park t s) (without t r) (b ++ t ∷ []) d
  unfolding park blocked_add set_state ready_remove set_task
  park-Links t h off =
      let l = remove-Linked q.links t in
      let l' = relink l (set_state t blocked (ready_remove t s)).tasks (λ i k. ground arith) in
      rotate
        (rotate (add-Linked (rotate l') t h (ground (arith, mem-without t t r q.links.distinct_x))))

  park-Restated : (t : ℕ) → Restated s (park t s) t blocked
  unfolding park blocked_add set_state ready_remove set_task
  park-Restated t i =
      content-queue_add (set_state t blocked (ready_remove t s)).tasks s.blocked_queue t i
      ∙ ground (arith, content-remove q.links t i)

  parked-Moves :
      (t : ℕ) → (mem t b || mem t d) ≡ false → Moves blocked t r b d (without t r) (b ++ t ∷ []) d
  parked-Moves t off = record {
    in_ready = λ i. mem-without t i r q.links.distinct_x;
    in_blocked = λ i. ground (arith, mem-append i b (t ∷ []));
    in_dead = λ i k. ground arith;
  }

  pub park-Queued :
      (t : ℕ)
      → t < max_tasks
      → (mem t b || mem t d) ≡ false
      → Queued (park t s) (without t r) (b ++ t ∷ []) d
  unfolding park blocked_add set_state ready_remove set_task
  park-Queued t h off =
      moved-Queued s (park t s) t blocked r b d (without t r) (b ++ t ∷ []) d refl q
        (park-Links t h off) (Restated-StateSet s (park t s) t blocked (park-Restated t))
        (parked-Moves t off) (λ i _ e. e)

  pub parked_state : (t : ℕ) → StateSet s (park t s) t blocked
  parked_state t = Restated-StateSet s (park t s) t blocked (park-Restated t)

same_next : (t c : ℕ) (o : Option ℕ) → o ≡ some c → (t == c) ≡ false → same_task t o ≡ false
same_next t c o e ne = ground arith

requeue_waiting :
    (c : ℕ) (s : Scheduler) (o : Option ℕ)
    → o ≡ some c
    → is_running (s.tasks c).state ≡ false
    → requeue o s ≡ s
unfolding requeue
requeue_waiting c s o e idle = ground arith

-- What a `SchedYield` may do for a current task `c` that has just left for the blocked queue.
unfoldable pub Leaves : Scheduler → List ℕ → List ℕ → List ℕ → ℕ → Yielded → Type 0
Leaves s r b d c (stays s') =
    ((s.scheduler_locked ≢ 0) ⊎ (r ≡ [])) × (s' ≡ unlock_irq s.irqs_enabled (lock_irq s))
Leaves s r b d c (switches p t s') =
    (s.scheduler_locked ≡ 0)
    × (p ≡ some c)
    × (find_next (lock_irq s) ≡ some t)
    × (mem t r ≡ true)
    × IsValid s' (without t r) b d

module _ {s : Scheduler} {r b d : List ℕ} (q : Queued s r b d) (c : ℕ)
    (at_c : s.current_task ≡ some c) (waits : mem c r ≡ false)
    (idle : (i : ℕ) → i < max_tasks → is_running (s.tasks i).state ≡ false) where
  locked-Queued : Queued (lock_irq s) r b d
  locked-Queued = lock_irq-Queued s r b d q

  locked_current : (lock_irq s).current_task ≡ some c
  unfolding lock_irq
  locked_current = at_c

  left : ℕ → Scheduler
  left t = enter t (requeue (lock_irq s).current_task (ready_remove t (lock_irq s)))

  left-IsValid : c < max_tasks → (t : ℕ) → mem t r ≡ true → IsValid (left t) (without t r) b d
  unfolding left enter set_task lock_irq
  left-IsValid h t m =
      let gone =
        requeue_waiting c (ready_remove t (lock_irq s)) s.current_task at_c
          (ap is_running (removed_state locked-Queued t m c) ∙ idle c h) in
      subst (λ (k : Scheduler). IsValid (enter t k) (without t r) b d) (sym gone)
        (record {
          queued = entered-Queued locked-Queued t m idle;
          current = t;
          is_current = refl;
          current_inside = q.links.inside_x t m;
          current_runs = ground arith;
        })

  leave_by_choice :
      c < max_tasks
      → (o : Option ℕ) → find_next (lock_irq s) ≡ o
      → Ready r o
      → s.scheduler_locked ≡ 0
      → Leaves s r b d c (elim o as (λ _. Yielded) [
        | none ↦ stays (unlock_irq s.irqs_enabled (lock_irq s))
        | some t ↦
            if same_task t (lock_irq s).current_task
            then stays (unlock_irq s.irqs_enabled (lock_irq s))
            else switches (lock_irq s).current_task t (left t)
      ])
  unfolding Leaves Ready
  leave_by_choice h none e m free = (inr m, refl)
  leave_by_choice h (some t) e m free =
      rw
        (same_next t c (lock_irq s).current_task locked_current (elim (Bool-cases (t == c)) [
          | inl same ↦ let e' : t ≡ c = ground arith in absurd (ground (arith, rw e' at m))
          | inr other ↦ other
        ]))
        (free, locked_current, e, m, left-IsValid h t m)

  pub yield_step-Leaves : c < max_tasks → Leaves s r b d c (yield_step s)
  unfolding yield_step Leaves lock_irq left
  yield_step-Leaves h = elim (Bool-cases (s.scheduler_locked == 0)) [
    | inl free ↦
        rw (free, yield_step)
          (leave_by_choice h (find_next (lock_irq s)) refl (find_next-Ready c locked-Queued at_c)
            (ground arith))
    | inr locked ↦ rw (locked, yield_step) (inl (ground arith), refl)
  ]
