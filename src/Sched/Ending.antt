-- ===== src/Sched/Ending.antt =====
-- Killing: `SchedKill` of a task that is not the current one.
use novium_os.Prelude.{
  ℕ, ◌<◌, ◌≡◌, refl, ap, ◌∙◌, false, List, [], ◌∷◌, ◌++◌, Option, none, some, arith,
}
use novium_os.Task.{Task, dead, max_tasks}
use novium_os.Task.Members.{mem, mem-append, mem-without, without}
use novium_os.Task.Queue.{content-queue_add}
use novium_os.Task.Linked.{rotate, relink, add-Linked, remove-Linked, content-remove, Linked}
use novium_os.Sched.{
  Scheduler, lock_irq, unlock_irq, ready_remove, blocked_remove, dead_add, set_task,
}
use novium_os.Sched.Invariant.{Links, Queued, IsValid, StateSet, Moves, moved-Queued}
use novium_os.Sched.Switch.{Yielded, stays}
use novium_os.Sched.Life.{reset, retire}

module _ {s : Scheduler} {r b d : List ℕ} (q : Queued s r b d) (t : ℕ) where
  taken : Scheduler
  taken = blocked_remove t (ready_remove t s)

  -- With the dead queue in front.
  taken-Linked :
      Linked taken.tasks taken.dead_queue d taken.ready_queue
        (without t r)
        taken.blocked_queue
        (without t b)
  unfolding taken ready_remove blocked_remove
  taken-Linked = rotate (remove-Linked (rotate (remove-Linked q.links t)) t)

  taken_state : (i : ℕ) → (taken.tasks i).state ≡ (s.tasks i).state
  unfolding taken ready_remove blocked_remove
  taken_state i =
      ap (λ (k : Task). k.state)
        (content-remove (rotate (remove-Linked q.links t)) t i ∙ content-remove q.links t i)

  retire-Links :
      t < max_tasks → mem t d ≡ false → Links (retire t s) (without t r) (without t b) (d ++ t ∷ [])
  unfolding retire taken dead_add set_task ready_remove blocked_remove
  retire-Links h off =
      let not_ready = λ (i : ℕ). mem-without t i r q.links.distinct_x in
      let not_blocked = λ (i : ℕ). mem-without t i b q.links.distinct_y in
      rotate (
        add-Linked
          (relink taken-Linked (set_task t (reset (taken.tasks t)) taken).tasks
            (λ i k. ground (arith, not_ready i, not_blocked i)))
          t h (ground (arith, not_ready t, not_blocked t)))

  pub retire-StateSet : StateSet s (retire t s) t dead
  unfolding retire taken dead_add set_task reset
  retire-StateSet i =
      ap (λ (k : Task). k.state)
        (content-queue_add (set_task t (reset (taken.tasks t)) taken).tasks taken.dead_queue t i)
      ∙ ground (arith, taken_state i)

  retired-Moves : Moves dead t r b d (without t r) (without t b) (d ++ t ∷ [])
  retired-Moves = record {
    in_ready = λ i. mem-without t i r q.links.distinct_x;
    in_blocked = λ i. mem-without t i b q.links.distinct_y;
    in_dead = λ i k. ground (arith, mem-append i d (t ∷ []));
  }

  -- A task that is not dead yet leaves its queue for the end of the dead queue.
  pub retire-Queued :
      t < max_tasks
      → mem t d ≡ false
      → Queued (retire t s) (without t r) (without t b) (d ++ t ∷ [])
  unfolding retire dead_add set_task ready_remove blocked_remove
  retire-Queued h off =
      moved-Queued s (retire t s) t dead r b d (without t r) (without t b) (d ++ t ∷ []) refl q
        (retire-Links h off) retire-StateSet retired-Moves (λ i _ e. e)

module _ {s : Scheduler} {r b d : List ℕ} (v : IsValid s r b d) where
  -- What `SchedKill` of another task than the current one does.
  pub Killed : Option ℕ → Yielded → Type 0
  Killed none o = o ≡ stays (unlock_irq s.irqs_enabled (lock_irq s))
  Killed (some t) o =
      (s' : Scheduler) × (o ≡ stays s') × IsValid s' (without t r) (without t b) (d ++ t ∷ [])
