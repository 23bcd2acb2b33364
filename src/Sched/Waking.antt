-- ===== src/Sched/Waking.antt =====
-- Waking blocked tasks: `SchedUnblock`, `SchedWakeTask`, `SchedWakeExpired`.
use novium_os.Prelude.{
  ℕ, ◌<◌, ◌≡◌, ◌≢◌, refl, ap, ◌∙◌, true, false, List, [], ◌∷◌, ◌++◌, some, arith,
}
use novium_os.Task.{Tasks, ready, max_tasks}
use novium_os.Task.Members.{mem, mem-append, mem-without, without}
use novium_os.Task.Queue.{content-queue_add}
use novium_os.Task.Linked.{rotate, relink, add-Linked, remove-Linked, content-remove}
use novium_os.Sched.{
  Scheduler, lock_irq, unlock_irq, ready_add, blocked_remove, set_state, is_blocked, is_running,
}
use novium_os.Sched.Invariant.{
  Links, Queued, IsValid, Restated, Restated-StateSet, Moves, moved-Queued, off_others,
  lock_irq-Queued, unlock_irq-Queued, unlock_irq_lem,
}
use novium_os.Sched.Wait.{make_ready, sched_unblock}

module _ {s : Scheduler} {r b d : List ℕ} (q : Queued s r b d) where
  make_ready-Links : (t : ℕ) → mem t b ≡ true → Links (make_ready t s) (r ++ t ∷ []) (without t b) d
  unfolding make_ready ready_add set_state blocked_remove
  make_ready-Links t m =
      let off = rotate (rotate (remove-Linked (rotate q.links) t)) in
      let others = off_others q t m in
      add-Linked (relink off (set_state t ready (blocked_remove t s)).tasks (λ i k. ground arith)) t
        (q.links.inside_y t m) (ground (arith, mem-without t t b q.links.distinct_y))

  pub make_ready-Restated : (t : ℕ) → Restated s (make_ready t s) t ready
  unfolding make_ready ready_add set_state blocked_remove
  make_ready-Restated t i =
      content-queue_add (set_state t ready (blocked_remove t s)).tasks s.ready_queue t i
      ∙ ground (arith, content-remove (rotate q.links) t i)

  woken-Moves : (t : ℕ) → mem t b ≡ true → Moves ready t r b d (r ++ t ∷ []) (without t b) d
  woken-Moves t m = record {
    in_ready = λ i. ground (arith, mem-append i r (t ∷ []));
    in_blocked = λ i. mem-without t i b q.links.distinct_y;
    in_dead = λ i k. let others = off_others q t m in ground arith;
  }

  -- A blocked task that is woken moves from its place on the blocked queue to the end of the ready
  -- queue.
  pub make_ready-Queued :
      (t : ℕ) → mem t b ≡ true → Queued (make_ready t s) (r ++ t ∷ []) (without t b) d
  unfolding make_ready ready_add set_state blocked_remove
  make_ready-Queued t m =
      moved-Queued s (make_ready t s) t ready r b d (r ++ t ∷ []) (without t b) d refl q
        (make_ready-Links t m)
        (Restated-StateSet s (make_ready t s) t ready (make_ready-Restated t)) (woken-Moves t m)
        (λ i _ e. e)

module _ {s : Scheduler} {r b d : List ℕ} (v : IsValid s r b d) where
  not_blocked : (is_blocked (s.tasks v.current).state ≡ false) × (mem v.current b ≡ false)
  not_blocked =
      let e : is_blocked (s.tasks v.current).state ≡ false = ground (arith, v.current_runs) in
      (e, v.queued.on_blocked v.current v.current_inside ∙ e)

  current_kept :
      (t : ℕ)
      → mem t b ≡ true
      → ((make_ready t (lock_irq s)).tasks v.current).state ≡ (s.tasks v.current).state
  unfolding lock_irq
  current_kept t m =
      let q = lock_irq-Queued s r b d v.queued in
      let e =
        Restated-StateSet (lock_irq s) (make_ready t (lock_irq s)) t ready (make_ready-Restated q t)
          v.current in
      let off = not_blocked.1 in
      let ne : t ≢ v.current = λ same. let m' : mem v.current b ≡ true = rw same at m in cc in
      ground arith

  woken-IsValid :
      (t : ℕ)
      → mem t b ≡ true
      → IsValid
          (unlock_irq s.irqs_enabled (make_ready t (lock_irq s)))
          (r ++ t ∷ [])
          (without t b)
          d
  unfolding make_ready ready_add set_state blocked_remove lock_irq
  woken-IsValid t m =
      let q = make_ready-Queued (lock_irq-Queued s r b d v.queued) t m in
      let s' = make_ready t (lock_irq s) in
      let same = unlock_irq_lem s.irqs_enabled s' in
      record {
        queued = unlock_irq-Queued s.irqs_enabled s' (r ++ t ∷ []) (without t b) d q;
        current = v.current;
        is_current = same.1 ∙ v.is_current;
        current_inside = v.current_inside;
        current_runs =
            ap (λ (a : Tasks). is_running (a v.current).state) same.0
            ∙ ap is_running (current_kept t m)
            ∙ v.current_runs;
      }

  -- On a valid scheduler `SchedUnblock` of a blocked task moves it from the blocked queue to the end of
  -- the ready queue and keeps the scheduler valid; of any other task it does nothing.
  pub sched_unblock_lem :
      (t : ℕ)
      → t < max_tasks
      → (is_blocked (s.tasks t).state ≡ false → sched_unblock (some t) s ≡ s)
        × (is_blocked (s.tasks t).state ≡ true
            → IsValid (sched_unblock (some t) s) (r ++ t ∷ []) (without t b) d)
  unfolding sched_unblock
  sched_unblock_lem t h = (λ e. rw e, λ e. rw e (woken-IsValid t (v.queued.on_blocked t h ∙ e)))
