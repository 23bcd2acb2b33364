-- ===== src/Sched/Ticking.antt =====
-- The timer's part, `SchedTick` and `SchedPreempt`, and the statistics.
use novium_os.Prelude.{
  ℕ, zero, suc, ◌+◌, ◌%◌, ◌^◌, ◌<◌, ◌≡◌, refl, sym, ap, ◌∙◌, subst, Bool, true, false, ◌||◌, ◌==◌,
  not, leb, if◌then◌else◌, List, Option, none, some, arith, inl, inr, ==_refl, Bool-cases,
}
use novium_os.Task.{Task, Tasks, TaskState, dead, ready, running, blocked, max_tasks}
use novium_os.Sched.{
  Scheduler, set_task, SchedStats, count_state, count_states, no_counts, sched_get_stats,
  sched_lock, sched_unlock,
}
use novium_os.Sched.Invariant.{IsValid, set_task-Queued}
use novium_os.Sched.Switch.{sched_tick}

-- The descriptor of the running task after a tick.
abbrev pub ticked : Task → Task
ticked task =
    let used = (task.time_used + 1) % 2 ^ 32 in
    record task {
      runtime = (task.runtime + 1) % 2 ^ 32;
      time_used = if leb task.time_slice used then 0 else used;
    }

charged : ℕ → Scheduler → Scheduler
charged c s =
    let task = s.tasks c in
    record (set_task c (ticked task) s) {
      scheduler_ticks = (s.scheduler_ticks + 1) % 2 ^ 32;
      preempt_pending =
          if leb task.time_slice ((task.time_used + 1) % 2 ^ 32) then true else s.preempt_pending;
    }

tick_charged :
    (regs_null : Bool) (c : ℕ) (s : Scheduler) (o : Option ℕ)
    → s.current_task ≡ o
    → o ≡ some c
    → (regs_null || not (s.scheduler_locked == 0)) ≡ false
    → sched_tick regs_null s ≡ charged c s
unfolding sched_tick set_task charged
tick_charged regs_null c s o e at_c free = ground arith

module _ {s : Scheduler} {r b d : List ℕ} (v : IsValid s r b d) where
  charged-IsValid : IsValid (charged v.current s) r b d
  unfolding charged set_task
  charged-IsValid =
      let q = set_task-Queued s v.current (ticked (s.tasks v.current)) r b d refl refl v.queued in
      record {
        queued = record {
          links = q.links;
          on_ready = q.on_ready;
          on_blocked = q.on_blocked;
          on_dead = q.on_dead;
          running_only = q.running_only;
        };
        current = v.current;
        is_current = v.is_current;
        current_inside = v.current_inside;
        current_runs = ground (arith, v.current_runs);
      }

  charged_lem :
      ((charged v.current s).tasks v.current ≡ ticked (s.tasks v.current))
      × ((charged v.current s).preempt_pending ≡ (
          leb (s.tasks v.current).time_slice (((s.tasks v.current).time_used + 1) % 2 ^ 32)
          || s.preempt_pending))
  unfolding charged set_task
  charged_lem = (rw (==_refl v.current) refl, ground arith)

  -- `SchedTick` keeps a valid scheduler valid. With the scheduler locked or without registers it does
  -- nothing; otherwise the running task is charged one tick, and a preemption is asked for exactly
  -- when its slice is used up, which also starts the slice again.
  pub sched_tick_lem :
      (regs_null : Bool)
      → IsValid (sched_tick regs_null s) r b d
        × ((regs_null || not (s.scheduler_locked == 0)) ≡ true → sched_tick regs_null s ≡ s)
        × ((regs_null || not (s.scheduler_locked == 0)) ≡ false
            → ((sched_tick regs_null s).tasks v.current ≡ ticked (s.tasks v.current))
              × ((sched_tick regs_null s).preempt_pending ≡ (
                  leb (s.tasks v.current).time_slice (((s.tasks v.current).time_used + 1) % 2 ^ 32)
                  || s.preempt_pending)))
  unfolding sched_tick
  sched_tick_lem regs_null = elim (Bool-cases (regs_null || not (s.scheduler_locked == 0))) [
    | inl off ↦ (rw (off, sched_tick) v, λ e. rw e refl, λ e. absurd (ground arith))
    | inr on ↦
        let e = tick_charged regs_null v.current s s.current_task refl v.is_current on in
        (
          subst (λ k. IsValid k r b d) (sym e) charged-IsValid,
          λ off. absurd (ground arith),
          λ _.
              subst
                (λ (k : Scheduler).
                  (k.tasks v.current ≡ ticked (s.tasks v.current))
                  × (k.preempt_pending ≡ (
                      leb (s.tasks v.current).time_slice
                        (((s.tasks v.current).time_used + 1) % 2 ^ 32)
                      || s.preempt_pending)))
                (sym e) charged_lem,
        )
  ]

count_state_sum :
    (st : TaskState) (c : SchedStats)
    → let k = count_state st c in
      k.running_tasks + k.ready_tasks + k.blocked_tasks + k.dead_tasks
      ≡ c.running_tasks + c.ready_tasks + c.blocked_tasks + c.dead_tasks + 1
unfolding count_state
count_state_sum running c = omega arith
count_state_sum ready c = omega arith
count_state_sum blocked c = omega arith
count_state_sum dead c = omega arith

count_states_sum :
    (tasks : Tasks) (n index : ℕ) (c : SchedStats)
    → let k = count_states tasks n index c in
      k.running_tasks + k.ready_tasks + k.blocked_tasks + k.dead_tasks
      ≡ n + (c.running_tasks + c.ready_tasks + c.blocked_tasks + c.dead_tasks)
unfolding count_states
count_states_sum tasks zero index c = omega arith
count_states_sum tasks (suc n) index c = omega (
  arith,
  count_states_sum tasks n (index + 1) (count_state (tasks index).state c),
  count_state_sum (tasks index).state c,
)

counted_tasks : Option SchedStats → ℕ
counted_tasks none = 0
counted_tasks (some k) = k.running_tasks + k.ready_tasks + k.blocked_tasks + k.dead_tasks

-- The four counts that `SchedGetStats` writes add up to the size of the descriptor array: every
-- descriptor is counted once.
sched_get_stats_lem :
    (stats k : SchedStats) (s : Scheduler)
    → (sched_get_stats (some stats) s).0 ≡ some k
    → k.running_tasks + k.ready_tasks + k.blocked_tasks + k.dead_tasks ≡ max_tasks
unfolding sched_get_stats counted_tasks
sched_get_stats_lem stats k s e =
    sym (ap counted_tasks e) ∙ omega (arith, count_states_sum s.tasks max_tasks 0 (no_counts s))

-- Locks nest: an unlock undoes the lock before it, unless the counter has run over its 32 bits.
sched_unlock-lock :
    (s : Scheduler) → s.scheduler_locked + 1 < 2 ^ 32 → sched_unlock (sched_lock s) ≡ s
unfolding sched_unlock sched_lock
sched_unlock-lock s h =
    let small : (s.scheduler_locked + 1) % 2 ^ 32 ≡ s.scheduler_locked + 1 = omega arith in
    ground arith
