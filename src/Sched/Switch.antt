-- ===== src/Sched/Switch.antt =====
-- `SchedYield`, `SchedTick` and `SchedPreempt`. `SchedSwitch` of switch.S leaves the caller; what runs
-- until the caller is resumed is the argument `resume`.
use novium_os.Prelude.{
  ℕ, ◌+◌, ◌%◌, ◌^◌, Bool, true, false, not, ◌||◌, Option, none, some, leb, ◌==◌, if◌then◌else◌,
}
use novium_os.Task.{ready, running}
use novium_os.Sched.{
  Scheduler, lock_irq, unlock_irq, ready_add, ready_remove, set_task, set_state, is_running,
}
use novium_os.Sched.Select.{find_next}

-- A call of `SchedYield` up to its return without a switch, or up to the call of `SchedSwitch` with
-- the task that is left and the one that is entered.
pub data Yielded : Type 0 where
  stays : Scheduler → Yielded
  switches : Option ℕ → ℕ → Scheduler → Yielded

-- `PrevTask` goes to the end of the ready queue if it was running.
unfoldable pub requeue : Option ℕ → Scheduler → Scheduler
requeue none s = s
requeue (some p) s = if is_running (s.tasks p).state then ready_add p (set_state p ready s) else s

-- `NextTask` becomes the current task.
unfoldable pub enter : ℕ → Scheduler → Scheduler
enter t s =
    let task = s.tasks t in
    let s' =
      set_task t
        (record task { state = running; time_used = 0; switches = (task.switches + 1) % 2 ^ 32 })
        s in
    record s' { current_task = some t; context_switches = (s'.context_switches + 1) % 2 ^ 32 }

-- `NextTask == CurrentTask`
abbrev pub same_task : ℕ → Option ℕ → Bool
same_task t none = false
same_task t (some c) = t == c

unfoldable pub yield_step : Scheduler → Yielded
unfolding requeue enter
yield_step s0 =
    let s = lock_irq s0 in
    let stay = stays (unlock_irq s0.irqs_enabled s) in
    if not (s.scheduler_locked == 0) then stay else elim (find_next s) as (λ _. Yielded) [
      | none ↦ stay
      | some t ↦
          if same_task t s.current_task
          then stay
          else switches s.current_task t (enter t (requeue s.current_task (ready_remove t s)))
    ]

unfoldable pub sched_tick : Bool → Scheduler → Scheduler
unfolding set_task
sched_tick regs_null s =
    if regs_null || not (s.scheduler_locked == 0) then s else elim s.current_task [
      | none ↦ record s { scheduler_ticks = (s.scheduler_ticks + 1) % 2 ^ 32 }
      | some c ↦
          let task = s.tasks c in
          let used = (task.time_used + 1) % 2 ^ 32 in
          let expired = leb task.time_slice used in
          let s' =
            set_task c
              (record task {
                runtime = (task.runtime + 1) % 2 ^ 32;
                time_used = if expired then 0 else used;
              })
              s in
          record s' {
            scheduler_ticks = (s.scheduler_ticks + 1) % 2 ^ 32;
            preempt_pending = if expired then true else s.preempt_pending;
          }
    ]

module _ (resume : Option ℕ → ℕ → Scheduler → Scheduler) where
  unfoldable pub sched_yield : Scheduler → Scheduler
  sched_yield s = elim (yield_step s) [
    | stays s' ↦ s'
    | switches p t s' ↦ unlock_irq s.irqs_enabled (resume p t s')
  ]

  unfoldable pub sched_preempt : Scheduler → Scheduler
  sched_preempt s =
      if not s.preempt_pending
      then s
      else if not (s.scheduler_locked == 0)
      then s
      else sched_yield (record s { preempt_pending = false })
