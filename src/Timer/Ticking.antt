-- ===== src/Timer/Ticking.antt =====
-- `timer_callback`: one interrupt of the timer, clock and scheduler together.
use novium_os.Prelude.{
  ℕ, ◌+◌, ◌%◌, ◌^◌, ◌≡◌, refl, ap, ◌∙◌, Bool, true, false, not, leb, ◌||◌, ◌==◌, if◌then◌else◌,
  List, ◌++◌, inl, inr, Bool-cases,
}
use novium_os.Sched.{Scheduler}
use novium_os.Sched.Sleepers.{charge}
use novium_os.Sched.Switch.{sched_tick}
use novium_os.Sched.Wait.{is_due}
use novium_os.Sched.Invariant.{IsValid}
use novium_os.Sched.Expiry.{sched_wake_expired_lem, sched_wake_expired-charge, select}
use novium_os.Sched.Ticking.{ticked, sched_tick_lem}
use novium_os.Timer.{Clock, timer_callback}

-- What the running task is charged: nothing with the scheduler locked or without registers, else one
-- tick of its run time and of its slice, which starts again when it is used up; a preemption is asked
-- for exactly then.
unfoldable pub Charged : Bool → Scheduler → ℕ → Scheduler → Type 0
Charged regs_null s c s' =
    if regs_null || not (s.scheduler_locked == 0)
    then (charge (s'.tasks c) ≡ charge (s.tasks c)) × (s'.preempt_pending ≡ s.preempt_pending)
    else (charge (s'.tasks c) ≡ charge (ticked (s.tasks c)))
      × (s'.preempt_pending ≡ (
          leb (s.tasks c).time_slice (((s.tasks c).time_used + 1) % 2 ^ 32) || s.preempt_pending))

Charged-after :
    (regs_null : Bool) (s t s' : Scheduler) (c : ℕ)
    → ((regs_null || not (s.scheduler_locked == 0)) ≡ true → t ≡ s)
    → ((regs_null || not (s.scheduler_locked == 0)) ≡ false
        → (t.tasks c ≡ ticked (s.tasks c))
          × (t.preempt_pending ≡ (
              leb (s.tasks c).time_slice (((s.tasks c).time_used + 1) % 2 ^ 32)
              || s.preempt_pending)))
    → (charge (s'.tasks c) ≡ charge (t.tasks c)) × (s'.preempt_pending ≡ t.preempt_pending)
    → Charged regs_null s c s'
unfolding Charged
Charged-after regs_null s t s' c off on kept =
    elim (Bool-cases (regs_null || not (s.scheduler_locked == 0))) [
      | inl e ↦ rw e (
        kept.0 ∙ ap (λ (k : Scheduler). charge (k.tasks c)) (off e),
        kept.1 ∙ ap (λ (k : Scheduler). k.preempt_pending) (off e),
      )
      | inr e ↦ rw e (kept.0 ∙ ap charge (on e).0, kept.1 ∙ (on e).1)
    ]

-- An interrupt of the timer on a valid scheduler moves the clock one tick on and charges the
-- running task; the blocked tasks whose deadline has come by then, and no others, move to the end
-- of the ready queue, and the scheduler stays valid.
pub timer_callback_lem :
    (regs_null : Bool) (c : Clock) {r b d : List ℕ}
    → (v : IsValid c.sched r b d)
    → let c' = timer_callback regs_null c in
      let due = λ (i : ℕ).
        is_due ((c.timer.tick_count + 1) % 2 ^ 32) ((sched_tick regs_null c.sched).tasks i) in
      (c'.timer.tick_count ≡ (c.timer.tick_count + 1) % 2 ^ 32)
      × (c'.timer.ticks_per_second ≡ c.timer.ticks_per_second)
      × Charged regs_null c.sched v.current c'.sched
      × IsValid c'.sched (r ++ select due b) (select (λ i. not (due i)) b) d
unfolding timer_callback
timer_callback_lem regs_null c v =
    let tick = sched_tick_lem v regs_null in
    let now = (c.timer.tick_count + 1) % 2 ^ 32 in
    (
      refl,
      refl,
      Charged-after regs_null c.sched (sched_tick regs_null c.sched) _ v.current tick.1 tick.2
          (sched_wake_expired-charge now tick.0 v.current),
      (sched_wake_expired_lem now tick.0).1,
    )
