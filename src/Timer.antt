-- ===== src/Timer.antt =====
-- The timer chip and the clock, arch/x86_32/kernel/pit.c, on top of the scheduler and of the interrupt
-- tables. `clock_handler` is the address of `timer_callback`.
pub mod Frequency
pub mod Ticking
pub mod Sleeping
pub mod Tests
use novium_os.Prelude.{
  ℕ, zero, suc, ◌+◌, ◌-◌, ◌*◌, ◌/◌, ◌%◌, ◌^◌, Bool, true, false, not, ◌||◌, ltb, leb, ◌==◌,
  if◌then◌else◌, Option, none, some, List,
}
use novium_os.Sched.{Scheduler, sched_current}
use novium_os.Sched.Switch.{sched_tick, sched_yield}
use novium_os.Sched.Wait.{tick_passed, sched_wake_expired, sched_has_runnable, sched_sleep_until}
use novium_os.Interrupts.{Event, Interrupts, outb, irq_register}

abbrev pub pit_osc_freq : ℕ
pit_osc_freq = 1193182

abbrev pub pit_ch0_data : ℕ
pit_ch0_data = 0x40

abbrev pub pit_cmd_reg : ℕ
pit_cmd_reg = 0x43

abbrev pub pit_cmd_square : ℕ
pit_cmd_square = 0x36

abbrev pub pit_max_divisor : ℕ
pit_max_divisor = 65535

pub record Timer : Type 0 where
  pub tick_count : ℕ
  pub ticks_per_second : ℕ

-- The clock and the scheduler, which the interrupt of the timer both moves on.
pub record Clock : Type 0 where
  pub timer : Timer
  pub sched : Scheduler

unfoldable pub timer_callback : Bool → Clock → Clock
unfolding sched_tick sched_wake_expired
timer_callback regs_null c =
    let now = (c.timer.tick_count + 1) % 2 ^ 32 in
    let ticked = sched_tick regs_null c.sched in
    record {
      timer = record (c.timer) { tick_count = now };
      sched = (sched_wake_expired now ticked).1;
    }

unfoldable pub divisor_for : ℕ → ℕ
divisor_for hz =
    let divisor = pit_osc_freq / hz in
    if divisor == 0 then 1 else if ltb pit_max_divisor divisor then pit_max_divisor else divisor

abbrev pub io_wait : Interrupts → Interrupts
io_wait s = outb 0x80 0 s

-- `hz` is an `int`, read as a word of 32 bits: it is negative from 2 ^ 31 on.
unfoldable pub timer_init : (List Event → ℕ → ℕ) → ℕ → ℕ → Timer × Interrupts → Timer × Interrupts
unfolding divisor_for irq_register
timer_init inb clock_handler hz (t, s) =
    let divisor = divisor_for hz in
    let low = outb pit_ch0_data (divisor % 256) (io_wait (outb pit_cmd_reg pit_cmd_square s)) in
    let high = outb pit_ch0_data (divisor / 256 % 256) (io_wait low) in
    if hz == 0 || leb (2 ^ 31) hz then (t, s) else (
      record t { ticks_per_second = pit_osc_freq / divisor },
      irq_register inb 0 clock_handler high,
    )

unfoldable pub timer_get_ticks : Timer → ℕ
timer_get_ticks t = t.tick_count

-- The division by 0 is not reached in the source, so that any value serves for it.
unfoldable pub timer_uptime_ms : Timer → ℕ
timer_uptime_ms t =
    let tps = t.ticks_per_second in
    let secs = t.tick_count / tps in
    let rem = t.tick_count % tps in
    let frac = rem * 1000 % 2 ^ 32 / tps in if tps == 0 then 0 else (secs * 1000 + frac) % 2 ^ 64

unfoldable pub deadline : ℕ → Timer → ℕ
deadline ms t =
    let secs = ms / 1000 in
    let rem = ms % 1000 in
    (t.tick_count + secs * t.ticks_per_second + (rem * t.ticks_per_second + 999) % 2 ^ 32 / 1000)
    % 2 ^ 32

-- No current task, or the one with the id 0.
abbrev pub is_idle : Scheduler → Bool
is_idle s = elim (sched_current s) as (λ _. Bool) [ none ↦ true | some i ↦ (s.tasks i).id == 0 ]

-- Interrupts of the timer go on while other tasks run: `away` is the timer when the task that gave the
-- processor up has it again, and `resume` is the scheduler then. `halt` is what happens until the next
-- interrupt is over.
module _ (resume : Option ℕ → ℕ → Scheduler → Scheduler) (away : Clock → Timer)
    (halt : Clock → Clock) where
  -- The two loops of `timer_sleep_ms`, with fuel for the rounds: `yields` is whether they give the
  -- processor up first.
  unfoldable pub wait_loop : Bool → ℕ → ℕ → Clock → Option Clock
  unfolding sched_yield tick_passed
  wait_loop yields until zero c = none
  wait_loop yields until (suc fuel) c =
      let back : Clock = record { timer = away c; sched = sched_yield resume c.sched } in
      let c' = if yields then back else c in
      let rest = wait_loop yields until fuel (halt c') in
      if tick_passed c.timer.tick_count until then some c else rest

  unfoldable pub timer_sleep_ms : ℕ → ℕ → Clock → Option Clock
  unfolding wait_loop deadline sched_has_runnable sched_current
  timer_sleep_ms fuel ms c =
      let until = deadline ms c.timer in
      let (runnable, s) = sched_has_runnable c.sched in
      let asked : Clock = record c { sched = s } in
      let slept : Clock = record { timer = away asked; sched = sched_sleep_until resume until s } in
      if c.timer.ticks_per_second == 0 || ms == 0
      then some c
      else if not c.sched.irqs_enabled
      then some c
      else if is_idle c.sched
      then wait_loop true until fuel c
      else if not runnable
      then wait_loop false until fuel asked
      else some slept
