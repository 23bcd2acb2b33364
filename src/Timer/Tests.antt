-- ===== src/Timer/Tests.antt =====
-- The timer at concrete inputs.
use novium_os.Prelude.{
  ℕ, ◌+◌, ◌-◌, ◌*◌, ◌^◌, ◌≤◌, ◌<◌, ◌≡◌, refl, true, false, not, none, [], ◌∷◌, ◌++◌, arith,
}
use novium_os.Sched.{sched_current}
use novium_os.Sched.Switch.{sched_tick}
use novium_os.Sched.Wait.{is_due}
use novium_os.Sched.Invariant.{IsValid}
use novium_os.Sched.Expiry.{select}
use novium_os.Sched.Runs.{blank, task_2_runs, task_2_runs-IsValid}
use novium_os.Interrupts.{Interrupts}
use novium_os.Interrupts.Masks.{last_written}
use novium_os.Timer.{
  Timer, Clock, divisor_for, timer_callback, timer_init, timer_uptime_ms, timer_sleep_ms,
}
use novium_os.Timer.Frequency.{Programmed, timer_init-Programmed, timer_uptime_ms_lem}
use novium_os.Timer.Ticking.{Charged, timer_callback_lem}
use novium_os.Timer.Sleeping.{later, Passing, Woken, timer_sleep_ms_lem}

abbrev off : Interrupts
off = record {
  idt = λ _. record { offset_low = 0; selector = 0; zero_byte = 0; type_attr = 0; offset_high = 0 };
  idt_limit = 0;
  handlers = λ _. 0;
  spurious_count = λ _. 0;
  spurious_reported = 0;
  log = [];
}

-- Three ticks before the counter starts again.
abbrev thousand : Timer
thousand = record { tick_count = 2 ^ 32 - 3; ticks_per_second = 1000 }

divides : (divisor_for 1000 ≡ 1193) × (divisor_for 1 ≡ 65535) × (divisor_for 2000000 ≡ 1)
unfolding divisor_for
divides = (refl, refl, refl)

timer_init-Programmed_example :
    Programmed 1000 thousand off (timer_init last_written 0x1234 1000 (thousand, off))
timer_init-Programmed_example = timer_init-Programmed last_written 0x1234 1000 thousand off

timer_uptime_ms_lem_example : timer_uptime_ms thousand ≡ 4294967293
timer_uptime_ms_lem_example = timer_uptime_ms_lem thousand (omega arith) (omega arith) (omega arith)

timer_callback_lem_example :
    let c' = timer_callback false (record { timer = thousand; sched = task_2_runs }) in
    let due = λ (i : ℕ). is_due (2 ^ 32 - 2) ((sched_tick false task_2_runs).tasks i) in
    (c'.timer.tick_count ≡ 2 ^ 32 - 2)
    × (c'.timer.ticks_per_second ≡ 1000)
    × Charged false task_2_runs task_2_runs-IsValid.current c'.sched
    × IsValid c'.sched ((0 ∷ []) ++ select due (1 ∷ [])) (select (λ i. not (due i)) (1 ∷ [])) []
timer_callback_lem_example =
    timer_callback_lem false (record { timer = thousand; sched = task_2_runs }) task_2_runs-IsValid

abbrev idle : Clock
idle = record {
  timer = thousand;
  sched = record blank { current_task = none; irqs_enabled = true };
}

-- Three ticks pass whenever other tasks have run, and one in each halt.
abbrev others_ran : Clock → Timer
others_ran c = later 3 c.timer

abbrev next_tick : Clock → Clock
next_tick c = record c { timer = later 1 c.timer }

four_a_round : Passing (λ p t s. s) others_ran next_tick 4
four_a_round = record {
  yielding = λ k. (3, 1, omega arith, omega arith, refl, refl);
  halting = λ k. (1, omega arith, omega arith, refl);
}

-- Ten milliseconds, over the start of the counter.
timer_sleep_ms_lem_example :
    (10 * 1000 ≤ 10 * 1000)
    × (10 * 1000 < 10 * 1000 + 1000)
    × Woken
        (λ p t s. s)
        others_ran
        next_tick
        4
        10
        idle
        (timer_sleep_ms (λ p t s. s) others_ran next_tick 11 10 idle)
unfolding sched_current
timer_sleep_ms_lem_example =
    timer_sleep_ms_lem (λ p t s. s) others_ran next_tick 4 four_a_round (omega arith) 11 10 idle
      (omega arith) (omega arith) (omega arith) refl refl (omega arith) (omega arith) (omega arith)
