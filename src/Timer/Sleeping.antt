-- ===== src/Timer/Sleeping.antt =====
-- `timer_sleep_ms`: the deadline, and the loops that wait for it.
use native.Mathlib.Nat.{add-mul, mul_assoc, mul_comm, mul-le-mul_left}
use novium_os.Prelude.{
  ℕ, zero, suc, ◌+◌, ◌-◌, ◌*◌, ◌/◌, ◌%◌, ◌^◌, ◌≤◌, ◌<◌, ◌≡◌, refl, sym, ◌∙◌, ap, subst, inl, inr,
  Bool, true, false, not, leb, ◌==◌, ◌||◌, if◌then◌else◌, Option, none, some, arith, Bool-cases,
  if_true, if_false, if_cases, leb→le, leb→gt,
}
use novium_os.Sched.{Scheduler}
use novium_os.Sched.Switch.{sched_yield}
use novium_os.Sched.Wait.{tick_passed}
use novium_os.Timer.{Timer, Clock, pit_osc_freq, deadline, wait_loop, is_idle, timer_sleep_ms}

-- The ticks of a sleep, rounded up.
abbrev pub sleep_ticks : ℕ → ℕ → ℕ
sleep_ticks ms tps = ms / 1000 * tps + (ms % 1000 * tps + 999) / 1000

-- They are the least number of ticks that last as long.
sleep_ticks_enough :
    (ms tps : ℕ)
    → (ms * tps ≤ sleep_ticks ms tps * 1000) × (sleep_ticks ms tps * 1000 < ms * tps + 1000)
sleep_ticks_enough ms tps =
    let split : ms ≡ ms / 1000 * 1000 + ms % 1000 = omega arith in
    let parts : ms * tps ≡ ms / 1000 * 1000 * tps + ms % 1000 * tps =
      ap (λ n. n * tps) split ∙ add-mul (ms / 1000 * 1000) (ms % 1000) tps in
    let secs : ms / 1000 * 1000 * tps ≡ ms / 1000 * tps * 1000 =
      mul_assoc (ms / 1000) 1000 tps
      ∙ ap (λ n. ms / 1000 * n) (mul_comm 1000 tps)
      ∙ sym (mul_assoc (ms / 1000) tps 1000) in
    (omega (arith, parts, secs), omega (arith, parts, secs))

-- The deadline of a sleep is that many ticks away: nothing in its computation overflows but the
-- counter of ticks itself.
deadline_lem :
    (ms : ℕ) (t : Timer)
    → t.ticks_per_second ≤ pit_osc_freq
    → let n = sleep_ticks ms t.ticks_per_second in
      (deadline ms t ≡ (t.tick_count + n) % 2 ^ 32)
      × (ms * t.ticks_per_second ≤ n * 1000)
      × (n * 1000 < ms * t.ticks_per_second + 1000)
unfolding deadline
deadline_lem ms t h =
    let rem : ms % 1000 * t.ticks_per_second ≤ ms % 1000 * pit_osc_freq =
      mul-le-mul_left (ms % 1000) h in
    let small : ms % 1000 * t.ticks_per_second + 999 < 2 ^ 32 = omega (arith, rem) in
    let fits : (ms % 1000 * t.ticks_per_second + 999) % 2 ^ 32
        ≡ ms % 1000 * t.ticks_per_second + 999 =
      omega arith in
    let e = sleep_ticks_enough ms t.ticks_per_second in
    (rw fits (ap (λ n. n % 2 ^ 32) (omega arith)), e.0, e.1)

-- The timer some ticks later.
abbrev pub later : ℕ → Timer → Timer
later ticks t = record t { tick_count = (t.tick_count + ticks) % 2 ^ 32 }

later-later : (a b : ℕ) (t : Timer) → later b (later a t) ≡ later (a + b) t
later-later a b t = ap (λ k. record t { tick_count = k }) (omega arith)

module _ (resume : Option ℕ → ℕ → Scheduler → Scheduler) (away : Clock → Timer)
    (halt : Clock → Clock) where
  abbrev given_up : Bool → Clock → Clock
  given_up yields c =
      if yields then record { timer = away c; sched = sched_yield resume c.sched } else c

  wait_stop :
      (yields : Bool) (until fuel : ℕ) (c : Clock)
      → tick_passed c.timer.tick_count until ≡ true
      → wait_loop resume away halt yields until (suc fuel) c ≡ some c
  unfolding wait_loop
  wait_stop yields until fuel c e = if_true (tick_passed c.timer.tick_count until) _ _ e

  wait_on :
      (yields : Bool) (until fuel : ℕ) (c : Clock)
      → tick_passed c.timer.tick_count until ≡ false
      → wait_loop resume away halt yields until (suc fuel) c
        ≡ wait_loop resume away halt yields until fuel (halt (given_up yields c))
  unfolding wait_loop
  wait_on yields until fuel c e = if_false (tick_passed c.timer.tick_count until) _ _ e

  wait_loop-none :
      (yields : Bool) (until : ℕ) (c : Clock)
      → wait_loop resume away halt yields until zero c ≡ none
  unfolding wait_loop
  wait_loop-none yields until c = refl

  -- When a loop of the sleep returns, its deadline has passed by the clock.
  wait_loop_passed :
      (yields : Bool) (until fuel : ℕ) (c c' : Clock)
      → wait_loop resume away halt yields until fuel c ≡ some c'
      → tick_passed c'.timer.tick_count until ≡ true
  wait_loop_passed yields until zero c c' e = let out = wait_loop-none yields until c in cc
  wait_loop_passed yields until (suc fuel) c c' e =
      elim (Bool-cases (tick_passed c.timer.tick_count until)) [
        | inl passed ↦
            let out : some c ≡ some c' = sym (wait_stop yields until fuel c passed) ∙ e in
            let same : c ≡ c' = cc in
            subst (λ k. tick_passed k.timer.tick_count until ≡ true) same passed
        | inr waits ↦
            wait_loop_passed yields until fuel (halt (given_up yields c)) c'
              (sym (wait_on yields until fuel c waits) ∙ e)
      ]

  -- Every halt lasts at least until the next tick, and a round of the loops, in which other tasks may
  -- run, at most `span` ticks.
  pub record Passing (span : ℕ) : Type 0 where
    pub yielding :
        (k : Clock)
        → (n : ℕ) × (m : ℕ) × (1 ≤ m)
          × (n + m ≤ span)
          × (away k ≡ later n k.timer)
          × ((halt (given_up true k)).timer ≡ later m (away k))
    pub halting : (k : Clock) → (m : ℕ) × (1 ≤ m) × (m ≤ span) × ((halt k).timer ≡ later m k.timer)

  -- What a wait for `n` ticks comes to: it ends, at them or less than a round later.
  pub record Woken (span n : ℕ) (c : Clock) (r : Option Clock) : Type 0 where
    pub c' : Clock
    pub late : ℕ
    pub returns : r ≡ some c'
    pub in_time : late < span
    pub timer : c'.timer ≡ later (n + late) c.timer

  round_ticks :
      (span : ℕ)
      → Passing span
      → (yields : Bool) (c : Clock)
      → (e : ℕ) × (1 ≤ e) × (e ≤ span) × ((halt (given_up yields c)).timer ≡ later e c.timer)
  round_ticks span p true c =
      let (n, m, some_tick, fits, at, after) = p.yielding c in
      (n + m, omega (arith, some_tick), fits, after ∙ ap (later m) at ∙ later-later n m c.timer)
  round_ticks span p false c = p.halting c

  still_waits :
      (tick n until : ℕ)
      → suc n ≤ 2 ^ 31
      → tick < 2 ^ 32
      → until ≡ (tick + suc n) % 2 ^ 32
      → tick_passed tick until ≡ false
  unfolding tick_passed
  still_waits tick n until small inside ahead = ground arith

  has_passed :
      (tick late until : ℕ)
      → late < 2 ^ 31
      → until < 2 ^ 32
      → tick ≡ (until + late) % 2 ^ 32
      → tick_passed tick until ≡ true
  unfolding tick_passed
  has_passed tick late until small inside behind = ground arith

  module _ (span : ℕ) (p : Passing span) (short : span ≤ 2 ^ 31) (yields : Bool) where
    wait_loop-Woken :
        (fuel n until : ℕ) (c : Clock)
        → n ≤ 2 ^ 31
        → n < fuel
        → until ≡ (c.timer.tick_count + n) % 2 ^ 32
        → c.timer.tick_count < 2 ^ 32
        → Woken span n c (wait_loop resume away halt yields until fuel c)
    wait_loop-Woken zero n until c small enough ahead inside = elim enough [ ]
    wait_loop-Woken (suc fuel) zero until c small enough ahead inside =
        let r = round_ticks span p yields c in
        record {
          c' = c;
          late = 0;
          returns =
              wait_stop yields until fuel c
                (has_passed c.timer.tick_count 0 until (omega arith) (omega arith) (omega arith));
          in_time = omega (arith, r.1, r.2);
          timer = ap (λ k. record (c.timer) { tick_count = k }) (omega arith);
        }
    wait_loop-Woken (suc zero) (suc n) until c small enough ahead inside = absurd (omega arith)
    wait_loop-Woken (suc (suc fuel)) (suc n) until c small enough ahead inside =
        let (e, low, high, at) = round_ticks span p yields c in
        let next = halt (given_up yields c) in
        let waits = still_waits c.timer.tick_count n until small inside ahead in
        let tick : next.timer.tick_count ≡ (c.timer.tick_count + e) % 2 ^ 32 =
          ap (λ (t : Timer). t.tick_count) at in
        elim (Bool-cases (leb e (suc n))) [
          | inl before ↦
              let h : e ≤ suc n = leb→le e (suc n) before in
              let r =
                wait_loop-Woken (suc fuel) (suc n - e) until next (omega arith) (omega arith)
                  (omega arith) (omega arith) in
              record {
                c' = r.c';
                late = r.late;
                returns = wait_on yields until (suc fuel) c waits ∙ r.returns;
                in_time = r.in_time;
                timer =
                    r.timer
                    ∙ ap (later (suc n - e + r.late)) at
                    ∙ later-later e (suc n - e + r.late) c.timer
                    ∙ ap (λ k. later k c.timer) (omega arith);
              }
          | inr behind ↦
              let h : suc n < e = leb→gt e (suc n) behind in
              record {
                c' = next;
                late = e - suc n;
                returns =
                    wait_on yields until (suc fuel) c waits
                    ∙ wait_stop yields until fuel next (
                        has_passed next.timer.tick_count (e - suc n) until (omega arith)
                          (omega arith) (omega arith));
                in_time = omega arith;
                timer = at ∙ ap (λ k. later k c.timer) (omega arith);
              }
        ]

  sleep_as_idle :
      (fuel ms : ℕ) (c : Clock)
      → 1 ≤ c.timer.ticks_per_second
      → 1 ≤ ms
      → c.sched.irqs_enabled ≡ true
      → is_idle c.sched ≡ true
      → timer_sleep_ms resume away halt fuel ms c
        ≡ wait_loop resume away halt true (deadline ms c.timer) fuel c
  unfolding timer_sleep_ms
  sleep_as_idle fuel ms c h k on idle =
      let off : not c.sched.irqs_enabled ≡ false = rw on refl in
      if_false (c.timer.ticks_per_second == 0 || ms == 0) _ _ (ground arith)
      ∙ if_false (not c.sched.irqs_enabled) _ _ off
      ∙ if_true (is_idle c.sched) _ _ idle

  too_far :
      (tick n : ℕ)
      → 2 ^ 31 < n
      → n < 2 ^ 32
      → tick < 2 ^ 32
      → tick_passed tick ((tick + n) % 2 ^ 32) ≡ true
  unfolding tick_passed
  too_far tick n low high inside = ground arith

  -- Where every halt lasts at least until the next tick and a round of the loop, other tasks' time
  -- included, at most `span` ticks, with interrupts on, a rate from 1 to that of the oscillator and a
  -- count of 32 bits, `timer_sleep_ms` of the idle task for at least one millisecond and less than 2 ^ 32
  -- ticks returns, on more fuel than ticks, when at least `ms` milliseconds have passed and less than a
  -- round after that, if they are at most 2 ^ 31 ticks. A longer sleep returns at once.
  pub timer_sleep_ms_lem :
      (span : ℕ)
      → Passing span
      → span ≤ 2 ^ 31
      → (fuel ms : ℕ) (c : Clock) → 1 ≤ c.timer.ticks_per_second
      → c.timer.ticks_per_second ≤ pit_osc_freq
      → 1 ≤ ms
      → c.sched.irqs_enabled ≡ true
      → is_idle c.sched ≡ true
      → c.timer.tick_count < 2 ^ 32
      → sleep_ticks ms c.timer.ticks_per_second < fuel
      → sleep_ticks ms c.timer.ticks_per_second < 2 ^ 32
      → let n = sleep_ticks ms c.timer.ticks_per_second in
        (ms * c.timer.ticks_per_second ≤ n * 1000)
        × (n * 1000 < ms * c.timer.ticks_per_second + 1000)
        × (if leb n (2 ^ 31)
            then Woken span n c (timer_sleep_ms resume away halt fuel ms c)
            else timer_sleep_ms resume away halt fuel ms c ≡ some c)
  timer_sleep_ms_lem span p short zero ms c h top k on idle inside enough high = elim enough [ ]
  timer_sleep_ms_lem span p short (suc fuel) ms c h top k on idle inside enough high =
      let n = sleep_ticks ms c.timer.ticks_per_second in
      let until = (c.timer.tick_count + n) % 2 ^ 32 in
      let d = deadline_lem ms c.timer top in
      let loop : timer_sleep_ms resume away halt (suc fuel) ms c
          ≡ wait_loop resume away halt true until (suc fuel) c =
        sleep_as_idle (suc fuel) ms c h k on idle
        ∙ ap (λ u. wait_loop resume away halt true u (suc fuel) c) d.0 in
      (
        d.1,
        d.2,
        if_cases (λ (T : Type 0). T) (leb n (2 ^ 31)) _ _
            (λ small. subst (Woken span n c) (sym loop) (
              wait_loop-Woken span p short true (suc fuel) n until c (leb→le n (2 ^ 31) small)
                enough refl inside))
            (λ far.
              loop
              ∙ wait_stop true until fuel c
                  (too_far c.timer.tick_count n (leb→gt n (2 ^ 31) far) high inside)),
      )
