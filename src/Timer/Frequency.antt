-- ===== src/Timer/Frequency.antt =====
-- `timer_init` and `timer_uptime_ms`: the rates and times that are computed.
use native.Mathlib.Nat.{
  le-div_iff_mul-le, div-mul-le_self, div-add-mod, add-mul-div_left, mod-lt, mul_comm, mul_assoc,
  div-le_of_le-mul, div-le_self,
}
use novium_os.Prelude.{
  ℕ, ◌+◌, ◌*◌, ◌/◌, ◌%◌, ◌^◌, ◌≤◌, ◌<◌, ◌≡◌, refl, sym, ◌∙◌, ap, false, leb, ◌==◌, ◌||◌,
  if◌then◌else◌, List, [], ◌∷◌, arith, if_false, if_cases, if_along, ◌&&◌,
}
use novium_os.Interrupts.{Event, wrote, handled, warned, preempted, Interrupts, irq_register}
use novium_os.Timer.{Timer, pit_osc_freq, pit_ch0_data, divisor_for, timer_init, timer_uptime_ms}

divisor_bounds : (hz : ℕ) → (1 ≤ divisor_for hz) × (divisor_for hz ≤ 65535)
unfolding divisor_for
divisor_bounds hz = ground arith

rate_bounds :
    (d : ℕ) → 1 ≤ d → d ≤ 65535 → (18 ≤ pit_osc_freq / d) × (pit_osc_freq / d ≤ pit_osc_freq)
rate_bounds d low high = (
  (le-div_iff_mul-le {k = d} {x = 18} {y = pit_osc_freq} low).1 (omega arith),
  div-le_of_le-mul d (omega arith),
)

divisor_plain :
    (hz : ℕ)
    → 19 ≤ hz
    → hz ≤ pit_osc_freq
    → (divisor_for hz ≡ pit_osc_freq / hz) × (1 ≤ pit_osc_freq / hz)
unfolding divisor_for
divisor_plain hz low high =
    let pos : 1 ≤ pit_osc_freq / hz =
      (le-div_iff_mul-le {k = hz} {x = 1} {y = pit_osc_freq} (omega arith)).1 (omega arith) in
    let small : pit_osc_freq / hz ≤ 65535 = div-le_of_le-mul hz (omega arith) in (ground arith, pos)

-- For a rate that the chip can do, the real rate is not below the requested one.
rate_enough : (hz : ℕ) → 19 ≤ hz → hz ≤ pit_osc_freq → hz ≤ pit_osc_freq / divisor_for hz
rate_enough hz low high =
    let d = divisor_plain hz low high in
    let exact : hz * (pit_osc_freq / hz) ≤ pit_osc_freq =
      omega (arith, mul_comm hz (pit_osc_freq / hz), div-mul-le_self pit_osc_freq hz) in
    rw d.0 ((le-div_iff_mul-le {k = pit_osc_freq / hz} {x = hz} {y = pit_osc_freq} d.1).1 exact)

uptime_split :
    (tick tps : ℕ) → 1 ≤ tps → tick * 1000 / tps ≡ tick / tps * 1000 + tick % tps * 1000 / tps
uptime_split tick tps h =
    let split = div-add-mod tick tps in
    let whole : tick * 1000 ≡ tick % tps * 1000 + tps * (tick / tps * 1000) =
      omega (arith, split, mul_assoc tps (tick / tps) 1000) in
    let sum : (tick % tps * 1000 + tps * (tick / tps * 1000)) / tps
        ≡ tick % tps * 1000 / tps + tick / tps * 1000 =
      add-mul-div_left (tick % tps * 1000) (tick / tps * 1000) {y = tps} h in
    ap (λ n. n / tps) whole ∙ sum ∙ omega arith

-- With a rate from 1 to that of the oscillator and a count of 32 bits, `timer_uptime_ms` is the
-- exact number of milliseconds, rounded down: nothing in it overflows.
pub timer_uptime_ms_lem :
    (t : Timer)
    → 1 ≤ t.ticks_per_second
    → t.ticks_per_second ≤ pit_osc_freq
    → t.tick_count < 2 ^ 32
    → timer_uptime_ms t ≡ t.tick_count * 1000 / t.ticks_per_second
unfolding timer_uptime_ms
timer_uptime_ms_lem t low high small =
    let tps = t.ticks_per_second in
    let rem = mod-lt t.tick_count {m = tps} low in
    let fits : t.tick_count % tps * 1000 % 2 ^ 32 ≡ t.tick_count % tps * 1000 = omega arith in
    let secs : t.tick_count / tps ≤ t.tick_count = div-le_self t.tick_count tps in
    let frac : t.tick_count % tps * 1000 / tps ≤ t.tick_count % tps * 1000 =
      div-le_self (t.tick_count % tps * 1000) tps in
    let on : (tps == 0) ≡ false = ground arith in
    let whole : (t.tick_count / tps * 1000 + t.tick_count % tps * 1000 / tps) % 2 ^ 64
        ≡ t.tick_count / tps * 1000 + t.tick_count % tps * 1000 / tps =
      omega arith in
    if_false (tps == 0) _ _ on ∙ rw fits (whole ∙ sym (uptime_split t.tick_count tps low))

-- The values written to a port, the newest first.
abbrev pub writes_to : ℕ → List Event → List ℕ
writes_to port [] = []
writes_to port (wrote p value ∷ log) =
    if p == port then value ∷ writes_to port log else writes_to port log
writes_to port (handled vec ∷ log) = writes_to port log
writes_to port (warned line ∷ log) = writes_to port log
writes_to port (preempted ∷ log) = writes_to port log

-- What `timer_init` has programmed for a rate: a divisor, low byte first, whose rate it notes.
pub record Programmed (hz : ℕ) (t : Timer) (s : Interrupts) (r : Timer × Interrupts) : Type 0 where
  pub divisor : ℕ
  pub inside : (1 ≤ divisor) × (divisor ≤ 65535)
  pub low : ℕ
  pub high : ℕ
  pub written : writes_to pit_ch0_data r.1.log ≡ high ∷ low ∷ writes_to pit_ch0_data s.log
  pub bytes : (low < 256) × (high < 256) × (low + 256 * high ≡ divisor)
  pub rate : r.0 ≡ record t { ticks_per_second = pit_osc_freq / divisor }
  pub bounds : (18 ≤ r.0.ticks_per_second) × (r.0.ticks_per_second ≤ pit_osc_freq)
  pub enough : (if leb 19 hz && leb hz pit_osc_freq then hz else 0) ≤ r.0.ticks_per_second

programmed_log :
    (inb : List Event → ℕ → ℕ) (handler : ℕ) (s : Interrupts)
    → writes_to pit_ch0_data (irq_register inb 0 handler s).log ≡ writes_to pit_ch0_data s.log
unfolding irq_register
programmed_log inb handler s = ground arith

rate_wanted :
    (hz : ℕ) → (if leb 19 hz && leb hz pit_osc_freq then hz else 0) ≤ pit_osc_freq / divisor_for hz
rate_wanted hz =
    if_cases (λ n. n ≤ pit_osc_freq / divisor_for hz) (leb 19 hz && leb hz pit_osc_freq) hz 0
      (λ e. rate_enough hz (ground arith) (ground arith)) (λ _. omega arith)

-- `timer_init` ignores a rate that is not positive. Otherwise it programs a divisor from 1 to 65535 and
-- notes the rate of that divisor, at least 18 a second and at most the oscillator's, and not below the
-- requested one if that is between 19 and the oscillator's.
pub timer_init-Programmed :
    (inb : List Event → ℕ → ℕ) (handler hz : ℕ) (t : Timer) (s : Interrupts)
    → let r = timer_init inb handler hz (t, s) in
      if hz == 0 || leb (2 ^ 31) hz then r ≡ (t, s) else Programmed hz t s r
unfolding timer_init
timer_init-Programmed inb handler hz t s =
    let d = divisor_for hz in
    let db = divisor_bounds hz in
    if_along (λ r. r ≡ (t, s)) (Programmed hz t s) (hz == 0 || leb (2 ^ 31) hz) _ _ (λ _. refl)
      (λ _. record {
        divisor = d;
        inside = db;
        low = d % 256;
        high = d / 256 % 256;
        written = programmed_log inb handler _;
        bytes = (omega arith, omega arith, omega (arith, db));
        rate = refl;
        bounds = rate_bounds d db.0 db.1;
        enough = rate_wanted hz;
      })
