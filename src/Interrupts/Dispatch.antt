-- ===== src/Interrupts/Dispatch.antt =====
-- `isr_dispatch`: who runs, which controllers are told, and when.
use novium_os.Prelude.{
  ℕ, ◌+◌, ◌-◌, ◌%◌, ◌^◌, ◌≡◌, refl, ◌∙◌, ap, inl, inr, Bool, true, false, not, ltb, leb, ◌==◌, ◌&&◌,
  ◌||◌, ◌++◌, subst, if◌then◌else◌, List, [], ◌∷◌, arith, Bool-cases, update, if_true, if_false,
  if_along, if_cases,
}
use novium_os.Prelude.Bits.{has_bit, has_bit-set_bit}
use novium_os.Interrupts.{
  Event, wrote, handled, warned, preempted, Interrupts, pic1_cmd, pic2_cmd, pic_eoi, irq_base,
  command_port, is_checked, outb, record_event, acknowledge, count_spurious, Dispatched, halted,
  returned, serve, isr_dispatch,
}

-- How often something is in the log.
abbrev pub count : (Event → Bool) → List Event → ℕ
count test [] = 0
count test (e ∷ log) = (if test e then 1 else 0) + count test log

-- An end of interrupt at a command port.
abbrev pub is_eoi : ℕ → Event → Bool
is_eoi port (wrote p value) = p == port && (value == pic_eoi)
is_eoi port _ = false

abbrev pub is_handled : Event → Bool
is_handled (handled vec) = true
is_handled _ = false

abbrev pub is_preempted : Event → Bool
is_preempted preempted = true
is_preempted _ = false

abbrev pub is_warned : ℕ → Event → Bool
is_warned line (warned l) = l == line
is_warned line _ = false

-- Nothing but the log differs, and there only what the counts say.
pub record Logged (s s' : Interrupts) (eoi1 eoi2 calls switches : ℕ) : Type 0 where
  pub eoi_master : count (is_eoi pic1_cmd) s'.log ≡ eoi1 + count (is_eoi pic1_cmd) s.log
  pub eoi_slave : count (is_eoi pic2_cmd) s'.log ≡ eoi2 + count (is_eoi pic2_cmd) s.log
  pub calls_made : count is_handled s'.log ≡ calls + count is_handled s.log
  pub switches_made : count is_preempted s'.log ≡ switches + count is_preempted s.log
  pub same_handlers : s'.handlers ≡ s.handlers

acknowledged :
    (vec : ℕ) (s : Interrupts)
    → Logged s
        (record_event preempted (acknowledge vec s))
        1
        (if leb 8 (vec - irq_base) then 1 else 0)
        (if s.handlers vec == 0 then 0 else 1)
        1
unfolding acknowledge
acknowledged vec s = record {
  eoi_master = ground arith;
  eoi_slave = ground arith;
  calls_made = ground arith;
  switches_made = ground arith;
  same_handlers = ground arith;
}

Logged-trans :
    (s s' s'' : Interrupts) (a b c d : ℕ)
    → Logged s s' 0 0 0 0
    → Logged s' s'' a b c d
    → Logged s s'' a b c d
Logged-trans s s' s'' a b c d p q = record {
  eoi_master = omega (arith, p.eoi_master, q.eoi_master);
  eoi_slave = omega (arith, p.eoi_slave, q.eoi_slave);
  calls_made = omega (arith, p.calls_made, q.calls_made);
  switches_made = omega (arith, p.switches_made, q.switches_made);
  same_handlers = q.same_handlers ∙ p.same_handlers;
}

kept_counts : (vec : ℕ) (s : Interrupts) → (acknowledge vec s).spurious_count ≡ s.spurious_count
unfolding acknowledge
kept_counts vec s = ground arith

spurious-Logged :
    (line : ℕ) (s : Interrupts)
    → Logged s (count_spurious line s) (if line == 15 then 1 else 0) 0 0 0
unfolding count_spurious
spurious-Logged line s = record {
  eoi_master = ground arith;
  eoi_slave = ground arith;
  calls_made = ground arith;
  switches_made = ground arith;
  same_handlers = ground arith;
}

counts_seen :
    (line : ℕ) (s : Interrupts) (l : ℕ)
    → (count_spurious line s).spurious_count l
      ≡ update s.spurious_count line ((s.spurious_count line + 1) % 2 ^ 32) l
unfolding count_spurious
counts_seen line s l = ground arith

spurious_counted :
    (line : ℕ) (s : Interrupts) (l : ℕ)
    → (count_spurious line s).spurious_count l
      ≡ (if line == l then (s.spurious_count l + 1) % 2 ^ 32 else s.spurious_count l)
unfolding count_spurious
spurious_counted line s l = elim (Bool-cases (line == l)) [
  | inl here ↦
      let same : line ≡ l = ground arith in
      rw here (
        counts_seen line s l
        ∙ if_true (line == l) _ _ here
        ∙ ap (λ k. (s.spurious_count k + 1) % 2 ^ 32) same)
  | inr off ↦ rw off (counts_seen line s l ∙ if_false (line == l) _ _ off)
]

spurious_reported_lem :
    (line : ℕ) (s : Interrupts) (l : ℕ)
    → has_bit (count_spurious line s).spurious_reported l
      ≡ (line == l || has_bit s.spurious_reported l)
unfolding count_spurious
spurious_reported_lem line s l = ground (arith, has_bit-set_bit s.spurious_reported line l)

spurious_warned :
    (line : ℕ) (s : Interrupts) (l : ℕ)
    → count (is_warned l) (count_spurious line s).log
      ≡ (if line == l && not (has_bit s.spurious_reported l) then 1 else 0)
        + count (is_warned l) s.log
unfolding count_spurious
spurious_warned line s l = ground arith

checked-Logged : (port : ℕ) (s : Interrupts) → Logged s (outb port 0x0A (outb port 0x0B s)) 0 0 0 0
checked-Logged port s = record {
  eoi_master = ground arith;
  eoi_slave = ground arith;
  calls_made = omega arith;
  switches_made = omega arith;
  same_handlers = refl;
}

-- The log when the handler is reached: a line that may be spurious was asked for.
abbrev pub asked_log : ℕ → List Event → List Event
asked_log line log =
    if is_checked line
    then wrote (command_port line) 0x0A ∷ wrote (command_port line) 0x0B ∷ log
    else log

asked_log_lem :
    (line : ℕ) (s : Interrupts)
    → (if is_checked line
        then outb (command_port line) 0x0A (outb (command_port line) 0x0B s)
        else s).log
      ≡ asked_log line s.log
asked_log_lem line s = elim (Bool-cases (is_checked line)) [
  | inl checks ↦ rw checks refl
  | inr plain ↦ rw plain refl
]

checked_warned :
    (l port : ℕ) (s : Interrupts)
    → count (is_warned l) (outb port 0x0A (outb port 0x0B s)).log ≡ count (is_warned l) s.log
checked_warned l port s = omega arith

-- The log behind an interrupt that was served, the newest first.
abbrev pub served_log : ℕ → Bool → List Event → List Event
served_log vec no_handler log =
    preempted
    ∷ wrote pic1_cmd pic_eoi
    ∷ ((if leb 8 (vec - irq_base) then wrote pic2_cmd pic_eoi ∷ [] else [])
        ++ (if no_handler then [] else handled vec ∷ [])
        ++ log)

acknowledged_order :
    (vec : ℕ) (s : Interrupts)
    → (record_event preempted (acknowledge vec s)).log ≡ served_log vec (s.handlers vec == 0) s.log
unfolding acknowledge
acknowledged_order vec s = ground arith

module _ {W : Type 0} (inb : List Event → ℕ → ℕ) (call : ℕ → W → W) (preempt : W → W) where
  -- An interrupt that was served with the log `asked`: its handler ran once if it has one, then each
  -- controller on the way was told once, the second one first, and the preemption is the last thing done.
  pub record Served (vec : ℕ) (s : Interrupts) (asked : List Event) (w : W) (r : Dispatched W)
      : Type 0 where
    pub s' : Interrupts
    pub returns :
        r ≡ returned s' (preempt (if s.handlers vec == 0 then w else call (s.handlers vec) w))
    pub order : s'.log ≡ served_log vec (s.handlers vec == 0) asked
    pub logged :
        Logged s s' 1
          (if leb 8 (vec - irq_base) then 1 else 0)
          (if s.handlers vec == 0 then 0 else 1)
          1
    pub counts : s'.spurious_count ≡ s.spurious_count

  -- A spurious interrupt: no handler ran and no preemption, the line is counted, and only the first
  -- controller is told, if the line is on the second. The line is warned of if it is not reported yet,
  -- and is reported from then on, which no other line becomes.
  pub record Spurious (line : ℕ) (s : Interrupts) (w : W) (r : Dispatched W) : Type 0 where
    pub s' : Interrupts
    pub returns : r ≡ returned s' w
    pub logged : Logged s s' (if line == 15 then 1 else 0) 0 0 0
    pub counted :
        (l : ℕ)
        → s'.spurious_count l
          ≡ (if line == l then (s.spurious_count l + 1) % 2 ^ 32 else s.spurious_count l)
    pub reported :
        (l : ℕ) → has_bit s'.spurious_reported l ≡ (line == l || has_bit s.spurious_reported l)
    pub warnings :
        (l : ℕ)
        → count (is_warned l) s'.log
          ≡ (if line == l && not (has_bit s.spurious_reported l) then 1 else 0)
            + count (is_warned l) s.log

  serve-Served :
      (vec : ℕ) (s : Interrupts) (w : W) → Served vec s s.log w (serve inb call preempt vec s w)
  unfolding serve
  serve-Served vec s w = record {
    s' = record_event preempted (acknowledge vec s);
    returns = refl;
    order = acknowledged_order vec s;
    logged = acknowledged vec s;
    counts = kept_counts vec s;
  }

  count_spurious-Spurious :
      (line : ℕ) (s s1 : Interrupts) (w : W)
      → Logged s s1 0 0 0 0
      → s1.spurious_count ≡ s.spurious_count
      → s1.spurious_reported ≡ s.spurious_reported
      → ((l : ℕ) → count (is_warned l) s1.log ≡ count (is_warned l) s.log)
      → Spurious line s w (returned (count_spurious line s1) w)
  count_spurious-Spurious line s s1 w l e f g = record {
    s' = count_spurious line s1;
    returns = refl;
    logged = Logged-trans s s1 (count_spurious line s1) _ 0 0 0 l (spurious-Logged line s1);
    counted = λ k. spurious_counted line s1 k ∙ rw e;
    reported = λ k. spurious_reported_lem line s1 k ∙ rw f refl;
    warnings = λ k.
        spurious_warned line s1 k
        ∙ ap (λ n. (if line == k && not (has_bit s1.spurious_reported k) then 1 else 0) + n) (g k)
        ∙ rw f refl;
  }

  checked-Served :
      (vec : ℕ) (s s1 : Interrupts) (w : W) (r : Dispatched W)
      → Logged s s1 0 0 0 0
      → s1.spurious_count ≡ s.spurious_count
      → Served vec s1 s1.log w r
      → Served vec s s1.log w r
  checked-Served vec s s1 w r l e v = record {
    s' = v.s';
    returns = rw (← l.same_handlers) v.returns;
    order = rw (← l.same_handlers) v.order;
    logged = Logged-trans s s1 v.s' _ _ _ 1 l (rw (← l.same_handlers) v.logged);
    counts = v.counts ∙ e;
  }

  -- What a dispatch comes to: a halt on an exception; a spurious interrupt on line 7 or 15 when its
  -- controller does not report it in service; or an interrupt that is served.
  pub Outcome : ℕ → Interrupts → W → Dispatched W → Type 0
  Outcome vec s w r =
      let line = vec - irq_base in
      let in_service = inb (wrote (command_port line) 0x0B ∷ s.log) (command_port line) in
      if ltb vec 32
      then r ≡ halted
      else if is_checked line && not (has_bit in_service 7)
      then Spurious line s w r
      else Served vec s (asked_log line s.log) w r

  -- `isr_dispatch` halts on an exception. A line 7 or 15 that its controller does not report in service
  -- is spurious: it is counted, its first time since the start is warned of, only the first controller is
  -- told, for line 15, and no handler runs. Any other interrupt is served: its handler runs, if there is
  -- one, then the second controller is told, if the line is on it, then the first, and the preemption
  -- comes last.
  pub isr_dispatch-Outcome :
      (vec : ℕ) (s : Interrupts) (w : W) → Outcome vec s w (isr_dispatch inb call preempt vec s w)
  unfolding isr_dispatch Outcome
  isr_dispatch-Outcome vec s w =
      let line = vec - irq_base in
      let in_service = inb (wrote (command_port line) 0x0B ∷ s.log) (command_port line) in
      let checked : Interrupts = outb (command_port line) 0x0A (outb (command_port line) 0x0B s) in
      let l = checked-Logged (command_port line) s in
      let ghost = is_checked line && not (has_bit in_service 7) in
      if_along (λ r. r ≡ halted)
        (λ r. if ghost then Spurious line s w r else Served vec s (asked_log line s.log) w r)
        (ltb vec 32) halted _ (λ _. refl)
        (λ _.
          if_along (Spurious line s w) (Served vec s (asked_log line s.log) w) ghost
            (returned (count_spurious line checked) w)
            (serve inb call preempt vec (if is_checked line then checked else s) w)
            (λ _.
              count_spurious-Spurious line s checked w l refl refl
                (λ k. checked_warned k (command_port line) s))
            (λ _.
              subst
                (λ log.
                  Served vec s log w
                    (serve inb call preempt vec (if is_checked line then checked else s) w))
                (asked_log_lem line s)
                (if_cases
                  (λ (k : Interrupts). Served vec s k.log w (serve inb call preempt vec k w))
                  (is_checked line) checked s
                  (λ _. checked-Served vec s checked w _ l refl (serve-Served vec checked w))
                  (λ _. serve-Served vec s w))))
