-- ===== src/Sched/Expiry.antt =====
-- `SchedWakeExpired`: which sleepers wake, and in which order.
use novium_os.Prelude.{
  ℕ, zero, suc, ◌+◌, ◌%◌, ◌^◌, ◌≤◌, ◌<◌, ◌≡◌, refl, sym, ap, ◌∙◌, subst, Bool, true, false, ◌==◌,
  not, if◌then◌else◌, List, [], ◌∷◌, ◌++◌, Option, arith, inl, inr, Bool-cases, length,
}
use novium_os.Task.{Tasks, max_tasks}
use novium_os.Task.Members.{mem, mem-append}
use novium_os.Task.Removal.{first, Chain-first}
use mathlib.Core.List.{append-nil}
use novium_os.Task.Linked.{short, rotate}
use novium_os.Sched.{Scheduler, lock_irq, unlock_irq, is_blocked, is_running}
use novium_os.Sched.Invariant.{Queued, IsValid, lock_irq-Queued, unlock_irq-Queued, unlock_irq_lem}
use novium_os.Sched.Wait.{is_due, wake, wake_from, sched_wake_expired}
use novium_os.Sched.Sleepers.{
  Chain-next, not_in_rest, concat_assoc, wake-Queued, others_due, wake-StateSet, current-wake,
  charge, wake-charge, pending-wake,
}

-- The tasks of a list that pass a test, in its order.
abbrev pub select : (ℕ → Bool) → List ℕ → List ℕ
select p [] = []
select p (x ∷ xs) = if p x then x ∷ select p xs else select p xs

-- What the loop over the blocked queue does from a point on: the due tasks of the rest go to the
-- end of the ready queue in order, the others stay, and no task that was not blocked is touched.
pub record Awake (p : ℕ → Bool) (woken : ℕ) (s : Scheduler) (r kept rest d : List ℕ)
    (o : ℕ × Scheduler) : Type 0 where
  pub counted : o.0 ≡ woken + length (select p rest)
  pub queued : Queued o.1 (r ++ select p rest) (kept ++ select (λ i. not (p i)) rest) d
  pub others :
      (i : ℕ) → is_blocked (s.tasks i).state ≡ false → (o.1.tasks i).state ≡ (s.tasks i).state
  pub same_current : o.1.current_task ≡ s.current_task
  pub charges : (i : ℕ) → charge (o.1.tasks i) ≡ charge (s.tasks i)
  pub same_pending : o.1.preempt_pending ≡ s.preempt_pending

due-Awake :
    (p : ℕ → Bool) (woken : ℕ) (s : Scheduler) (r kept : List ℕ) (t : ℕ) (rest d : List ℕ)
    (o : ℕ × Scheduler)
    → p t ≡ true
    → Queued s r (kept ++ t ∷ rest) d
    → Awake p (woken + 1) (wake t s) (r ++ t ∷ []) kept rest d o
    → Awake p woken s r kept (t ∷ rest) d o
due-Awake p woken s r kept t rest d o due q a = record {
  counted = rw due (omega (arith, a.counted));
  queued = rw due (
      subst (λ x. Queued o.1 x (kept ++ select (λ i. not (p i)) rest) d)
        (concat_assoc r t (select p rest)) a.queued);
  others = λ i e.
      let in_b : mem t (kept ++ t ∷ rest) ≡ true = ground (arith, mem-append t kept (t ∷ rest)) in
      let at_t = q.on_blocked t (q.links.inside_y t in_b) in
      let step = wake-StateSet s r (kept ++ t ∷ rest) d t q i in
      elim (Bool-cases (t == i)) [
        | inl same ↦
            let e' : t ≡ i = ground arith in absurd (ground (arith, rw e' at at_t, rw e' at in_b))
        | inr other ↦
            let unchanged : ((wake t s).tasks i).state ≡ (s.tasks i).state = step ∙ rw other in
            a.others i (ap is_blocked unchanged ∙ e) ∙ unchanged
      ];
  same_current = a.same_current ∙ current-wake s t;
  charges = λ i. a.charges i ∙ wake-charge s r (kept ++ t ∷ rest) d t i q;
  same_pending = a.same_pending ∙ pending-wake s t;
}

late-Awake :
    (p : ℕ → Bool) (woken : ℕ) (s : Scheduler) (r kept : List ℕ) (t : ℕ) (rest d : List ℕ)
    (o : ℕ × Scheduler)
    → p t ≡ false
    → Awake p woken s r (kept ++ t ∷ []) rest d o
    → Awake p woken s r kept (t ∷ rest) d o
late-Awake p woken s r kept t rest d o late a = record {
  counted = rw late a.counted;
  queued = rw late (
      subst (λ x. Queued o.1 (r ++ select p rest) x d)
        (concat_assoc kept t (select (λ i. not (p i)) rest)) a.queued);
  others = a.others;
  same_current = a.same_current;
  charges = a.charges;
  same_pending = a.same_pending;
}

end-Awake :
    (p : ℕ → Bool) (woken : ℕ) (s : Scheduler) (r kept d : List ℕ)
    → Queued s r (kept ++ []) d
    → Awake p woken s r kept [] d (woken, s)
end-Awake p woken s r kept d q = record {
  counted = omega arith;
  queued = subst (λ x. Queued s x (kept ++ []) d) (sym (append-nil r)) q;
  others = λ i e. refl;
  same_current = refl;
  charges = λ i. refl;
  same_pending = refl;
}

wake_from-Awake :
    (now fuel woken : ℕ) (p : ℕ → Bool) (s : Scheduler) (r kept rest d : List ℕ)
    → length rest ≤ fuel
    → woken + length rest < 2 ^ 32
    → ((i : ℕ) → mem i rest ≡ true → is_due now (s.tasks i) ≡ p i)
    → Queued s r (kept ++ rest) d
    → Awake p woken s r kept rest d (wake_from now fuel (first rest) s woken)
unfolding wake_from
wake_from-Awake now zero woken p s r kept [] d l w e q = end-Awake p woken s r kept d q
wake_from-Awake now (suc fuel) woken p s r kept [] d l w e q = end-Awake p woken s r kept d q
wake_from-Awake now zero woken p s r kept (t ∷ rest) d l w e q = absurd (omega arith)
wake_from-Awake now (suc fuel) woken p s r kept (t ∷ rest) d l w e q =
    let link = Chain-next s.tasks s.blocked_queue kept t rest q.links.chain_y in
    let fresh = not_in_rest kept t rest q.links.distinct_y in
    let at_t : is_due now (s.tasks t) ≡ p t = e t (ground arith) in
    elim (Bool-cases (p t)) [
      | inl due ↦
          let count : (woken + 1) % 2 ^ 32 ≡ woken + 1 = omega arith in
          rw (at_t ∙ due, link, count, wake_from)
            (due-Awake p woken s r kept t rest d
              (wake_from now fuel (first rest) (wake t s) (woken + 1)) due q
              (wake_from-Awake now fuel (woken + 1) p (wake t s) (r ++ t ∷ []) kept rest d
                (omega arith) (omega arith)
                (λ i m.
                  others_due now s r (kept ++ t ∷ rest) d t i q (λ same. ground arith)
                  ∙ e i (ground arith))
                (wake-Queued s r kept t rest d q)))
      | inr late ↦
          rw (at_t ∙ late, link, wake_from)
            (late-Awake p woken s r kept t rest d (wake_from now fuel (first rest) s woken) late (
              wake_from-Awake now fuel woken p s r (kept ++ t ∷ []) rest d (omega arith)
                (omega arith) (λ i m. e i (ground arith))
                (subst (λ x. Queued s r x d) (sym (concat_assoc kept t rest)) q)))
    ]

pending-unlock_irq :
    (was : Bool) (s : Scheduler) → (unlock_irq was s).preempt_pending ≡ s.preempt_pending
unfolding unlock_irq
pending-unlock_irq true s = refl
pending-unlock_irq false s = refl

module _ (now : ℕ) {s : Scheduler} {r b d : List ℕ} (v : IsValid s r b d) where
  expired-Awake :
      let due = λ (i : ℕ). is_due now (s.tasks i) in
      Awake due 0 (lock_irq s) r [] b d (wake_from now max_tasks s.blocked_queue (lock_irq s) 0)
  unfolding lock_irq
  expired-Awake =
      let l = short (rotate v.queued.links) in
      subst
        (λ (h : Option ℕ).
          Awake (λ (i : ℕ). is_due now (s.tasks i)) 0 (lock_irq s) r [] b d
            (wake_from now max_tasks h (lock_irq s) 0))
        (sym (Chain-first s.tasks s.blocked_queue b v.queued.links.chain_y))
        (wake_from-Awake now max_tasks 0 (λ (i : ℕ). is_due now (s.tasks i)) (lock_irq s) r [] b d l
          (omega arith) (λ i m. refl) (lock_irq-Queued s r b d v.queued))

  awake-IsValid :
      (o : ℕ × Scheduler)
      → Awake (λ (i : ℕ). is_due now (s.tasks i)) 0 (lock_irq s) r [] b d o
      → IsValid
          (unlock_irq s.irqs_enabled o.1)
          (r ++ select (λ (i : ℕ). is_due now (s.tasks i)) b)
          (select (λ (i : ℕ). not (is_due now (s.tasks i))) b)
          d
  unfolding lock_irq
  awake-IsValid o a =
      let same = unlock_irq_lem s.irqs_enabled o.1 in
      let idle : is_blocked (s.tasks v.current).state ≡ false = ground (arith, v.current_runs) in
      record {
        queued = unlock_irq-Queued s.irqs_enabled o.1 _ _ d a.queued;
        current = v.current;
        is_current = same.1 ∙ a.same_current ∙ v.is_current;
        current_inside = v.current_inside;
        current_runs =
            ap (λ (k : Tasks). is_running (k v.current).state) same.0
            ∙ ap is_running (a.others v.current idle)
            ∙ v.current_runs;
      }

  -- `SchedWakeExpired` on a valid scheduler moves exactly the blocked tasks whose deadline has passed
  -- to the end of the ready queue, in the order of the blocked queue, leaves the others blocked in
  -- their order, returns how many it moved, and keeps the scheduler valid.
  pub sched_wake_expired_lem :
      let due = λ (i : ℕ). is_due now (s.tasks i) in
      let o = sched_wake_expired now s in
      (o.0 ≡ length (select due b))
      × IsValid o.1 (r ++ select due b) (select (λ i. not (due i)) b) d
  unfolding sched_wake_expired
  sched_wake_expired_lem = (ground (arith, expired-Awake.counted), awake-IsValid _ expired-Awake)

  -- It leaves what was counted of every task, and the wish for a preemption.
  pub sched_wake_expired-charge :
      (i : ℕ)
      → (charge ((sched_wake_expired now s).1.tasks i) ≡ charge (s.tasks i))
        × ((sched_wake_expired now s).1.preempt_pending ≡ s.preempt_pending)
  unfolding sched_wake_expired lock_irq
  sched_wake_expired-charge i =
      let o = wake_from now max_tasks s.blocked_queue (lock_irq s) 0 in
      (
        ap (λ (k : Tasks). charge (k i)) (unlock_irq_lem s.irqs_enabled o.1).0
            ∙ expired-Awake.charges i,
        pending-unlock_irq s.irqs_enabled o.1 ∙ expired-Awake.same_pending,
      )
