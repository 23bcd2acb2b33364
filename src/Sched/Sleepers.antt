-- ===== src/Sched/Sleepers.antt =====
-- What waking one task of the blocked queue changes.
use novium_os.Prelude.{
  ℕ, ◌≡◌, ◌≢◌, refl, ap, ◌∙◌, subst, false, ◌==◌, if◌then◌else◌, List, [], ◌∷◌, ◌++◌, Option, arith,
}
use novium_os.Task.{Task, Tasks, ready}
use novium_os.Task.Members.{mem, mem-append, without, Distinct}
use novium_os.Task.Chain.{Chain, content}
use novium_os.Task.Removal.{first, Chain-first}
use mathlib.Core.List.{append_assoc}
use novium_os.Sched.{Scheduler, ready_add, blocked_remove, set_task, set_state}
use novium_os.Sched.Invariant.{Queued, StateSet, Restated-StateSet, set_task-Queued}
use novium_os.Sched.Wait.{make_ready, is_due, wake}
use novium_os.Sched.Waking.{make_ready-Queued, make_ready-Restated}

pub Chain-next :
    (tasks : Tasks) (h : Option ℕ) (kept : List ℕ) (t : ℕ) (rest : List ℕ)
    → Chain tasks h (kept ++ t ∷ rest)
    → (tasks t).next ≡ first rest
Chain-next tasks h [] t rest c = Chain-first tasks (tasks t).next rest c.1
Chain-next tasks h (x ∷ kept) t rest c = Chain-next tasks (tasks x).next kept t rest c.1

without_middle :
    (kept : List ℕ) (t : ℕ) (rest : List ℕ)
    → Distinct (kept ++ t ∷ rest)
    → without t (kept ++ t ∷ rest) ≡ kept ++ rest
without_middle [] t rest d = ground arith
without_middle (x ∷ kept) t rest d =
    ground (arith, without_middle kept t rest d.1, mem-append x kept (t ∷ rest))

pub not_in_rest :
    (kept : List ℕ) (t : ℕ) (rest : List ℕ) → Distinct (kept ++ t ∷ rest) → mem t rest ≡ false
not_in_rest [] t rest d = d.0
not_in_rest (x ∷ kept) t rest d = not_in_rest kept t rest d.1

pub concat_assoc : (xs : List ℕ) (t : ℕ) (ys : List ℕ) → (xs ++ t ∷ []) ++ ys ≡ xs ++ t ∷ ys
concat_assoc xs t ys = append_assoc xs (t ∷ []) ys

pub wake-Queued :
    (s : Scheduler) (r kept : List ℕ) (t : ℕ) (rest d : List ℕ)
    → Queued s r (kept ++ t ∷ rest) d
    → Queued (wake t s) (r ++ t ∷ []) (kept ++ rest) d
unfolding wake
wake-Queued s r kept t rest d q =
    subst
      (λ (b : List ℕ).
        Queued (make_ready t (set_task t (record (s.tasks t) { wake_tick = 0 }) s)) (r ++ t ∷ []) b
          d)
      (without_middle kept t rest q.links.distinct_y)
      (make_ready-Queued
        (set_task-Queued s t (record (s.tasks t) { wake_tick = 0 }) r (kept ++ t ∷ rest) d refl refl
          q)
        t (ground (arith, mem-append t kept (t ∷ rest))))

tick_restated :
    (t i : ℕ) (x : Task)
    → (if t == i then record (content x) { state = ready } else content x).wake_tick ≡ x.wake_tick
tick_restated t i x = ground arith

make_ready_tick :
    (s : Scheduler) (r b d : List ℕ) (t i : ℕ)
    → Queued s r b d
    → ((make_ready t s).tasks i).wake_tick ≡ (s.tasks i).wake_tick
make_ready_tick s r b d t i q =
    ap (λ (k : Task). k.wake_tick) (make_ready-Restated q t i) ∙ tick_restated t i (s.tasks i)

-- Waking a task clears its deadline and leaves those of the others.
wake_tick-wake :
    (s : Scheduler) (r b d : List ℕ) (t i : ℕ)
    → Queued s r b d
    → ((wake t s).tasks i).wake_tick ≡ (if t == i then 0 else (s.tasks i).wake_tick)
unfolding wake set_task
wake_tick-wake s r b d t i q =
    make_ready_tick (set_task t (record (s.tasks t) { wake_tick = 0 }) s) r b d t i
      (set_task-Queued s t (record (s.tasks t) { wake_tick = 0 }) r b d refl refl q)
    ∙ ground arith

due_by_tick : (now : ℕ) (x y : Task) → x.wake_tick ≡ y.wake_tick → is_due now x ≡ is_due now y
unfolding is_due
due_by_tick now x y e = rw e

pub others_due :
    (now : ℕ) (s : Scheduler) (r b d : List ℕ) (t i : ℕ)
    → Queued s r b d
    → t ≢ i
    → is_due now ((wake t s).tasks i) ≡ is_due now (s.tasks i)
others_due now s r b d t i q ne =
    let miss : (t == i) ≡ false = ground arith in
    due_by_tick now ((wake t s).tasks i) (s.tasks i) (wake_tick-wake s r b d t i q ∙ rw miss)

-- Of the states, waking a task sets its own to ready.
pub wake-StateSet :
    (s : Scheduler) (r b d : List ℕ) (t : ℕ) → Queued s r b d → StateSet s (wake t s) t ready
unfolding wake set_task
wake-StateSet s r b d t q i =
    let s' = set_task t (record (s.tasks t) { wake_tick = 0 }) s in
    let q' = set_task-Queued s t (record (s.tasks t) { wake_tick = 0 }) r b d refl refl q in
    Restated-StateSet s' (make_ready t s') t ready (make_ready-Restated q' t) i ∙ ground arith

-- What `SchedTick` counts of a task.
abbrev pub charge : Task → ℕ × ℕ
charge x = (x.runtime, x.time_used)

charge_restated :
    (t i : ℕ) (x : Task)
    → charge (if t == i then record (content x) { state = ready } else content x) ≡ charge x
charge_restated t i x = ground arith

-- Waking a task leaves what was counted of every task, and the wish for a preemption.
pub wake-charge :
    (s : Scheduler) (r b d : List ℕ) (t i : ℕ)
    → Queued s r b d
    → charge ((wake t s).tasks i) ≡ charge (s.tasks i)
unfolding wake set_task
wake-charge s r b d t i q =
    let s' = set_task t (record (s.tasks t) { wake_tick = 0 }) s in
    let q' = set_task-Queued s t (record (s.tasks t) { wake_tick = 0 }) r b d refl refl q in
    ap charge (make_ready-Restated q' t i) ∙ charge_restated t i (s'.tasks i) ∙ ground arith

pub pending-wake : (s : Scheduler) (t : ℕ) → (wake t s).preempt_pending ≡ s.preempt_pending
unfolding wake make_ready ready_add set_state blocked_remove
pending-wake s t = refl

pub current-wake : (s : Scheduler) (t : ℕ) → (wake t s).current_task ≡ s.current_task
unfolding wake make_ready ready_add set_state blocked_remove
current-wake s t = refl
