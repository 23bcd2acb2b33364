-- ===== src/Sched/Invariant.antt =====
-- What holds of the scheduler's variables between two operations, and the moves of a task between
-- the queues.
use novium_os.Prelude.{
  ℕ, ◌<◌, ◌≡◌, ◌≢◌, refl, ap, Bool, true, false, ◌||◌, ◌==◌, if◌then◌else◌, List, some, arith,
}
use novium_os.Task.{Task, TaskState, max_tasks}
use novium_os.Task.Members.{mem}
use novium_os.Task.Chain.{content}
use novium_os.Task.Linked.{Linked, relink}
use novium_os.Sched.{
  Scheduler, lock_irq, unlock_irq, set_task, is_dead, is_ready, is_blocked, is_running,
}

-- The three queues of a scheduler, as lists of tasks.
abbrev pub Links : Scheduler → List ℕ → List ℕ → List ℕ → Type 0
Links s r b d = Linked s.tasks s.ready_queue r s.blocked_queue b s.dead_queue d

-- The queues are sound, the ready and blocked tasks are exactly those on the two queues, what is on
-- the dead queue is dead, and only the current task runs.
pub record Queued (s : Scheduler) (r b d : List ℕ) : Type 0 where
  pub links : Links s r b d
  pub on_ready : (i : ℕ) → i < max_tasks → mem i r ≡ is_ready (s.tasks i).state
  pub on_blocked : (i : ℕ) → i < max_tasks → mem i b ≡ is_blocked (s.tasks i).state
  pub on_dead : (i : ℕ) → mem i d ≡ true → is_dead (s.tasks i).state ≡ true
  pub running_only :
      (i : ℕ) → i < max_tasks → is_running (s.tasks i).state ≡ true → s.current_task ≡ some i

-- Between operations there is a current task, and it runs.
pub record IsValid (s : Scheduler) (r b d : List ℕ) : Type 0 where
  pub queued : Queued s r b d
  pub current : ℕ
  pub is_current : s.current_task ≡ some current
  pub current_inside : current < max_tasks
  pub current_runs : is_running (s.tasks current).state ≡ true

-- One task's state becomes `st`, and but for links nothing else in the array changes.
abbrev pub Restated : Scheduler → Scheduler → ℕ → TaskState → Type 0
Restated s s' t st =
    (i : ℕ)
    → content (s'.tasks i)
      ≡ (if t == i then record (content (s.tasks i)) { state = st } else content (s.tasks i))

abbrev pub StateSet : Scheduler → Scheduler → ℕ → TaskState → Type 0
StateSet s s' t st = (i : ℕ) → (s'.tasks i).state ≡ (if t == i then st else (s.tasks i).state)

pub Restated-StateSet :
    (s s' : Scheduler) (t : ℕ) (st : TaskState) → Restated s s' t st → StateSet s s' t st
Restated-StateSet s s' t st e i =
    let same : (s'.tasks i).state
        ≡ (if t == i
            then record (content (s.tasks i)) { state = st }
            else content (s.tasks i)).state =
      ap (λ (k : Task). k.state) (e i) in
    ground arith

-- One task changes its state and its queue.
pub record Moves (st : TaskState) (t : ℕ) (r b d r' b' d' : List ℕ) : Type 0 where
  pub in_ready : (i : ℕ) → mem i r' ≡ (if t == i then is_ready st else mem i r)
  pub in_blocked : (i : ℕ) → mem i b' ≡ (if t == i then is_blocked st else mem i b)
  pub in_dead : (i : ℕ) → mem i d' ≡ true → (if t == i then is_dead st else mem i d) ≡ true

pub moved-Queued :
    (s s' : Scheduler) (t : ℕ) (st : TaskState) (r b d r' b' d' : List ℕ)
    → is_running st ≡ false
    → Queued s r b d
    → Links s' r' b' d'
    → StateSet s s' t st
    → Moves st t r b d r' b' d'
    → ((i : ℕ) → t ≢ i → s.current_task ≡ some i → s'.current_task ≡ some i)
    → Queued s' r' b' d'
moved-Queued s s' t st r b d r' b' d' idle q l e m c = record {
  links = l;
  on_ready = λ i h. ground (arith, m.in_ready i, e i, q.on_ready i h);
  on_blocked = λ i h. ground (arith, m.in_blocked i, e i, q.on_blocked i h);
  on_dead = λ i k. ground (arith, m.in_dead i k, e i, q.on_dead i);
  running_only = λ i h k.
      let other : t ≢ i = λ same. ground (arith, e i) in
      c i other (q.running_only i h (ground (arith, e i)));
}

module _ {s : Scheduler} {r b d : List ℕ} (q : Queued s r b d) where
  pub off_queues :
      (t : ℕ)
      → t < max_tasks
      → is_running (s.tasks t).state ≡ true
      → (mem t r || mem t b || mem t d) ≡ false
  off_queues t h e = ground (arith, q.on_ready t h, q.on_blocked t h, q.on_dead t)

  pub off_others : (t : ℕ) → mem t b ≡ true → (mem t r ≡ false) × (mem t d ≡ false)
  off_others t m =
      let h = q.links.inside_y t m in
      (ground (arith, q.on_ready t h, q.on_blocked t h), q.links.apart_yz t m)

-- The interrupt flag does not matter to the queues.
pub lock_irq-Queued : (s : Scheduler) (r b d : List ℕ) → Queued s r b d → Queued (lock_irq s) r b d
unfolding lock_irq
lock_irq-Queued s r b d q = record {
  links = q.links;
  on_ready = q.on_ready;
  on_blocked = q.on_blocked;
  on_dead = q.on_dead;
  running_only = q.running_only;
}

pub unlock_irq-Queued :
    (was : Bool) (s : Scheduler) (r b d : List ℕ) → Queued s r b d → Queued (unlock_irq was s) r b d
unfolding unlock_irq
unlock_irq-Queued false s r b d q = q
unlock_irq-Queued true s r b d q = record {
  links = q.links;
  on_ready = q.on_ready;
  on_blocked = q.on_blocked;
  on_dead = q.on_dead;
  running_only = q.running_only;
}

pub unlock_irq_lem :
    (was : Bool) (s : Scheduler)
    → ((unlock_irq was s).tasks ≡ s.tasks) × ((unlock_irq was s).current_task ≡ s.current_task)
unfolding unlock_irq
unlock_irq_lem true s = (refl, refl)
unlock_irq_lem false s = (refl, refl)

-- A write to a descriptor that keeps its state and its link.
pub set_task-Queued :
    (s : Scheduler) (t : ℕ) (task : Task) (r b d : List ℕ)
    → task.state ≡ (s.tasks t).state
    → task.next ≡ (s.tasks t).next
    → Queued s r b d
    → Queued (set_task t task s) r b d
unfolding set_task
set_task-Queued s t task r b d same link q = record {
  links = relink q.links (set_task t task s).tasks (λ i k. ground arith);
  on_ready = λ i h. ground (arith, q.on_ready i h);
  on_blocked = λ i h. ground (arith, q.on_blocked i h);
  on_dead = λ i k. ground (arith, q.on_dead i k);
  running_only = λ i h k. q.running_only i h (ground arith);
}
