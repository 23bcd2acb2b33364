-- ===== src/Sched/Creating.antt =====
-- Starting the scheduler and making tasks: `SchedInit` and `SchedCreate`.
use novium_os.Prelude.{
  ℕ, zero, suc, ◌+◌, ◌%◌, ◌^◌, ◌≤◌, ◌<◌, ◌≡◌, refl, ap, ◌∙◌, true, false, ◌||◌, ◌==◌, leb, ltb,
  ◌&&◌, if◌then◌else◌, List, [], ◌∷◌, ◌++◌, Option, none, some, arith, inl, inr, Bool-cases, ◌⊎◌,
  update,
}
use novium_os.Prelude.Search.{Found}
use novium_os.Task.{Task, Tasks, dead, ready, running, max_tasks}
use novium_os.Task.Members.{mem, mem-append, mem-without, without}
use novium_os.Task.Chain.{content}
use novium_os.Task.Queue.{content-queue_add}
use novium_os.Task.Linked.{rotate, relink, add-Linked, remove-Linked, content-remove}
use novium_os.Sched.{
  Scheduler, lock_irq, unlock_irq, ready_add, dead_remove, set_task, is_dead, is_running,
}
use novium_os.Sched.Invariant.{
  Links, Queued, IsValid, Moves, moved-Queued, lock_irq-Queued, unlock_irq-Queued, unlock_irq_lem,
}
use novium_os.Sched.Find.{free_descriptor}
use novium_os.Sched.Yielding.{quiet-IsValid}
use novium_os.Sched.Life.{
  reset, reset_all, idle_from, sched_init, push_words, sched_init_stack, fill, sched_create,
  first_dead,
}

reset_all_lem :
    (n index : ℕ) (tasks : Tasks) (i : ℕ)
    → (reset_all n index tasks i).state
      ≡ (if leb index i && ltb i (index + n) then dead else (tasks i).state)
unfolding reset_all reset
reset_all_lem zero index tasks i = ground arith
reset_all_lem (suc n) index tasks i =
    ground (arith, reset_all_lem n (index + 1) (update tasks index (reset (tasks index))) i)

init_state :
    (s : Scheduler) (i : ℕ)
    → i < max_tasks
    → ((sched_init s).tasks i).state ≡ (if 0 == i then running else dead)
unfolding sched_init idle_from
init_state s i h = ground (arith, reset_all_lem max_tasks 0 s.tasks i)

-- `SchedInit` leaves a valid scheduler with empty queues, whatever was in the memory.
pub sched_init-IsValid : (s : Scheduler) → IsValid (sched_init s) [] [] []
unfolding sched_init
sched_init-IsValid s = record {
  queued = record {
    links = record {
      chain_x = refl;
      chain_y = refl;
      chain_z = refl;
      distinct_x = tt;
      distinct_y = tt;
      distinct_z = tt;
      apart_xy = λ i m. refl;
      apart_yz = λ i m. refl;
      apart_zx = λ i m. refl;
      inside_x = λ i m. ground arith;
      inside_y = λ i m. ground arith;
      inside_z = λ i m. ground arith;
    };
    on_ready = λ i h. ground (arith, init_state s i h);
    on_blocked = λ i h. ground (arith, init_state s i h);
    on_dead = λ i m. ground arith;
    running_only = λ i h k. ground (arith, init_state s i h);
  };
  current = 0;
  is_current = refl;
  current_inside = omega arith;
  current_runs = ground (arith, init_state s 0);
}

module _ (exit_stub : ℕ) (name : List ℕ) (eip esp : ℕ) {s : Scheduler} {r b d : List ℕ}
    (q : Queued s r b d) (t : ℕ) where
  filled : Scheduler
  filled = fill exit_stub t name eip esp (dead_remove t s)

  filled_tasks :
      (i : ℕ)
      → ((filled.tasks i).state ≡ (if t == i then ready else (s.tasks i).state))
        × ((filled.tasks i).next ≡ ((dead_remove t s).tasks i).next)
        × ((filled.tasks i).id ≡ (if t == i then s.next_task_id else (s.tasks i).id))
  unfolding filled fill sched_init_stack push_words set_task dead_remove
  filled_tasks i =
      let same = content-remove (rotate (rotate q.links)) t i in
      ground (arith, ap (λ (k : Task). k.state) same, ap (λ (k : Task). k.id) same)

  removed_state : (i : ℕ) → ((dead_remove t s).tasks i).state ≡ (s.tasks i).state
  unfolding dead_remove
  removed_state i = ap (λ (k : Task). k.state) (content-remove (rotate (rotate q.links)) t i)

  removed-Linked : Links (dead_remove t s) r b (without t d)
  unfolding dead_remove
  removed-Linked = rotate (remove-Linked (rotate (rotate q.links)) t)

  created : Scheduler
  created =
      let queued = ready_add t filled in
      record queued { task_count = (queued.task_count + 1) % 2 ^ 32 }

  created_content : (i : ℕ) → content (created.tasks i) ≡ content (filled.tasks i)
  unfolding created ready_add
  created_content i = content-queue_add filled.tasks filled.ready_queue t i

  created_state :
      (i : ℕ)
      → ((created.tasks i).state ≡ (if t == i then ready else (s.tasks i).state))
        × ((created.tasks i).id ≡ (if t == i then s.next_task_id else (s.tasks i).id))
  created_state i = (
    ap (λ (k : Task). k.state) (created_content i) ∙ (filled_tasks i).0,
    ap (λ (k : Task). k.id) (created_content i) ∙ (filled_tasks i).2,
  )

  created-Links :
      t < max_tasks → (mem t r || mem t b) ≡ false → Links created (r ++ t ∷ []) b (without t d)
  unfolding created ready_add filled fill sched_init_stack push_words set_task dead_remove
  created-Links h off =
      add-Linked (relink removed-Linked filled.tasks (λ i k. (filled_tasks i).1)) t h
        (ground (arith, mem-without t t d q.links.distinct_z))

  created-Moves : (mem t r || mem t b) ≡ false → Moves ready t r b d (r ++ t ∷ []) b (without t d)
  created-Moves off = record {
    in_ready = λ i. ground (arith, mem-append i r (t ∷ []));
    in_blocked = λ i. ground arith;
    in_dead = λ i k. ground (arith, mem-without t i d q.links.distinct_z);
  }

  created-Queued :
      t < max_tasks → (mem t r || mem t b) ≡ false → Queued created (r ++ t ∷ []) b (without t d)
  unfolding created ready_add filled fill sched_init_stack push_words set_task dead_remove
  created-Queued h off =
      moved-Queued s created t ready r b d (r ++ t ∷ []) b (without t d) refl q
        (created-Links h off) (λ i. (created_state i).0) (created-Moves off) (λ i _ e. e)

module _ (exit_stub : ℕ) (name : List ℕ) (eip esp : ℕ) {s : Scheduler} {r b d : List ℕ}
    (v : IsValid s r b d) where
  -- What `SchedCreate` returns and leaves: no task, for want of room, or a dead descriptor made ready.
  unfoldable pub Creates : Option ℕ × Scheduler → Type 0
  Creates (none, s') =
      ((max_tasks ≤ s.task_count) ⊎ ((i : ℕ) → i < max_tasks → is_dead (s.tasks i).state ≡ false))
      × IsValid s' r b d
  Creates (some t, s') =
      (s.task_count < max_tasks)
      × (is_dead (s.tasks t).state ≡ true)
      × ((s'.tasks t).id ≡ s.next_task_id)
      × IsValid s' (r ++ t ∷ []) b (without t d)

  made : ℕ → Scheduler
  made t = created exit_stub name eip esp (lock_irq-Queued s r b d v.queued) t

  made_current : (t : ℕ) → (made t).current_task ≡ some v.current
  unfolding made lock_irq created filled fill sched_init_stack push_words set_task dead_remove
      ready_add
  made_current t = v.is_current

  made-IsValid :
      (t : ℕ)
      → t < max_tasks
      → is_dead (s.tasks t).state ≡ true
      → IsValid (unlock_irq s.irqs_enabled (made t)) (r ++ t ∷ []) b (without t d)
  unfolding lock_irq made
  made-IsValid t h is_free =
      let q = lock_irq-Queued s r b d v.queued in
      let off : (mem t r || mem t b) ≡ false =
        ground (arith, v.queued.on_ready t h, v.queued.on_blocked t h) in
      let same = unlock_irq_lem s.irqs_enabled (made t) in
      let state = (created_state exit_stub name eip esp q t v.current).0 in
      record {
        queued =
            unlock_irq-Queued s.irqs_enabled (made t) (r ++ t ∷ []) b (without t d)
              (created-Queued exit_stub name eip esp q t h off);
        current = v.current;
        is_current = same.1 ∙ made_current t;
        current_inside = v.current_inside;
        current_runs =
            ap (λ (k : Tasks). is_running (k v.current).state) same.0
            ∙ ground (arith, state, v.current_runs);
      }

  made_id : (t : ℕ) → ((unlock_irq s.irqs_enabled (made t)).tasks t).id ≡ s.next_task_id
  unfolding made lock_irq
  made_id t =
      ap (λ (k : Tasks). (k t).id) (unlock_irq_lem s.irqs_enabled (made t)).0
      ∙ ground
          (arith, (created_state exit_stub name eip esp (lock_irq-Queued s r b d v.queued) t t).1)

  by_descriptor :
      (o : Option ℕ)
      → Found (λ i. is_dead (s.tasks i).state) 0 max_tasks o
      → s.task_count < max_tasks
      → Creates (elim o as (λ _. Option ℕ × Scheduler) [
        | none ↦ (none, unlock_irq s.irqs_enabled (lock_irq s))
        | some t ↦ (some t, unlock_irq s.irqs_enabled (made t))
      ])
  unfolding Creates
  by_descriptor none f room = (inr (λ i h. f i (omega arith) h), quiet-IsValid v)
  by_descriptor (some t) f room = (room, f.2, made_id t, made-IsValid t f.1 f.2)

  -- `SchedCreate` with a name, on a valid scheduler, either returns null because the tasks are
  -- `SchedMaxTasks` many or no descriptor is dead, or takes a dead descriptor off the dead queue,
  -- gives it the next id and puts it at the end of the ready queue. The scheduler stays valid.
  pub sched_create_lem : Creates (sched_create exit_stub (some name) eip esp s)
  unfolding sched_create made created lock_irq filled Creates
  sched_create_lem = elim (Bool-cases (leb max_tasks s.task_count)) [
    | inl full ↦ rw (full, sched_create) (inl (ground arith), v)
    | inr room ↦
        rw (room, sched_create)
          (by_descriptor (first_dead s.tasks max_tasks 0) (free_descriptor s.tasks) (ground arith))
  ]
