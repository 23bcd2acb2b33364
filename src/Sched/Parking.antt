-- ===== src/Sched/Parking.antt =====
-- `SchedBlockTask` as a whole.
use novium_os.Prelude.{ℕ, ◌≡◌, ◌≢◌, true, List, [], ◌∷◌, ◌++◌, Option, some, ◌⊎◌}
use novium_os.Task.{Task, running}
use novium_os.Task.Members.{mem, without}
use novium_os.Sched.{Scheduler, lock_irq, unlock_irq, blocked_remove, set_state}
use novium_os.Sched.Invariant.{IsValid}
use novium_os.Sched.Select.{find_next}
use novium_os.Sched.Wait.{park, undo_block}

-- What an undone block does to the task that was the last to be blocked.
back : ℕ → Scheduler → Scheduler
back c s = set_state c running (blocked_remove c s)

module _ {s : Scheduler} {r b d : List ℕ} (v : IsValid s r b d) where
  -- The scheduler in which `SchedBlockTask` yields for the current task.
  unfoldable pub parked : Scheduler
  parked = unlock_irq s.irqs_enabled (park v.current (lock_irq s))

  module _ (resume : Option ℕ → ℕ → Scheduler → Scheduler) where
    -- Without the lock the current task is blocked and the one that the policy picks runs; what the call
    -- returns with is what is left of the block when the task is resumed.
    pub record Handed (o : Scheduler) : Type 0 where
      pub unlocked : s.scheduler_locked ≡ 0
      pub next : ℕ
      pub entered : Scheduler
      pub picked : find_next (lock_irq parked) ≡ some next
      pub was_ready : mem next r ≡ true
      pub valid : IsValid entered (without next r) (b ++ v.current ∷ []) d
      pub resumed :
          o
          ≡ undo_block v.current (unlock_irq s.irqs_enabled (resume (some v.current) next entered))

    -- The block of the current task: undone for want of another task, or handed over.
    pub Blocks : Scheduler → Type 0
    Blocks o = (((s.scheduler_locked ≢ 0) ⊎ (r ≡ [])) × IsValid o r b d) ⊎ Handed o
