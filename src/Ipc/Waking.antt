-- ===== src/Ipc/Waking.antt =====
-- `IpcWaitTakeLive`: who is woken, and what becomes of tasks that are gone.
use novium_os.Prelude.{
  ℕ, zero, suc, ◌+◌, ◌≤◌, ◌<◌, ◌≡◌, refl, sym, subst, Bool, true, false, ◌&&◌, ◌==◌, not, ltb,
  if◌then◌else◌, Option, none, some, arith, inl, inr, Bool-cases, ◌⊎◌,
}
use novium_os.Prelude.Search.{Found, Found-here, Found-later, Found-empty}
use novium_os.Sched.{Scheduler, lock_irq}
use novium_os.Ipc.{
  IpcWait, wait_remove, wait_is_live, first_live, drop_stale, wait_take_live, ipc_wake_one,
  no_waiters,
}
use novium_os.Ipc.Indices.{holds, holds_at, index_of, IsValid}
use novium_os.Ipc.Waiting.{Taken, wait_remove_lem}

-- The test of the first loop.
abbrev pub live_at : (ℕ → Bool) → (ℕ → ℕ) → ℕ → Bool
live_at live ids i = not (ids i == 0) && live (ids i)

-- The id that the loop leaves, by the entry at which it stops.
abbrev pub id_at : (ℕ → ℕ) → Option ℕ → ℕ
id_at ids none = 0
id_at ids (some i) = ids i

first_live-Found :
    (live : ℕ → Bool) (ids : ℕ → ℕ) (n index hi : ℕ)
    → index + n ≡ hi
    → (o : Option ℕ) × (first_live live ids n index ≡ id_at ids o)
      × Found (live_at live ids) index hi o
unfolding first_live
first_live-Found live ids zero index hi e =
    (none, refl, Found-empty (live_at live ids) index hi (omega arith))
first_live-Found live ids (suc n) index hi e = elim (Bool-cases (live_at live ids index)) [
  | inl hit ↦ (
    some index,
    rw (hit, first_live) refl,
    Found-here (live_at live ids) index hi hit (omega arith),
  )
  | inr miss ↦
      let (o, same, found) = first_live-Found live ids n (index + 1) hi (omega arith) in
      (
        o,
        rw (miss, first_live) same,
        Found-later (live_at live ids) index hi o miss (omega arith) found,
      )
]

-- No task of the queue is alive.
abbrev pub AllGone : (ℕ → Bool) → IpcWait → Type 0
AllGone live w = (x : ℕ) → holds w x ≡ true → live x ≡ false

drop_stale_lem :
    (live : ℕ → Bool) (fuel : ℕ) (w : IpcWait)
    → w.count ≤ fuel
    → IsValid w
    → AllGone live w
    → ((drop_stale live fuel 0 w).count ≡ 0) × IsValid (drop_stale live fuel 0 w)
unfolding drop_stale
drop_stale_lem live zero w h v gone = (omega arith, v)
drop_stale_lem live (suc fuel) w h v gone = elim (Bool-cases (ltb 0 w.count)) [
  | inr empty ↦ rw (empty, drop_stale) (ground arith, v)
  | inl more ↦
      let t = wait_remove_lem v (w.ids 0) in
      let here : holds w (w.ids 0) ≡ true = holds_at w (w.ids 0) 0 (ground arith) refl in
      let stale : (not (w.ids 0 == 0) && not (live (w.ids 0))) ≡ true =
        ground (arith, v.not_0 0, gone (w.ids 0)) in
      rw (more, drop_stale)
        (rw (stale, drop_stale)
          (drop_stale_lem live fuel (wait_remove w (w.ids 0)) (ground (arith, t.counted)) t.valid
            (λ x e. gone x (ground (arith, t.held x)))))
]

-- The first living task of the queue, taken off it.
pub record First (live : ℕ → Bool) (w : IpcWait) (o : ℕ × IpcWait) : Type 0 where
  pub index : ℕ
  pub inside : index < w.count
  pub at_index : w.ids index ≡ o.0
  pub is_live : live o.0 ≡ true
  pub earlier_gone : (j : ℕ) → j < index → live (w.ids j) ≡ false
  pub taken : Taken w o.0 o.1

-- What a call may return and leave of the queue.
unfoldable pub TakesLive : (ℕ → Bool) → IpcWait → ℕ × IpcWait → Type 0
TakesLive live w o = First live w o ⊎ (AllGone live w × (o.0 ≡ 0) × (o.1.count ≡ 0) × IsValid o.1)

module _ (live : ℕ → Bool) {w : IpcWait} (v : IsValid w) where
  outcome : ℕ → ℕ × IpcWait
  outcome id = if not (id == 0) then (id, wait_remove w id) else (0, drop_stale live w.count 0 w)

  of_entry :
      (o : Option ℕ)
      → Found (live_at live w.ids) 0 w.count o
      → TakesLive live w (outcome (id_at w.ids o))
  unfolding outcome TakesLive
  of_entry none f =
      let gone : AllGone live w = λ x e.
        let (i, h, at_x) = index_of w x e in ground (arith, f i (omega arith) h, v.not_0 i h) in
      let r = drop_stale_lem live w.count w (omega arith) v gone in inr (gone, refl, r.0, r.1)
  of_entry (some i) f =
      let nonzero : (w.ids i == 0) ≡ false = ground (arith, f.2) in
      rw (nonzero, outcome)
        (inl (record {
          index = i;
          inside = f.1;
          at_index = refl;
          is_live = ground (arith, f.2);
          earlier_gone = λ j h. ground (arith, f.3 j, v.not_0 j);
          taken = wait_remove_lem v (w.ids i);
        }))

-- On a valid queue `IpcWaitTakeLive` takes the first task that is alive, leaves every other entry
-- there, those of killed tasks too, and returns its id. If none is alive it returns 0 and leaves an
-- empty queue. The queue stays valid.
pub wait_take_live_lem :
    (s : Scheduler) {w : IpcWait} → IsValid w → TakesLive (wait_is_live s) w (wait_take_live s w)
unfolding wait_take_live outcome
wait_take_live_lem s {w} v =
    let live = wait_is_live s in
    let (o, same, found) = first_live-Found live w.ids w.count 0 w.count (omega arith) in
    subst (λ id. TakesLive live w (outcome live v id)) (sym same) (of_entry live v o found)

taken-IsValid : (live : ℕ → Bool) (w : IpcWait) (o : ℕ × IpcWait) → TakesLive live w o → IsValid o.1
unfolding TakesLive
taken-IsValid live w o (inl f) = f.taken.valid
taken-IsValid live w o (inr e) = e.3

-- A wake leaves a sound queue.
pub ipc_wake_one-IsValid : (s : Scheduler) {w : IpcWait} → IsValid w → IsValid (ipc_wake_one w s).0
unfolding ipc_wake_one
ipc_wake_one-IsValid s {w} v =
    taken-IsValid (wait_is_live (lock_irq s)) w (wait_take_live (lock_irq s) w)
      (wait_take_live_lem (lock_irq s) v)

pub no_waiters-IsValid : IsValid no_waiters
no_waiters-IsValid = record {
  fits = omega arith;
  distinct = λ i j h k e. absurd (omega arith);
  not_0 = λ i h e. omega arith;
}
