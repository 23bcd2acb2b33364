-- ===== src/Ipc/Waiting.antt =====
-- `IpcWaitAdd` and `IpcWaitRemove` on the set of waiting tasks.
use novium_os.Prelude.{
  ℕ, ◌+◌, ◌-◌, ◌≤◌, ◌<◌, ◌≡◌, ◌≢◌, refl, sym, ◌∙◌, subst, Bool, true, false, ◌||◌, ◌==◌, leb,
  if◌then◌else◌, Option, none, some, arith, inl, inr, Bool-cases, update,
}
use novium_os.Prelude.Search.{Found}
use novium_os.Ipc.{IpcWait, max_waiters, find_id, wait_add, wait_remove}
use novium_os.Ipc.Indices.{entry_is, find_id-Found, holds, holds_at, index_of, same_test, IsValid}

-- What `IpcWaitAdd` leaves if there is room.
pub record Added (w : IpcWait) (id : ℕ) (w' : IpcWait) : Type 0 where
  pub valid : IsValid w'
  pub held : (x : ℕ) → holds w' x ≡ (id == x || holds w x)

appended : IpcWait → ℕ → IpcWait
appended w id = record { ids = update w.ids w.count id; count = w.count + 1 }

module _ {w : IpcWait} (v : IsValid w) (id : ℕ) (nonzero : id ≢ 0)
    (room : w.count < max_waiters) where
  appended-Added : ((i : ℕ) → i < w.count → w.ids i ≢ id) → Added w id (appended w id)
  unfolding appended
  appended-Added fresh = record {
    valid = record {
      fits = omega arith;
      distinct = λ i j hi hj e. ground (arith, v.distinct i j, fresh i, fresh j);
      not_0 = λ i h. ground (arith, v.not_0 i);
    };
    held = λ x.
        same_test (holds (appended w id) x) (id == x || holds w x)
          (λ e. let (i, h, at_x) = index_of (appended w id) x e in ground (arith, holds_at w x i))
          (λ e. elim (Bool-cases (id == x)) [
            | inl same ↦ holds_at (appended w id) x w.count (omega arith) (ground arith)
            | inr other ↦
                let (i, h, at_x) = index_of w x (ground arith) in
                holds_at (appended w id) x i (omega arith) (ground arith)
          ]);
  }

  already_there : holds w id ≡ true → Added w id w
  already_there there = record {
    valid = v;
    held = λ x. elim (Bool-cases (id == x)) [
      | inl same ↦ let e : id ≡ x = ground arith in rw same (subst (λ k. holds w k ≡ true) e there)
      | inr other ↦ rw other refl
    ];
  }

  add_by :
      (o : Option ℕ)
      → Found (entry_is w id) 0 w.count o
      → let r = (elim o as (λ _. Bool × IpcWait) [
        | some i ↦ (true, w)
        | none ↦ (true, appended w id)
      ]) in
        (r.0 ≡ true) × Added w id r.1
  add_by none f = (refl, appended-Added (λ i h e. ground (arith, f i)))
  add_by (some i) f = (refl, already_there (holds_at w id i f.1 (ground (arith, f.2))))

-- `IpcWaitAdd` of an id that is not 0 on a valid queue: a full queue refuses and stays as it is, even if the id is on
-- it. Otherwise the call succeeds, exactly the id joins the waiting tasks, and no task is on the queue
-- twice.
wait_add_lem :
    {w : IpcWait}
    → IsValid w
    → (id : ℕ) → id ≢ 0
    → (max_waiters ≤ w.count → wait_add w id ≡ (false, w))
      × (w.count < max_waiters → ((wait_add w id).0 ≡ true) × Added w id (wait_add w id).1)
unfolding wait_add appended
wait_add_lem {w} v id nonzero = (
  λ full. let e : leb max_waiters w.count ≡ true = ground arith in rw e refl,
  λ room.
      let e : leb max_waiters w.count ≡ false = ground arith in
      rw (e, wait_add) (add_by v id nonzero room (find_id w.ids w.count 0 id) (find_id-Found w id)),
)

-- The last entry moves to the place of the one that goes.
removed : IpcWait → ℕ → IpcWait
removed w i = record {
  ids = update (update w.ids i (w.ids (w.count - 1))) (w.count - 1) 0;
  count = w.count - 1;
}

-- Where an entry of the shorter queue stood.
abbrev before : IpcWait → ℕ → ℕ → ℕ
before w i j = if i == j then w.count - 1 else j

-- What `IpcWaitRemove` leaves.
pub record Taken (w : IpcWait) (id : ℕ) (w' : IpcWait) : Type 0 where
  pub valid : IsValid w'
  pub held : (x : ℕ) → holds w' x ≡ (if id == x then false else holds w x)
  pub counted : w'.count ≡ (if holds w id then w.count - 1 else w.count)

module _ {w : IpcWait} (v : IsValid w) (id i : ℕ) (inside : i < w.count) (at_i : w.ids i ≡ id) where
  moved : (j : ℕ) → j < w.count - 1 → (removed w i).ids j ≡ w.ids (before w i j)
  unfolding removed
  moved j h = ground arith

  removed-IsValid : IsValid (removed w i)
  unfolding removed
  removed-IsValid = record {
    fits = omega (arith, v.fits);
    distinct = λ j k hj hk e.
        ground (arith, v.distinct (before w i j) (before w i k), moved j hj, moved k hk);
    not_0 = λ j h e. ground (arith, v.not_0 j, v.not_0 (w.count - 1));
  }

  removed-Taken : Taken w id (removed w i)
  unfolding removed
  removed-Taken = record {
    valid = removed-IsValid;
    held = λ x.
        same_test (holds (removed w i) x) (if id == x then false else holds w x)
          (λ e.
            let (j, h, at_x) = index_of (removed w i) x e in
            let k = before w i j in
            let at_k : w.ids k ≡ x = sym (moved j h) ∙ at_x in
            let other : (id == x) ≡ false = ground (arith, v.distinct i k) in
            rw other (holds_at w x k (ground arith) at_k))
          (λ e.
            let (j, h, at_x) = index_of w x (ground arith) in
            elim (Bool-cases (j == w.count - 1)) [
              | inl at_end ↦ holds_at (removed w i) x i (ground arith) (ground arith)
              | inr inner ↦ holds_at (removed w i) x j (ground arith) (ground arith)
            ]);
    counted = rw (holds_at w id i inside at_i) refl;
  }

take_by :
    {w : IpcWait}
    → IsValid w
    → (id : ℕ) (o : Option ℕ) → Found (entry_is w id) 0 w.count o
    → find_id w.ids w.count 0 id ≡ o
    → Taken w id (elim o as (λ _. IpcWait) [ none ↦ w | some i ↦ removed w i ])
unfolding holds
take_by {w} v id none f e = record {
  valid = v;
  held = λ x. elim (Bool-cases (id == x)) [
    | inl same ↦
        let e' : id ≡ x = ground arith in rw same (subst (λ k. holds w k ≡ false) e' (rw e refl))
    | inr other ↦ rw other refl
  ];
  counted = rw e refl;
}
take_by {w} v id (some i) f e = removed-Taken v id i f.1 (ground (arith, f.2))

-- On a valid queue `IpcWaitRemove` takes exactly the id off the waiting tasks, if it is there, and
-- shortens the queue by its entry. The queue stays valid.
pub wait_remove_lem : {w : IpcWait} → IsValid w → (id : ℕ) → Taken w id (wait_remove w id)
unfolding wait_remove removed
wait_remove_lem {w} v id = take_by v id (find_id w.ids w.count 0 id) (find_id-Found w id) refl
