-- ===== src/Task/Linked.antt =====
-- Three queues through one descriptor array, and what an operation on the first leaves of the others.
use novium_os.Prelude.{
  ℕ, ◌≤◌, ◌<◌, ◌≡◌, true, false, ◌||◌, List, [], ◌∷◌, ◌++◌, Option, arith, inl, inr, Bool-cases,
  length,
}
use novium_os.Task.{Tasks, max_tasks, queue_add, queue_remove}
use novium_os.Task.Members.{
  mem, mem-append, mem-without, Distinct, Distinct-concat, Distinct-without, without,
  length-le_of_bounded,
}
use novium_os.Task.Chain.{Chain, Chain-frame, content}
use novium_os.Task.Queue.{queue_add-Chain, queue_add_frame}
use novium_os.Task.Removal.{queue_remove-Dropped}

abbrev pub Disjoint : List ℕ → List ℕ → Type 0
Disjoint xs ys = (i : ℕ) → mem i xs ≡ true → mem i ys ≡ false

abbrev pub Inside : List ℕ → Type 0
Inside xs = (i : ℕ) → mem i xs ≡ true → i < max_tasks

-- The heads `a`, `b` and `c` lead along the lists `xs`, `ys` and `zs`, and no task is on two of them
-- or twice on one.
pub record Linked (tasks : Tasks) (a : Option ℕ) (xs : List ℕ) (b : Option ℕ) (ys : List ℕ)
    (c : Option ℕ) (zs : List ℕ) : Type 0 where
  pub chain_x : Chain tasks a xs
  pub chain_y : Chain tasks b ys
  pub chain_z : Chain tasks c zs
  pub distinct_x : Distinct xs
  pub distinct_y : Distinct ys
  pub distinct_z : Distinct zs
  pub apart_xy : Disjoint xs ys
  pub apart_yz : Disjoint ys zs
  pub apart_zx : Disjoint zs xs
  pub inside_x : Inside xs
  pub inside_y : Inside ys
  pub inside_z : Inside zs

Disjoint-sym : (xs ys : List ℕ) → Disjoint xs ys → Disjoint ys xs
Disjoint-sym xs ys d i m = elim (Bool-cases (mem i xs)) [
  | inl both ↦ let off = d i both in cc
  | inr off ↦ off
]

module _ {tasks : Tasks} {a : Option ℕ} {xs : List ℕ} {b : Option ℕ} {ys : List ℕ} {c : Option ℕ}
    {zs : List ℕ} (l : Linked tasks a xs b ys c zs) where
  pub rotate : Linked tasks b ys c zs a xs
  rotate = record {
    chain_x = l.chain_y;
    chain_y = l.chain_z;
    chain_z = l.chain_x;
    distinct_x = l.distinct_y;
    distinct_y = l.distinct_z;
    distinct_z = l.distinct_x;
    apart_xy = l.apart_yz;
    apart_yz = l.apart_zx;
    apart_zx = l.apart_xy;
    inside_x = l.inside_y;
    inside_y = l.inside_z;
    inside_z = l.inside_x;
  }

  pub short : length xs ≤ max_tasks
  short = length-le_of_bounded max_tasks xs l.distinct_x l.inside_x

  -- Another array with the same links.
  pub relink :
      (tasks' : Tasks)
      → ((i : ℕ) → (mem i xs || mem i ys || mem i zs) ≡ true → (tasks' i).next ≡ (tasks i).next)
      → Linked tasks' a xs b ys c zs
  relink tasks' same = record {
    chain_x = Chain-frame tasks tasks' a xs (λ i m. same i (ground arith)) l.chain_x;
    chain_y = Chain-frame tasks tasks' b ys (λ i m. same i (ground arith)) l.chain_y;
    chain_z = Chain-frame tasks tasks' c zs (λ i m. same i (ground arith)) l.chain_z;
    distinct_x = l.distinct_x;
    distinct_y = l.distinct_y;
    distinct_z = l.distinct_z;
    apart_xy = l.apart_xy;
    apart_yz = l.apart_yz;
    apart_zx = l.apart_zx;
    inside_x = l.inside_x;
    inside_y = l.inside_y;
    inside_z = l.inside_z;
  }

  pub add-Linked :
      (t : ℕ)
      → t < max_tasks
      → (mem t xs || mem t ys || mem t zs) ≡ false
      → let r = queue_add tasks a t in Linked r.0 r.1 (xs ++ t ∷ []) b ys c zs
  add-Linked t h off = record {
    chain_x = queue_add-Chain tasks a t xs l.distinct_x short (ground arith) l.chain_x;
    chain_y =
        Chain-frame tasks (queue_add tasks a t).0 b ys
          (λ i m.
            queue_add_frame tasks a t xs i short (ground arith) l.chain_x
              (Disjoint-sym xs ys l.apart_xy i m) (λ e. ground arith))
          l.chain_y;
    chain_z =
        Chain-frame tasks (queue_add tasks a t).0 c zs
          (λ i m.
            queue_add_frame tasks a t xs i short (ground arith) l.chain_x (l.apart_zx i m)
              (λ e. ground arith))
          l.chain_z;
    distinct_x = Distinct-concat xs t l.distinct_x (ground arith);
    distinct_y = l.distinct_y;
    distinct_z = l.distinct_z;
    apart_xy = λ i m. ground (arith, mem-append i xs (t ∷ []), l.apart_xy i);
    apart_yz = l.apart_yz;
    apart_zx = λ i m. ground (arith, mem-append i xs (t ∷ []), l.apart_zx i);
    inside_x = λ i m. ground (arith, mem-append i xs (t ∷ []), l.inside_x i);
    inside_y = l.inside_y;
    inside_z = l.inside_z;
  }

  pub remove-Linked :
      (t : ℕ) → let r = queue_remove tasks a t in Linked r.0 r.1 (without t xs) b ys c zs
  remove-Linked t =
      let r = queue_remove-Dropped tasks a t xs short l.distinct_x l.chain_x in
      record {
        chain_x = r.chain;
        chain_y =
            Chain-frame tasks (queue_remove tasks a t).0 b ys
              (λ i m. r.frame i (Disjoint-sym xs ys l.apart_xy i m)) l.chain_y;
        chain_z =
            Chain-frame tasks (queue_remove tasks a t).0 c zs (λ i m. r.frame i (l.apart_zx i m))
              l.chain_z;
        distinct_x = Distinct-without t xs l.distinct_x;
        distinct_y = l.distinct_y;
        distinct_z = l.distinct_z;
        apart_xy = λ i m. ground (arith, mem-without t i xs l.distinct_x, l.apart_xy i);
        apart_yz = l.apart_yz;
        apart_zx = λ i m. ground (arith, mem-without t i xs l.distinct_x, l.apart_zx i);
        inside_x = λ i m. ground (arith, mem-without t i xs l.distinct_x, l.inside_x i);
        inside_y = l.inside_y;
        inside_z = l.inside_z;
      }

  pub content-remove : (t i : ℕ) → content ((queue_remove tasks a t).0 i) ≡ content (tasks i)
  content-remove t i = (queue_remove-Dropped tasks a t xs short l.distinct_x l.chain_x).contents i
