-- ===== src/Prelude/Ring.antt =====
-- A ring of slots read as a list: what stands at the positions `at k`, `at (k + 1)` and so on.
use Prim.Native.Nat.{ℕ, zero, suc, ◌+◌, ◌≤◌, ◌<◌}
use mathlib.Core.Path.{◌≡◌, refl, ap, ◌∙◌}
use mathlib.Core.Logic.{◌≢◌}
use mathlib.Core.List.{List, [], ◌∷◌, ◌++◌}
use native.Mathlib.Omega.{arith}
use novium_os.Prelude.Tests.{update, update_other, update_same}
use novium_os.Prelude.Lists.{length}

module _ {ℓ} {A : Type ℓ} where
  abbrev pub window : (ℕ → A) → (ℕ → ℕ) → ℕ → ℕ → List A
  window slots at k zero = []
  window slots at k (suc n) = slots (at k) ∷ window slots at (k + 1) n

  pub length-window : (slots : ℕ → A) (at : ℕ → ℕ) (k n : ℕ) → length (window slots at k n) ≡ n
  length-window slots at k zero = refl
  length-window slots at k (suc n) = ap suc (length-window slots at (k + 1) n)

  -- A write just past the window extends it.
  pub window-update :
      (slots : ℕ → A) (at : ℕ → ℕ) (k n tail : ℕ) (a : A)
      → ((j : ℕ) → k ≤ j → j < k + n → tail ≢ at j)
      → at (k + n) ≡ tail
      → window (update slots tail a) at k (suc n) ≡ window slots at k n ++ a ∷ []
  window-update slots at k zero tail a apart e =
      let here : at k ≡ tail = ap at (omega arith) ∙ e in rw (here, update_same slots tail a)
  window-update slots at k (suc n) tail a apart e =
      rw (update_other slots tail (at k) a (apart k (omega arith) (omega arith))) (
        ap (λ (xs : List A). slots (at k) ∷ xs)
          (window-update slots at (k + 1) n tail a (λ j l h. apart j (omega arith) (omega arith))
            (ap at (omega arith) ∙ e)))

  -- One slot further on is the window from the next position.
  pub window_shift :
      (slots : ℕ → A) (at at' : ℕ → ℕ) (k n : ℕ)
      → ((j : ℕ) → at (j + 1) ≡ at' j)
      → window slots at (k + 1) n ≡ window slots at' k n
  window_shift slots at at' k zero e = refl
  window_shift slots at at' k (suc n) e =
      rw (e k) (ap (λ (xs : List A). slots (at' k) ∷ xs) (window_shift slots at at' (k + 1) n e))
