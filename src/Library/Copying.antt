-- ===== src/Library/Copying.antt =====
-- `memset`, `memcpy` and `memmove` against what a region holds afterwards.
use novium_os.Prelude.{
  ℕ, zero, suc, ◌+◌, ◌-◌, ◌%◌, ◌≤◌, ◌<◌, ◌≡◌, sym, ap, ◌∙◌, ◌⊎◌, inl, inr, Bool, true, false, ◌&&◌,
  ltb, leb, ◌==◌, if◌then◌else◌, arith, Bool-cases, update,
}
use novium_os.Library.{Memory, memset, copy_up, copy_down, memmove, memcpy}

abbrev pub within : ℕ → ℕ → ℕ → Bool
within start n i = leb start i && ltb i (start + n)

-- The memory with `n` bytes from `s` on copied to `d`, all at once.
abbrev pub copied : Memory → ℕ → ℕ → ℕ → Memory
copied m d s n i = if within d n i then m (s + (i - d)) else m i

-- `memset` writes the low byte of `c` to the region and nothing else.
pub memset_lem :
    (m : Memory) (s c n i : ℕ) → memset m s c n i ≡ (if within s n i then c % 256 else m i)
unfolding memset
memset_lem m s c zero i = ground arith
memset_lem m s c (suc n) i = ground (arith, memset_lem (update m s (c % 256)) (s + 1) c n i)

copied_up :
    (m : Memory) (d s n i : ℕ)
    → (d < s) ⊎ (s + suc n ≤ d)
    → copied (update m d (m s)) (d + 1) (s + 1) n i ≡ copied m d s (suc n) i
copied_up m d s n i h = elim (Bool-cases (within (d + 1) n i)) [
  | inl inside ↦
      let place : s + 1 + (i - (d + 1)) ≡ s + (i - d) = ground arith in
      let more : within d (suc n) i ≡ true = ground arith in
      let other : (d == s + (i - d)) ≡ false = ground arith in rw (inside, place, other, more)
  | inr outside ↦ elim (Bool-cases (d == i)) [
    | inl here ↦
        let more : within d (suc n) i ≡ true = ground arith in
        rw (outside, here, more) (ap m (ground arith))
    | inr off ↦ let less : within d (suc n) i ≡ false = ground arith in rw (outside, off, less)
  ]
]

copied_down :
    (m : Memory) (d s n i : ℕ)
    → s < d
    → copied (update m (d + n) (m (s + n))) d s n i ≡ copied m d s (suc n) i
copied_down m d s n i h = elim (Bool-cases (within d n i)) [
  | inl inside ↦
      let more : within d (suc n) i ≡ true = ground arith in
      let other : (d + n == s + (i - d)) ≡ false = ground arith in rw (inside, other, more)
  | inr outside ↦ elim (Bool-cases (d + n == i)) [
    | inl here ↦
        let more : within d (suc n) i ≡ true = ground arith in
        rw (outside, here, more) (ap m (ground arith))
    | inr off ↦ let less : within d (suc n) i ≡ false = ground arith in rw (outside, off, less)
  ]
]

copy_up_lem :
    (m : Memory) (d s n i : ℕ) → (d < s) ⊎ (s + n ≤ d) → copy_up m d s n i ≡ copied m d s n i
unfolding copy_up
copy_up_lem m d s zero i h = ground arith
copy_up_lem m d s (suc n) i h =
    copy_up_lem (update m d (m s)) (d + 1) (s + 1) n i (ground arith) ∙ copied_up m d s n i h

copy_down_lem : (m : Memory) (d s n i : ℕ) → s < d → copy_down m d s n i ≡ copied m d s n i
unfolding copy_down
copy_down_lem m d s zero i h = ground arith
copy_down_lem m d s (suc n) i h =
    copy_down_lem (update m (d + n) (m (s + n))) d s n i h ∙ copied_down m d s n i h

-- `memmove` copies the region as if all bytes were read first, however the two regions overlap.
pub memmove_lem : (m : Memory) (d s n i : ℕ) → memmove m d s n i ≡ copied m d s n i
unfolding memmove
memmove_lem m d s n i = elim (Bool-cases (ltb d s)) [
  | inl up ↦ rw up (copy_up_lem m d s n i (inl (ground arith)))
  | inr not_up ↦ elim (Bool-cases (ltb s d)) [
    | inl down ↦ rw (not_up, down) (copy_down_lem m d s n i (ground arith))
    | inr same ↦
        let mine : copied m d s n i ≡ m i = elim (Bool-cases (within d n i)) [
          | inl inside ↦ rw inside (ap m (ground arith))
          | inr outside ↦ rw outside
        ] in
        rw (not_up, same) (sym mine)
  ]
]

-- `memcpy` does the same for regions that do not overlap, or whose destination is the lower.
memcpy_lem :
    (m : Memory) (d s n i : ℕ) → (d < s) ⊎ (s + n ≤ d) → memcpy m d s n i ≡ copied m d s n i
unfolding memcpy
memcpy_lem m d s n i h = copy_up_lem m d s n i h
