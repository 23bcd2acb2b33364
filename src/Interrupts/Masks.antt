-- ===== src/Interrupts/Masks.antt =====
-- Which lines the two controllers let through.
use novium_os.Prelude.{
  ℕ, ◌+◌, ◌%◌, ◌<◌, ◌≡◌, ◌≢◌, ◌∙◌, ap, inl, inr, Bool, true, false, ltb, leb, ◌==◌, ◌&&◌, ◌||◌,
  if◌then◌else◌, List, [], ◌∷◌, arith, Bool-cases,
}
use novium_os.Prelude.Bits.{has_bit, set_bit, clear_bit, has_bit-set_bit, has_bit-clear_bit}
use novium_os.Interrupts.{
  Event, wrote, handled, warned, preempted, Interrupts, irq_base, irq_count, data_port,
  irq_register, irq_unregister,
}

-- The last value written to a port.
abbrev pub last_written : List Event → ℕ → ℕ
last_written [] port = 0
last_written (wrote p value ∷ log) port = if p == port then value else last_written log port
last_written (handled vec ∷ log) port = last_written log port
last_written (warned line ∷ log) port = last_written log port
last_written (preempted ∷ log) port = last_written log port

-- The data port of a controller reads back its mask.
abbrev pub ReadsMask : (List Event → ℕ → ℕ) → Type 0
ReadsMask inb =
    (log : List Event) (line : ℕ) → inb log (data_port line) ≡ last_written log (data_port line)

-- Whether a line is masked after what the log tells.
abbrev pub is_masked_by : List Event → ℕ → Bool
is_masked_by log line = has_bit (last_written log (data_port line)) (line % 8)

abbrev pub is_masked : Interrupts → ℕ → Bool
is_masked s line = is_masked_by s.log line

same_port :
    (irq line : ℕ)
    → irq < 16
    → line < 16
    → (data_port irq == data_port line) ≡ (ltb irq 8 && ltb line 8 || leb 8 irq && leb 8 line)
same_port irq line a c = ground arith

module _ (inb : List Event → ℕ → ℕ) (reads : ReadsMask inb) where
  -- A write of the mask with one bit cleared, or set.
  open_line :
      (log : List Event) (irq line : ℕ)
      → irq < 16
      → line < 16
      → is_masked_by
          (wrote (data_port irq) (clear_bit (inb log (data_port irq)) (irq % 8)) ∷ log)
          line
        ≡ (if irq == line then false else is_masked_by log line)
  open_line log irq line a c = elim (Bool-cases (data_port irq == data_port line)) [
    | inl same ↦
        let ports : data_port irq ≡ data_port line = ground arith in
        let old : inb log (data_port irq) ≡ last_written log (data_port line) =
          reads log irq ∙ ap (λ p. last_written log p) ports in
        let bit =
          has_bit-clear_bit (last_written log (data_port line)) (irq % 8) (line % 8) (omega arith)
            (omega arith) in
        let half = same_port irq line a c in
        let bits : (irq % 8 == line % 8) ≡ (irq == line) = ground (arith, half) in
        rw (same, old) (bit ∙ rw bits)
    | inr off ↦
        let other : (irq == line) ≡ false = ground (arith, same_port irq line a c) in
        rw (off, other)
  ]

  close_line :
      (log : List Event) (irq line : ℕ)
      → irq < 16
      → line < 16
      → is_masked_by
          (wrote (data_port irq) (set_bit (inb log (data_port irq)) (irq % 8)) ∷ log)
          line
        ≡ (if irq == line then true else is_masked_by log line)
  close_line log irq line a c = elim (Bool-cases (data_port irq == data_port line)) [
    | inl same ↦
        let ports : data_port irq ≡ data_port line = ground arith in
        let old : inb log (data_port irq) ≡ last_written log (data_port line) =
          reads log irq ∙ ap (λ p. last_written log p) ports in
        let bit = has_bit-set_bit (last_written log (data_port line)) (irq % 8) (line % 8) in
        let half = same_port irq line a c in
        let bits : (irq % 8 == line % 8) ≡ (irq == line) = ground (arith, half) in
        rw (same, old) (bit ∙ rw bits)
    | inr off ↦
        let other : (irq == line) ≡ false = ground (arith, same_port irq line a c) in
        rw (off, other)
  ]

  -- On controllers that read back their masks, `irq_register` of a handler that is not null for a
  -- line opens that line, and the cascade to the second controller when the line is on it; every
  -- other line stays as it was, and so do the other handlers.
  pub irq_register_lem :
      (irq h line : ℕ) (s : Interrupts)
      → irq < 16
      → h ≢ 0
      → line < 16
      → let s' = irq_register inb irq h s in
        (is_masked s' line ≡ (
          if irq == line
          then false
          else if leb 8 irq && (line == 2)
          then false
          else is_masked s line))
        × (s'.handlers (irq_base + line)
            ≡ (if irq == line then h else s.handlers (irq_base + line)))
  unfolding irq_register
  irq_register_lem irq h line s a b c =
      let accepted : (leb irq_count irq || h == 0) ≡ false = ground arith in
      let first = open_line s.log irq line a c in
      let log' = wrote (data_port irq) (clear_bit (inb s.log (data_port irq)) (irq % 8)) ∷ s.log in
      let second = open_line log' 2 line (omega arith) c in
      elim (Bool-cases (leb 8 irq)) [
        | inl slave ↦ rw (accepted, slave) (second ∙ ground (arith, first), ground arith)
        | inr master ↦ rw (accepted, master) (first, ground arith)
      ]

  -- `irq_unregister` masks the line and takes its handler away, and leaves every other line alone.
  irq_unregister_lem :
      (irq line : ℕ) (s : Interrupts)
      → irq < 16
      → line < 16
      → let s' = irq_unregister inb irq s in
        (is_masked s' line ≡ (if irq == line then true else is_masked s line))
        × (s'.handlers (irq_base + line)
            ≡ (if irq == line then 0 else s.handlers (irq_base + line)))
  unfolding irq_unregister
  irq_unregister_lem irq line s a c =
      let in_range : leb irq_count irq ≡ false = ground arith in
      rw in_range (close_line s.log irq line a c, ground arith)
