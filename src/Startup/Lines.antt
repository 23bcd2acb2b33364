-- ===== src/Startup/Lines.antt =====
-- The interrupt lines that are open after the start.
use novium_os.Prelude.{
  ℕ, zero, suc, ◌%◌, ◌+◌, ◌<◌, ◌≡◌, ◌≢◌, refl, ap, ◌∙◌, true, false, Bool, not, leb, ◌&&◌, ◌||◌,
  ◌==◌, ltb, if◌then◌else◌, List, arith, Bool-cases, inl, inr,
}
use novium_os.Prelude.Bits.{has_bit}
use novium_os.Interrupts.{
  set_gates, idt_set_gate, Event, Interrupts, outb, irq_base, irq_register, pic_init, idt_init,
  data_port,
}
use novium_os.Interrupts.Masks.{last_written, ReadsMask, is_masked, irq_register_lem}
use novium_os.Timer.{divisor_for, timer_init, io_wait}
use novium_os.Startup.{Addresses, Hardware, keyboard_init, hw_init}

-- The writes of `timer_init` to the timer.
abbrev programmed : Interrupts → Interrupts
programmed s = outb 0x40 46 (io_wait (outb 0x40 155 (io_wait (outb 0x43 0x36 s))))

full_byte : (i : ℕ) → i < 8 → has_bit 0xFF i ≡ true
unfolding has_bit
full_byte i h = elim (Bool-cases (ltb i 4)) [
  | inl low ↦ elim (Bool-cases (ltb i 2)) [
    | inl a ↦ elim (Bool-cases (i == 0)) [
      | inl e ↦ let k : i ≡ 0 = ground arith in rw k refl
      | inr e ↦ let k : i ≡ 1 = ground arith in rw k refl
    ]
    | inr a ↦ elim (Bool-cases (i == 2)) [
      | inl e ↦ let k : i ≡ 2 = ground arith in rw k refl
      | inr e ↦ let k : i ≡ 3 = ground arith in rw k refl
    ]
  ]
  | inr high ↦ elim (Bool-cases (ltb i 6)) [
    | inl a ↦ elim (Bool-cases (i == 4)) [
      | inl e ↦ let k : i ≡ 4 = ground arith in rw k refl
      | inr e ↦ let k : i ≡ 5 = ground arith in rw k refl
    ]
    | inr a ↦ elim (Bool-cases (i == 6)) [
      | inl e ↦ let k : i ≡ 6 = ground arith in rw k refl
      | inr e ↦ let k : i ≡ 7 = ground arith in rw k refl
    ]
  ]
]

all_masked : (line : ℕ) (s : Interrupts) → is_masked (programmed (pic_init s)) line ≡ true
unfolding pic_init
all_masked line s =
    let full : last_written (programmed (pic_init s)).log (data_port line) ≡ 0xFF =
      elim (Bool-cases (ltb line 8)) [ inl low ↦ rw low refl | inr high ↦ rw high refl ] in
    ap (λ v. has_bit v (line % 8)) full ∙ full_byte (line % 8) (omega arith)

set_gates-handlers :
    (address : ℕ → ℕ) (n i : ℕ) (s : Interrupts) → (set_gates address n i s).handlers ≡ s.handlers
unfolding set_gates idt_set_gate
set_gates-handlers address zero i s = refl
set_gates-handlers address (suc n) i s =
    set_gates-handlers address n (i + 1) (idt_set_gate i (address i) s)

wired-handlers :
    (stubs : ℕ → ℕ) (placeholder : ℕ) (s : Interrupts)
    → (programmed (pic_init (idt_init stubs placeholder s))).handlers ≡ s.handlers
unfolding pic_init idt_init
wired-handlers stubs placeholder s =
    set_gates-handlers (λ _. placeholder) 208 48 (set_gates stubs 48 0 s)
    ∙ set_gates-handlers stubs 48 0 s

both_masks :
    (line : ℕ) (first second : Bool)
    → second ≡ true
    → first ≡ (if 0 == line then false else if leb 8 0 && (line == 2) then false else second)
    → (if 1 == line then false else if leb 8 1 && (line == 2) then false else first)
      ≡ not (line == 0 || line == 1)
both_masks line first second h k = ground arith

both_handlers :
    (line clock keyboard first second old : ℕ)
    → second ≡ old
    → first ≡ (if 0 == line then clock else second)
    → (if 1 == line then keyboard else first)
      ≡ (if line == 0 then clock else if line == 1 then keyboard else old)
both_handlers line clock keyboard first second old h k = ground arith

module _ (inb : List Event → ℕ → ℕ) (at : Addresses) where
  hw_init_steps :
      (s : Hardware)
      → ((hw_init inb at s).interrupts
          ≡ irq_register inb 1 at.keyboard_callback (
              irq_register inb 0 at.timer_callback
                (programmed (pic_init (idt_init at.stub_table at.stub_placeholder s.interrupts)))))
        × ((hw_init inb at s).timer.ticks_per_second ≡ 100)
        × ((hw_init inb at s).irqs_enabled ≡ true)
  unfolding hw_init timer_init divisor_for keyboard_init
  hw_init_steps s = (refl, refl, refl)

  -- After `hw_init`, on controllers that read back their masks and with two handlers that are not
  -- null, the lines of the timer and the keyboard are open and all others masked, the two handlers
  -- are in place and the others as they were, the timer runs at 100 Hz and interrupts are on.
  pub hw_init_lem :
      (reads : ReadsMask inb) (s : Hardware) (line : ℕ)
      → at.timer_callback ≢ 0
      → at.keyboard_callback ≢ 0
      → line < 16
      → let s' = hw_init inb at s in
        (is_masked s'.interrupts line ≡ not (line == 0 || line == 1))
        × (s'.interrupts.handlers (irq_base + line) ≡ (
            if line == 0
            then at.timer_callback
            else if line == 1
            then at.keyboard_callback
            else s.interrupts.handlers (irq_base + line)))
        × (s'.timer.ticks_per_second ≡ 100)
        × (s'.irqs_enabled ≡ true)
  hw_init_lem reads s line a b c =
      let wired = programmed (pic_init (idt_init at.stub_table at.stub_placeholder s.interrupts)) in
      let ticking = irq_register inb 0 at.timer_callback wired in
      let st = hw_init_steps s in
      let one = irq_register_lem inb reads 0 at.timer_callback line wired (omega arith) a c in
      let two = irq_register_lem inb reads 1 at.keyboard_callback line ticking (omega arith) b c in
      let masked = all_masked line (idt_init at.stub_table at.stub_placeholder s.interrupts) in
      let kept : wired.handlers (irq_base + line) ≡ s.interrupts.handlers (irq_base + line) =
        ap (λ (f : ℕ → ℕ). f (irq_base + line))
          (wired-handlers at.stub_table at.stub_placeholder s.interrupts) in
      (
        ap (λ (k : Interrupts). is_masked k line) st.0 ∙ two.0 ∙ both_masks line _ _ masked one.0,
        ap (λ (k : Interrupts). k.handlers (irq_base + line)) st.0
            ∙ two.1
            ∙ both_handlers line _ _ _ _ _ kept one.1,
        st.1,
        st.2,
      )
