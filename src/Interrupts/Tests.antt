-- ===== src/Interrupts/Tests.antt =====
-- Interrupts at concrete inputs.
use novium_os.Prelude.{◌+◌, ◌≡◌, refl, false, ◌==◌, if◌then◌else◌, [], ◌∷◌, arith}
use novium_os.Prelude.Bits.{has_bit, clear_bit}
use novium_os.Interrupts.{
  wrote, preempted, handled, Interrupts, irq_base, pic_init, irq_register, returned, serve,
  acknowledge, isr_dispatch,
}
use novium_os.Interrupts.Masks.{last_written, is_masked, irq_register_lem}
use novium_os.Interrupts.Dispatch.{Outcome, isr_dispatch-Outcome}

-- The controllers read back what was written last, so that line 7 is in service after no read.
abbrev fresh : Interrupts
fresh = record {
  idt = λ _. record { offset_low = 0; selector = 0; zero_byte = 0; type_attr = 0; offset_high = 0 };
  idt_limit = 0;
  handlers = λ v. if v == 0x20 then 0x1234 else 0;
  spurious_count = λ _. 0;
  spurious_reported = 0;
  log = [];
}

opens_mouse :
    (last_written (irq_register last_written 12 0x5000 (pic_init fresh)).log 0xA1 ≡ 0xEF)
    × (last_written (irq_register last_written 12 0x5000 (pic_init fresh)).log 0x21 ≡ 0xFB)
unfolding irq_register pic_init clear_bit
opens_mouse = (refl, refl)

irq_register_lem_example :
    let s' = irq_register last_written 12 0x5000 (pic_init fresh) in
    (is_masked s' 2 ≡ false)
    × (s'.handlers (irq_base + 2) ≡ (pic_init fresh).handlers (irq_base + 2))
irq_register_lem_example =
    irq_register_lem last_written (λ log line. refl) 12 0x5000 2 (pic_init fresh) (omega arith)
      (omega arith) (omega arith)

-- Each handler counts one up, and so does a preemption, by 100.
served_order :
    isr_dispatch last_written (λ h w. w + 1) (λ w. w + 100) 0x20 fresh 0
    ≡ returned (record fresh { log = preempted ∷ wrote 0x20 0x20 ∷ handled 0x20 ∷ [] }) 101
unfolding isr_dispatch has_bit serve acknowledge
served_order = refl

isr_dispatch-Outcome_example :
    Outcome last_written
      (λ h w. w + 1)
      (λ w. w + 100)
      0x27
      fresh
      0
      (isr_dispatch last_written (λ h w. w + 1) (λ w. w + 100) 0x27 fresh 0)
isr_dispatch-Outcome_example =
    isr_dispatch-Outcome last_written (λ h w. w + 1) (λ w. w + 100) 0x27 fresh 0
