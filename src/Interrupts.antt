-- ===== src/Interrupts.antt =====
-- Interrupt dispatch, arch/x86_32/kernel/irq.c. The log has the writes to I/O ports, the calls of
-- handlers, the warnings and the preemptions, the newest first. What a read of a port gives is the
-- argument `inb`, since it is the device's: it depends on what was done before. Handlers are addresses
-- and 0 is none; `call` runs one on the rest of the kernel, and `preempt` is SchedPreempt.
pub mod Gates
pub mod Masks
pub mod Dispatch
pub mod Tests
use novium_os.Prelude.{
  ℕ, zero, suc, ◌+◌, ◌-◌, ◌*◌, ◌/◌, ◌%◌, ◌^◌, Bool, true, false, not, ◌&&◌, ◌||◌, ltb, leb, ◌==◌,
  if◌then◌else◌, List, [], ◌∷◌, update,
}
use novium_os.Prelude.Bits.{has_bit, set_bit, clear_bit}

abbrev pub pic1_cmd : ℕ
pic1_cmd = 0x20

abbrev pub pic1_data : ℕ
pic1_data = 0x21

abbrev pub pic2_cmd : ℕ
pic2_cmd = 0xA0

abbrev pub pic2_data : ℕ
pic2_data = 0xA1

abbrev pub pic_eoi : ℕ
pic_eoi = 0x20

abbrev pub irq_base : ℕ
irq_base = 0x20

abbrev pub irq_count : ℕ
irq_count = 16

abbrev pub int_vectors : ℕ
int_vectors = 256

-- `zero_byte` is the field `zero`. Of the IDTR the limit is kept; its base is the address of the table.
pub record IdtEntry : Type 0 where
  pub offset_low : ℕ
  pub selector : ℕ
  pub zero_byte : ℕ
  pub type_attr : ℕ
  pub offset_high : ℕ

pub data Event : Type 0 where
  wrote : (port value : ℕ) → Event
  handled : (vector : ℕ) → Event
  warned : (line : ℕ) → Event
  preempted : Event

pub record Interrupts : Type 0 where
  pub idt : ℕ → IdtEntry
  pub idt_limit : ℕ
  pub handlers : ℕ → ℕ
  pub spurious_count : ℕ → ℕ
  pub spurious_reported : ℕ
  pub log : List Event

abbrev pub record_event : Event → Interrupts → Interrupts
record_event e s = record s { log = e ∷ s.log }

abbrev pub outb : ℕ → ℕ → Interrupts → Interrupts
outb port value s = record_event (wrote port value) s

unfoldable pub idt_set_gate : ℕ → ℕ → Interrupts → Interrupts
idt_set_gate n fn s = record s {
  idt = update s.idt n (record {
    offset_low = fn % 2 ^ 16;
    selector = 0x10;
    zero_byte = 0;
    type_attr = 0x8E;
    offset_high = fn / 2 ^ 16 % 2 ^ 16;
  });
}

-- A loop over gates from `i` on, with `n` gates left.
unfoldable pub set_gates : (ℕ → ℕ) → ℕ → ℕ → Interrupts → Interrupts
unfolding idt_set_gate
set_gates address zero i s = s
set_gates address (suc n) i s = set_gates address n (i + 1) (idt_set_gate i (address i) s)

-- `stub_table` and `stub_placeholder` are addresses of assembly.
unfoldable pub idt_init : (ℕ → ℕ) → ℕ → Interrupts → Interrupts
unfolding set_gates
idt_init stub_table stub_placeholder s =
    let stubs = set_gates stub_table 48 0 s in
    record (set_gates (λ _. stub_placeholder) (int_vectors - 48) 48 stubs) {
      idt_limit = int_vectors * 8 - 1;
    }

unfoldable pub pic_init : Interrupts → Interrupts
pic_init s =
    let a = outb pic2_cmd 0x11 (outb pic1_cmd 0x11 s) in
    let b = outb pic2_data (irq_base + 8) (outb pic1_data irq_base a) in
    let c = outb pic2_data 0x02 (outb pic1_data 0x04 b) in
    let d = outb pic2_data 0x01 (outb pic1_data 0x01 c) in
    outb pic2_data 0xFF (outb pic1_data 0xFF d)

abbrev pub data_port : ℕ → ℕ
data_port irq = if ltb irq 8 then pic1_data else pic2_data

-- A line of an `int`, read as a word of 32 bits: a negative one is above every line.
unfoldable pub irq_spurious_count : ℕ → Interrupts → ℕ
irq_spurious_count irq s = if leb irq_count irq then 0 else s.spurious_count irq

module _ (inb : List Event → ℕ → ℕ) where
  unfoldable pub irq_register : ℕ → ℕ → Interrupts → Interrupts
  irq_register irq h s =
      let set = record s { handlers = update s.handlers (irq_base + irq) h } in
      let port = data_port irq in
      let opened = outb port (clear_bit (inb set.log port) (irq % 8)) set in
      let cascade = outb pic1_data (clear_bit (inb opened.log pic1_data) 2) opened in
      if leb irq_count irq || h == 0 then s else if leb 8 irq then cascade else opened

  unfoldable pub irq_unregister : ℕ → Interrupts → Interrupts
  irq_unregister irq s =
      let set = record s { handlers = update s.handlers (irq_base + irq) 0 } in
      let port = data_port irq in
      if leb irq_count irq then s else outb port (set_bit (inb set.log port) (irq % 8)) set

-- A dispatch halts the processor on an exception and otherwise returns.
pub data Dispatched (W : Type 0) : Type 0 where
  halted : Dispatched W
  returned : Interrupts → W → Dispatched W

-- Whether the line of `IRQ7` or `IRQ15` is checked.
abbrev pub is_checked : ℕ → Bool
is_checked line = line == 7 || line == 15

abbrev pub command_port : ℕ → ℕ
command_port line = if line == 7 then pic1_cmd else pic2_cmd

-- The end of a spurious interrupt.
unfoldable pub count_spurious : ℕ → Interrupts → Interrupts
count_spurious line s =
    let counted = record s {
      spurious_count = update s.spurious_count line ((s.spurious_count line + 1) % 2 ^ 32);
    } in
    let acked = if line == 15 then outb pic1_cmd pic_eoi counted else counted in
    let warning =
      record_event (warned line)
        (record acked { spurious_reported = set_bit acked.spurious_reported line }) in
    if has_bit acked.spurious_reported line then acked else warning

-- The end of an interrupt that was served, from the call of the handler to the last write.
unfoldable pub acknowledge : ℕ → Interrupts → Interrupts
acknowledge vec s =
    let ran = if s.handlers vec == 0 then s else record_event (handled vec) s in
    let slave = if leb 8 (vec - irq_base) then outb pic2_cmd pic_eoi ran else ran in
    outb pic1_cmd pic_eoi slave

module _ {W : Type 0} (inb : List Event → ℕ → ℕ) (call : ℕ → W → W) (preempt : W → W) where
  -- The handler, the ends of interrupt and the preemption.
  unfoldable pub serve : ℕ → Interrupts → W → Dispatched W
  unfolding acknowledge
  serve vec s w =
      returned (record_event preempted (acknowledge vec s))
        (preempt (if s.handlers vec == 0 then w else call (s.handlers vec) w))

  unfoldable pub isr_dispatch : ℕ → Interrupts → W → Dispatched W
  unfolding serve count_spurious
  isr_dispatch vec s w =
      let line = vec - irq_base in
      let port = command_port line in
      let asked = outb port 0x0B s in
      let in_service = inb asked.log port in
      let checked = outb port 0x0A asked in
      if ltb vec irq_base
      then halted
      else if is_checked line && not (has_bit in_service 7)
      then returned (count_spurious line checked) w
      else serve vec (if is_checked line then checked else s) w
