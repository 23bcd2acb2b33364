-- ===== src/Interrupts/Gates.antt =====
-- The interrupt table that `idt_init` leaves.
use novium_os.Prelude.{
  ℕ, zero, suc, ◌+◌, ◌*◌, ◌/◌, ◌%◌, ◌^◌, ◌<◌, ◌≡◌, refl, ◌∙◌, ap, inl, inr, Bool, true, false, ltb,
  leb, ◌==◌, ◌&&◌, if◌then◌else◌, arith, Bool-cases, if_true, if_false,
}
use novium_os.Interrupts.{IdtEntry, Interrupts, idt_set_gate, set_gates, idt_init}

-- Where a gate leads to: an interrupt gate of the kernel's code segment.
abbrev pub LeadsTo : ℕ → IdtEntry → Type 0
LeadsTo address e =
    (e.offset_low + e.offset_high * 2 ^ 16 ≡ address) × (e.selector ≡ 0x10) × (e.type_attr ≡ 0x8E)

abbrev gate : ℕ → IdtEntry
gate fn = record {
  offset_low = fn % 2 ^ 16;
  selector = 0x10;
  zero_byte = 0;
  type_attr = 0x8E;
  offset_high = fn / 2 ^ 16 % 2 ^ 16;
}

abbrev within : ℕ → ℕ → ℕ → Bool
within i n j = leb i j && ltb j (i + n)

set_gates_lem :
    (address : ℕ → ℕ) (n i : ℕ) (s : Interrupts) (j : ℕ)
    → (set_gates address n i s).idt j ≡ (if within i n j then gate (address j) else s.idt j)
unfolding set_gates idt_set_gate
set_gates_lem address zero i s j = let off : within i 0 j ≡ false = ground arith in rw off
set_gates_lem address (suc n) i s j =
    set_gates_lem address n (i + 1) (idt_set_gate i (address i) s) j ∙ elim (Bool-cases (i == j)) [
      | inl here ↦
          let later : within (i + 1) n j ≡ false = ground arith in
          let now : within i (suc n) j ≡ true = ground arith in
          rw (later, now, here) (ap (λ k. gate (address k)) (ground arith))
      | inr off ↦
          let same : within (i + 1) n j ≡ within i (suc n) j = ground arith in rw (same, off)
    ]

gate-LeadsTo : (fn : ℕ) (e : IdtEntry) → fn < 2 ^ 32 → e ≡ gate fn → LeadsTo fn e
gate-LeadsTo fn e h same = rw same (omega arith, refl, refl)

-- After `idt_init` the first 48 vectors lead to their stubs and the others to the placeholder.
idt_init_lem :
    (stub_table : ℕ → ℕ) (placeholder : ℕ) (s : Interrupts) (vec : ℕ)
    → ((i : ℕ) → stub_table i < 2 ^ 32)
    → placeholder < 2 ^ 32
    → vec < 256
    → LeadsTo
        (if ltb vec 48 then stub_table vec else placeholder)
        ((idt_init stub_table placeholder s).idt vec)
unfolding idt_init
idt_init_lem stub_table placeholder s vec h k v =
    let stubs = set_gates stub_table 48 0 s in
    let first = set_gates_lem stub_table 48 0 s vec in
    let second = set_gates_lem (λ _. placeholder) 208 48 stubs vec in
    elim (Bool-cases (ltb vec 48)) [
      | inl low ↦
          let a : within 48 208 vec ≡ false = ground arith in
          let b : within 0 48 vec ≡ true = ground arith in
          rw low (
            gate-LeadsTo (stub_table vec) _ (h vec) (
              second
              ∙ if_false (within 48 208 vec) _ _ a
              ∙ first
              ∙ if_true (within 0 48 vec) _ _ b))
      | inr high ↦
          let a : within 48 208 vec ≡ true = ground arith in
          rw high (gate-LeadsTo placeholder _ k (second ∙ if_true (within 48 208 vec) _ _ a))
    ]
