-- ===== src/Arch/Idt.antt =====
-- src/arch/x86_64/idt.c and idt.h, the interrupt descriptor table. The handlers are assembly: their
-- addresses are arguments. `lidt` is left out: the state has what it is given.
pub mod Gates
use miyabi.Base.{ℕ, ◌+◌, ◌*◌, ◌^◌, if◌then◌else◌, ◌==◌, update, shr, low_bits}

-- `idt_entry_t`
pub record IdtEntry : Type 0 where
  pub offset_low : ℕ
  pub selector : ℕ
  pub ist : ℕ
  pub type_attr : ℕ
  pub offset_mid : ℕ
  pub offset_high : ℕ
  pub zero_ : ℕ

-- The addresses of the handlers.
pub record Handlers : Type 0 where
  pub isr0 : ℕ
  pub isr8 : ℕ
  pub isr13 : ℕ
  pub isr14 : ℕ
  pub irq0 : ℕ
  pub irq1 : ℕ
  pub isr128 : ℕ

-- The static variables of the file; `limit` and `base` are those of `idtr`.
pub record Idt : Type 0 where
  pub idt : ℕ → IdtEntry
  pub limit : ℕ
  pub base : ℕ

abbrev pub idt_interrupt_gate : ℕ
idt_interrupt_gate = 142

abbrev pub idt_user_interrupt_gate : ℕ
idt_user_interrupt_gate = 238

-- `static void idt_set_gate(int vector, void *handler, uint8_t flags)`
unfoldable pub idt_set_gate : ℕ → ℕ → ℕ → (ℕ → IdtEntry) → ℕ → IdtEntry
idt_set_gate vector handler flags idt = update idt vector (record {
  offset_low = low_bits handler 16;
  selector = 8;
  ist = 0;
  type_attr = flags;
  offset_mid = low_bits (shr handler 16) 16;
  offset_high = low_bits (shr handler 32) 32;
  zero_ = 0;
})

-- `void init_idt(void)`, where `at` is the address of the table.
unfoldable pub init_idt : Handlers → ℕ → Idt → Idt
unfolding idt_set_gate
init_idt h at t =
    let gate0 = idt_set_gate 0 h.isr0 idt_interrupt_gate t.idt in
    let gate8 = idt_set_gate 8 h.isr8 idt_interrupt_gate gate0 in
    let gate13 = idt_set_gate 13 h.isr13 idt_interrupt_gate gate8 in
    let gate14 = idt_set_gate 14 h.isr14 idt_interrupt_gate gate13 in
    let gate32 = idt_set_gate 32 h.irq0 idt_interrupt_gate gate14 in
    let gate33 = idt_set_gate 33 h.irq1 idt_interrupt_gate gate32 in
    record t {
      idt = idt_set_gate 128 h.isr128 idt_user_interrupt_gate gate33;
      limit = 4095;
      base = at;
    }
