-- ===== src/Idt.antt =====
-- arch/i386/kernel/idt.c and arch/i386/kernel/interrupt.c: the gates of the interrupts and the table
-- of their handlers. The list `isr`, whose entries come from a file that the build makes, is a
-- parameter: the address of each routine, or nothing for NULL.
pub mod Gates
use turnix.Base.{
  ℕ, zero, suc, ◌+◌, ◌*◌, ◌/◌, ◌%◌, ◌^◌, Option, none, some, List, [], ◌∷◌, ltb, if◌then◌else◌,
  update,
}
use turnix.Gdt.{kernel_cs}
use turnix.Pic.{Ports, pic_init}

-- `enum id_type`
pub data IdType : Type 0 where
  interrupt_gate trap_gate : IdType

abbrev pub type_number : IdType → ℕ
type_number interrupt_gate = 6
type_number trap_gate = 7

-- `struct id`; the field `type` is `kind`.
pub record Id386 : Type 0 where
  pub base_addr_low : ℕ
  pub seg_sel : ℕ
  pub zero_byte : ℕ
  pub kind : ℕ
  pub gate_32bit : ℕ
  pub zero_1 : ℕ
  pub privilege : ℕ
  pub present : ℕ
  pub base_addr_high : ℕ

unfoldable pub id_set : ℕ → ℕ → IdType → Id386
id_set addr privilege type = record {
  base_addr_low = addr % 2 ^ 16;
  seg_sel = kernel_cs;
  zero_byte = 0;
  kind = type_number type;
  gate_32bit = 1;
  zero_1 = 0;
  privilege = privilege % 2 ^ 2;
  present = 1;
  base_addr_high = addr / 2 ^ 16 % 2 ^ 16;
}

-- The two words of the structure
abbrev pub id_words : Id386 → ℕ × ℕ
id_words id = (
  id.base_addr_low + id.seg_sel * 2 ^ 16,
  id.zero_byte
      + id.kind * 2 ^ 8
      + id.gate_32bit * 2 ^ 11
      + id.zero_1 * 2 ^ 12
      + id.privilege * 2 ^ 13
      + id.present * 2 ^ 15
      + id.base_addr_high * 2 ^ 16,
)

-- What memset leaves
abbrev pub id_zero : Id386
id_zero = record {
  base_addr_low = 0;
  seg_sel = 0;
  zero_byte = 0;
  kind = 0;
  gate_32bit = 0;
  zero_1 = 0;
  privilege = 0;
  present = 0;
  base_addr_high = 0;
}

abbrev pub setup_isr : ℕ → ℕ → ℕ → IdType → (ℕ → Id386) → ℕ → Id386
setup_isr irq addr privilege type idt = update idt irq (id_set addr privilege type)

-- The loop of idt_init from the entry `i` on
unfoldable pub setup_from : ℕ → List (Option ℕ) → (ℕ → Id386) → ℕ → Id386
setup_from i [] idt = idt
setup_from i (none ∷ isr) idt = setup_from (i + 1) isr idt
setup_from i (some addr ∷ isr) idt = setup_from (i + 1) isr (setup_isr i addr 0 interrupt_gate idt)

unfoldable pub idt_init : List (Option ℕ) → ℕ → Id386
idt_init isr = setup_from 0 isr (λ i. id_zero)

-- The handlers of interrupt.c, for interrupts up to `irq_max`
module _ {ℓ} {H : Type ℓ} (irq_max : ℕ) (interrupt_default_handler : H) where
  -- The table after interrupt_register and the old handler, or nothing for -1.
  unfoldable pub interrupt_register : ℕ → Option H → (ℕ → H) → Option H × (ℕ → H)
  interrupt_register irq handler table =
      let new : H = elim handler [ none ↦ interrupt_default_handler | some h ↦ h ] in
      if ltb irq_max irq then (none, table) else (some (table irq), update table irq new)

  -- The handlers, the gates and the controllers after interrupt_init
  abbrev pub interrupt_init : List (Option ℕ) → Ports → (ℕ → H) × (ℕ → Id386) × Ports
  interrupt_init isr io = (λ irq. interrupt_default_handler, idt_init isr, pic_init io)
