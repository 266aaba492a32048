-- ===== src/Context.antt =====
-- The registers of a thread: arch_context_switch, __arch_context_switch and restore of
-- arch/i386/kernel/isr.S, and arch_pthread_init of arch/i386/kernel/arch.c, as they are configured
-- (CONFIG_USERSPACE and CONFIG_SWI are 0). The memory is one of words of 32 bits, by the addresses of
-- their first bytes, and a stack pointer is a multiple of 4.
pub mod Resume
use turnix.Base.{
  ℕ, ◌+◌, ◌-◌, ◌*◌, ◌%◌, ◌^◌, List, [], ◌∷◌, ◌++◌, Option, none, some, update, length,
}
use turnix.Gdt.{kernel_cs}

pub record Registers : Type 0 where
  pub eax : ℕ
  pub ecx : ℕ
  pub edx : ℕ
  pub ebx : ℕ
  pub esp : ℕ
  pub ebp : ℕ
  pub esi : ℕ
  pub edi : ℕ
  pub eip : ℕ
  pub cs : ℕ
  pub eflags : ℕ

-- A processor with its memory, the saved stack pointers of the threads, and the current thread
pub record Processor : Type 0 where
  pub cpu : Registers
  pub memory : ℕ → ℕ
  pub contexts : ℕ → ℕ
  pub current : Option ℕ

-- The stack pointer below a word that is pushed
abbrev pub lower : ℕ → ℕ
lower esp = (esp + 2 ^ 32 - 4) % 2 ^ 32

abbrev pub higher : ℕ → ℕ → ℕ
higher esp n = (esp + n) % 2 ^ 32

-- The stack pointer and the memory after pushes, the first word first
unfoldable pub push_all : List ℕ → ℕ → (ℕ → ℕ) → ℕ × (ℕ → ℕ)
push_all [] esp memory = (esp, memory)
push_all (v ∷ vs) esp memory = push_all vs (lower esp) (update memory (lower esp) v)

-- What `pusha` pushes
abbrev pub pusha : Registers → ℕ → List ℕ
pusha r esp = r.eax ∷ r.ecx ∷ r.edx ∷ r.ebx ∷ esp ∷ r.ebp ∷ r.esi ∷ r.edi ∷ []

-- The frame of arch_context_switch: the flags, the segment, the place to return to, and two words in
-- the place of the number and the error of an interrupt. The place to return to is in eax by then.
abbrev pub frame : Registers → ℕ → List ℕ
frame r back = r.eflags ∷ r.cs ∷ back ∷ 0 ∷ 0 ∷ []

-- `restore`: `popa`, which skips the stack pointer, and `iret`
unfoldable pub restore : ℕ → (ℕ → ℕ) → Registers
restore esp memory = record {
  edi = memory esp;
  esi = memory (higher esp 4);
  ebp = memory (higher esp 8);
  ebx = memory (higher esp 16);
  edx = memory (higher esp 20);
  ecx = memory (higher esp 24);
  eax = memory (higher esp 28);
  eip = memory (higher esp 40);
  cs = memory (higher esp 44) % 2 ^ 16;
  eflags = memory (higher esp 48);
  esp = higher esp 52;
}

abbrev pub save_current : Option ℕ → ℕ → (ℕ → ℕ) → ℕ → ℕ
save_current none esp contexts = contexts
save_current (some t) esp contexts = update contexts t esp

-- `__arch_context_switch`, with the stack pointer that it is reached with
unfoldable pub switch_to : ℕ → ℕ → (ℕ → ℕ) → Processor → Processor
switch_to next esp memory m =
    let contexts = save_current m.current esp m.contexts in
    record {
      cpu = restore (contexts next) memory;
      memory = memory;
      contexts = contexts;
      current = some next;
    }

-- `save_context` and what arch_context_switch pushes before it
unfoldable pub save : Registers → (ℕ → ℕ) → ℕ × (ℕ → ℕ)
save r memory =
    let back = memory r.esp in
    let top = higher r.esp 4 in
    let (esp, framed) = push_all (frame r back) top memory in
    push_all (pusha (record r { eax = back }) esp) esp framed

unfoldable pub arch_context_switch : ℕ → Processor → Processor
arch_context_switch next m = let (esp, memory) = save m.cpu m.memory in switch_to next esp memory m

abbrev pub cpu_flag_if : ℕ
cpu_flag_if = 0x200

-- The saved stack pointer and the memory after arch_pthread_init; `ctx->cs` is the lower half of a word.
unfoldable pub arch_pthread_init : ℕ → ℕ → ℕ → ℕ → ℕ → ℕ → (ℕ → ℕ) → ℕ × (ℕ → ℕ)
arch_pthread_init stack_addr stack_size wrapper start_routine arg abort memory =
    let stack = stack_addr + stack_size in
    let ctx = stack - 12 - 52 in
    let called =
      update (update (update memory (stack - 4) arg) (stack - 8) start_routine) (stack - 12)
        abort in
    let jumps = update (update called (ctx + 40) wrapper) (ctx + 8) (stack - 4) in
    let half = jumps (ctx + 44) - jumps (ctx + 44) % 2 ^ 16 + kernel_cs in
    (
      ctx,
      update (update (update jumps (ctx + 12) (stack - 12)) (ctx + 44) half) (ctx + 48) cpu_flag_if,
    )
