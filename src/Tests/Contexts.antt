-- ===== src/Tests/Contexts.antt =====
-- A switch of the context at a concrete processor.
use turnix.Base.{◌+◌, none, some, arith, refl}
use turnix.Context.{Processor, arch_context_switch, switch_to}
use turnix.Context.Resume.{IsBack, switch-IsBack}

-- Thread 1 calls, with its stack below 0x2000.
abbrev caller : Processor
caller = record {
  cpu = record {
    eax = 1;
    ecx = 2;
    edx = 3;
    ebx = 4;
    esp = 0x1f00;
    ebp = 0x1f80;
    esi = 5;
    edi = 6;
    eip = 0x100000;
    cs = 8;
    eflags = 2;
  };
  memory = λ a. a + 0x100000;
  contexts = λ t. 0x3000;
  current = some 1;
}

-- The processor at the start of thread 2
abbrev other : Processor
other = arch_context_switch 2 caller

-- Thread 2 ends, and its last switch is to thread 1.
abbrev ending : Processor
ending = record other { current = none }

switch-IsBack_example : IsBack caller.cpu caller.memory (switch_to 1 0x2ff0 other.memory ending).cpu
switch-IsBack_example =
    switch-IsBack 1 2 caller ending 0x2ff0 other.memory refl (omega arith, omega arith)
      (omega arith) tt refl (λ k h. refl)
