-- ===== src/Sched.antt =====
-- The scheduler of kernel/pthread.c, with the end of an interrupt and the context switch of
-- arch/i386/kernel/isr.S. Interrupts are off in each function, so each runs as one step; what a
-- thread does after a switch back to it is another.
pub mod Choice
pub mod Rotate
pub mod Settle
pub mod Irq
pub mod Awake
use turnix.Base.{ℕ, Bool, true, false, Option, none, some, ◌==◌, if◌then◌else◌, []}
use turnix.Kernel.{Kernel, State, set_thread, Run, ok, fault, ◌>>=◌, idle}
use turnix.RunQueue.{enqueue, dequeue, peek, run_queue_init, timeslice_max}

abbrev pub is_running : State → Bool
is_running State.running = true
is_running _ = false

-- `pthread_next == pthread_current`
abbrev pub is_thread : Option ℕ → ℕ → Bool
is_thread none t = false
is_thread (some n) t = n == t

-- The first half of `__schedule`.
unfoldable pub requeue : Kernel → Kernel
requeue k =
    let th = k.threads k.current in
    if is_running th.state
    then (if th.timeslice == 0 then enqueue k.current false (dequeue k.current k) else k)
    else dequeue k.current k

-- `__schedule`
unfoldable pub choose : Kernel → Run Kernel
choose k = do n ← peek (requeue k); ok (record (requeue k) { next = some n })

-- `arch_context_switch`, up to where the other thread goes on
unfoldable pub context_switch : Kernel → Run Kernel
context_switch k = elim k.next [ none ↦ fault | some n ↦ ok (record k { current = n }) ]

-- `schedule` and `isr_comm` switch only to another thread.
unfoldable pub switch_if_other : Kernel → Run Kernel
unfolding context_switch
switch_if_other k = if is_thread k.next k.current then ok k else context_switch k

unfoldable pub schedule : Kernel → Run Kernel
schedule k = if k.in_irq then ok (record k { next = none }) else choose k >>= switch_if_other

-- `isr_comm`, after `interrupt_dispatch` has returned
unfoldable pub isr_return : Kernel → Run Kernel
isr_return k = elim k.next [ none ↦ choose k | some n ↦ ok k ] >>= switch_if_other

-- `interrupt_dispatch` and the rest of `isr_comm`, for a handler that is registered.
unfoldable pub interrupt_dispatch : (Kernel → Run Kernel) → Kernel → Run Kernel
interrupt_dispatch handler k = do
  k' ← handler (record k { in_irq = true })
  isr_return (record k' { in_irq = false })

-- `__pthread_set_running`
unfoldable pub set_running : ℕ → Kernel → Kernel
set_running t k =
    let th = k.threads t in
    let k' = set_thread t (record th { state = State.running }) k in
    if th.linked then k' else enqueue t false k'

unfoldable pub wake_up : ℕ → Kernel → Run Kernel
wake_up t k = schedule (set_running t k)

unfoldable pub pthread_yield : Kernel → Run Kernel
pthread_yield k = schedule k
