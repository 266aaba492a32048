-- ===== src/RunQueue.antt =====
-- The run queue of kernel/pthread.c: a queue for each priority, and a bitmap of those in use.
pub mod Queues
pub mod WellFormed
pub mod Peek
use Prim.Native.Nat.{bit_and, bit_or}
use turnix.Base.{
  ℕ, zero, suc, ◌-◌, ◌^◌, Bool, true, false, List, [], ◌∷◌, ◌++◌, if◌then◌else◌, update, ffs,
}
use turnix.Kernel.{Kernel, Thread, set_thread, Run, ok, panic}
use turnix.RunQueue.Queues.{is_empty, remove}

-- `SCHED_RR_PRIORITY_MAX` and `CONFIG_TIMESLICE`
abbrev pub priority_max : ℕ
priority_max = 31

abbrev pub timeslice_max : ℕ
timeslice_max = 10

unfoldable pub run_queue_init : Kernel → Kernel
run_queue_init k = record k { level = λ i. []; bitmap = 0 }

unfoldable pub enqueue : ℕ → Bool → Kernel → Kernel
enqueue t head k =
    let th = k.threads t in
    let p = th.effective_priority in
    let q = k.level p in
    record k {
      bitmap = if is_empty q then bit_or k.bitmap (2 ^ (priority_max - p)) else k.bitmap;
      threads = update k.threads t (record th { timeslice = timeslice_max; linked = true });
      level = update k.level p (if head then t ∷ q else q ++ t ∷ []);
    }

-- Both assertions stop the kernel.
unfoldable pub peek : Kernel → Run ℕ
peek k = elim (ffs k.bitmap) [
  | zero ↦ panic
  | suc i ↦ elim (k.level (priority_max - i)) [ [] ↦ panic | t ∷ q ↦ ok t ]
]

-- `~(1 << i)` is taken in 32 bits.
unfoldable pub dequeue : ℕ → Kernel → Kernel
dequeue t k =
    let th = k.threads t in
    let p = th.effective_priority in
    let q = remove t (k.level p) in
    if th.linked
    then record k {
      threads = update k.threads t (record th { linked = false });
      level = update k.level p q;
      bitmap =
          if is_empty q then bit_and k.bitmap (2 ^ 32 - 1 - 2 ^ (priority_max - p)) else k.bitmap;
    }
    else k
