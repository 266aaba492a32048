-- ===== src/Tests/Lives.antt =====
-- Creation, end and joins of threads at the kernel of Desk.
use turnix.Base.{ℕ, ◌≡◌, ◌≢◌, ◌<◌, ◌⊎◌, refl, subst, Bool, true, false, Option, none, some, arith}
use turnix.Kernel.{Kernel, State, ok, max_num}
use turnix.RunQueue.{enqueue}
use turnix.Threads.{Attr, pthread_create, pthread_exit, eagain, has_loop, set_waiter}
use turnix.Threads.Exit.{IsExited, pthread_exit-IsExited}
use turnix.Threads.Create.{IsSlot, IsCreated, pthread_create-IsCreated}
use turnix.Threads.Join.{Halts, halt, more, IsAcyclic, Chain, has_loop_closes}
use turnix.Tests.Desk.{desk, desk-IsScheduled}

pthread_exit-IsExited_example : (k' : Kernel) × (pthread_exit 7 desk ≡ ok k') × IsExited 7 desk k'
pthread_exit-IsExited_example =
    pthread_exit-IsExited desk 7 desk-IsScheduled (unfold enqueue in refl)
      (unfold enqueue in ground arith) (unfold enqueue in ground arith)

abbrev attr : Attr
attr = record { stack_addr = 4096; stack_size = 4096; priority = 20; flags = 0 }

pthread_create-IsCreated_example :
    (((j : ℕ) → j < 32 → (desk.threads j).state ≢ State.none)
      × (pthread_create attr desk ≡ ok (eagain, none, desk)))
    ⊎ ((i : ℕ) × (k' : Kernel) × (pthread_create attr desk ≡ ok (0, some i, k'))
        × IsSlot max_num 0 desk (some i)
        × IsCreated attr desk i k')
pthread_create-IsCreated_example =
    pthread_create-IsCreated attr desk desk-IsScheduled (unfold enqueue in refl)
      (unfold enqueue in refl) (omega arith)

-- At the desk nobody waits for a thread.
desk_waiter : (i : ℕ) → none ≡ (desk.threads i).waiter
unfolding enqueue
desk_waiter i = ground arith

desk-IsAcyclic : IsAcyclic 1 desk
desk-IsAcyclic none = halt
desk-IsAcyclic (some i) = more (subst (λ (o : Option ℕ). Halts desk o 0) (desk_waiter i) halt)

has_loop_closes_example :
    (b : Bool) × (has_loop 2 1 (set_waiter 1 (some 0) desk) ≡ ok b)
    × (b ≡ false → IsAcyclic 2 (set_waiter 1 (some 0) desk))
    × (b ≡ true → Chain desk 1 (some 0) true 1)
has_loop_closes_example = has_loop_closes desk 1 0 1 2 desk-IsAcyclic (omega arith)
