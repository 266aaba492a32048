-- ===== src/Threads/Settings.antt =====
-- The attributes of include/pthread.h, the priorities of include/sched.h, and the stacks that
-- pthread_create fills to see later how much of them was used.
use Prim.Native.Nat.{bit_and, bit_or}
use turnix.Base.{
  ℕ, ◌-◌, ◌^◌, ◌≡◌, ◌<◌, Option, none, some, List, [], ◌∷◌, arith, ◌==◌, leb, if◌then◌else◌,
}
use turnix.Kernel.{Run, ok, panic, ◌>>=◌}
use turnix.Threads.{Attr, einval}

abbrev pub rr_priority_default : ℕ
rr_priority_default = 16

abbrev pub rr_priority_max : ℕ
rr_priority_max = 31

-- The policies are numbers, `SCHED_RR` is 0. The result, and what errno is set to, if it is; -1 is its
-- pattern of 32 bits.
unfoldable pub sched_get_priority_min : ℕ → ℕ × Option ℕ
sched_get_priority_min policy = if policy == 0 then (0, none) else (2 ^ 32 - 1, some einval)

unfoldable pub sched_get_priority_max : ℕ → ℕ × Option ℕ
sched_get_priority_max policy =
    if policy == 0 then (rr_priority_max, none) else (2 ^ 32 - 1, some einval)

abbrev pub attr_init : Attr
attr_init = record { stack_addr = 0; stack_size = 0; priority = rr_priority_default; flags = 0 }

abbrev pub attr_setstack : ℕ → ℕ → Attr → Attr
attr_setstack stackaddr stacksize attr = record attr {
  stack_addr = stackaddr;
  stack_size = stacksize;
}

-- The priority is an `int`, in the pattern of 32 bits: a negative one fails the first assertion.
unfoldable pub attr_setschedparam : ℕ → Attr → Run Attr
attr_setschedparam sched_priority attr =
    if leb (2 ^ 31) sched_priority
    then panic
    else if leb sched_priority rr_priority_max
    then ok (record attr { priority = sched_priority })
    else panic

-- The error, and the attributes after the call; the states are 0 for joinable and 1 for detached.
unfoldable pub attr_setdetachstate : ℕ → Attr → ℕ × Attr
attr_setdetachstate state attr =
    if state == 0
    then (0, record attr { flags = bit_and attr.flags 254 })
    else if state == 1
    then (0, record attr { flags = bit_or attr.flags 1 })
    else (einval, attr)

-- `struct pthread_mutexattr` is its `type`.
abbrev pub mutexattr_init : ℕ
mutexattr_init = 0

abbrev pub mutexattr_settype : ℕ → ℕ → ℕ
mutexattr_settype kind type = kind

abbrev pub mutexattr_gettype : ℕ → ℕ
mutexattr_gettype type = type

-- The calls on the attributes of a thread
pub data Setting : Type 0 where
  stack : ℕ → ℕ → Setting
  param detach : ℕ → Setting

pub settings : List Setting → Attr → Run Attr
settings [] attr = ok attr
settings (stack addr size ∷ calls) attr = settings calls (attr_setstack addr size attr)
settings (param prio ∷ calls) attr = attr_setschedparam prio attr >>= settings calls
settings (detach state ∷ calls) attr = settings calls ((attr_setdetachstate state attr).1)

-- Attributes that pthread_create can use: the priority is one of the run queue's.
abbrev pub IsUsable : Attr → Type 0
IsUsable attr = attr.priority < 32

setschedparam_bind :
    (prio : ℕ) (attr r : Attr) (f : Attr → Run Attr)
    → (attr_setschedparam prio attr >>= f) ≡ ok r
    → (prio < 32) × (f (record attr { priority = prio }) ≡ ok r)
unfolding attr_setschedparam
setschedparam_bind prio attr r f e = ground (arith, e)

-- Whatever calls are made on fresh attributes, an assertion fails or pthread_create can use them.
settings-IsUsable :
    (calls : List Setting) (attr r : Attr) → IsUsable attr → settings calls attr ≡ ok r → IsUsable r
unfolding settings attr_setdetachstate
settings-IsUsable [] attr r u e = ground (arith, e, u)
settings-IsUsable (stack addr size ∷ calls) attr r u e =
    settings-IsUsable calls (attr_setstack addr size attr) r u e
settings-IsUsable (param prio ∷ calls) attr r u e =
    let (low, more) = setschedparam_bind prio attr r (settings calls) e in
    settings-IsUsable calls (record attr { priority = prio }) r low more
settings-IsUsable (detach state ∷ calls) attr r u e =
    settings-IsUsable calls ((attr_setdetachstate state attr).1) r (ground (arith, u)) e
