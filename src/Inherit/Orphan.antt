-- ===== src/Inherit/Orphan.antt =====
-- Priorities and a mutex without an owner.
use turnix.Base.{ℕ, suc, ◌≡◌, ◌≢◌, ap, ◌∙◌, false, none, some, [], arith}
use turnix.Kernel.{Kernel, fault, ◌>>=◌, set_thread}
use turnix.Sched.{schedule}
use turnix.Inherit.{boost_mutexes, inherited, set_effective, set_prio, pthread_setschedprio}
use turnix.Inherit.Total.{set_prio_off}
use turnix.Inherit.Cycle.{spread_orphan}

module _ (k : Kernel) (t p : ℕ) where
  abbrev based : Kernel
  based = set_thread t (record (k.threads t) { priority = p }) k

  based-inherited : (k.threads t).mutex_queue ≡ [] → inherited based t ≡ p
  unfolding inherited boost_mutexes
  based-inherited e =
      let none_held : (based.threads t).mutex_queue ≡ [] = ground (arith, e) in
      rw none_held (ground arith)

  setschedprio_stores :
      (fuel : ℕ)
      → (k.threads t).priority ≢ p
      → (k.threads t).effective_priority ≢ p
      → pthread_setschedprio fuel t p k ≡ (set_prio fuel t based >>= schedule)
  unfolding pthread_setschedprio
  setschedprio_stores fuel a b = ground (arith, a, b)

  set_prio_faults :
      (f m : ℕ)
      → (k.threads t).effective_priority ≢ p
      → (k.threads t).linked ≡ false
      → (k.threads t).mutex_queue ≡ []
      → (k.threads t).sleep_on ≡ some m
      → (k.mutexes m).owner ≡ none
      → set_prio (suc (suc f)) t based ≡ fault
  set_prio_faults f m other off held asleep orphan =
      let prio = based-inherited held in
      set_prio_off (suc f) t based (rw prio (ground (arith, other))) (ground (arith, off))
      ∙ spread_orphan f t m (set_effective t (inherited based t) based) (ground (arith, asleep))
          orphan

-- A new priority for a thread that sleeps in the queue of a mutex which has been unlocked and not
-- yet been taken over makes pthread_setschedprio follow a NULL pointer, if the thread holds no mutex
-- and neither its own nor its effective priority is the new one yet.
pub setschedprio_faults :
    (k : Kernel) (t p m f : ℕ)
    → (k.threads t).priority ≢ p
    → (k.threads t).effective_priority ≢ p
    → (k.threads t).linked ≡ false
    → (k.threads t).mutex_queue ≡ []
    → (k.threads t).sleep_on ≡ some m
    → (k.mutexes m).owner ≡ none
    → pthread_setschedprio (suc (suc f)) t p k ≡ fault
setschedprio_faults k t p m f own other off held asleep orphan =
    setschedprio_stores k t p (suc (suc f)) own other
    ∙ ap (λ r. r >>= schedule) (set_prio_faults k t p f m other off held asleep orphan)
