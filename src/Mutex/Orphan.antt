-- ===== src/Mutex/Orphan.antt =====
-- pthread_mutex_lock where the owner of the mutex has been woken for another that it has not taken yet.
use turnix.Base.{ℕ, suc, ◌≡◌, ◌≢◌, ap, ◌∙◌, false, none, some, arith, inl, inr, Bool-cases, ◌==◌}
use turnix.Kernel.{Kernel, Mutex, fault, ◌>>=◌}
use turnix.Inherit.{inherited, set_effective, set_prio, spread}
use turnix.Inherit.Total.{
  requeued-IsKept, stored-IsKept, set_prio_same, set_prio_on, set_prio_off, spread_next,
}
use turnix.Inherit.Cycle.{spread_orphan}
use turnix.Mutex.{is_free, held_again, enter_queue, mutex_lock, mutex_relock}
use turnix.Mutex.Fast.{lock_waits}

-- Whatever becomes of the priority of the owner, its wait for the mutex without an owner is next.
owner_faults :
    (f o x : ℕ) (k : Kernel)
    → (k.threads o).sleep_on ≡ some x
    → (k.mutexes x).owner ≡ none
    → (set_prio (suc (suc f)) o k >>= spread (suc (suc f)) o) ≡ fault
owner_faults f o x k waits free =
    elim (Bool-cases ((k.threads o).effective_priority == inherited k o)) [
      | inl same ↦
          ap (λ r. r >>= spread (suc (suc f)) o) (set_prio_same (suc f) o k same)
          ∙ spread_orphan (suc f) o x k waits free
      | inr other ↦ elim (Bool-cases (k.threads o).linked) [
        | inl on ↦
            let p = requeued-IsKept k o on in
            ap (λ r. r >>= spread (suc (suc f)) o) (set_prio_on (suc f) o k other on)
            ∙ spread_orphan (suc f) o x _ (p.sleeps o ∙ waits)
                (ap (λ (mu : Mutex). mu.owner) (p.mutexes x) ∙ free)
        | inr off ↦
            let p = stored-IsKept k o off in
            ap (λ r. r >>= spread (suc (suc f)) o)
              (set_prio_off (suc f) o k other off
                ∙ spread_orphan f o x (set_effective o (inherited k o) k) (p.sleeps o ∙ waits)
                    (ap (λ (mu : Mutex). mu.owner) (p.mutexes x) ∙ free))
      ]
    ]

-- A thread that waits for no mutex and locks a mutex that is held makes `__pthread_spread` follow a NULL
-- pointer, where the owner of the mutex is still in the queue of a mutex without an owner, which it has
-- been woken for and has not taken: whatever the priorities are, and with any fuel above two.
pub mutex_lock_faults :
    (k : Kernel) (m o x f : ℕ)
    → k.in_irq ≡ false
    → (k.threads k.current).sleep_on ≡ none
    → is_free (k.mutexes m).lock ≡ false
    → held_again m k ≡ false
    → (k.mutexes m).owner ≡ some o
    → (k.threads o).sleep_on ≡ some x
    → (k.mutexes x).owner ≡ none
    → mutex_lock (suc (suc (suc f))) m k ≡ fault
unfolding enter_queue
mutex_lock_faults k m o x f out awake locked other owned waits free =
    let joined = enter_queue m k in
    let apart : k.current ≢ o =
      λ e. absurd (ground (arith, waits, awake, ap (λ (t : ℕ). (k.threads t).sleep_on) e)) in
    lock_waits k m (suc (suc (suc f))) out locked other
    ∙ ap (λ r. r >>= mutex_relock (suc (suc (suc f))) m)
        (spread_next (suc (suc f)) k.current joined {m = m} {o = o} (ground arith)
            (ground (arith, owned))
          ∙ owner_faults f o x joined (ground (arith, apart, waits)) (ground (arith, free)))
