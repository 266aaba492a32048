-- ===== src/Keyboard/Getchar.antt =====
-- getchar of arch/i386/drivers/keyboard.c, and a key from its code to the byte that getchar returns.
use turnix.Base.{ℕ, ◌≡◌, refl, ap, ◌∙◌, none, some, List, [], ◌∷◌, arith, length, take, drop}
use turnix.Kernel.{Kernel, State, set_thread, Run, ok, panic, ◌>>=◌}
use turnix.CircularBuffer.{CircularBuffer, init, read}
use turnix.CircularBuffer.Ring.{IsRing, contents}
use turnix.CircularBuffer.Queue.{read-IsRead}
use turnix.Sched.{schedule}
use turnix.Keyboard.{
  Keyboard, Getting, got, asleep, getchar_take, getchar_wait, getchar_round, keyboard_init,
}
use turnix.Keyboard.Typed.{length-items}

-- The queue is empty and large enough when the keyboard starts.
pub keyboard_init-IsRing :
    (buffer : ℕ → ℕ) → IsRing (keyboard_init buffer).cb × (contents (keyboard_init buffer).cb ≡ [])
unfolding keyboard_init init
keyboard_init-IsRing buffer =
    (record { room = omega arith; inside = omega arith; fits = omega arith; behind = refl }, refl)

module _ (k : Keyboard) (kernel : Kernel) (v : IsRing k.cb) where
  pub getchar_first :
      (c : ℕ) (xs : List ℕ)
      → contents k.cb ≡ c ∷ xs
      → (r : CircularBuffer) × (getchar_round k kernel ≡ ok (got c, record k { cb = r }, kernel))
        × IsRing r
        × (contents r ≡ xs)
  unfolding getchar_round
  getchar_first c xs e =
      let (ys, r, ran, i) = read-IsRead 1 k.cb v in
      let first : ys ≡ c ∷ [] = i.taken ∙ ap (take 1) e in
      (
        r,
        ap (λ p. getchar_take p k kernel) (ran ∙ ap (λ (zs : List ℕ). (zs, r)) first)
            ∙ unfold getchar_take in refl,
        i.ring,
        i.left ∙ ap (drop 1) e,
      )

  read_nothing : contents k.cb ≡ [] → read 1 k.cb ≡ ([], k.cb)
  unfolding read
  read_nothing e =
      let none_there : k.cb.len ≡ 0 =
        omega (arith, ap length e, length-items k.cb.len k.cb.size k.cb.read k.cb.buffer) in
      ground (arith, none_there)

  getchar_empty : contents k.cb ≡ [] → getchar_round k kernel ≡ getchar_wait k kernel
  unfolding getchar_round getchar_take
  getchar_empty e = rw (read_nothing e)

  -- What a round does with the bytes that wait and the queue without the first of them.
  abbrev pub expected : List ℕ → CircularBuffer → Run (Getting × Keyboard × Kernel)
  expected (c ∷ xs) r = ok (got c, record k { cb = r }, kernel)
  expected [] r = elim k.waiter [
    | some t ↦ panic
    | none ↦
        schedule (
          set_thread kernel.current
            (record (kernel.threads kernel.current) { state = State.sleeping }) kernel)
        >>= λ q. ok (asleep, record k { waiter = some kernel.current }, q)
  ]

  getchar_cases :
      (bytes : List ℕ)
      → contents k.cb ≡ bytes
      → (r : CircularBuffer) × (getchar_round k kernel ≡ expected bytes r)
        × IsRing r
        × (contents r ≡ drop 1 bytes)
  unfolding getchar_wait
  getchar_cases [] e = (k.cb, getchar_empty e, v, e)
  getchar_cases (c ∷ xs) e = getchar_first c xs e

  -- A round of getchar: it returns the first byte of the queue and takes it off; on an empty queue it
  -- panics if another thread waits already, and otherwise notes the thread that runs as the one that
  -- waits, puts it to sleep and schedules.
  pub getchar_round_lem :
      (r : CircularBuffer) × (getchar_round k kernel ≡ expected (contents k.cb) r)
      × IsRing r
      × (contents r ≡ drop 1 (contents k.cb))
  getchar_round_lem = getchar_cases (contents k.cb) refl
