-- ===== src/Timer.antt =====
-- The timers of kernel/timer.c: a binary min-heap of pointers by time of expiry, where each timer
-- knows its index. Times are 32-bit tick counts that wrap round.
pub mod Window
pub mod Swap
pub mod Order
pub mod Up
pub mod Down
pub mod Insert
pub mod Adjust
pub mod Remove
pub mod Fire
use turnix.Base.{
  ℕ, zero, suc, ◌+◌, ◌-◌, ◌*◌, ◌/◌, ◌%◌, ◌^◌, Bool, true, false, not, ◌&&◌, List, [], ◌∷◌, ◌==◌,
  ltb, leb, if◌then◌else◌, update,
}
use turnix.Kernel.{Run, ok, panic, out_of_fuel, ◌>>=◌}

-- `struct timer`, but for its function.
pub record Timer : Type 0 where
  pub expires : ℕ
  pub i : ℕ

-- The timer structures by address, and `timer_context`.
pub record Timers : Type 0 where
  pub timer : ℕ → Timer
  pub heap : ℕ → ℕ
  pub n : ℕ

-- `CONFIG_TIMER_MAX_NUM`, `TIMER_INVALID_INDEX`
abbrev pub timer_max : ℕ
timer_max = 32

abbrev pub invalid_index : ℕ
invalid_index = 2 ^ 32 - 1

-- `(long)(b - a) < 0` on 32 bits.
unfoldable pub time_after : ℕ → ℕ → Bool
time_after a b = leb (2 ^ 31) ((b + 2 ^ 32 - a) % 2 ^ 32)

abbrev pub time_before : ℕ → ℕ → Bool
time_before a b = time_after b a

-- `timer_context.heap[j]->expires`
abbrev pub expiry : Timers → ℕ → ℕ
expiry s j = (s.timer (s.heap j)).expires

-- `heap[j]->i = j`
abbrev pub link : ℕ → Timers → Timers
link j s = record s { timer = update s.timer (s.heap j) (record (s.timer (s.heap j)) { i = j }) }

unfoldable pub heap_swap : ℕ → ℕ → Timers → Timers
heap_swap i j s =
    link j (link i (record s { heap = update (update s.heap i (s.heap j)) j (s.heap i) }))

-- `heap_pull_up`, with fuel for the rounds.
unfoldable pub pull_up : ℕ → ℕ → Timers → Run Timers
pull_up zero i s = out_of_fuel
pull_up (suc f) i s =
    let p = (i - 1) / 2 in
    let rest = pull_up f p (heap_swap i p s) in
    if i == 0 then ok s else (if not (time_before (expiry s i) (expiry s p)) then ok s else rest)

-- One round of `heap_push_down` picks the smallest of `i` and its children; `c` is the first child.
unfoldable pub smallest : ℕ → ℕ → Timers → ℕ
smallest i c s =
    let l = if time_after (expiry s i) (expiry s c) then c else i in
    if ltb (c + 1) s.n then (if time_after (expiry s l) (expiry s (c + 1)) then c + 1 else l) else l

-- The loop of `heap_push_down`.
unfoldable pub sift : ℕ → ℕ → Timers → Run Timers
sift zero i s = out_of_fuel
sift (suc f) i s =
    let c = i * 2 + 1 in
    let m = smallest i c s in
    let rest = sift f m (heap_swap i m s) in
    if leb s.n c then ok s else (if i == m then ok s else rest)

unfoldable pub push_down : ℕ → ℕ → Timers → Run Timers
push_down f i s = if ltb i s.n then sift f i s else panic

unfoldable pub heap_adjust : ℕ → ℕ → Timers → Run Timers
heap_adjust f i s =
    let p = (i - 1) / 2 in
    let down = push_down f i s in
    if ltb i s.n
    then (if ltb 0 i
        then (if time_after (expiry s p) (expiry s i) then pull_up f i s else down)
        else down)
    else panic

-- Fuel for a whole operation: more than the heap ever holds.
abbrev pub rounds : Timers → ℕ
rounds s = s.n + 1

unfoldable pub timer_add : ℕ → Timers → Run Timers
timer_add t s =
    let s' = link s.n (record s { heap = update s.heap s.n t; n = s.n + 1 }) in
    if ltb s.n timer_max then pull_up (rounds s') s.n s' else panic

-- `__timer_delete`
abbrev pub unlink : ℕ → Timers → Timers
unlink t s = record s { timer = update s.timer t (record (s.timer t) { i = invalid_index }) }

unfoldable pub remove_timer : ℕ → Timers → Run Timers
remove_timer t s =
    let i = (s.timer t).i in
    let last = s.n - 1 in
    let moved = link i (record s { heap = update s.heap i (s.heap last); n = last }) in
    if i == last
    then ok (unlink t (record s { n = last }))
    else (heap_adjust (rounds s) i moved >>= λ r. ok (unlink t r))

unfoldable pub timer_delete : ℕ → Timers → Run Timers
timer_delete t s = if (s.timer t).i == invalid_index then ok s else remove_timer t s

-- The loop of `timer_update`: the timers that are due, in the order in which their functions run.
-- The one such function, `sched_timeout`, wakes a thread and leaves the heap alone.
unfoldable pub fire : ℕ → ℕ → Timers → Run (Timers × List ℕ)
fire zero now s = out_of_fuel
fire (suc f) now s =
    let t = s.heap 0 in
    let rest = do r ← remove_timer t s; (s', ts) ← fire f now r; ok (s', t ∷ ts)
    in if ltb 0 s.n && not (time_after (expiry s 0) now) then rest else ok (s, [])
