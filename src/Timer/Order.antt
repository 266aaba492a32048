-- ===== src/Timer/Order.antt =====
-- The order of the heap, and heaps with one entry out of place.
use turnix.Base.{ℕ, ◌≡◌, ◌≢◌, ◌≤◌, ◌<◌, ◌^◌, true, false, arith, ◌==◌, if◌then◌else◌}
use turnix.Timer.{Timers, heap_swap, expiry, time_after}
use turnix.Timer.Window.{key, parent, time_after-distance}
use turnix.Timer.Swap.{IsLinked, IsSame, expiry-swap, swap_size, swap-IsSame}

-- Every timer of the heap knows its index and expires within 2^31 ticks of `base`.
pub record IsTimed (base : ℕ) (s : Timers) : Type 0 where
  pub start : base < 2 ^ 32
  pub links : IsLinked s
  pub word : (j : ℕ) → j < s.n → expiry s j < 2 ^ 32
  pub near : (j : ℕ) → j < s.n → key base s j < 2 ^ 31

-- No timer expires before the one above it.
abbrev pub IsHeap : ℕ → Timers → Type 0
IsHeap base s = (c : ℕ) → 0 < c → c < s.n → key base s (parent c) ≤ key base s c

-- What an operation makes of a heap that is out of order: a heap of the same timers.
pub record IsOrdered (base : ℕ) (s r : Timers) : Type 0 where
  pub heap : IsHeap base r
  pub same : IsSame s r
  pub timed : IsTimed base r

-- Order may fail only above `i`.
pub record UpInv (base : ℕ) (s : Timers) (i : ℕ) : Type 0 where
  pub inside : i < s.n
  pub edges : (c : ℕ) → 0 < c → c < s.n → c ≢ i → key base s (parent c) ≤ key base s c
  pub bridged :
      (c : ℕ) → 0 < c → c < s.n → parent c ≡ i → 0 < i → key base s (parent i) ≤ key base s c

-- Order may fail only below `i`.
pub record DownInv (base : ℕ) (s : Timers) (i : ℕ) : Type 0 where
  pub inside : i < s.n
  pub edges : (c : ℕ) → 0 < c → c < s.n → parent c ≢ i → key base s (parent c) ≤ key base s c
  pub bridged :
      (c : ℕ) → 0 < c → c < s.n → parent c ≡ i → 0 < i → key base s (parent i) ≤ key base s c

module _ (base : ℕ) (s : Timers) (v : IsTimed base s) (i j : ℕ) (hi : i < s.n) (hj : j < s.n) where
  -- The test of the code, on two entries of the heap.
  pub after_keys :
      (time_after (expiry s i) (expiry s j) ≡ true → key base s j < key base s i)
      × (time_after (expiry s i) (expiry s j) ≡ false → key base s i ≤ key base s j)
  after_keys =
      time_after-distance base (expiry s i) (expiry s j) v.start (v.word i hi) (v.word j hj)
        (v.near i hi) (v.near j hj)

  pub key-swap :
      (c : ℕ)
      → key base (heap_swap i j s) c
        ≡ (if j == c then key base s i else if i == c then key base s j else key base s c)
  key-swap c = ground (arith, expiry-swap s i j c)

  pub swap-IsTimed : i ≢ j → IsTimed base (heap_swap i j s)
  swap-IsTimed ne = record {
    start = v.start;
    links = (swap-IsSame s i j v.links hi hj ne).linked v.links;
    word =
        λ c h. ground (arith, expiry-swap s i j c, swap_size s i j, v.word i, v.word j, v.word c);
    near = λ c h. ground (arith, key-swap c, swap_size s i j, v.near i, v.near j, v.near c);
  }
