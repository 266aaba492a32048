-- ===== src/CircularBuffer.antt =====
-- lib/circular_buffer.c: a ring of bytes. The bytes given and taken are lists.
pub mod Ring
pub mod Queue
use turnix.Base.{ℕ, zero, suc, ◌+◌, ◌-◌, ◌%◌, Bool, List, [], ◌∷◌, ◌==◌, if◌then◌else◌, update}

-- `struct circular_buffer`
pub record CircularBuffer : Type 0 where
  pub read : ℕ
  pub write : ℕ
  pub len : ℕ
  pub size : ℕ
  pub buffer : ℕ → ℕ

unfoldable pub init : (ℕ → ℕ) → ℕ → CircularBuffer
init buffer size = record { read = 0; write = 0; len = 0; size = size; buffer = buffer }

abbrev pub empty : CircularBuffer → Bool
empty cb = cb.len == 0

abbrev pub full : CircularBuffer → Bool
full cb = cb.len == cb.size

abbrev pub space : CircularBuffer → ℕ
space cb = cb.size - cb.len

-- The body of the loop of `circular_buffer_write`.
unfoldable pub put : ℕ → CircularBuffer → CircularBuffer
put x cb = record cb {
  buffer = update cb.buffer cb.write x;
  write = (cb.write + 1) % cb.size;
  len = cb.len + 1;
}

-- The number of bytes that fit, and the buffer.
unfoldable pub write : List ℕ → CircularBuffer → ℕ × CircularBuffer
write [] cb = (0, cb)
write (x ∷ xs) cb = let (n, r) = write xs (put x cb) in if full cb then (0, cb) else (n + 1, r)

-- The index and the length after a byte is read.
unfoldable pub advance : CircularBuffer → CircularBuffer
advance cb = record cb { read = (cb.read + 1) % cb.size; len = cb.len - 1 }

-- The bytes read, at most as many as asked for, and the buffer.
unfoldable pub read : ℕ → CircularBuffer → List ℕ × CircularBuffer
read zero cb = ([], cb)
read (suc n) cb =
    let (xs, r) = read n (advance cb) in if empty cb then ([], cb) else (cb.buffer cb.read ∷ xs, r)
