-- ===== src/Memory.antt =====
-- The memory functions of lib/string.c, on a memory of bytes by address.
pub mod Move
use turnix.Base.{ℕ, zero, suc, ◌+◌, ◌-◌, ◌%◌, ltb, if◌then◌else◌, update}

abbrev pub Bytes : Type 0
Bytes = ℕ → ℕ

-- The loop of `memcpy`, and of `memmove` to a lower address.
unfoldable pub copy_up : ℕ → ℕ → ℕ → Bytes → Bytes
copy_up zero dest src b = b
copy_up (suc n) dest src b = copy_up n (dest + 1) (src + 1) (update b dest (b src))

-- The loop of `memmove` to a higher address: it writes where the pointers stand, then steps down.
unfoldable pub copy_down : ℕ → ℕ → ℕ → Bytes → Bytes
copy_down zero dest src b = b
copy_down (suc n) dest src b = copy_down n (dest - 1) (src - 1) (update b dest (b src))

unfoldable pub memcpy : ℕ → ℕ → ℕ → Bytes → Bytes
memcpy dest src n b = copy_up n dest src b

unfoldable pub memmove : ℕ → ℕ → ℕ → Bytes → Bytes
memmove dest src n b =
    if ltb dest src
    then copy_up n dest src b
    else (if ltb src dest then copy_down n (dest + n) (src + n) b else b)

unfoldable pub memset : ℕ → ℕ → ℕ → Bytes → Bytes
memset s c zero b = b
memset s c (suc n) b = memset (s + 1) c n (update b s (c % 256))
