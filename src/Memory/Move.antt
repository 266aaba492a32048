-- ===== src/Memory/Move.antt =====
-- What the memory functions leave at each address.
use turnix.Base.{
  ℕ, zero, suc, ◌+◌, ◌-◌, ◌%◌, ◌≡◌, ◌≤◌, ◌<◌, ◌⊎◌, inl, ◌∙◌, ◌&&◌, arith, ltb, leb, if◌then◌else◌,
  update,
}
use turnix.Memory.{Bytes, copy_up, copy_down, memcpy, memmove, memset}

-- A round of the loop first, then the rest of it.
up_step :
    (n dest src a : ℕ) (b : Bytes)
    → (dest ≤ src) ⊎ (src + suc n ≤ dest)
    → (if leb (dest + 1) a && ltb a (dest + 1 + n)
        then update b dest (b src) (src + 1 + (a - (dest + 1)))
        else update b dest (b src) a)
      ≡ (if leb dest a && ltb a (dest + suc n) then b (src + (a - dest)) else b a)
up_step n dest src a b h = ground (arith, h)

down_step :
    (n dest src a : ℕ) (b : Bytes)
    → src < dest
    → suc n ≤ src
    → (if ltb (dest - 1 - n) a && leb a (dest - 1)
        then update b dest (b src) (src - 1 + a - (dest - 1))
        else update b dest (b src) a)
      ≡ (if ltb (dest - suc n) a && leb a dest then b (src + a - dest) else b a)
down_step n dest src a b h p = ground (arith, h, p)

-- Copying upwards never reads a byte that it has written, if it goes to a lower address.
copy_up_at :
    (n dest src a : ℕ) (b : Bytes)
    → (dest ≤ src) ⊎ (src + n ≤ dest)
    → copy_up n dest src b a
      ≡ (if leb dest a && ltb a (dest + n) then b (src + (a - dest)) else b a)
unfolding copy_up
copy_up_at zero dest src a b h = ground arith
copy_up_at (suc n) dest src a b h =
    let rest = copy_up_at n (dest + 1) (src + 1) a (update b dest (b src)) (ground (arith, h)) in
    rest ∙ up_step n dest src a b h

copy_down_at :
    (n dest src a : ℕ) (b : Bytes)
    → src < dest
    → n ≤ src
    → copy_down n dest src b a
      ≡ (if ltb (dest - n) a && leb a dest then b (src + a - dest) else b a)
unfolding copy_down
copy_down_at zero dest src a b h p = ground arith
copy_down_at (suc n) dest src a b h p =
    let rest =
      copy_down_at n (dest - 1) (src - 1) a (update b dest (b src)) (omega arith) (omega arith) in
    rest ∙ down_step n dest src a b h p

-- memcpy between blocks that do not overlap, or to an address that is not above the source: the
-- block is copied, and no other byte changes.
pub memcpy_at :
    (dest src n a : ℕ) (b : Bytes)
    → (dest ≤ src) ⊎ (src + n ≤ dest)
    → memcpy dest src n b a ≡ (if leb dest a && ltb a (dest + n) then b (src + (a - dest)) else b a)
unfolding memcpy
memcpy_at dest src n a b h = copy_up_at n dest src a b h

-- memmove to an address that is not above the source copies the block, and changes no other byte.
-- To a higher address it is one byte off: the bytes from `dest + 1` to `dest + n` take those from
-- `src + 1` to `src + n`, and the byte at `dest` stays as it was.
pub memmove_at :
    (dest src n a : ℕ) (b : Bytes)
    → (dest ≤ src
        → memmove dest src n b a
          ≡ (if leb dest a && ltb a (dest + n) then b (src + (a - dest)) else b a))
      × (src < dest
          → memmove dest src n b a
            ≡ (if ltb dest a && leb a (dest + n) then b (src + (a - dest)) else b a))
unfolding memmove
memmove_at dest src n a b = (
  (λ h. ground (arith, copy_up_at n dest src a b (inl h))),
  λ h. ground (arith, copy_down_at n (dest + n) (src + n) a b),
)

-- memset fills the block with the low byte of its argument, and changes no other byte.
pub memset_at :
    (n s c a : ℕ) (b : Bytes)
    → memset s c n b a ≡ (if leb s a && ltb a (s + n) then c % 256 else b a)
unfolding memset
memset_at zero s c a b = ground arith
memset_at (suc n) s c a b = memset_at n (s + 1) c a (update b s (c % 256)) ∙ ground arith
