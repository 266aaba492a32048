-- ===== src/CircularBuffer/Queue.antt =====
-- The circular buffer is a queue of bytes with room for `size` of them.
use turnix.Base.{
  ℕ, zero, suc, ◌+◌, ◌≡◌, ◌<◌, refl, sym, ap, ◌∙◌, false, List, [], ◌∷◌, ◌++◌, append-nil,
  append_assoc, arith, ◌==◌, ltb, if◌then◌else◌, take, drop, length, ℕ_discrete,
}
use turnix.CircularBuffer.{CircularBuffer, space, put, write, advance, read}
use turnix.CircularBuffer.Ring.{
  IsRing, contents, put-IsRing, put-contents, advance-IsRing, advance-contents,
}

-- The first `n` of the bytes were added at the end, and `n` is all of them or all that fit.
pub record IsWritten (xs : List ℕ) (cb : CircularBuffer) (n : ℕ) (r : CircularBuffer) : Type 0 where
  pub ring : IsRing r
  pub same_size : r.size ≡ cb.size
  pub count : n ≡ (if ltb (length xs) (space cb) then length xs else space cb)
  pub added : contents r ≡ contents cb ++ take n xs

put_size :
    (x : ℕ) (cb : CircularBuffer) → ((put x cb).size ≡ cb.size) × ((put x cb).len ≡ cb.len + 1)
unfolding put
put_size x cb = (refl, refl)

write_full :
    (x : ℕ) (xs : List ℕ) (cb : CircularBuffer) → cb.len ≡ cb.size → write (x ∷ xs) cb ≡ (0, cb)
unfolding write
write_full x xs cb e = ground (arith, e)

write_more :
    (x n : ℕ) (xs : List ℕ) (cb r : CircularBuffer)
    → cb.len < cb.size
    → write xs (put x cb) ≡ (n, r)
    → write (x ∷ xs) cb ≡ (suc n, r)
unfolding write
write_more x n xs cb r h e =
    let some_room : (cb.len == cb.size) ≡ false = ground (arith, h) in
    let one : n + 1 ≡ suc n = omega arith in rw (some_room, e) (ap (λ (m : ℕ). (m, r)) one)

-- circular_buffer_write adds as many of the bytes as there is room for at the end of the queue,
-- in order, and returns their number.
pub write-IsWritten :
    (xs : List ℕ) (cb : CircularBuffer)
    → IsRing cb
    → (n : ℕ) × (r : CircularBuffer) × (write xs cb ≡ (n, r)) × IsWritten xs cb n r
write-IsWritten [] cb v = (
  0,
  cb,
  unfold write in refl,
  record {
    ring = v;
    same_size = refl;
    count = ground (arith, v.fits);
    added = sym (append-nil (contents cb));
  },
)
write-IsWritten (x ∷ xs) cb v = elim (ℕ_discrete cb.len cb.size) [
  | yes e ↦ (
    0,
    cb,
    write_full x xs cb e,
    record {
      ring = v;
      same_size = refl;
      count = ground (arith, e);
      added = sym (append-nil (contents cb));
    },
  )
  | no ne ↦
      let h : cb.len < cb.size = omega (arith, v.fits) in
      let (size, len) = put_size x cb in
      let (n, r, ran, w) = write-IsWritten xs (put x cb) (put-IsRing x cb v h) in
      (
        suc n,
        r,
        write_more x n xs cb r h ran,
        record {
          ring = w.ring;
          same_size = w.same_size ∙ size;
          count = ground (arith, w.count, size, len, h);
          added =
              w.added
              ∙ ap (λ (l : List ℕ). l ++ take n xs) (put-contents x cb v h)
              ∙ append_assoc (contents cb) (x ∷ []) (take n xs);
        },
      )
]

-- The bytes read were the first ones, and the others are left.
pub record IsRead (n : ℕ) (cb : CircularBuffer) (xs : List ℕ) (r : CircularBuffer) : Type 0 where
  pub ring : IsRing r
  pub same_size : r.size ≡ cb.size
  pub taken : xs ≡ take n (contents cb)
  pub left : contents r ≡ drop n (contents cb)

read_empty : (n : ℕ) (cb : CircularBuffer) → cb.len ≡ 0 → read (suc n) cb ≡ ([], cb)
unfolding read
read_empty n cb e = ground (arith, e)

read_more :
    (n : ℕ) (cb r : CircularBuffer) (xs : List ℕ)
    → 0 < cb.len
    → read n (advance cb) ≡ (xs, r)
    → read (suc n) cb ≡ (cb.buffer cb.read ∷ xs, r)
unfolding read
read_more n cb r xs h e = let filled : (cb.len == 0) ≡ false = ground (arith, h) in rw (filled, e)

advance_size : (cb : CircularBuffer) → (advance cb).size ≡ cb.size
unfolding advance
advance_size cb = refl

contents_empty : (cb : CircularBuffer) → cb.len ≡ 0 → contents cb ≡ []
contents_empty cb e = rw e

-- circular_buffer_read takes the first bytes of the queue off, in order, as many as asked for or as
-- there are, and leaves the others.
pub read-IsRead :
    (n : ℕ) (cb : CircularBuffer)
    → IsRing cb
    → (xs : List ℕ) × (r : CircularBuffer) × (read n cb ≡ (xs, r)) × IsRead n cb xs r
read-IsRead zero cb v =
    ([], cb, unfold read in refl, record { ring = v; same_size = refl; taken = refl; left = refl })
read-IsRead (suc n) cb v = elim (ℕ_discrete cb.len 0) [
  | yes e ↦
      let none_left = contents_empty cb e in
      (
        [],
        cb,
        read_empty n cb e,
        record {
          ring = v;
          same_size = refl;
          taken = ap (take (suc n)) (sym none_left);
          left = none_left ∙ ap (drop (suc n)) (sym none_left);
        },
      )
  | no ne ↦
      let h : 0 < cb.len = omega arith in
      let front = advance-contents cb v h in
      let (xs, r, ran, w) = read-IsRead n (advance cb) (advance-IsRing cb v h) in
      (
        cb.buffer cb.read ∷ xs,
        r,
        read_more n cb r xs h ran,
        record {
          ring = w.ring;
          same_size = w.same_size ∙ advance_size cb;
          taken =
              ap (λ (l : List ℕ). cb.buffer cb.read ∷ l) w.taken ∙ ap (take (suc n)) (sym front);
          left = w.left ∙ ap (drop (suc n)) (sym front);
        },
      )
]

-- On a valid ring, circular_buffer_write adds as many of the bytes as there is room for at the end of
-- the queue, in order, and returns their number; circular_buffer_read takes as many as are asked for
-- and there are off its front, in order. Both keep the ring valid and its size.
pub ring_refines :
    (xs : List ℕ) (n : ℕ) (cb : CircularBuffer)
    → IsRing cb
    → ((m : ℕ) × (r : CircularBuffer) × (write xs cb ≡ (m, r)) × IsWritten xs cb m r)
      × ((ys : List ℕ) × (r : CircularBuffer) × (read n cb ≡ (ys, r)) × IsRead n cb ys r)
ring_refines xs n cb v = (write-IsWritten xs cb v, read-IsRead n cb v)
