-- ===== src/Keyboard/Keys.antt =====
-- A key of arch/i386/drivers/keyboard.c, from its code to the byte that getchar returns.
use turnix.Base.{
  ℕ, ◌-◌, ◌%◌, ◌≡◌, ◌≢◌, ◌≤◌, ◌<◌, ◌⊎◌, inl, inr, ap, ◌∙◌, true, false, ◌&&◌, none, List, [], ◌∷◌,
  ◌++◌, arith, ◌==◌, ltb, if◌then◌else◌, length,
}
use turnix.Kernel.{Kernel, ok}
use turnix.Ctype.{islower, isupper, toupper}
use turnix.CircularBuffer.{space}
use turnix.CircularBuffer.Ring.{IsRing, contents}
use turnix.Keyboard.Tables.{scan_code}
use turnix.Keyboard.{
  Keyboard, entry, type_bytes, is_press, control, layer, with_caps, with_control, with_alt, chr,
  transcode_func_table, transcode, is_prefix, woken, handler, got, getchar_round,
}
use turnix.Keyboard.Typed.{type_bytes-HasTyped, length-items}
use turnix.Keyboard.Getchar.{getchar_first}

-- The byte that `chr` types for a byte of the table.
abbrev pub typed : Keyboard → ℕ → ℕ
typed k c = with_alt k (with_control k (with_caps k c))

-- A letter without the left alt key, small and typed without shift or a capital: it becomes its
-- control code if a control key is held, else a capital if it is small and caps lock is on, and else
-- it stays.
pub letters_lem :
    (k : Keyboard) (c : ℕ)
    → k.l_alt ≡ false
    → ((islower c ≡ true) × (layer k ≢ 1)) ⊎ (isupper c ≡ true)
    → typed k c
      ≡ (if control k then toupper c - 64 else (if islower c && k.caps_lock then toupper c else c))
unfolding with_caps with_control with_alt
letters_lem k c a (inl (e, l)) = ground (arith, e, l, a)
letters_lem k c a (inr e) = ground (arith, e, a)

module _ (k : Keyboard) (kernel : Kernel) (v : IsRing k.cb) (empty : contents k.cb ≡ []) where
  one_fits : 1 ≤ space k.cb
  one_fits =
      omega (arith, v.room, ap length empty, length-items k.cb.len k.cb.size k.cb.read k.cb.buffer)

  chr_key :
      (code c : ℕ) (row : List ℕ)
      → code < 58
      → entry scan_code (layer k) ≡ ok row
      → entry row code ≡ ok c
      → c ≢ 0
      → chr code k ≡ ok (type_bytes (typed k c ∷ []) k)
  unfolding chr
  chr_key code c row h at found nonzero =
      let press : is_press code ≡ true = ground (arith, h) in
      let filled : (c == 0) ≡ false = ground (arith, nonzero) in rw (press, at, found, filled)

  handler_key :
      (code : ℕ) (k' : Keyboard)
      → code < 58
      → entry transcode_func_table code ≡ ok chr
      → chr code k ≡ ok k'
      → k'.waiter ≡ none
      → handler code k kernel ≡ ok (record k' { esc = 0 }, kernel)
  unfolding handler transcode woken
  handler_key code k' h at ran nobody =
      let plain : is_prefix code ≡ false = ground (arith, h) in
      let small : code % 128 ≡ code = omega (arith, h) in
      let inside : ltb code 85 ≡ true = ground (arith, h) in
      rw (plain, small, inside, at, ran, nobody)

  -- A key pressed when the queue is empty and nobody waits: the handler types one byte, which is what
  -- the next getchar returns without waiting, and the queue is empty again.
  handler-getchar_round :
      (code c : ℕ) (row : List ℕ)
      → k.waiter ≡ none
      → code < 58
      → entry transcode_func_table code ≡ ok chr
      → entry scan_code (layer k) ≡ ok row
      → entry row code ≡ ok c
      → c ≢ 0
      → (k' r : Keyboard) × (handler code k kernel ≡ ok (k', kernel))
        × (getchar_round k' kernel ≡ ok (got (typed k c), r, kernel))
        × (contents r.cb ≡ [])
  handler-getchar_round code c row nobody h chr_there at found nonzero =
      let k1 = type_bytes (typed k c ∷ []) k in
      let k' : Keyboard = record k1 { esc = 0 } in
      let t = type_bytes-HasTyped (typed k c ∷ []) k v one_fits in
      let there : contents k'.cb ≡ typed k c ∷ [] =
        t.added ∙ ap (λ (xs : List ℕ). xs ++ typed k c ∷ []) empty in
      let (r, got_it, ring, left) = getchar_first k' kernel t.ring (typed k c) [] there in
      (
        k',
        record k' { cb = r },
        handler_key code k1 h chr_there (chr_key code c row h at found nonzero)
            (t.same_waiter ∙ nobody),
        got_it,
        left,
      )
