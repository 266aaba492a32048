-- ===== src/Keyboard/Codes.antt =====
-- The interrupt handler of arch/i386/drivers/keyboard.c on each code.
use turnix.Base.{
  ℕ, zero, suc, ◌+◌, ◌-◌, ◌%◌, ◌≡◌, ◌≤◌, ◌<◌, ◌⊎◌, refl, Bool, true, false, not, ◌&&◌, ◌||◌, List,
  [], ◌∷◌, ◌++◌, arith, ◌==◌, leb, if◌then◌else◌, length,
}
use turnix.Kernel.{Run, ok, ◌>>=◌}
use turnix.Ctype.{isupper}
use turnix.CircularBuffer.{space}
use turnix.CircularBuffer.Ring.{IsRing}
use turnix.Keyboard.Tables.{scan_code, keypad_moves, keypad_digits}
use turnix.Keyboard.{
  Keyboard, entry, type_bytes, is_press, control, shift, layer, with_caps, with_control, with_alt,
  chr, reboot, move, keypad, fn, chr_keypad,
}
use turnix.Keyboard.Typed.{
  HasTyped, HasTyped-space, HasTyped-trans, type_bytes-HasTyped, letter, tilde, function_key, Types,
  Types-same, Types-byte,
}

-- A read within the bounds of a table.
pub entry-ok {ℓ} :
    {A : Type ℓ} (xs : List A) (i : ℕ) → i < length xs → (x : A) × (entry xs i ≡ ok x)
entry-ok [] i h = absurd (omega arith)
entry-ok (x ∷ xs) zero h = (x, refl)
entry-ok (x ∷ xs) (suc i) h = entry-ok xs i (omega arith)

pub scan_row : (i : ℕ) → i < 3 → (row : List ℕ) × (entry scan_code i ≡ ok row) × (length row ≡ 58)
scan_row zero h = (_, refl, refl)
scan_row (suc zero) h = (_, refl, refl)
scan_row (suc (suc zero)) h = (_, refl, refl)
scan_row (suc (suc (suc i))) h = absurd (omega arith)

pub if-Types :
    (k : Keyboard) (b : Bool) (m n : Run Keyboard)
    → (b ≡ true → Types k m)
    → (b ≡ false → Types k n)
    → Types k (if b then m else n)
if-Types k true m n t u = t refl
if-Types k false m n t u = u refl

pub ok-Types :
    (k : Keyboard) (b : Bool) (k' k'' : Keyboard)
    → (b ≡ true → Types k (ok k'))
    → (b ≡ false → Types k (ok k''))
    → Types k (ok (if b then k' else k''))
ok-Types k true k' k'' t u = t refl
ok-Types k false k' k'' t u = u refl

-- What a function of the table has to do for the code with the low bits `i`.
abbrev pub IsTranscoder : ℕ → (ℕ → Keyboard → Run Keyboard) → Type 0
IsTranscoder i f =
    (code : ℕ) (k : Keyboard) → code % 128 ≡ i → code < 256 → IsRing k.cb → Types k (f code k)

pub chr-IsTranscoder : (i : ℕ) → i < 58 → IsTranscoder i chr
unfolding chr
chr-IsTranscoder i h code k e w v =
    if-Types k (is_press code) _ _
      (λ press.
        let (row, at, size) = scan_row (layer k) (ground arith) in
        let (c, found) = entry-ok row code (ground (arith, press, size, e, h)) in
        let typed = with_alt k (with_control k (with_caps k c)) in
        rw (at, found)
          (ok-Types k (c == 0) k (type_bytes (typed ∷ []) k) (λ z. Types-same k k v refl refl)
            (λ z. Types-byte typed k v)))
      (λ release. Types-same k k v refl refl)

pub chr_keypad-IsTranscoder : (i : ℕ) → i < 58 → IsTranscoder i chr_keypad
unfolding chr_keypad
chr_keypad-IsTranscoder i h code k e w v =
    if-Types k (k.esc == 224) _ _ (λ z. Types-byte b'/' k v)
      (λ z. chr-IsTranscoder i h code k e w v)

-- Two and more writes of what there is room for.
type_after :
    (xs ys : List ℕ) (k k' : Keyboard)
    → HasTyped k xs k'
    → length xs + length ys ≤ space k.cb
    → HasTyped k (xs ++ ys) (type_bytes ys k')
type_after xs ys k k' t h =
    let left = HasTyped-space k k' xs t (omega (arith, h)) in
    HasTyped-trans k k' (type_bytes ys k') xs ys t
      (type_bytes-HasTyped ys k' t.ring (omega (arith, left, h)))

-- `\x1b[` and the rest of a sequence, when the whole fits.
escape_letter :
    (c : ℕ) (k : Keyboard)
    → IsRing k.cb
    → 3 ≤ space k.cb
    → HasTyped k (27 ∷ b'[' ∷ c ∷ []) (type_bytes (c ∷ []) (type_bytes (27 ∷ b'[' ∷ []) k))
escape_letter c k v h =
    let start = 27 ∷ b'[' ∷ [] in
    type_after start (c ∷ []) k (type_bytes start k)
      (type_bytes-HasTyped start k v (omega (arith, h))) (omega (arith, h))

escape_tilde :
    (c : ℕ) (k : Keyboard)
    → IsRing k.cb
    → 4 ≤ space k.cb
    → HasTyped k
        (27 ∷ b'[' ∷ c ∷ b'~' ∷ [])
        (type_bytes (b'~' ∷ []) (type_bytes (c ∷ []) (type_bytes (27 ∷ b'[' ∷ []) k)))
escape_tilde c k v h =
    type_after (27 ∷ b'[' ∷ c ∷ []) (b'~' ∷ []) k _ (escape_letter c k v (omega (arith, h)))
      (omega (arith, h))

escape_function :
    (c : ℕ) (k : Keyboard)
    → IsRing k.cb
    → 4 ≤ space k.cb
    → HasTyped k
        (27 ∷ b'[' ∷ b'[' ∷ c ∷ [])
        (type_bytes (c ∷ []) (type_bytes (27 ∷ b'[' ∷ b'[' ∷ []) k))
escape_function c k v h =
    let start = 27 ∷ b'[' ∷ b'[' ∷ [] in
    type_after start (c ∷ []) k (type_bytes start k)
      (type_bytes-HasTyped start k v (omega (arith, h))) (omega (arith, h))

move-Types : (c : ℕ) (k : Keyboard) → IsRing k.cb → Types k (ok (move c k))
unfolding move
move-Types c k v =
    ok-Types k (leb 128 c) _ _
      (λ long.
        ok-Types k (leb 4 (space k.cb)) _ _
          (λ fits. (_, _, refl, tilde (c % 128), escape_tilde (c % 128) k v (ground (arith, fits))))
          (λ full. Types-same k k v refl refl))
      (λ short.
        ok-Types k (isupper c) _ _
          (λ up.
            ok-Types k (leb 3 (space k.cb)) _ _
              (λ fits. (_, _, refl, letter c up, escape_letter c k v (ground (arith, fits))))
              (λ full. Types-same k k v refl refl))
          (λ other. Types-byte c k v))

-- A key of the keypad in one of its tables.
keypad_entry :
    (table : List ℕ) (f : ℕ → Keyboard) (star : Keyboard) (code : ℕ) (k : Keyboard)
    → length table ≡ 13
    → (code ≡ 55) ⊎ ((71 ≤ code) × (code < 84))
    → Types k (ok star)
    → ((c : ℕ) → Types k (ok (f c)))
    → Types k (if code == 55 then ok star else entry table (code - 71) >>= λ c. ok (f c))
keypad_entry table f star code k size h t u =
    if-Types k (code == 55) _ _ (λ z. t)
      (λ z.
        let (c, found) = entry-ok table (code - 71) (ground (arith, h, size, z)) in rw found (u c))

pub keypad-IsTranscoder : (i : ℕ) → (i ≡ 55) ⊎ ((71 ≤ i) × (i < 84)) → IsTranscoder i keypad
unfolding keypad
keypad-IsTranscoder i h code k e w v =
    if-Types k (not (is_press code)) _ _ (λ release. Types-same k k v refl refl)
      (λ press.
        let key : (code ≡ 55) ⊎ ((71 ≤ code) × (code < 84)) = ground (arith, press, e, h) in
        if-Types k ((code == 83) && control k && (k.l_alt || k.r_alt)) _ _
          (λ z. Types-same k (reboot k) v refl refl)
          (λ z.
            if-Types k ((k.esc == 224) || not k.num_lock || shift k) _ _
              (λ y.
                keypad_entry keypad_moves (λ c. move c k) k code k refl key
                  (Types-same k k v refl refl) (λ c. move-Types c k v))
              (λ y.
                keypad_entry keypad_digits (λ c. type_bytes (c ∷ []) k) _ code k refl key
                  (Types-byte b'*' k v) (λ c. Types-byte c k v))))

pub fn-IsTranscoder : (i : ℕ) → 59 ≤ i → i < 69 → IsTranscoder i fn
unfolding fn
fn-IsTranscoder i h g code k e w v =
    ok-Types k (is_press code && leb 4 (space k.cb)) _ _
      (λ fits.
        let c = code - 59 + b'A' in
        (
          _,
          _,
          refl,
          function_key c (omega arith) (ground (arith, fits, e)),
          escape_function c k v (ground (arith, fits)),
        ))
      (λ z. Types-same k k v refl refl)
