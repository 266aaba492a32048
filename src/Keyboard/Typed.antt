-- ===== src/Keyboard/Typed.antt =====
-- What the functions of arch/i386/drivers/keyboard.c add to the queue of bytes.
use turnix.Base.{
  ℕ, zero, suc, ◌+◌, ◌≡◌, ◌≤◌, refl, sym, ap, subst, ◌∙◌, true, false, List, [], ◌∷◌, ◌++◌,
  append-nil, append_assoc, arith, ltb, if◌then◌else◌, length, length-append, take, dec_lt,
}
use turnix.Kernel.{Run, ok}
use turnix.Ctype.{isupper}
use turnix.CircularBuffer.{CircularBuffer, space, write}
use turnix.CircularBuffer.Ring.{IsRing, contents, items, wrap}
use turnix.CircularBuffer.Queue.{write-IsWritten}
use turnix.Keyboard.{Keyboard, type_bytes}

pub length-items : (n size i : ℕ) (b : ℕ → ℕ) → length (items n size i b) ≡ n
length-items zero size i b = refl
length-items (suc n) size i b = ap suc (length-items n size (wrap size i 1) b)

take_all : (xs : List ℕ) (n : ℕ) → length xs ≤ n → take n xs ≡ xs
take_all [] zero h = refl
take_all [] (suc n) h = refl
take_all (x ∷ xs) zero h = absurd (omega arith)
take_all (x ∷ xs) (suc n) h = ap (λ (ys : List ℕ). x ∷ ys) (take_all xs n (omega arith))

-- The bytes `xs` are added at the end of the queue, which stays a ring of its size, and the waiting
-- thread is as before.
pub record HasTyped (k : Keyboard) (xs : List ℕ) (k' : Keyboard) : Type 0 where
  pub ring : IsRing k'.cb
  pub same_size : k'.cb.size ≡ k.cb.size
  pub added : contents k'.cb ≡ contents k.cb ++ xs
  pub same_waiter : k'.waiter ≡ k.waiter

pub HasTyped-space :
    (k k' : Keyboard) (xs : List ℕ)
    → HasTyped k xs k'
    → length xs ≤ space k.cb
    → space k'.cb + length xs ≡ space k.cb
HasTyped-space k k' xs t h =
    let before = length-items k.cb.len k.cb.size k.cb.read k.cb.buffer in
    let after = length-items k'.cb.len k'.cb.size k'.cb.read k'.cb.buffer in
    omega
      (arith, t.same_size, before, after, h, ap length t.added, length-append (contents k.cb) xs)

pub HasTyped-nothing :
    (k k' : Keyboard) → IsRing k.cb → k'.cb ≡ k.cb → k'.waiter ≡ k.waiter → HasTyped k [] k'
HasTyped-nothing k k' v e w = record {
  ring = subst IsRing (sym e) v;
  same_size = ap (λ (cb : CircularBuffer). cb.size) e;
  added = ap contents e ∙ sym (append-nil (contents k.cb));
  same_waiter = w;
}

pub HasTyped-trans :
    (k k' k'' : Keyboard) (xs ys : List ℕ)
    → HasTyped k xs k'
    → HasTyped k' ys k''
    → HasTyped k (xs ++ ys) k''
HasTyped-trans k k' k'' xs ys t u = record {
  ring = u.ring;
  same_size = u.same_size ∙ t.same_size;
  added = u.added ∙ ap (λ (zs : List ℕ). zs ++ ys) t.added ∙ append_assoc (contents k.cb) xs ys;
  same_waiter = u.same_waiter ∙ t.same_waiter;
}

-- The bytes that fit are typed.
type_bytes_some :
    (xs : List ℕ) (k : Keyboard)
    → IsRing k.cb
    → HasTyped k
        (take (if ltb (length xs) (space k.cb) then length xs else space k.cb) xs)
        (type_bytes xs k)
unfolding type_bytes
type_bytes_some xs k v =
    let (n, r, ran, w) = write-IsWritten xs k.cb v in
    let after : (write xs k.cb).1 ≡ r = ap (λ (p : ℕ × CircularBuffer). p.1) ran in
    record {
      ring = subst IsRing (sym after) w.ring;
      same_size = ap (λ (cb : CircularBuffer). cb.size) after ∙ w.same_size;
      added = ap contents after ∙ w.added ∙ ap (λ (m : ℕ). contents k.cb ++ take m xs) w.count;
      same_waiter = refl;
    }

type_bytes_none :
    (c : ℕ) (k : Keyboard) → IsRing k.cb → space k.cb ≡ 0 → HasTyped k [] (type_bytes (c ∷ []) k)
type_bytes_none c k v e =
    let none_fit : ltb 1 (space k.cb) ≡ false = ground (arith, e) in
    subst (λ ys. HasTyped k ys (type_bytes (c ∷ []) k)) (rw (none_fit, e))
      (type_bytes_some (c ∷ []) k v)

pub type_bytes-HasTyped :
    (xs : List ℕ) (k : Keyboard)
    → IsRing k.cb
    → length xs ≤ space k.cb
    → HasTyped k xs (type_bytes xs k)
type_bytes-HasTyped xs k v h =
    subst (λ ys. HasTyped k ys (type_bytes xs k)) (take_all xs _ (ground (arith, h)))
      (type_bytes_some xs k v)

-- What one code can add: nothing, a byte, or one of the escape sequences.
pub data IsSequence : List ℕ → Type 0 where
  nothing : IsSequence []
  byte : (c : ℕ) → IsSequence (c ∷ [])
  letter : (c : ℕ) → isupper c ≡ true → IsSequence (27 ∷ b'[' ∷ c ∷ [])
  tilde : (c : ℕ) → IsSequence (27 ∷ b'[' ∷ c ∷ b'~' ∷ [])
  function_key : (c : ℕ) → b'A' ≤ c → c ≤ b'J' → IsSequence (27 ∷ b'[' ∷ b'[' ∷ c ∷ [])

-- A run that ends with a sequence typed.
abbrev pub Types : Keyboard → Run Keyboard → Type 0
Types k m = (k' : Keyboard) × (xs : List ℕ) × (m ≡ ok k') × IsSequence xs × HasTyped k xs k'

pub Types-same :
    (k k' : Keyboard) → IsRing k.cb → k'.cb ≡ k.cb → k'.waiter ≡ k.waiter → Types k (ok k')
Types-same k k' v e w = (k', [], refl, nothing, HasTyped-nothing k k' v e w)

-- A byte is typed or, in a full queue, dropped.
pub Types-byte : (c : ℕ) (k : Keyboard) → IsRing k.cb → Types k (ok (type_bytes (c ∷ []) k))
Types-byte c k v = elim (dec_lt 0 (space k.cb)) [
  | yes h ↦ (_, c ∷ [], refl, byte c, type_bytes-HasTyped (c ∷ []) k v (omega arith))
  | no h ↦ (_, [], refl, nothing, type_bytes_none c k v (omega arith))
]
