-- ===== src/CircularBuffer/Ring.antt =====
-- The ring as a queue of bytes.
use native.Mathlib.Nat.{mod-eq_of_lt, mod_self}
use turnix.Base.{
  ℕ, zero, suc, ◌+◌, ◌-◌, ◌%◌, ◌≡◌, ◌≢◌, ◌≤◌, ◌<◌, sym, ap, ◌∙◌, List, [], ◌∷◌, ◌++◌, arith, ltb,
  if◌then◌else◌, update, ℕ_discrete, subst,
}
use turnix.CircularBuffer.{CircularBuffer, put, advance}

-- The index that lies `j` after `i` on the ring.
abbrev pub wrap : ℕ → ℕ → ℕ → ℕ
wrap size i j = if ltb (i + j) size then i + j else i + j - size

step-wrap : (size i : ℕ) → i < size → (i + 1) % size ≡ wrap size i 1
step-wrap size i h = elim (ℕ_discrete (i + 1) size) [
  | yes e ↦
      let same : (i + 1) % size ≡ size % size = ap (λ (x : ℕ). x % size) e in
      ground (arith, same, mod_self size)
  | no n ↦ let small : (i + 1) % size ≡ i + 1 = mod-eq_of_lt (omega arith) in ground (arith, small)
]

-- The bytes of the ring, from index `i` on.
abbrev pub items : ℕ → ℕ → ℕ → (ℕ → ℕ) → List ℕ
items zero size i b = []
items (suc n) size i b = b i ∷ items n size (wrap size i 1) b

abbrev pub contents : CircularBuffer → List ℕ
contents cb = items cb.len cb.size cb.read cb.buffer

-- The indices lie on the ring, and the place to write is `len` after the place to read.
pub record IsRing (cb : CircularBuffer) : Type 0 where
  pub room : 0 < cb.size
  pub inside : cb.read < cb.size
  pub fits : cb.len ≤ cb.size
  pub behind : cb.write ≡ wrap cb.size cb.read cb.len

wrap_zero : (size i : ℕ) → i < size → wrap size i 0 ≡ i
wrap_zero size i h = ground arith

wrap-suc :
    (size i n : ℕ)
    → i < size
    → suc n < size
    → (wrap size i (suc n) ≡ wrap size (wrap size i 1) n) × (wrap size i 1 < size)
wrap-suc size i n h p = (ground arith, ground arith)

wrap_apart : (size i n : ℕ) → i < size → suc n < size → wrap size i (suc n) ≢ i
wrap_apart size i n h p = λ e. ground (arith, e)

-- A byte written behind the last one is added at the end.
items_snoc :
    (n size i : ℕ) (b : ℕ → ℕ) (x : ℕ)
    → i < size
    → n < size
    → items (suc n) size i (update b (wrap size i n) x) ≡ items n size i b ++ x ∷ []
items_snoc zero size i b x h p = ap (λ (y : ℕ). y ∷ []) (ground (arith, wrap_zero size i h))
items_snoc (suc n) size i b x h p =
    let (same, in_ring) = wrap-suc size i n h p in
    let head : update b (wrap size i (suc n)) x i ≡ b i = ground (arith, wrap_apart size i n h p) in
    let rest = items_snoc n size (wrap size i 1) b x in_ring (omega arith) in
    let moved =
      subst
        (λ (w : ℕ).
          items (suc n) size (wrap size i 1) (update b w x)
          ≡ items n size (wrap size i 1) b ++ x ∷ [])
        (sym same) rest in
    ap (λ (y : ℕ). y ∷ items (suc n) size (wrap size i 1) (update b (wrap size i (suc n)) x)) head
    ∙ ap (λ (l : List ℕ). b i ∷ l) moved

-- The byte in front is the next to be read.
items_first :
    (n size i : ℕ) (b : ℕ → ℕ)
    → 0 < n
    → i < size
    → items n size i b ≡ b i ∷ items (n - 1) size ((i + 1) % size) b
items_first zero size i b p h = absurd (omega arith)
items_first (suc n) size i b p h =
    let less : suc n - 1 ≡ n = omega arith in
    let index = step-wrap size i h in
    ap (λ (j : ℕ). b i ∷ items n size j b) (sym index)
    ∙ ap (λ (m : ℕ). b i ∷ items m size ((i + 1) % size) b) (sym less)

pub put-IsRing : (x : ℕ) (cb : CircularBuffer) → IsRing cb → cb.len < cb.size → IsRing (put x cb)
unfolding put
put-IsRing x cb v h =
    let inside : cb.write < cb.size = ground (arith, v.behind) in
    let next = step-wrap cb.size cb.write inside in
    record {
      room = v.room;
      inside = v.inside;
      fits = omega arith;
      behind = ground (arith, v.behind, next);
    }

pub put-contents :
    (x : ℕ) (cb : CircularBuffer)
    → IsRing cb
    → cb.len < cb.size
    → contents (put x cb) ≡ contents cb ++ x ∷ []
unfolding put
put-contents x cb v h =
    let longer : cb.len + 1 ≡ suc cb.len = omega arith in
    let added = items_snoc cb.len cb.size cb.read cb.buffer x v.inside h in
    ap (λ (n : ℕ). items n cb.size cb.read (update cb.buffer cb.write x)) longer
    ∙ ap (λ (w : ℕ). items (suc cb.len) cb.size cb.read (update cb.buffer w x)) v.behind
    ∙ added

pub advance-IsRing : (cb : CircularBuffer) → IsRing cb → 0 < cb.len → IsRing (advance cb)
unfolding advance
advance-IsRing cb v h =
    let next = step-wrap cb.size cb.read v.inside in
    record {
      room = v.room;
      inside = ground (arith, next, v.room);
      fits = omega arith;
      behind = ground (arith, v.behind, next);
    }

pub advance-contents :
    (cb : CircularBuffer)
    → IsRing cb
    → 0 < cb.len
    → contents cb ≡ cb.buffer cb.read ∷ contents (advance cb)
unfolding advance
advance-contents cb v h = items_first cb.len cb.size cb.read cb.buffer h v.inside
