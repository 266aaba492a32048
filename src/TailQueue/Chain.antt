-- ===== src/TailQueue/Chain.antt =====
-- A queue of links stands for the list of its entries.
use turnix.Base.{
  ℕ, zero, suc, ◌≡◌, ◌≢◌, ◌≤◌, ◌∙◌, refl, ap, none, some, List, [], ◌∷◌, ◌++◌, arith, length,
}
use turnix.TailQueue.{TailQueue, tailq_insert_head, tailq_insert_tail, tailq_foreach}

-- The place is none of the entries' `next`.
abbrev pub Apart : ℕ → List ℕ → Type 0
Apart p [] = Unit {0}
Apart p (e ∷ es) = (p ≢ suc e) × Apart p es

-- From the place on, the links run through the entries, which differ, to the end, and back.
abbrev pub Chain : TailQueue → ℕ → List ℕ → Type 0
Chain q p [] = (q.link p ≡ none) × (q.ptail ≡ p)
Chain q p (e ∷ es) =
    (q.link p ≡ some e) × (q.pprev e ≡ some p) × Apart (suc e) es × Chain q (suc e) es

-- The queue holds the entries.
abbrev pub Holds : TailQueue → List ℕ → Type 0
Holds q es = Chain q 0 es

pub Apart-zero : (es : List ℕ) → Apart 0 es
Apart-zero [] = tt
Apart-zero (e ∷ es) = (omega arith, Apart-zero es)

pub Apart-append : (p e : ℕ) (es : List ℕ) → Apart p es → p ≢ suc e → Apart p (es ++ e ∷ [])
Apart-append p e [] a n = (n, tt)
Apart-append p e (d ∷ es) a n = (a.0, Apart-append p e es (a.1) n)

-- What the chain reads is the same in both.
abbrev pub Agrees : TailQueue → TailQueue → List ℕ → Type 0
Agrees q q' [] = Unit {0}
Agrees q q' (e ∷ es) =
    (q'.link (suc e) ≡ q.link (suc e)) × (q'.pprev e ≡ q.pprev e) × Agrees q q' es

pub Agrees-Chain :
    (q q' : TailQueue) (p : ℕ) (es : List ℕ)
    → q'.ptail ≡ q.ptail
    → q'.link p ≡ q.link p
    → Agrees q q' es
    → Chain q p es
    → Chain q' p es
Agrees-Chain q q' p [] t l a (c, d) = (l ∙ c, t ∙ d)
Agrees-Chain q q' p (e ∷ es) t l (m, b, a) (c, d, n, more) =
    (l ∙ c, b ∙ d, n, Agrees-Chain q q' (suc e) es t m a more)

-- The place of the end
abbrev pub last_place : ℕ → List ℕ → ℕ
last_place p [] = p
last_place p (e ∷ es) = last_place (suc e) es

pub last_place-ne : (p r : ℕ) (es : List ℕ) → p ≢ r → Apart p es → p ≢ last_place r es
last_place-ne p r [] n a = n
last_place-ne p r (e ∷ es) n (m, a) = last_place-ne p (suc e) es m a

pub Chain-ptail : (q : TailQueue) (p : ℕ) (es : List ℕ) → Chain q p es → q.ptail ≡ last_place p es
Chain-ptail q p [] (c, d) = d
Chain-ptail q p (e ∷ es) (c, b, n, more) = Chain-ptail q (suc e) es more

insert_tail-Chain :
    (q : TailQueue) (e p : ℕ) (es : List ℕ)
    → Chain q p es
    → Apart (suc e) es
    → p ≢ suc e
    → Apart p es
    → Chain (tailq_insert_tail e q) p (es ++ e ∷ [])
unfolding tailq_insert_tail
insert_tail-Chain q e p [] (c, d) a ne f = ground (arith, c, d, ne)
insert_tail-Chain q e p (d ∷ es) (c, b, n, more) (m, a) ne (near, f) =
    let end = Chain-ptail q (suc d) es more in
    let other = last_place-ne p (suc d) es near f in
    (
      ground (arith, c, end, other, ne),
      ground (arith, b, m),
      Apart-append (suc d) e es n (λ h. m (omega arith)),
      insert_tail-Chain q e (suc d) es more a (λ h. m (omega arith)) n,
    )

-- TAILQ_INSERT_TAIL puts a new entry behind the others.
pub tailq_insert_tail-Holds :
    (q : TailQueue) (e : ℕ) (es : List ℕ)
    → Holds q es
    → Apart (suc e) es
    → Holds (tailq_insert_tail e q) (es ++ e ∷ [])
tailq_insert_tail-Holds q e es h a = insert_tail-Chain q e 0 es h a (omega arith) (Apart-zero es)

insert_head-Agrees :
    (q : TailQueue) (e d : ℕ) (es : List ℕ)
    → q.link 0 ≡ some d
    → Apart (suc e) es
    → Apart (suc d) es
    → Agrees q (tailq_insert_head e q) es
unfolding tailq_insert_head
insert_head-Agrees q e d [] h a b = tt
insert_head-Agrees q e d (f ∷ es) h (m, a) (n, b) =
    (ground (arith, h, m, n), ground (arith, h, m, n), insert_head-Agrees q e d es h a b)

-- TAILQ_INSERT_HEAD puts a new entry before the others.
pub tailq_insert_head-Holds :
    (q : TailQueue) (e : ℕ) (es : List ℕ)
    → Holds q es
    → Apart (suc e) es
    → Holds (tailq_insert_head e q) (e ∷ es)
unfolding tailq_insert_head
tailq_insert_head-Holds q e [] (c, d) a = ground (arith, c, d)
tailq_insert_head-Holds q e (d ∷ es) (c, b, n, more) (m, a) = (
  ground (arith, c, b, m),
  ground (arith, c, b, m),
  (m, a),
  (
    ground (arith, c, b, m),
    ground (arith, c, b, m),
    n,
    Agrees-Chain q (tailq_insert_head e q) (suc d) es (ground (arith, c)) (ground (arith, c, m))
        (insert_head-Agrees q e d es c a n) more,
  ),
)

-- TAILQ_FOREACH visits the entries in their order.
pub tailq_foreach-Chain :
    (n : ℕ) (q : TailQueue) (p : ℕ) (es : List ℕ)
    → length es ≤ n
    → Chain q p es
    → tailq_foreach n p q ≡ es
unfolding tailq_foreach
tailq_foreach-Chain zero q p [] h (c, d) = refl
tailq_foreach-Chain zero q p (e ∷ es) h c = absurd (omega arith)
tailq_foreach-Chain (suc n) q p [] h (c, d) = rw (c, tailq_foreach) refl
tailq_foreach-Chain (suc n) q p (e ∷ es) h (c, b, m, more) =
    rw (c, tailq_foreach) (ap (λ r. e ∷ r) (tailq_foreach-Chain n q (suc e) es (omega arith) more))
