-- ===== src/TailQueue/Remove.antt =====
-- TAILQ_REMOVE takes one entry out of the list.
use turnix.Base.{ℕ, suc, ◌≡◌, ◌≢◌, refl, Option, none, some, List, [], ◌∷◌, ◌++◌, arith, length}
use turnix.TailQueue.{
  TailQueue, unlink_at, tailq_remove, tailq_insert_head, tailq_insert_tail, tailq_foreach,
}
use turnix.TailQueue.Chain.{
  Apart, Apart-zero, Chain, Holds, Agrees, Agrees-Chain, last_place, last_place-ne,
  tailq_insert_head-Holds, tailq_insert_tail-Holds, tailq_foreach-Chain,
}

abbrev head? : List ℕ → Option ℕ
head? [] = none
head? (e ∷ es) = some e

module _ (e : ℕ) (after : List ℕ) where
  -- What the entry's own links say.
  Chain-entry :
      (q : TailQueue) (p : ℕ) (before : List ℕ)
      → Chain q p (before ++ e ∷ after)
      → (q.pprev e ≡ some (last_place p before)) × (q.link (suc e) ≡ head? after)
  Chain-entry q p [] (c, b, n, more) = (b, next after more)
    where
      next : (es : List ℕ) → Chain q (suc e) es → q.link (suc e) ≡ head? es
      next [] (c, d) = c
      next (f ∷ es) (c, d, m, rest) = c
  Chain-entry q p (d ∷ before) (c, b, n, more) = Chain-entry q (suc d) before more

  Apart-drop : (p : ℕ) (before : List ℕ) → Apart p (before ++ e ∷ after) → Apart p before
  Apart-drop p [] a = tt
  Apart-drop p (d ∷ before) (n, a) = (n, Apart-drop p before a)

  Apart-remove :
      (p : ℕ) (before : List ℕ) → Apart p (before ++ e ∷ after) → Apart p (before ++ after)
  Apart-remove p [] (n, a) = a
  Apart-remove p (d ∷ before) (n, a) = (n, Apart-remove p before a)

  Apart-after : (p : ℕ) (before : List ℕ) → Apart p (before ++ e ∷ after) → Apart p after
  Apart-after p [] (n, a) = a
  Apart-after p (d ∷ before) (n, a) = Apart-after p before a

unlink_at-Agrees :
    (q : TailQueue) (e p f : ℕ) (es : List ℕ)
    → q.link (suc e) ≡ some f
    → Apart p es
    → Apart (suc f) es
    → Agrees q (unlink_at e p q) es
unfolding unlink_at
unlink_at-Agrees q e p f [] h a b = tt
unlink_at-Agrees q e p f (g ∷ es) h (m, a) (n, b) =
    (ground (arith, h, m, n), ground (arith, h, m, n), unlink_at-Agrees q e p f es h a b)

-- Where the removed entry comes first
unlink_at-first :
    (q : TailQueue) (e p : ℕ) (after : List ℕ)
    → p ≢ suc e
    → Apart p after
    → Chain q (suc e) after
    → Chain (unlink_at e p q) p after
unfolding unlink_at
unlink_at-first q e p [] ne a (c, d) = ground (arith, c, d)
unlink_at-first q e p (f ∷ after) ne (m, a) (c, b, n, more) = (
  ground (arith, c),
  ground (arith, c),
  n,
  Agrees-Chain q (unlink_at e p q) (suc f) after (ground (arith, c)) (ground (arith, c, m))
      (unlink_at-Agrees q e p f after c a n) more,
)

-- The entry before it keeps its own links.
unlink_at-before :
    (q : TailQueue) (e r p d : ℕ) (after : List ℕ)
    → p ≢ r
    → q.link (suc e) ≡ head? after
    → Apart (suc d) after
    → q.link p ≡ some d
    → q.pprev d ≡ some p
    → ((unlink_at e r q).link p ≡ some d) × ((unlink_at e r q).pprev d ≡ some p)
unfolding unlink_at
unlink_at-before q e r p d [] n h a c b = ground (arith, n, h, c, b)
unlink_at-before q e r p d (f ∷ after) n h (m, a) c b = ground (arith, n, h, c, b, m)

unlink_at-Chain :
    (q : TailQueue) (e p : ℕ) (before after : List ℕ)
    → Chain q p (before ++ e ∷ after)
    → Apart p (before ++ e ∷ after)
    → Chain (unlink_at e (last_place p before) q) p (before ++ after)
unlink_at-Chain q e p [] after (c, b, n, more) (m, a) = unlink_at-first q e p after m a more
unlink_at-Chain q e p (d ∷ before) after (c, b, n, more) (m, a) =
    let far = last_place-ne p (suc d) before m (Apart-drop e after p before a) in
    let (from, to) = Chain-entry e after q (suc d) before more in
    let (link, back) =
      unlink_at-before q e (last_place (suc d) before) p d after far to
        (Apart-after e after (suc d) before n) c b in
    (
      link,
      back,
      Apart-remove e after (suc d) before n,
      unlink_at-Chain q e (suc d) before after more n,
    )

tailq_remove-Holds :
    (q : TailQueue) (e : ℕ) (before after : List ℕ)
    → Holds q (before ++ e ∷ after)
    → (q' : TailQueue) × (tailq_remove e q ≡ some q') × Holds q' (before ++ after)
unfolding tailq_remove
tailq_remove-Holds q e before after h =
    let (from, to) = Chain-entry e after q 0 before h in
    (
      unlink_at e (last_place 0 before) q,
      rw (from, tailq_remove) refl,
      unlink_at-Chain q e 0 before after h (Apart-zero (before ++ e ∷ after)),
    )

-- The links of queue.h do what lists do. For a queue that holds a list with the entry `e` in it, and
-- an entry `f` that is not in it: TAILQ_INSERT_HEAD and TAILQ_INSERT_TAIL put `f` before and behind
-- the list, TAILQ_REMOVE takes `e` out and follows no NULL, and TAILQ_FOREACH visits the list in its
-- order.
pub tailq_refines :
    (q : TailQueue) (e f : ℕ) (before after : List ℕ)
    → Holds q (before ++ e ∷ after)
    → Apart (suc f) (before ++ e ∷ after)
    → Holds (tailq_insert_head f q) (f ∷ (before ++ e ∷ after))
      × Holds (tailq_insert_tail f q) ((before ++ e ∷ after) ++ f ∷ [])
      × ((q' : TailQueue) × (tailq_remove e q ≡ some q') × Holds q' (before ++ after))
      × (tailq_foreach (length (before ++ e ∷ after)) 0 q ≡ before ++ e ∷ after)
tailq_refines q e f before after h a =
    let es = before ++ e ∷ after in
    (
      tailq_insert_head-Holds q f es h a,
      tailq_insert_tail-Holds q f es h a,
      tailq_remove-Holds q e before after h,
      tailq_foreach-Chain (length es) q 0 es (omega arith) h,
    )
