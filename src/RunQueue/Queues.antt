-- ===== src/RunQueue/Queues.antt =====
-- The queues of include/sys/queue.h as lists, and how often an entry stands in one.
use turnix.Base.{
  ℕ, ◌+◌, ◌-◌, ◌≡◌, ◌<◌, refl, Bool, true, false, List, [], ◌∷◌, ◌++◌, arith, ◌==◌, if◌then◌else◌,
}

-- `TAILQ_EMPTY`
abbrev pub is_empty : List ℕ → Bool
is_empty [] = true
is_empty (x ∷ q) = false

-- `TAILQ_REMOVE` of an entry that stands in the queue
unfoldable pub remove : ℕ → List ℕ → List ℕ
remove a [] = []
remove a (x ∷ q) = if x == a then q else x ∷ remove a q

unfoldable pub count : ℕ → List ℕ → ℕ
count a [] = 0
count a (x ∷ q) = (if x == a then 1 else 0) + count a q

pub count-append : (a : ℕ) (q r : List ℕ) → count a (q ++ r) ≡ count a q + count a r
unfolding count
count-append a [] r = omega arith
count-append a (x ∷ q) r = omega (arith, count-append a q r)

pub count-remove :
    (a b : ℕ) (q : List ℕ) → count a (remove b q) ≡ (if b == a then count a q - 1 else count a q)
unfolding count remove
count-remove a b [] = ground arith
count-remove a b (x ∷ q) = ground (arith, count-remove a b q)

pub count_of_empty : (a : ℕ) (q : List ℕ) → is_empty q ≡ true → count a q ≡ 0
unfolding count
count_of_empty a [] h = refl
count_of_empty a (x ∷ q) h = ground arith

pub count_pos-is_empty : (a : ℕ) (q : List ℕ) → 0 < count a q → is_empty q ≡ false
unfolding count
count_pos-is_empty a [] h = ground arith
count_pos-is_empty a (x ∷ q) h = refl

pub is_empty-append : (q : List ℕ) (a : ℕ) → is_empty (q ++ a ∷ []) ≡ false
is_empty-append [] a = refl
is_empty-append (x ∷ q) a = refl

pub count_head : (a : ℕ) (q : List ℕ) → 0 < count a (a ∷ q)
unfolding count
count_head a q = ground arith
