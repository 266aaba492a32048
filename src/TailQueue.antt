-- ===== src/TailQueue.antt =====
-- include/sys/queue.h: a list whose entries are linked both ways. An entry is a number, and a place
-- that holds a link is one too: 0 is the field `first` of the head, and `e + 1` the field `next` of
-- the entry `e`.
pub mod Chain
pub mod Remove
use turnix.Base.{ℕ, zero, suc, ◌+◌, Option, none, some, List, [], ◌∷◌, Bool, true, false, update}

-- The links, `ptail` of the head, and the `pprev` of the entries.
pub record TailQueue : Type 0 where
  pub link : ℕ → Option ℕ
  pub ptail : ℕ
  pub pprev : ℕ → Option ℕ

-- `TAILQ_INIT`
abbrev pub tailq_init : TailQueue → TailQueue
tailq_init q = record q { link = update q.link 0 none; ptail = 0 }

-- `TAILQ_ENTRY_INIT`
abbrev pub tailq_entry_init : ℕ → TailQueue → TailQueue
tailq_entry_init e q = record q { pprev = update q.pprev e none }

-- `TAILQ_ENTRY_EMPTY`
abbrev pub tailq_entry_empty : ℕ → TailQueue → Bool
tailq_entry_empty e q = elim (q.pprev e) [ none ↦ true | some p ↦ false ]

-- `TAILQ_FIRST`, and `TAILQ_EMPTY` where it is NULL
abbrev pub tailq_first : TailQueue → Option ℕ
tailq_first q = q.link 0

abbrev pub link_back : Option ℕ → ℕ → TailQueue → TailQueue
link_back none place q = record q { ptail = place }
link_back (some e) place q = record q { pprev = update q.pprev e (some place) }

-- `TAILQ_INSERT_HEAD`
unfoldable pub tailq_insert_head : ℕ → TailQueue → TailQueue
tailq_insert_head e q =
    let q' = record q {
      link = update q.link (suc e) (q.link 0);
      pprev = update q.pprev e (some 0);
    } in
    let q'' = link_back (q.link 0) (suc e) q' in record q'' { link = update q''.link 0 (some e) }

-- `TAILQ_INSERT_TAIL`
unfoldable pub tailq_insert_tail : ℕ → TailQueue → TailQueue
tailq_insert_tail e q = record {
  link = update (update q.link (suc e) none) q.ptail (some e);
  ptail = suc e;
  pprev = update q.pprev e (some q.ptail);
}

-- `TAILQ_REMOVE`, where `pprev` is `place`
unfoldable pub unlink_at : ℕ → ℕ → TailQueue → TailQueue
unlink_at e place q =
    let q' = link_back (q.link (suc e)) place q in
    record q' { link = update q'.link place (q.link (suc e)) }

-- `TAILQ_REMOVE`; it follows NULL for an entry that is in no list.
unfoldable pub tailq_remove : ℕ → TailQueue → Option TailQueue
tailq_remove e q = elim (q.pprev e) [ none ↦ none | some place ↦ some (unlink_at e place q) ]

-- What `TAILQ_FOREACH` visits from a place on, at most `n` entries.
unfoldable pub tailq_foreach : ℕ → ℕ → TailQueue → List ℕ
tailq_foreach zero place q = []
tailq_foreach (suc n) place q = elim (q.link place) [
  | none ↦ []
  | some e ↦ e ∷ tailq_foreach n (suc e) q
]
