-- ===== src/Tests/Hardware.antt =====
-- The masks, the descriptors and the queues at concrete inputs.
use turnix.Base.{ℕ, ◌≡◌, refl, not, Option, none, some, List, [], ◌∷◌, arith, ◌==◌, if◌then◌else◌}
use turnix.Pic.{Ports, pic_init}
use turnix.Pic.Masks.{enable, disable, pic_run, asked, is_masked, is_masked-pic_run}
use turnix.Idt.{id_words, idt_init}
use turnix.Idt.Gates.{gate, gate_of, routine, idt_init-gate}
use turnix.TailQueue.{TailQueue, tailq_insert_head, tailq_insert_tail, tailq_remove, tailq_foreach}
use turnix.TailQueue.Chain.{Holds}
use turnix.TailQueue.Remove.{tailq_refines}

abbrev silent : Ports
silent = record { port = λ p. 0; sent = [] }

-- The timer and the keyboard are let through, and the timer is held back again.
is_masked-pic_run_example :
    is_masked 33 (pic_run (enable 32 ∷ enable 33 ∷ disable 32 ∷ []) (pic_init silent))
    ≡ asked (enable 32 ∷ enable 33 ∷ disable 32 ∷ []) (λ i. not (i == 34)) 33
is_masked-pic_run_example =
    is_masked-pic_run (enable 32 ∷ enable 33 ∷ disable 32 ∷ []) silent 33 (omega arith)
      (omega arith)

abbrev routines : List (Option ℕ)
routines = some 0x100000 ∷ none ∷ some 0x12345678 ∷ []

idt_init-gate_example : gate (id_words (idt_init routines 2)) ≡ gate_of (routine routines 2)
idt_init-gate_example = idt_init-gate routines 2 (omega arith)

-- A queue of the entries 4 and 7
abbrev two : TailQueue
two = record {
  link = λ p. if p == 0 then some 4 else if p == 5 then some 7 else none;
  ptail = 8;
  pprev = λ e. if e == 4 then some 0 else if e == 7 then some 5 else none;
}

tailq_refines_example :
    Holds (tailq_insert_head 2 two) (2 ∷ 4 ∷ 7 ∷ [])
    × Holds (tailq_insert_tail 2 two) (4 ∷ 7 ∷ 2 ∷ [])
    × ((q' : TailQueue) × (tailq_remove 4 two ≡ some q') × Holds q' (7 ∷ []))
    × (tailq_foreach 2 0 two ≡ 4 ∷ 7 ∷ [])
tailq_refines_example =
    tailq_refines two 4 2 [] (7 ∷ [])
      (refl, refl, (omega arith, tt), (refl, refl, tt, (refl, refl))) (omega arith)
