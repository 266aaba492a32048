-- ===== src/Idt/Gates.antt =====
-- What the processor reads in a gate.
use turnix.Base.{
  ℕ, zero, suc, ◌+◌, ◌*◌, ◌/◌, ◌%◌, ◌^◌, ◌≡◌, ◌≤◌, ◌<◌, refl, Option, none, some, List, [], ◌∷◌,
  arith, ◌==◌, if◌then◌else◌, update, ◌∙◌, ap,
}
use turnix.Idt.{Id386, id_set, id_words, id_zero, setup_from, idt_init, interrupt_gate}

-- An interrupt gate of 32 bits
pub record Gate : Type 0 where
  pub offset : ℕ
  pub selector : ℕ
  pub level : ℕ

-- The gate in the two words, if it is present and of that kind.
abbrev pub gate : ℕ × ℕ → Option Gate
gate (low, high) =
    if high / 2 ^ 15 % 2 == 1
    then if high / 2 ^ 8 % 2 ^ 5 == 14
      then some (record {
        offset = low % 2 ^ 16 + high / 2 ^ 16 * 2 ^ 16;
        selector = low / 2 ^ 16;
        level = high / 2 ^ 13 % 4;
      })
      else none
    else none

-- The routine of an interrupt, by its place in the list.
abbrev pub routine : List (Option ℕ) → ℕ → Option ℕ
routine [] i = none
routine (addr ∷ isr) zero = addr
routine (addr ∷ isr) (suc i) = routine isr i

abbrev pub AreWords : List (Option ℕ) → Type 0
AreWords [] = Unit {0}
AreWords (none ∷ isr) = AreWords isr
AreWords (some addr ∷ isr) = (addr < 2 ^ 32) × AreWords isr

abbrev pub gate_of : Option ℕ → Option Gate
gate_of none = none
gate_of (some addr) = some (record { offset = addr; selector = 0x8; level = 0 })

id_set-gate :
    (addr : ℕ)
    → addr < 2 ^ 32
    → gate (id_words (id_set addr 0 interrupt_gate)) ≡ gate_of (some addr)
unfolding id_set
id_set-gate addr h = ground arith

setup_from-before :
    (i j : ℕ) (isr : List (Option ℕ)) (idt : ℕ → Id386) → j < i → setup_from i isr idt j ≡ idt j
unfolding setup_from
setup_from-before i j [] idt h = refl
setup_from-before i j (none ∷ isr) idt h = setup_from-before (i + 1) j isr idt (omega arith)
setup_from-before i j (some addr ∷ isr) idt h =
    ground (arith, setup_from-before (i + 1) j isr (update idt i (id_set addr 0 interrupt_gate)), h)

-- The gate of an entry that may be replaced
abbrev seen : Id386 → Option Gate
seen id = gate (id_words id)

setup_from-gate :
    (i j : ℕ) (isr : List (Option ℕ)) (idt : ℕ → Id386)
    → AreWords isr
    → ((k : ℕ) → i ≤ k → gate (id_words (idt k)) ≡ none)
    → gate (id_words (setup_from i isr idt (i + j))) ≡ gate_of (routine isr j)
unfolding setup_from
setup_from-gate i j [] idt are blank = blank (i + j) (omega arith)
setup_from-gate i zero (none ∷ isr) idt are blank =
    ap seen (setup_from-before (i + 1) (i + 0) isr idt (omega arith)) ∙ blank (i + 0) (omega arith)
setup_from-gate i zero (some addr ∷ isr) idt are blank =
    let idt' = update idt i (id_set addr 0 interrupt_gate) in
    let here : idt' (i + 0) ≡ id_set addr 0 interrupt_gate = ground arith in
    ap seen (setup_from-before (i + 1) (i + 0) isr idt' (omega arith) ∙ here)
    ∙ id_set-gate addr (are.0)
setup_from-gate i (suc j) (none ∷ isr) idt are blank =
    let e : i + suc j ≡ (i + 1) + j = omega arith in
    rw e (setup_from-gate (i + 1) j isr idt are (λ k h. blank k (omega arith)))
setup_from-gate i (suc j) (some addr ∷ isr) idt are blank =
    let e : i + suc j ≡ (i + 1) + j = omega arith in
    let idt' = update idt i (id_set addr 0 interrupt_gate) in
    let kept : ((k : ℕ) → i + 1 ≤ k → idt' k ≡ idt k) = λ k h. ground (arith, h) in
    rw e (
      setup_from-gate (i + 1) j isr idt' (are.1)
        (λ k h. ap seen (kept k h) ∙ blank k (omega arith)))

-- idt_init leaves, for each interrupt, a present gate of 32 bits at level 0 to its routine in the
-- code segment of the kernel, and no gate where there is no routine, if the routines are addresses of
-- 32 bits.
pub idt_init-gate :
    (isr : List (Option ℕ)) (irq : ℕ)
    → AreWords isr
    → gate (id_words (idt_init isr irq)) ≡ gate_of (routine isr irq)
unfolding idt_init
idt_init-gate isr irq are =
    let e : 0 + irq ≡ irq = omega arith in
    rw e at (setup_from-gate 0 irq isr (λ i. id_zero) are (λ k h. refl))
