-- ===== src/Context/Resume.antt =====
-- A thread goes on where it stopped, and a new one begins in its wrapper.
use turnix.Base.{
  ℕ, zero, suc, ◌+◌, ◌-◌, ◌*◌, ◌%◌, ◌^◌, ◌≡◌, ◌≢◌, subst, ◌≤◌, ◌<◌, ◌∙◌, refl, ap, sym, arith, List,
  [], ◌∷◌, ◌++◌, Option, none, some, update, length, get_or,
}
use turnix.Context.{
  Registers, Processor, lower, higher, push_all, pusha, frame, restore, save, save_current,
  switch_to, arch_context_switch, arch_pthread_init,
}

push_all-esp :
    (vs : List ℕ) (esp : ℕ) (memory : ℕ → ℕ)
    → 4 * length vs ≤ esp
    → esp < 2 ^ 32
    → (push_all vs esp memory).0 + 4 * length vs ≡ esp
unfolding push_all
push_all-esp [] esp memory room word = omega arith
push_all-esp (v ∷ vs) esp memory room word =
    let rest =
      push_all-esp vs (lower esp) (update memory (lower esp) v) (omega (arith, room, word))
        (omega (arith, room, word)) in
    omega (arith, rest, room, word)

-- The words from the old stack pointer on stay.
push_all-kept :
    (vs : List ℕ) (esp : ℕ) (memory : ℕ → ℕ) (i : ℕ)
    → 4 * length vs ≤ esp
    → esp < 2 ^ 32
    → esp ≤ i
    → (push_all vs esp memory).1 i ≡ memory i
unfolding push_all
push_all-kept [] esp memory i room word up = refl
push_all-kept (v ∷ vs) esp memory i room word up =
    let less : lower esp < i = omega (arith, room, word, up) in
    push_all-kept vs (lower esp) (update memory (lower esp) v) i (omega (arith, room, word))
      (omega (arith, room, word)) (omega (arith, less))
    ∙ ground (arith, less)

-- The word `k` that is pushed
push_all-at :
    (vs : List ℕ) (esp : ℕ) (memory : ℕ → ℕ) (k : ℕ)
    → 4 * length vs ≤ esp
    → esp < 2 ^ 32
    → k < length vs
    → (push_all vs esp memory).1 (esp - 4 * (k + 1)) ≡ get_or vs k 0
unfolding push_all
push_all-at [] esp memory k room word h = absurd (omega (arith, h))
push_all-at (v ∷ vs) esp memory zero room word h =
    let e : esp - 4 * (zero + 1) ≡ lower esp = omega (arith, room, word) in
    ap (push_all vs (lower esp) (update memory (lower esp) v)).1 e
    ∙ push_all-kept vs (lower esp) (update memory (lower esp) v) (lower esp)
        (omega (arith, room, word)) (omega (arith, room, word)) (omega arith)
    ∙ ground arith
push_all-at (v ∷ vs) esp memory (suc k) room word h =
    let e : esp - 4 * (suc k + 1) ≡ lower esp - 4 * (k + 1) = omega (arith, room, word) in
    ap (push_all vs (lower esp) (update memory (lower esp) v)).1 e
    ∙ push_all-at vs (lower esp) (update memory (lower esp) v) k (omega (arith, room, word))
        (omega (arith, room, word)) (omega (arith, h))

push_all-append :
    (us vs : List ℕ) (esp : ℕ) (memory : ℕ → ℕ)
    → push_all (us ++ vs) esp memory
      ≡ (let (sp, mem) = push_all us esp memory in push_all vs sp mem)
unfolding push_all
push_all-append [] vs esp memory = refl
push_all-append (u ∷ us) vs esp memory =
    push_all-append us vs (lower esp) (update memory (lower esp) u)

-- The words of a frame, the highest first
abbrev pub frame_words : Registers → ℕ → ℕ → List ℕ
frame_words r back esp = frame r back ++ pusha (record r { eax = back }) esp

-- The stack has room for a frame above address 0 and below the last one.
abbrev pub HasRoom : ℕ → Type 0
HasRoom esp = (48 ≤ esp) × (esp + 4 < 2 ^ 32)

save-words :
    (r : Registers) (memory : ℕ → ℕ)
    → save r memory
      ≡ push_all
          (frame_words r
            (memory r.esp)
            (push_all (frame r (memory r.esp)) (higher r.esp 4) memory).0)
          (higher r.esp 4)
          memory
unfolding save
save-words r memory = sym (
    push_all-append (frame r (memory r.esp))
      (pusha (record r { eax = memory r.esp })
        (push_all (frame r (memory r.esp)) (higher r.esp 4) memory).0)
      (higher r.esp 4) memory)

module _ (r : Registers) (memory : ℕ → ℕ) (room : HasRoom r.esp) where
  abbrev saved_esp : ℕ
  saved_esp = (push_all (frame r (memory r.esp)) (higher r.esp 4) memory).0

  save-esp : (save r memory).0 + 48 ≡ r.esp
  save-esp =
      let list = frame_words r (memory r.esp) saved_esp in
      let e = ap (λ p. p.0) (save-words r memory) in
      let h =
        push_all-esp list (higher r.esp 4) memory (omega (arith, room.0, room.1))
          (omega (arith, room.1)) in
      omega (arith, e, h, room.1)

  save-at :
      (k : ℕ)
      → k < 13
      → (save r memory).1 (higher (save r memory).0 (48 - 4 * k))
        ≡ get_or (frame_words r (memory r.esp) saved_esp) k 0
  save-at k h =
      let list = frame_words r (memory r.esp) saved_esp in
      let place : higher (save r memory).0 (48 - 4 * k) ≡ higher r.esp 4 - 4 * (k + 1) =
        omega (arith, save-esp, h, room.0, room.1) in
      ap (save r memory).1 place
      ∙ ap (λ p. p.1 (higher r.esp 4 - 4 * (k + 1))) (save-words r memory)
      ∙ push_all-at list (higher r.esp 4) memory k (omega (arith, room.0, room.1))
          (omega (arith, room.1)) h

-- A processor that is back from arch_context_switch: the registers that a function keeps, the flags
-- and the segment are as before the call, which has returned.
abbrev pub IsBack : Registers → (ℕ → ℕ) → Registers → Type 0
IsBack r memory s =
    (s.eip ≡ memory r.esp)
    × (s.esp ≡ r.esp + 4)
    × (s.ebx ≡ r.ebx)
    × (s.ebp ≡ r.ebp)
    × (s.esi ≡ r.esi)
    × (s.edi ≡ r.edi)
    × (s.eflags ≡ r.eflags)
    × (s.cs ≡ r.cs)

-- The 13 words of the frame at `sp` are the same.
abbrev pub KeepsFrame : ℕ → (ℕ → ℕ) → (ℕ → ℕ) → Type 0
KeepsFrame sp memory later =
    (k : ℕ) → k < 13 → later (higher sp (48 - 4 * k)) ≡ memory (higher sp (48 - 4 * k))

restore-save :
    (r : Registers) (memory later : ℕ → ℕ)
    → HasRoom r.esp
    → r.cs < 2 ^ 16
    → KeepsFrame (save r memory).0 (save r memory).1 later
    → IsBack r memory (restore (save r memory).0 later)
unfolding restore
restore-save r memory later room segment keeps =
    let word : (k : ℕ)
        → k < 13
        → later (higher (save r memory).0 (48 - 4 * k))
          ≡ get_or (frame_words r (memory r.esp) (saved_esp r memory room)) k 0 =
      λ k h. keeps k h ∙ save-at r memory room k h in
    let low : (save r memory).0 ≡ higher (save r memory).0 (48 - 4 * 12) =
      omega (arith, save-esp r memory room, room.1) in
    (
      word 2 (omega arith),
      omega (arith, save-esp r memory room, room.1),
      word 8 (omega arith),
      word 10 (omega arith),
      word 11 (omega arith),
      ap later low ∙ word 12 (omega arith),
      word 0 (omega arith),
      ap (λ w. w % 2 ^ 16) (word 1 (omega arith)) ∙ omega (arith, segment),
    )

-- Not the thread, if there is one
abbrev pub IsOther : ℕ → Option ℕ → Type 0
IsOther a none = Unit {0}
IsOther a (some t) = t ≢ a

save_current-other :
    (a : ℕ) (current : Option ℕ) (esp : ℕ) (contexts : ℕ → ℕ)
    → IsOther a current
    → save_current current esp contexts a ≡ contexts a
save_current-other a none esp contexts h = refl
save_current-other a (some t) esp contexts h = ground (arith, h)

saved-contexts :
    (a next : ℕ) (m : Processor)
    → m.current ≡ some a
    → (arch_context_switch next m).contexts a ≡ (save m.cpu m.memory).0
unfolding arch_context_switch switch_to
saved-contexts a next m e = rw e (ground arith)

-- A thread that calls arch_context_switch, for any next thread, goes on behind the call with its ebx,
-- ebp, esi, edi, flags and segment when another thread, or one that has ended, switches to it, if its
-- stack has room for the frame and nothing has written to the frame and to its saved stack pointer.
pub switch-IsBack :
    (a next : ℕ) (m later : Processor) (esp : ℕ) (memory : ℕ → ℕ)
    → m.current ≡ some a
    → HasRoom m.cpu.esp
    → m.cpu.cs < 2 ^ 16
    → IsOther a later.current
    → later.contexts a ≡ (arch_context_switch next m).contexts a
    → KeepsFrame
        ((arch_context_switch next m).contexts a)
        (arch_context_switch next m).memory
        memory
    → IsBack m.cpu m.memory (switch_to a esp memory later).cpu
unfolding arch_context_switch switch_to
switch-IsBack a next m later esp memory runs room segment other kept keeps =
    let e =
      save_current-other a later.current esp later.contexts other
      ∙ kept
      ∙ saved-contexts a next m runs in
    let k =
      subst (λ sp. KeepsFrame sp (save m.cpu m.memory).1 memory) (saved-contexts a next m runs)
        keeps in
    subst (λ sp. IsBack m.cpu m.memory (restore sp memory)) (sym e)
      (restore-save m.cpu m.memory memory room segment k)

-- A processor at the start of a wrapper that was called with the routine and its argument, and that
-- returns to abort, with interrupts on
abbrev pub IsStarting : ℕ → ℕ → ℕ → ℕ → ℕ → (ℕ → ℕ) → Registers → Type 0
IsStarting stack wrapper start_routine arg abort memory s =
    (s.eip ≡ wrapper)
    × (s.esp ≡ stack - 12)
    × (s.ebp ≡ stack - 4)
    × (memory s.esp ≡ abort)
    × (memory (s.esp + 4) ≡ start_routine)
    × (memory (s.esp + 8) ≡ arg)
    × (s.eflags ≡ 0x200)
    × (s.cs ≡ 8)

-- The first switch to a thread that arch_pthread_init has prepared starts its wrapper.
pub pthread_init-IsStarting :
    (stack_addr stack_size wrapper start_routine arg abort : ℕ) (memory : ℕ → ℕ)
    → 64 ≤ stack_size
    → stack_addr + stack_size < 2 ^ 32
    → (let (esp, prepared) =
          arch_pthread_init stack_addr stack_size wrapper start_routine arg abort memory in
        IsStarting
          (stack_addr + stack_size)
          wrapper
          start_routine
          arg
          abort
          prepared
          (restore esp prepared))
unfolding restore arch_pthread_init
pthread_init-IsStarting stack_addr stack_size wrapper start_routine arg abort memory room word = (
  ground arith,
  ground arith,
  ground arith,
  ground arith,
  ground arith,
  ground arith,
  ground arith,
  ground arith,
)
