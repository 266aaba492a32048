-- ===== src/Threads/Stack.antt =====
-- The stack of a thread in kernel/pthread.c: pthread_create fills it with a word that stays where the
-- thread has not been. The memory is one of words, by the addresses of their first bytes, and the
-- size of a stack is a multiple of 4.
use turnix.Base.{
  ℕ, zero, suc, ◌+◌, ◌-◌, ◌*◌, ◌/◌, ◌≡◌, ◌≢◌, ◌<◌, ◌∙◌, refl, arith, ◌==◌, if◌then◌else◌, update,
}

-- `STACK_FILL`
abbrev pub stack_fill : ℕ
stack_fill = 0x5a00ffa5

-- The loop of stack_check_init
unfoldable pub fill_words : ℕ → ℕ → (ℕ → ℕ) → ℕ → ℕ
fill_words zero addr words = words
fill_words (suc n) addr words = fill_words n (addr + 4) (update words addr stack_fill)

unfoldable pub stack_check_init : ℕ → ℕ → (ℕ → ℕ) → ℕ → ℕ
stack_check_init stack_addr stack_size words = fill_words (stack_size / 4) stack_addr words

-- The loop of stack_check_size, with the words left up to the top
unfoldable pub first_used : ℕ → ℕ → (ℕ → ℕ) → ℕ
first_used zero used words = used
first_used (suc n) used words =
    let next = first_used n (used + 4) words in if words used == stack_fill then next else used

unfoldable pub stack_check_size : ℕ → ℕ → (ℕ → ℕ) → ℕ
stack_check_size stack_addr stack_size words =
    let top = stack_addr + stack_size in
    (top - first_used (stack_size / 4) stack_addr words) / 4 * 4

fill_words_before : (n addr i : ℕ) (words : ℕ → ℕ) → i < addr → fill_words n addr words i ≡ words i
unfolding fill_words
fill_words_before zero addr i words h = refl
fill_words_before (suc n) addr i words h =
    fill_words_before n (addr + 4) i (update words addr stack_fill) (omega arith)
    ∙ ground (arith, h)

fill_words_at :
    (n addr : ℕ) (words : ℕ → ℕ) (i : ℕ)
    → i < n
    → fill_words n addr words (addr + i * 4) ≡ stack_fill
unfolding fill_words
fill_words_at zero addr words i h = absurd (omega arith)
fill_words_at (suc n) addr words zero h =
    fill_words_before n (addr + 4) (addr + 0 * 4) (update words addr stack_fill) (omega arith)
    ∙ ground arith
fill_words_at (suc n) addr words (suc i) h =
    let e : addr + suc i * 4 ≡ addr + 4 + i * 4 = omega arith in
    rw e (fill_words_at n (addr + 4) (update words addr stack_fill) i (omega arith))

first_used_at :
    (n i used : ℕ) (words : ℕ → ℕ)
    → i < n
    → ((j : ℕ) → j < i → words (used + j * 4) ≡ stack_fill)
    → words (used + i * 4) ≢ stack_fill
    → first_used n used words ≡ used + i * 4
unfolding first_used
first_used_at zero i used words lt below here = absurd (omega arith)
first_used_at (suc n) zero used words lt below here =
    let e : used + 0 * 4 ≡ used = omega arith in
    let other : words used ≢ stack_fill = rw e at here in ground (arith, other)
first_used_at (suc n) (suc i) used words lt below here =
    let e : used + 0 * 4 ≡ used = omega arith in
    let filled : words used ≡ stack_fill = rw e at (below 0 (omega arith)) in
    let shift : ((j : ℕ) → used + 4 + j * 4 ≡ used + suc j * 4) = λ j. omega arith in
    let rest =
      first_used_at n i (used + 4) words (omega arith)
        (λ j h. rw (shift j) (below (suc j) (omega arith))) (rw (shift i) here) in
    ground (arith, filled, rest)

-- If a thread on a filled stack of `n` words has written to it from word `d` on, and to word `d`
-- something else than the fill, stack_check_size gives the number of bytes from that word to the top.
stack_check_size-init :
    (addr n d : ℕ) (words later : ℕ → ℕ)
    → d < n
    → ((j : ℕ) → j < d → later (addr + j * 4) ≡ stack_check_init addr (n * 4) words (addr + j * 4))
    → later (addr + d * 4) ≢ stack_fill
    → stack_check_size addr (n * 4) later ≡ (n - d) * 4
unfolding stack_check_size stack_check_init
stack_check_size-init addr n d words later h kept here =
    let e : n * 4 / 4 ≡ n = omega arith in
    let below : ((j : ℕ) → j < d → later (addr + j * 4) ≡ stack_fill) =
      λ j p. kept j p ∙ rw e (fill_words_at n addr words j (omega arith)) in
    let first = first_used_at n d addr later h below here in rw (e, first) (omega (arith, h))
