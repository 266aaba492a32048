-- ===== src/Pic/Masks.antt =====
-- Which interrupts the controllers let through.
use Prim.Native.Nat.{bit_and, bit_or}
use turnix.Base.{
  ℕ, zero, suc, ◌-◌, ◌%◌, ◌^◌, ◌≡◌, ◌≤◌, ◌<◌, ◌∙◌, refl, Bool, true, false, not, ◌&&◌, ◌||◌, List,
  [], ◌∷◌, update, test_bit_ones, arith, ◌==◌, ltb, if◌then◌else◌, test_bit, test_bit-bit_and,
  test_bit-bit_or, test_bit-pow, test_bit_complement, all_below, all_below_sound, ==_iff,
}
use turnix.Pic.{Ports, data_master, data_slave, pic_init, pic_disable, pic_enable, mask_off}

-- Whether the interrupt is held back, for one of the 16 lines from 32 on.
abbrev pub is_masked : ℕ → Ports → Bool
is_masked irq io =
    if ltb irq 40
    then test_bit (irq - 32) (io.port data_master)
    else test_bit (irq - 40) (io.port data_slave)

-- A byte keeps the eight lower digits.
test_bit-byte : (i n : ℕ) → i < 8 → test_bit i (n % 2 ^ 8) ≡ test_bit i n
test_bit-byte zero n h = ground arith
test_bit-byte (suc zero) n h = ground arith
test_bit-byte (suc (suc zero)) n h = ground arith
test_bit-byte (suc (suc (suc zero))) n h = ground arith
test_bit-byte (suc (suc (suc (suc zero)))) n h = ground arith
test_bit-byte (suc (suc (suc (suc (suc zero))))) n h = ground arith
test_bit-byte (suc (suc (suc (suc (suc (suc zero)))))) n h = ground arith
test_bit-byte (suc (suc (suc (suc (suc (suc (suc zero))))))) n h = ground arith
test_bit-byte (suc (suc (suc (suc (suc (suc (suc (suc i)))))))) n h = absurd (omega arith)

pow_table : all_below 8 (λ k. 2 ^ k % 2 ^ 8 == 2 ^ k) ≡ true
pow_table = refl

pow-byte : (k : ℕ) → k < 8 → 2 ^ k % 2 ^ 8 ≡ 2 ^ k
pow-byte k h = (==_iff _ _).0 (all_below_sound 8 (λ (x : ℕ). 2 ^ x % 2 ^ 8 == 2 ^ x) k pow_table h)

test_bit-mask_off : (i k : ℕ) → i < 8 → k < 8 → test_bit i (mask_off k) ≡ not (i == k)
test_bit-mask_off i k h p = rw (pow-byte k p) (test_bit_complement 8 i k h p)

cleared :
    (x i k : ℕ)
    → i < 8
    → k < 8
    → test_bit i (bit_and x (mask_off k) % 2 ^ 8) ≡ (test_bit i x && not (i == k))
cleared x i k h p =
    test_bit-byte i _ h ∙ test_bit-bit_and i x (mask_off k) ∙ rw (test_bit-mask_off i k h p) refl

raised :
    (x i k : ℕ) → i < 8 → k < 8 → test_bit i (bit_or x (2 ^ k) % 2 ^ 8) ≡ (test_bit i x || (i == k))
raised x i k h p = test_bit-byte i _ h ∙ test_bit-bit_or i x (2 ^ k) ∙ rw (test_bit-pow i k) refl

-- The interrupts of the two controllers
abbrev pub IsLine : ℕ → Type 0
IsLine irq = (32 ≤ irq) × (irq < 48)

module _ (irq j : ℕ) (io : Ports) (h : IsLine irq) (near : IsLine j) where
  pub is_masked-enable :
      is_masked j (pic_enable irq io)
      ≡ (if irq == 34 then is_masked j io else if j == irq then false else is_masked j io)
  unfolding pic_enable
  is_masked-enable = ground (
    arith,
    cleared (io.port data_master) (j - 32) (irq - 32),
    cleared (io.port data_slave) (j - 40) (irq - 40),
  )

  is_masked-disable :
      is_masked j (pic_disable irq io)
      ≡ (if irq == 34 then is_masked j io else if j == irq then true else is_masked j io)
  unfolding pic_disable
  is_masked-disable = ground (
    arith,
    raised (io.port data_master) (j - 32) (irq - 32),
    raised (io.port data_slave) (j - 40) (irq - 40),
  )

pub data Call : Type 0 where
  enable disable : ℕ → Call

-- The calls of a driver, in their order
pub pic_run : List Call → Ports → Ports
pic_run [] io = io
pic_run (enable irq ∷ calls) io = pic_run calls (pic_enable irq io)
pic_run (disable irq ∷ calls) io = pic_run calls (pic_disable irq io)

-- What they ask for: the last call for an interrupt counts, and the cascade is left alone.
abbrev pub asked : List Call → (ℕ → Bool) → ℕ → Bool
asked [] held = held
asked (enable irq ∷ calls) held = asked calls (if irq == 34 then held else update held irq false)
asked (disable irq ∷ calls) held = asked calls (if irq == 34 then held else update held irq true)

abbrev pub AreLines : List Call → Type 0
AreLines [] = Unit {0}
AreLines (enable irq ∷ calls) = IsLine irq × AreLines calls
AreLines (disable irq ∷ calls) = IsLine irq × AreLines calls

-- The masks of the ports are those that the table gives.
abbrev Shows : Ports → (ℕ → Bool) → Type 0
Shows io held = (j : ℕ) → IsLine j → is_masked j io ≡ held j

pic_run-Shows :
    (calls : List Call) (io : Ports) (held : ℕ → Bool)
    → AreLines calls
    → Shows io held
    → Shows (pic_run calls io) (asked calls held)
unfolding pic_run
pic_run-Shows [] io held are s = s
pic_run-Shows (enable irq ∷ calls) io held (line, are) s =
    pic_run-Shows calls (pic_enable irq io) (if irq == 34 then held else update held irq false) are
      (λ j near. ground (arith, is_masked-enable irq j io line near, s j near))
pic_run-Shows (disable irq ∷ calls) io held (line, are) s =
    pic_run-Shows calls (pic_disable irq io) (if irq == 34 then held else update held irq true) are
      (λ j near. ground (arith, is_masked-disable irq j io line near, s j near))

pub init-Shows : (io : Ports) → Shows (pic_init io) (λ j. not (j == 34))
unfolding pic_init
init-Shows io j h = ground (arith, test_bit_complement 8 (j - 32) 2, test_bit_ones 8 (j - 40))

-- After pic_init and any calls of pic_enable and pic_disable for the 16 interrupts of the
-- controllers, an interrupt is masked as the last call for it asked, and without one as pic_init
-- leaves it, which masks all but the cascade; calls for the cascade change nothing.
pub is_masked-pic_run :
    (calls : List Call) (io : Ports) (j : ℕ)
    → AreLines calls
    → IsLine j
    → is_masked j (pic_run calls (pic_init io)) ≡ asked calls (λ i. not (i == 34)) j
is_masked-pic_run calls io j are near =
    pic_run-Shows calls (pic_init io) (λ i. not (i == 34)) are (init-Shows io) j near
