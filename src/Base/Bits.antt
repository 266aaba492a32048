-- ===== src/Base/Bits.antt =====
-- The binary digits of a native number, and what the bit operations of C do to each.
use Prim.Native.Nat.{
  ℕ, zero, suc, ◌+◌, ◌-◌, ◌*◌, ◌/◌, ◌%◌, ◌^◌, ◌≤◌, ◌<◌, min, max, bit_and, bit_or, digits,
  bit_and-bitwise, bit_or-bitwise,
}
use mathlib.Core.Path.{◌≡◌, refl, ◌∙◌}
use mathlib.Core.Bool.{Bool, true, false, not, ◌&&◌, ◌||◌}
use native.Mathlib.Nat.{pow-succ'}
use native.Mathlib.Omega.{arith}
use native.Mathlib.Decide.{dec_lt}
use mathlib.Core.Logic.{inl, inr}
use turnix.Base.Tests.{◌==◌, if◌then◌else◌, Bool-cases}

-- Digit `i`, counted from the lowest.
abbrev pub test_bit : ℕ → ℕ → Bool
test_bit zero a = a % 2 == 1
test_bit (suc i) a = test_bit i (a / 2)

-- The operations go through the digits with fuel, and more of it changes nothing.
module _ (outer : ℕ → ℕ) (op : ℕ → ℕ → ℕ) where
  digits_more : (x f g y : ℕ) → x ≤ f → x ≤ g → digits outer op f x y ≡ digits outer op g x y
  digits_more (suc x) zero g y hf hg = absurd (omega arith)
  digits_more (suc x) (suc f) zero y hf hg = absurd (omega arith)
  digits_more (suc x) (suc f) (suc g) y hf hg =
      omega (arith, digits_more (suc x / 2) f g (y / 2) (omega arith) (omega arith))
  digits_more zero zero zero y hf hg = refl
  digits_more zero (suc f) (suc g) y hf hg = refl
  digits_more zero (suc f) zero y hf hg = refl
  digits_more zero zero (suc g) y hf hg = refl

-- The law of the lowest digit.
pub bit_and_step : (a b : ℕ) → bit_and a b ≡ bit_and (a / 2) (b / 2) * 2 + min (a % 2) (b % 2)
bit_and_step zero b = ground (arith, bit_and-bitwise 0 b, bit_and-bitwise 0 (b / 2))
bit_and_step (suc k) b =
    let half = suc k / 2 in
    let more = digits_more (λ y. zero) min half half k (b / 2) (omega arith) (omega arith) in
    ground (arith, more, bit_and-bitwise half (b / 2), bit_and-bitwise (suc k) b)

pub bit_or_step : (a b : ℕ) → bit_or a b ≡ bit_or (a / 2) (b / 2) * 2 + max (a % 2) (b % 2)
bit_or_step zero b = ground (arith, bit_or-bitwise 0 b, bit_or-bitwise 0 (b / 2))
bit_or_step (suc k) b =
    let more =
      digits_more (λ y. y) max (suc k / 2) (suc k / 2) k (b / 2) (omega arith) (omega arith) in
    ground (arith, more, bit_or-bitwise (suc k / 2) (b / 2), bit_or-bitwise (suc k) b)

-- `&` and `|` act digit by digit.
pub test_bit-bit_and : (i a b : ℕ) → test_bit i (bit_and a b) ≡ (test_bit i a && test_bit i b)
test_bit-bit_and zero a b = ground (arith, bit_and_step a b)
test_bit-bit_and (suc i) a b =
    let e : bit_and a b / 2 ≡ bit_and (a / 2) (b / 2) = omega (arith, bit_and_step a b) in
    rw e (test_bit-bit_and i (a / 2) (b / 2))

pub test_bit-bit_or : (i a b : ℕ) → test_bit i (bit_or a b) ≡ (test_bit i a || test_bit i b)
test_bit-bit_or zero a b = ground (arith, bit_or_step a b)
test_bit-bit_or (suc i) a b =
    let e : bit_or a b / 2 ≡ bit_or (a / 2) (b / 2) = omega (arith, bit_or_step a b) in
    rw e (test_bit-bit_or i (a / 2) (b / 2))

pub test_bit-zero : (i : ℕ) → test_bit i 0 ≡ false
test_bit-zero zero = refl
test_bit-zero (suc i) = test_bit-zero i

-- `1 << k` has the one digit `k`.
pub test_bit-pow : (i k : ℕ) → test_bit i (2 ^ k) ≡ (i == k)
test_bit-pow zero zero = refl
test_bit-pow zero (suc k) = ground (arith, pow-succ' 2 k)
test_bit-pow (suc i) zero = test_bit-zero i ∙ ground arith
test_bit-pow (suc i) (suc k) =
    let e : 2 ^ suc k / 2 ≡ 2 ^ k = omega (arith, pow-succ' 2 k) in
    rw e (test_bit-pow i k ∙ ground arith)

pow-pos : (i : ℕ) → 0 < 2 ^ i
pow-pos zero = omega arith
pow-pos (suc i) = omega (arith, pow-succ' 2 i, pow-pos i)

pow_mono : (i w : ℕ) → i < w → 2 ^ i * 2 ≤ 2 ^ w
pow_mono zero (suc w) h = omega (arith, pow-succ' 2 w, pow-pos w)
pow_mono (suc i) (suc w) h = omega (arith, pow-succ' 2 w, pow-succ' 2 i, pow_mono i w)
pow_mono i zero h = elim h [ ]

pub test_bit_ones : (w i : ℕ) → i < w → test_bit i (2 ^ w - 1) ≡ true
test_bit_ones zero i h = elim h [ ]
test_bit_ones (suc w) zero h = ground (arith, pow-succ' 2 w, pow-pos w)
test_bit_ones (suc w) (suc i) h =
    let e : (2 ^ suc w - 1) / 2 ≡ 2 ^ w - 1 = omega (arith, pow-succ' 2 w, pow-pos w) in
    rw e (test_bit_ones w i (omega arith))

-- `~(1 << k)` in a word of `w` bits has every digit but `k`.
pub test_bit_complement :
    (w i k : ℕ) → i < w → k < w → test_bit i (2 ^ w - 1 - 2 ^ k) ≡ not (i == k)
test_bit_complement zero i k h p = elim h [ ]
test_bit_complement (suc w) zero zero h p = ground (arith, pow-succ' 2 w, pow-pos w)
test_bit_complement (suc w) zero (suc k) h p =
    ground (arith, pow-succ' 2 w, pow-succ' 2 k, pow_mono k w (omega arith), pow-pos k)
test_bit_complement (suc w) (suc i) zero h p =
    let e : (2 ^ suc w - 1 - 2 ^ 0) / 2 ≡ 2 ^ w - 1 = omega (arith, pow-succ' 2 w, pow-pos w) in
    rw e (test_bit_ones w i (omega arith) ∙ ground arith)
test_bit_complement (suc w) (suc i) (suc k) h p =
    let e : (2 ^ suc w - 1 - 2 ^ suc k) / 2 ≡ 2 ^ w - 1 - 2 ^ k =
      omega (arith, pow-succ' 2 w, pow-succ' 2 k, pow_mono k w (omega arith), pow-pos k) in
    rw e (test_bit_complement w i k (omega arith) (omega arith) ∙ ground arith)

-- One more than the lowest digit that is set among `n` digits from `i` on, or 0.
ffs_from : ℕ → ℕ → ℕ → ℕ
ffs_from zero i b = 0
ffs_from (suc n) i b = if test_bit i b then suc i else ffs_from n (suc i) b

-- `__builtin_ffs` on a word of 32 bits.
unfoldable pub ffs : ℕ → ℕ
unfolding ffs_from
ffs b = ffs_from 32 0 b

-- What a result of `ffs` says of the digits.
abbrev pub FirstSet : ℕ → ℕ → ℕ → ℕ → Type 0
FirstSet n i b zero = (j : ℕ) → i ≤ j → j < i + n → test_bit j b ≡ false
FirstSet n i b (suc k) =
    (i ≤ k) × (k < i + n) × (test_bit k b ≡ true) × ((j : ℕ) → i ≤ j → j < k → test_bit j b ≡ false)

below : (i j : ℕ) (P : ℕ → Type 0) → P i → i ≤ j → (i < j → P j) → P j
below i j P here le later = elim (dec_lt i j) [
  | yes lt ↦ later lt
  | no ge ↦ let e : j ≡ i = omega arith in rw e here
]

FirstSet-extend :
    (n i b r : ℕ) → test_bit i b ≡ false → FirstSet n (suc i) b r → FirstSet (suc n) i b r
FirstSet-extend n i b zero h f =
    λ j p q. below i j (λ k. test_bit k b ≡ false) h p (λ lt. f j lt (omega arith))
FirstSet-extend n i b (suc k) h (p, q, r, f) = (
  omega arith,
  omega arith,
  r,
  λ j s t. below i j (λ k. test_bit k b ≡ false) h s (λ lt. f j lt t),
)

ffs_from-FirstSet : (n i b : ℕ) → FirstSet n i b (ffs_from n i b)
unfolding ffs_from
ffs_from-FirstSet zero i b = λ j h p. absurd (omega arith)
ffs_from-FirstSet (suc n) i b = elim (Bool-cases (test_bit i b)) [
  | inl on ↦ rw on (omega arith, omega arith, on, λ j s t. absurd (omega arith))
  | inr off ↦ rw off (FirstSet-extend n i b _ off (ffs_from-FirstSet n (suc i) b))
]

-- `ffs` finds the lowest digit that is set, and 0 says that none is.
pub ffs-FirstSet : (b : ℕ) → FirstSet 32 0 b (ffs b)
unfolding ffs
ffs-FirstSet b = ffs_from-FirstSet 32 0 b
