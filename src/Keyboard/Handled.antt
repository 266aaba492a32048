-- ===== src/Keyboard/Handled.antt =====
-- keyboard_handler as a whole: the table of functions, and every code.
use turnix.Base.{ℕ, suc, ◌≡◌, List, [], ◌∷◌}
use turnix.Kernel.{Kernel, Run, ok}
use turnix.Keyboard.{Keyboard}
use turnix.Keyboard.Typed.{HasTyped, IsSequence}
use turnix.Keyboard.Codes.{IsTranscoder}

-- The functions of a table, each right for its place.
AreTranscoders : ℕ → List (ℕ → Keyboard → Run Keyboard) → Type 0
AreTranscoders i [] = Unit {0}
AreTranscoders i (f ∷ fs) = IsTranscoder i f × AreTranscoders (suc i) fs

-- The same, with the prefix cleared.
TypesCleared : Keyboard → Run Keyboard → Type 0
TypesCleared k m =
    (k' : Keyboard) × (xs : List ℕ) × (m ≡ ok k') × (k'.esc ≡ 0) × IsSequence xs × HasTyped k xs k'
