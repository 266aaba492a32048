-- ===== src/Commands/Says.antt =====
-- What a call prints, tested by evaluation.
use turnix.Base.{ℕ, ◌≡◌, refl, ap, Bool, true, false, ◌&&◌, List, [], ◌∷◌, arith, ◌==◌}
use turnix.Kernel.{Run, ok, panic, fault, out_of_fuel}

unfoldable pub same_text : List ℕ → List ℕ → Bool
same_text [] [] = true
same_text (a ∷ s) (b ∷ t) = a == b && same_text s t
same_text s t = false

same_text_sound : (s t : List ℕ) → same_text s t ≡ true → s ≡ t
unfolding same_text
same_text_sound [] [] h = refl
same_text_sound [] (b ∷ t) h = absurd (cc h)
same_text_sound (a ∷ s) [] h = absurd (cc h)
same_text_sound (a ∷ s) (b ∷ t) h = ground (arith, h, same_text_sound s t)

unfoldable pub prints : Run (List ℕ) → List ℕ → Bool
prints (ok s) t = same_text s t
prints r t = false

pub prints_sound : (r : Run (List ℕ)) (t : List ℕ) → prints r t ≡ true → r ≡ ok t
unfolding prints
prints_sound (ok s) t h = ap ok (same_text_sound s t h)
prints_sound panic t h = absurd (cc h)
prints_sound fault t h = absurd (cc h)
prints_sound out_of_fuel t h = absurd (cc h)
