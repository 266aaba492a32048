-- ===== src/Base/Maps.antt =====
-- Tables indexed by a number: an array of structures, or objects by their address.
use Prim.Native.Nat.{ℕ}
use mathlib.Core.Path.{◌≡◌}
use mathlib.Core.Logic.{◌≢◌}
use native.Mathlib.Omega.{arith}
use turnix.Base.Tests.{◌==◌, if◌then◌else◌}

module _ {ℓ} {A : Type ℓ} where
  -- The table with the entry at `k` given anew.
  abbrev pub update : (ℕ → A) → ℕ → A → ℕ → A
  update f k v j = if k == j then v else f j

  pub update_self : (f : ℕ → A) (k : ℕ) (v : A) → update f k v k ≡ v
  update_self f k v = ground arith

  pub update_ne : (f : ℕ → A) (k : ℕ) (v : A) (j : ℕ) → k ≢ j → update f k v j ≡ f j
  update_ne f k v j h = ground arith
