-- ===== src/Base/Int.antt =====
-- Signed integers over the native numbers, as far as the program tests them: `negsuc n` is -(n + 1).
use Prim.Native.Nat.{ℕ}
use mathlib.Core.Bool.{Bool, true, false}
use event_gallery.Base.Tests.{◌==◌}

pub data ℤ : Type 0 where
  pos : ℕ → ℤ
  negsuc : ℕ → ℤ

-- n <= 0.
abbrev pub not_positive : ℤ → Bool
not_positive (pos n) = n == 0
not_positive (negsuc n) = true

abbrev pub eq_ℤ : ℤ → ℤ → Bool
eq_ℤ (pos a) (pos b) = a == b
eq_ℤ (negsuc a) (negsuc b) = a == b
eq_ℤ _ _ = false

-- The part that is not negative: `max(n, 0)`.
abbrev pub clamp : ℤ → ℕ
clamp (pos n) = n
clamp (negsuc n) = 0
