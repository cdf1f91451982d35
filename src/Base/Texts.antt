-- ===== src/Base/Texts.antt =====
-- Texts that the program only compares, and nullable columns as SQL compares them.
use Prim.Native.Nat.{ℕ}
use Prim.Native.Char.{code}
use Prim.Native.String.{String}
use mathlib.Core.List.{List, [], ◌∷◌}
use mathlib.Core.Path.{◌≡◌}
use mathlib.Core.Logic.{◌↔◌}
use mathlib.Core.Bool.{Bool, true, false}
use mathlib.Core.Option.{Option, none, some}
use text.Mathlib.Text.{◌==◌}
use text.Mathlib.TextEquality.{eq_iff}
use text.Mathlib.TextPositions.{eq_refl}

abbrev pub str_eq : String → String → Bool
str_eq a b = a == b

pub str_eq_iff : (a b : String) → (str_eq a b ≡ true) ↔ (a ≡ b)
str_eq_iff a b = eq_iff a b

pub str_eq_refl : (a : String) → str_eq a a ≡ true
str_eq_refl a = eq_refl a

-- `column = ?` on a nullable text column: a comparison with NULL is not true.
abbrev pub null_eq : Option String → String → Bool
null_eq none s = false
null_eq (some v) s = str_eq v s

-- `sql.NullString.String`: NULL reads as the empty text.
abbrev pub text_or_empty : Option String → String
text_or_empty none = ""
text_or_empty (some v) = v

-- The runes of a text. `String` has its own `[]` and `∷`.
abbrev pub runes : String → List ℕ
runes String.[] = []
runes (String.◌∷◌ c s) = code c ∷ runes s
