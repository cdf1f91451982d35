-- ===== src/Base/Lists.antt =====
-- Lists measured by native numbers and tested by Boolean functions, and predicates on all items.
use Prim.Native.Nat.{ℕ, zero, suc, ◌+◌, ◌-◌, ◌≤◌, min}
use mathlib.Core.Path.{◌≡◌, refl, ap}
use mathlib.Core.Bool.{Bool}
use mathlib.Core.List.{List, [], ◌∷◌, ◌++◌}
use native.Mathlib.Omega.{arith}
use native.Mathlib.Numerals.{unary_clauses}
use event_gallery.Base.Tests.{if◌then◌else◌}

module _ {ℓ} {A : Type ℓ} where
  abbrev pub length : List A → ℕ
  length [] = 0
  length (x ∷ xs) = suc (length xs)

  abbrev pub take : ℕ → List A → List A
  take zero xs = []
  take (suc n) [] = []
  take (suc n) (x ∷ xs) = x ∷ take n xs

  abbrev pub drop : ℕ → List A → List A
  drop zero xs = xs
  drop (suc n) [] = []
  drop (suc n) (x ∷ xs) = drop n xs

  -- The items that a Boolean test keeps, in their order.
  abbrev pub select : (A → Bool) → List A → List A
  select p [] = []
  select p (x ∷ xs) = let rest = select p xs in if p x then x ∷ rest else rest

  pub length-append : (xs ys : List A) → length (xs ++ ys) ≡ length xs + length ys
  length-append [] ys = omega arith
  length-append (x ∷ xs) ys = omega (arith, length-append xs ys)

  pub length-take : (n : ℕ) (xs : List A) → length (take n xs) ≡ min n (length xs)
  length-take zero xs = omega arith
  length-take (suc n) [] = omega arith
  length-take (suc n) (x ∷ xs) = omega (arith, length-take n xs)

  pub length-drop : (n : ℕ) (xs : List A) → length (drop n xs) ≡ length xs - n
  length-drop zero xs = omega arith
  length-drop (suc n) [] = omega arith
  length-drop (suc n) (x ∷ xs) = omega (arith, length-drop n xs)

module _ {ℓ} {A : Type ℓ} where
  pub take-append : (xs ys : List A) → take (length xs) (xs ++ ys) ≡ xs
  take-append [] ys = refl
  take-append (x ∷ xs) ys = ap (λ zs. x ∷ zs) (take-append xs ys)

  pub drop-append : (xs ys : List A) → drop (length xs) (xs ++ ys) ≡ ys
  drop-append [] ys = refl
  drop-append (x ∷ xs) ys = drop-append xs ys

  pub take-drop : (n : ℕ) (xs : List A) → take n xs ++ drop n xs ≡ xs
  take-drop zero xs = refl
  take-drop (suc n) [] = refl
  take-drop (suc n) (x ∷ xs) = ap (λ zs. x ∷ zs) (take-drop n xs)

  take_nil : (n : ℕ) → take {A = A} n [] ++ [] ≡ []
  take_nil zero = refl
  take_nil (suc n) = refl

  -- A list is what is before the first bound, between the bounds and after the second.
  pub take-drop_between :
      (n m : ℕ) (xs : List A) → n ≤ m → take n xs ++ take (m - n) (drop n xs) ++ drop m xs ≡ xs
  take-drop_between zero m xs h = simp unary_clauses (take-drop m xs)
  take-drop_between (suc n) zero xs h = absurd (omega arith)
  take-drop_between (suc n) (suc m) [] h = take_nil (suc m - suc n)
  take-drop_between (suc n) (suc m) (x ∷ xs) h =
      simp unary_clauses (ap (λ zs. x ∷ zs) (take-drop_between n m xs (omega arith)))

-- A predicate on every item computes to a tuple.
abbrev pub All {ℓ κ} : {A : Type ℓ} → (A → Type κ) → List A → Type κ
All P [] = Unit
All P (x ∷ xs) = P x × All P xs

pub All-mono {ℓ κ μ} :
    {A : Type ℓ} {P : A → Type κ} {Q : A → Type μ} (xs : List A)
    → ((x : A) → P x → Q x)
    → All P xs
    → All Q xs
All-mono [] f h = tt
All-mono (x ∷ xs) f h = (f x h.0, All-mono xs f h.1)

pub All-both {ℓ κ μ} :
    {A : Type ℓ} (P : A → Type κ) (Q : A → Type μ) (xs : List A)
    → All P xs
    → All Q xs
    → All (λ x. P x × Q x) xs
All-both P Q [] p q = tt
All-both P Q (x ∷ xs) p q = ((p.0, q.0), All-both P Q xs p.1 q.1)
