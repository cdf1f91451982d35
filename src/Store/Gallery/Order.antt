-- ===== src/Store/Gallery/Order.antt =====
-- Orders of texts, and the one of code points, which is that of the bytes of UTF-8.
use Prim.Native.Char.{code}
use text.Mathlib.TextEquality.{codes_equal}
use event_gallery.Base.{
  ℕ, ◌≡◌, ◌⊎◌, inl, inr, refl, Bool, true, false, ◌&&◌, ◌||◌, String, ltb, ◌==◌, arith,
}

pub record IsOrder (less : String → String → Bool) : Type 0 where
  pub irrefl : (a : String) → less a a ≡ false
  pub trans : (a b c : String) → less a b ≡ true → less b c ≡ true → less a c ≡ true
  pub total : (a b : String) → (less a b ≡ true) ⊎ (a ≡ b) ⊎ (less b a ≡ true)

unfoldable pub text_less : String → String → Bool
text_less String.[] String.[] = false
text_less String.[] (String.◌∷◌ d t) = true
text_less (String.◌∷◌ c s) String.[] = false
text_less (String.◌∷◌ c s) (String.◌∷◌ d t) =
    let rest = text_less s t in ltb (code c) (code d) || code c == code d && rest

text_less_irrefl : (a : String) → text_less a a ≡ false
unfolding text_less
text_less_irrefl String.[] = refl
text_less_irrefl (String.◌∷◌ c s) = let rec = text_less_irrefl s in ground arith

text_less_trans :
    (a b c : String) → text_less a b ≡ true → text_less b c ≡ true → text_less a c ≡ true
unfolding text_less
text_less_trans String.[] String.[] c h k = k
text_less_trans String.[] (String.◌∷◌ d t) String.[] h k = absurd (cc)
text_less_trans String.[] (String.◌∷◌ d t) (String.◌∷◌ e u) h k = refl
text_less_trans (String.◌∷◌ c s) String.[] e h k = absurd (cc)
text_less_trans (String.◌∷◌ c s) (String.◌∷◌ d t) String.[] h k = absurd (cc)
text_less_trans (String.◌∷◌ c s) (String.◌∷◌ d t) (String.◌∷◌ e u) h k =
    let rec = text_less_trans s t u in ground arith

code-cases : (m n : ℕ) → (ltb m n ≡ true) ⊎ (m ≡ n) ⊎ (ltb n m ≡ true)
code-cases m n = ground arith

text_less_total : (a b : String) → (text_less a b ≡ true) ⊎ (a ≡ b) ⊎ (text_less b a ≡ true)
unfolding text_less
text_less_total String.[] String.[] = inr (inl refl)
text_less_total String.[] (String.◌∷◌ d t) = inl refl
text_less_total (String.◌∷◌ c s) String.[] = inr (inr refl)
text_less_total (String.◌∷◌ c s) (String.◌∷◌ d t) = elim (code-cases (code c) (code d)) [
  | inl h ↦ inl (ground arith)
  | inr (inr h) ↦ inr (inr (ground arith))
  | inr (inl h) ↦
      let same : c ≡ d = codes_equal c d (ground arith) in
      elim (text_less_total s t) [
        | inl k ↦ inl (ground arith)
        | inr (inl k) ↦ inr (inl (λ i. String.◌∷◌ (same i) (k i)))
        | inr (inr k) ↦ inr (inr (ground arith))
      ]
]

pub text_less-IsOrder : IsOrder text_less
text_less-IsOrder = record {
  irrefl = text_less_irrefl;
  trans = text_less_trans;
  total = text_less_total;
}
