-- ===== src/Store/Gallery/Positions.antt =====
-- The order of the positions of rows, by the sort key and then by the id.
use mathlib.Core.Path.{subst}
use event_gallery.Base.{
  ◌≡◌, ◌⊎◌, inl, inr, sym, ◌∙◌, Bool, true, false, Bool-cases, String, str_eq, str_eq_iff, arith,
}
use event_gallery.Store.Gallery.{SortOrder, asc, desc, Cursor, precedes, comes_before}
use event_gallery.Store.Gallery.Order.{IsOrder}

module _ (less : String → String → Bool) (order : IsOrder less) where
  precedes_irrefl : (c : Cursor) → precedes less c c ≡ false
  unfolding precedes
  precedes_irrefl c =
      let one = order.irrefl c.sort_key in let two = order.irrefl c.id in ground arith

  -- By the sort key, or by the id where the sort keys are equal.
  Before : Cursor → Cursor → Type 0
  Before c d =
      (less c.sort_key d.sort_key ≡ true) ⊎ ((c.sort_key ≡ d.sort_key) × (less c.id d.id ≡ true))

  precedes-Before : (c d : Cursor) → precedes less c d ≡ true → Before c d
  unfolding precedes Before
  precedes-Before c d h = elim (Bool-cases (less c.sort_key d.sort_key)) [
    | inl e ↦ inl e
    | inr e ↦
        let same : str_eq c.sort_key d.sort_key ≡ true = ground arith in
        inr ((str_eq_iff c.sort_key d.sort_key).0 same, ground arith)
  ]

  Before-precedes : (c d : Cursor) → Before c d → precedes less c d ≡ true
  unfolding precedes Before
  Before-precedes c d (inl e) = simp e
  Before-precedes c d (inr (e, f)) =
      let same = (str_eq_iff c.sort_key d.sort_key).1 e in ground arith

  Before-trans : (c d e : Cursor) → Before c d → Before d e → Before c e
  unfolding Before
  Before-trans c d e (inl h) (inl k) = inl (order.trans c.sort_key d.sort_key e.sort_key h k)
  Before-trans c d e (inl h) (inr (f, k)) = inl (subst (λ x. less c.sort_key x ≡ true) f h)
  Before-trans c d e (inr (f, h)) (inl k) = inl (subst (λ x. less x e.sort_key ≡ true) (sym f) k)
  Before-trans c d e (inr (f, h)) (inr (g, k)) = inr (f ∙ g, order.trans c.id d.id e.id h k)

  precedes_trans :
      (c d e : Cursor)
      → precedes less c d ≡ true
      → precedes less d e ≡ true
      → precedes less c e ≡ true
  precedes_trans c d e h k =
      Before-precedes c e (Before-trans c d e (precedes-Before c d h) (precedes-Before d e k))

  Before-total : (c d : Cursor) → str_eq c.id d.id ≡ false → Before c d ⊎ Before d c
  unfolding Before
  Before-total c d h = elim (order.total c.sort_key d.sort_key) [
    | inl e ↦ inl (inl e)
    | inr (inr e) ↦ inr (inl e)
    | inr (inl e) ↦ elim (order.total c.id d.id) [
      | inl f ↦ inl (inr (e, f))
      | inr (inl f) ↦ let same = (str_eq_iff c.id d.id).1 f in absurd (cc)
      | inr (inr f) ↦ inr (inr (sym e, f))
    ]
  ]

  pub comes_before_irrefl : (o : SortOrder) (c : Cursor) → comes_before less o c c ≡ false
  unfolding comes_before
  comes_before_irrefl asc c = precedes_irrefl c
  comes_before_irrefl desc c = precedes_irrefl c

  pub comes_before_trans :
      (o : SortOrder) (c d e : Cursor)
      → comes_before less o c d ≡ true
      → comes_before less o d e ≡ true
      → comes_before less o c e ≡ true
  unfolding comes_before
  comes_before_trans asc c d e h k = precedes_trans c d e h k
  comes_before_trans desc c d e h k = precedes_trans e d c k h

  pub comes_before_total :
      (o : SortOrder) (c d : Cursor)
      → str_eq c.id d.id ≡ false
      → (comes_before less o c d ≡ true) ⊎ (comes_before less o d c ≡ true)
  unfolding comes_before
  comes_before_total asc c d h = elim (Before-total c d h) [
    | inl b ↦ inl (Before-precedes c d b)
    | inr b ↦ inr (Before-precedes d c b)
  ]
  comes_before_total desc c d h = elim (Before-total c d h) [
    | inl b ↦ inr (Before-precedes c d b)
    | inr b ↦ inl (Before-precedes d c b)
  ]
