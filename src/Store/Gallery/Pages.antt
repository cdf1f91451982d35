-- ===== src/Store/Gallery/Pages.antt =====
-- Pages that follow one another are the rows in order, each once.
use mathlib.Core.Path.{subst}
use event_gallery.Base.{
  ℕ, zero, suc, ◌≡◌, ◌≤◌, ◌<◌, inl, inr, refl, sym, ap, ◌∙◌, Bool, true, false, Bool-cases, Option,
  none, some, List, [], ◌∷◌, ◌++◌, append_assoc, ltb, length, take, drop, select, length-take,
  length-drop, take-drop, All, arith,
}
use event_gallery.Store.Gallery.{last, cut, with_cursor}
use event_gallery.Store.Gallery.Sorting.{Sorted, select-all}

module _ {A : Type 0} where
  take-take : (n : ℕ) (xs : List A) → take n (take (suc n) xs) ≡ take n xs
  take-take zero xs = refl
  take-take (suc n) [] = refl
  take-take (suc n) (x ∷ xs) = ap (λ ys. x ∷ ys) (take-take n xs)

  take-all : (n : ℕ) (xs : List A) → length xs ≤ n → take n xs ≡ xs
  take-all zero [] h = refl
  take-all zero (x ∷ xs) h = absurd (omega arith)
  take-all (suc n) [] h = refl
  take-all (suc n) (x ∷ xs) h = ap (λ ys. x ∷ ys) (take-all n xs (omega arith))

  -- A list that is not empty ends with its last item.
  last-end :
      (xs : List A)
      → 1 ≤ length xs
      → (init : List A) × (c : A) × (last xs ≡ some c) × (xs ≡ init ++ c ∷ [])
  last-end [] h = absurd (omega arith)
  last-end (x ∷ []) h = ([], x, refl, refl)
  last-end (x ∷ y ∷ xs) h =
      let (init, c, e, f) = last-end (y ∷ xs) (omega arith) in (x ∷ init, c, e, ap (λ ys. x ∷ ys) f)

  -- A page that is not the last ends with a row before the rows that are left.
  page-splits :
      (limit : ℕ) (s : List A)
      → 1 ≤ limit
      → limit < length s
      → (init : List A) × (d : A) × (last (take limit s) ≡ some d)
        × (s ≡ init ++ (d ∷ drop limit s))
        × (length (drop limit s) < length s)
  page-splits limit s one more =
      let size = length-take limit s in
      let rest = length-drop limit s in
      let (init, d, end, split) = last-end (take limit s) (omega arith) in
      (
        init,
        d,
        end,
        sym (take-drop limit s)
            ∙ ap (λ t. t ++ drop limit s) split
            ∙ append_assoc init (d ∷ []) (drop limit s),
        omega arith,
      )

  -- The cut of the rows of a page: all that are left, or as many as the limit, with the last of them.
  cut-end :
      (limit : ℕ) (rows : List A)
      → length rows ≤ limit
      → cut limit (take (suc limit) rows) ≡ (rows, none)
  unfolding cut
  cut-end limit rows h =
      let whole = take-all (suc limit) rows (omega arith) in
      let fits : ltb limit (length rows) ≡ false = ground arith in simp (whole, fits)

  cut-more :
      (limit : ℕ) (rows : List A)
      → limit < length rows
      → cut limit (take (suc limit) rows) ≡ (take limit rows, last (take limit rows))
  unfolding cut
  cut-more limit rows h =
      let more : ltb limit (length (take (suc limit) rows)) ≡ true =
        ground (arith, length-take (suc limit) rows) in
      simp (more, take-take limit rows)

  module _ (before : A → A → Bool) (irrefl : (x : A) → before x x ≡ false)
      (trans : (x y z : A) → before x y ≡ true → before y z ≡ true → before x z ≡ true) where
    asym : (x y : A) → before x y ≡ true → before y x ≡ false
    asym x y h = elim (Bool-cases (before y x)) [
      | inr e ↦ e
      | inl e ↦ let wrong : true ≡ false = sym (trans x y x h e) ∙ irrefl x in absurd (cc)
    ]

    Sorted-head :
        (q c : A) (qs s : List A) → All (λ y. before q y ≡ true) (qs ++ (c ∷ s)) → before q c ≡ true
    Sorted-head q c [] s h = h.0
    Sorted-head q c (r ∷ qs) s h = Sorted-head q c qs s h.1

    -- The rows after one of the rows are those that follow it.
    select-after :
        (qs : List A) (c : A) (s : List A)
        → Sorted before (qs ++ (c ∷ s))
        → select (before c) (qs ++ (c ∷ s)) ≡ s
    select-after [] c s h = simp (irrefl c) (select-all (before c) s h.0)
    select-after (q ∷ qs) c s h =
        let off = asym q c (Sorted-head q c qs s h.0) in
        let rec = select-after qs c s h.1 in simp (off, rec)

-- The rows that are past a row, or all.
abbrev pub past : {A : Type 0} → (A → A → Bool) → Option A → A → Bool
past before none x = true
past before (some c) x = before c x

-- A client that asks for the first page and then for the page of every cursor that it gets.
abbrev pub then_next : {A C : Type 0} → (Option C → List A) → List A × Option C → List A
then_next more (items, none) = items
then_next more (items, some c) = items ++ more (some c)

unfoldable pub follow : {A C : Type 0} → (Option C → List A × Option C) → ℕ → Option C → List A
follow turn zero c = []
follow turn (suc n) c = then_next (λ d. follow turn n d) (turn c)

abbrev pub key_of_row : {A C : Type 0} → (A → C) → Option A → Option C
key_of_row key none = none
key_of_row key (some c) = some (key c)

module _ {A C : Type 0} (before : A → A → Bool) (irrefl : (x : A) → before x x ≡ false)
    (trans : (x y z : A) → before x y ≡ true → before y z ≡ true → before x z ≡ true) (key : A → C)
    (limit : ℕ) (rows : List A) (turn : Option C → List A × Option C)
    (turns : (c : Option A)
      → turn (key_of_row key c)
        ≡ with_cursor key (cut limit (take (suc limit) (select (past before c) rows)))) where
  -- From a cursor on, the pages are the rows that are left.
  follow-rest :
      (fuel : ℕ) (qs s : List A) (c : Option A)
      → 1 ≤ limit
      → Sorted before rows
      → rows ≡ qs ++ s
      → select (past before c) rows ≡ s
      → length s ≤ fuel
      → follow turn fuel (key_of_row key c) ≡ s
  unfolding follow
  follow-rest zero qs [] c one sorted parts here enough = refl
  follow-rest zero qs (x ∷ s) c one sorted parts here enough = absurd (omega arith)
  follow-rest (suc n) qs s c one sorted parts here enough =
      elim (Bool-cases (ltb limit (length s))) [
        | inr e ↦
            let page =
              turns c
              ∙ ap (λ t. with_cursor key (cut limit (take (suc limit) t))) here
              ∙ ap (with_cursor key) (cut-end limit s (ground arith)) in
            simp page
        | inl e ↦
            let (init, d, end, split, less) = page-splits limit s one (ground arith) in
            let page =
              turns c
              ∙ ap (λ t. with_cursor key (cut limit (take (suc limit) t))) here
              ∙ ap (with_cursor key)
                  (cut-more limit s (ground arith) ∙ ap (λ o. (take limit s, o)) end) in
            let whole : rows ≡ (qs ++ init) ++ (d ∷ drop limit s) =
              parts ∙ ap (λ t. qs ++ t) split ∙ sym (append_assoc qs init (d ∷ drop limit s)) in
            let after =
              ap (select (before d)) whole
              ∙ select-after before irrefl trans (qs ++ init) d (drop limit s)
                  (subst (Sorted before) whole sorted) in
            let moved = whole ∙ sym (append_assoc (qs ++ init) (d ∷ []) (drop limit s)) in
            let rec =
              follow-rest n ((qs ++ init) ++ d ∷ []) (drop limit s) (some d) one sorted moved after
                (omega arith) in
            ap (then_next (λ c'. follow turn n c')) page
            ∙ ap (λ t. take limit s ++ t) rec
            ∙ take-drop limit s
      ]

  -- The pages from the first on are all rows, in order.
  pub follow-rows :
      (fuel : ℕ)
      → 1 ≤ limit
      → Sorted before rows
      → length rows ≤ fuel
      → follow turn fuel none ≡ rows
  follow-rows fuel one sorted enough =
      follow-rest fuel [] rows none one sorted refl (select-all (λ x. true) rows (trues rows))
        enough
    where
      trues : (xs : List A) → All (λ x. true ≡ true) xs
      trues [] = tt
      trues (x ∷ xs) = (refl, trues xs)
