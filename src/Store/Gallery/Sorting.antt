-- ===== src/Store/Gallery/Sorting.antt =====
-- ORDER BY gives a sorted list and keeps a selection.
use event_gallery.Base.{
  ◌≡◌, ◌⊎◌, inl, inr, refl, sym, ap, ◌∙◌, Bool, true, false, Bool-cases, ◌&&◌, List, [], ◌∷◌,
  if◌then◌else◌, select, All, All-mono, length, suc, ◌≤◌, arith,
}
use event_gallery.Store.Gallery.{insert_by, order_by}

module _ {ℓ} {A : Type ℓ} where
  pub All-select : (P : A → Type 0) (p : A → Bool) (xs : List A) → All P xs → All P (select p xs)
  All-select P p [] h = tt
  All-select P p (x ∷ xs) h = elim (Bool-cases (p x)) [
    | inl e ↦ simp e (h.0, All-select P p xs h.1)
    | inr e ↦ simp e (All-select P p xs h.1)
  ]

  pub length-select : (p : A → Bool) (xs : List A) → length (select p xs) ≤ length xs
  length-select p [] = omega arith
  length-select p (x ∷ xs) =
      let rec = length-select p xs in
      elim (Bool-cases (p x)) [ inl e ↦ simp e (omega arith) | inr e ↦ simp e (omega arith) ]

  pub select-all : (p : A → Bool) (xs : List A) → All (λ x. p x ≡ true) xs → select p xs ≡ xs
  select-all p [] h = refl
  select-all p (x ∷ xs) h = let rec = select-all p xs h.1 in simp (h.0, rec)

  pub select-select :
      (p q : A → Bool) (xs : List A) → select q (select p xs) ≡ select (λ x. p x && q x) xs
  select-select p q [] = refl
  select-select p q (x ∷ xs) =
      let rec = select-select p q xs in
      elim (Bool-cases (p x)) [
        | inr e ↦ simp (e, rec)
        | inl e ↦ elim (Bool-cases (q x)) [ inl f ↦ simp (e, f, rec) | inr f ↦ simp (e, f, rec) ]
      ]

  module _ (before : A → A → Bool) where
    abbrev pub Sorted : List A → Type 0
    Sorted [] = Unit
    Sorted (x ∷ xs) = All (λ y. before x y ≡ true) xs × Sorted xs

    -- Of any two items, one comes before the other.
    abbrev pub Comparable : List A → Type 0
    Comparable [] = Unit
    Comparable (x ∷ xs) = All (λ y. (before x y ≡ true) ⊎ (before y x ≡ true)) xs × Comparable xs

    pub select-Comparable : (p : A → Bool) (xs : List A) → Comparable xs → Comparable (select p xs)
    select-Comparable p [] h = tt
    select-Comparable p (x ∷ xs) h = elim (Bool-cases (p x)) [
      | inl e ↦ simp e (
        All-select (λ y. (before x y ≡ true) ⊎ (before y x ≡ true)) p xs h.0,
        select-Comparable p xs h.1,
      )
      | inr e ↦ simp e (select-Comparable p xs h.1)
    ]

    All-insert_by :
        (P : A → Type 0) (x : A) (ys : List A) → P x → All P ys → All P (insert_by before x ys)
    unfolding insert_by
    All-insert_by P x [] h k = (h, tt)
    All-insert_by P x (y ∷ ys) h k = elim (Bool-cases (before x y)) [
      | inl e ↦ simp e (h, k)
      | inr e ↦ simp e (k.0, All-insert_by P x ys h k.1)
    ]

    pub All-order_by : (P : A → Type 0) (xs : List A) → All P xs → All P (order_by before xs)
    unfolding order_by
    All-order_by P [] h = tt
    All-order_by P (x ∷ xs) h = All-insert_by P x (order_by before xs) h.0 (All-order_by P xs h.1)

    length-insert_by : (x : A) (ys : List A) → length (insert_by before x ys) ≡ suc (length ys)
    unfolding insert_by
    length-insert_by x [] = refl
    length-insert_by x (y ∷ ys) =
        let rec = length-insert_by x ys in
        elim (Bool-cases (before x y)) [ inl e ↦ simp e | inr e ↦ simp (e, rec) ]

    pub length-order_by : (xs : List A) → length (order_by before xs) ≡ length xs
    unfolding order_by
    length-order_by [] = refl
    length-order_by (x ∷ xs) = length-insert_by x (order_by before xs) ∙ ap suc (length-order_by xs)

    insert_by-counts :
        (p : A → Bool) (x : A) (ys : List A)
        → length (select p (insert_by before x ys)) ≡ length (select p (x ∷ ys))
    unfolding insert_by
    insert_by-counts p x [] = refl
    insert_by-counts p x (y ∷ ys) = elim (Bool-cases (before x y)) [
      | inl e ↦ simp e
      | inr e ↦
          let rec = insert_by-counts p x ys in
          elim (Bool-cases (p x)) [
            | inl f ↦ elim (Bool-cases (p y)) [
              | inl g ↦ simp (e, f, g) (ap suc (simp f at rec))
              | inr g ↦ simp (e, f, g) (simp f at rec)
            ]
            | inr f ↦ elim (Bool-cases (p y)) [
              | inl g ↦ simp (e, f, g) (ap suc (simp f at rec))
              | inr g ↦ simp (e, f, g) (simp f at rec)
            ]
          ]
    ]

    -- Ordering keeps how often a test holds, so that it loses and repeats nothing.
    pub order_by-counts :
        (p : A → Bool) (xs : List A) → length (select p (order_by before xs)) ≡ length (select p xs)
    unfolding order_by
    order_by-counts p [] = refl
    order_by-counts p (x ∷ xs) =
        let rec = order_by-counts p xs in
        insert_by-counts p x (order_by before xs)
        ∙ elim (Bool-cases (p x)) [ inl e ↦ simp e (ap suc rec) | inr e ↦ simp e rec ]

    module _ (trans : (x y z : A) → before x y ≡ true → before y z ≡ true → before x z ≡ true) where
      insert_by-Sorted :
          (x : A) (ys : List A)
          → All (λ y. (before x y ≡ true) ⊎ (before y x ≡ true)) ys
          → Sorted ys
          → Sorted (insert_by before x ys)
      unfolding insert_by
      insert_by-Sorted x [] c h = (tt, tt)
      insert_by-Sorted x (y ∷ ys) c h = elim (Bool-cases (before x y)) [
        | inl e ↦ simp e ((refl, All-mono ys (λ z k. trans x y z e k) h.0), h)
        | inr e ↦ simp e (
          All-insert_by (λ z. before y z ≡ true) x ys (other x y e c.0) h.0,
          insert_by-Sorted x ys c.1 h.1,
        )
      ]
        where
          other :
              (x y : A)
              → before x y ≡ false
              → (before x y ≡ true) ⊎ (before y x ≡ true)
              → before y x ≡ true
          other x y e (inl f) = absurd (cc)
          other x y e (inr f) = f

      pub order_by-Sorted : (xs : List A) → Comparable xs → Sorted (order_by before xs)
      unfolding order_by
      order_by-Sorted [] c = tt
      order_by-Sorted (x ∷ xs) c =
          insert_by-Sorted x (order_by before xs)
            (All-order_by (λ y. (before x y ≡ true) ⊎ (before y x ≡ true)) xs c.0)
            (order_by-Sorted xs c.1)

      insert_by-front :
          (x : A) (ys : List A) → All (λ y. before x y ≡ true) ys → insert_by before x ys ≡ x ∷ ys
      unfolding insert_by
      insert_by-front x [] h = refl
      insert_by-front x (y ∷ ys) h = simp (h.0)

      select-insert_by :
          (p : A → Bool) (x : A) (ys : List A)
          → Sorted ys
          → select p (insert_by before x ys)
            ≡ (if p x then insert_by before x (select p ys) else select p ys)
      unfolding insert_by
      select-insert_by p x [] h = refl
      select-insert_by p x (y ∷ ys) h =
          let rec = select-insert_by p x ys h.1 in
          elim (Bool-cases (before x y)) [
            | inl e ↦
                let all : All (λ z. before x z ≡ true) (y ∷ ys) =
                  (e, All-mono ys (λ z k. trans x y z e k) h.0) in
                let front =
                  insert_by-front x (select p (y ∷ ys))
                    (All-select (λ z. before x z ≡ true) p (y ∷ ys) all) in
                elim (Bool-cases (p x)) [ inl f ↦ simp (e, f) (sym front) | inr f ↦ simp (e, f) ]
            | inr e ↦ elim (Bool-cases (p y)) [
              | inl f ↦ elim (Bool-cases (p x)) [
                | inl g ↦
                    let deep : select p (insert_by before x ys) ≡ insert_by before x (select p ys) =
                      simp g at rec in
                    simp (e, f, g, deep)
                | inr g ↦
                    let deep : select p (insert_by before x ys) ≡ select p ys = simp g at rec in
                    simp (e, f, g, deep)
              ]
              | inr f ↦ simp (e, f) rec
            ]
          ]

      -- The rows that a WHERE admits, in order, are the admitted ones of the rows in order.
      pub order_by-select :
          (p : A → Bool) (xs : List A)
          → Comparable xs
          → order_by before (select p xs) ≡ select p (order_by before xs)
      unfolding order_by
      order_by-select p [] c = refl
      order_by-select p (x ∷ xs) c =
          let rec = order_by-select p xs c.1 in
          let step = select-insert_by p x (order_by before xs) (order_by-Sorted xs c.1) in
          elim (Bool-cases (p x)) [
            | inl e ↦ simp (e, rec) (sym (simp e at step))
            | inr e ↦ simp (e, rec) (sym (simp e at step))
          ]
