-- ===== src/Http/StorageCleanup/Rows.antt =====
-- What a purge does to the row of one media id, and which items it gathers.
use mathlib.Core.Path.{subst}
use event_gallery.Base.{
  ◌≡◌, ◌⊎◌, inl, inr, refl, sym, ap, ◌∙◌, Bool, true, false, Bool-cases, none, some, String, List,
  [], ◌∷◌, str_eq, str_eq_iff, str_eq_refl, All, arith,
}
use event_gallery.Store.Sql.{Table}
use event_gallery.Store.Finish.{among}
use event_gallery.Store.Media.{MediaItem, Db, find_media}
use event_gallery.Store.Purge.{is_purgeable, delete_media, any_media, purge_one, purge_loop}

-- The row is the only one of its id.
unfoldable pub Only : String → MediaItem → List MediaItem → Type 0
Only k m = All λ (x : MediaItem). str_eq x.id k ≡ true → x ≡ m

-- No item of the id, and at most one, which is the row.
unfoldable pub Absent : String → List MediaItem → Type 0
Absent k = All λ (x : MediaItem). str_eq x.id k ≡ false

unfoldable pub Once : String → MediaItem → List MediaItem → Type 0
Once k m [] = ⊥
Once k m (x ∷ xs) =
    ((str_eq x.id k ≡ true) × (x ≡ m) × Absent k xs) ⊎ ((str_eq x.id k ≡ false) × Once k m xs)

pub str_eq_same : (a b : String) → str_eq a b ≡ true → a ≡ b
str_eq_same a b = (str_eq_iff a b).0

pub find_media-id :
    (k : String) (m : MediaItem) (ms : List MediaItem)
    → find_media k ms ≡ some m
    → str_eq m.id k ≡ true
find_media-id k m [] e = absurd (cc)
find_media-id k m (x ∷ ms) e = elim (Bool-cases (str_eq x.id k)) [
  | inl f ↦ let here : some x ≡ some m = simp f at e in let same : x ≡ m = cc in rw (sym same) f
  | inr f ↦ find_media-id k m ms (simp f at e)
]

find_media-skips :
    (p : MediaItem → Bool) (k : String) (ms : List MediaItem)
    → ((x : MediaItem) → str_eq x.id k ≡ true → p x ≡ false)
    → find_media k (delete_media p ms) ≡ find_media k ms
unfolding delete_media
find_media-skips p k [] h = refl
find_media-skips p k (x ∷ ms) h =
    let rec = find_media-skips p k ms h in
    elim (Bool-cases (str_eq x.id k)) [
      | inl e ↦ simp (h x e, e)
      | inr e ↦ elim (Bool-cases (p x)) [ inl f ↦ simp (f, e, rec) | inr f ↦ simp (f, e, rec) ]
    ]

find_media-deleted :
    (p : MediaItem → Bool) (k : String) (m : MediaItem) (ms : List MediaItem)
    → Only k m ms
    → p m ≡ true
    → find_media k (delete_media p ms) ≡ none
unfolding delete_media Only
find_media-deleted p k m [] only h = refl
find_media-deleted p k m (x ∷ ms) only h =
    let rec = find_media-deleted p k m ms only.1 h in
    elim (Bool-cases (p x)) [
      | inl f ↦ simp (f, rec)
      | inr f ↦ elim (Bool-cases (str_eq x.id k)) [
        | inl e ↦ let wrong : true ≡ false = sym h ∙ ap p (sym (only.0 e)) ∙ f in absurd (cc)
        | inr e ↦ simp (f, e, rec)
      ]
    ]

find_media-stays_none :
    (p : MediaItem → Bool) (k : String) (ms : List MediaItem)
    → find_media k ms ≡ none
    → find_media k (delete_media p ms) ≡ none
unfolding delete_media
find_media-stays_none p k [] h = refl
find_media-stays_none p k (x ∷ ms) h = elim (Bool-cases (str_eq x.id k)) [
  | inl e ↦ let wrong : some x ≡ none = simp e at h in absurd (cc)
  | inr e ↦
      let rec = find_media-stays_none p k ms (simp e at h) in
      elim (Bool-cases (p x)) [ inl f ↦ simp (f, rec) | inr f ↦ simp (f, e, rec) ]
]

any_media-row :
    (p : MediaItem → Bool) (k : String) (m : MediaItem) (ms : List MediaItem)
    → Only k m ms
    → ((x : MediaItem) → p x ≡ true → str_eq x.id k ≡ true)
    → any_media p ms ≡ true
    → p m ≡ true
unfolding any_media Only
any_media-row p k m [] only h e = absurd (cc)
any_media-row p k m (x ∷ ms) only h e = elim (Bool-cases (p x)) [
  | inl f ↦ ap p (sym (only.0 (h x f))) ∙ f
  | inr f ↦ any_media-row p k m ms only.1 h (simp f at e)
]

Only-delete :
    (p : MediaItem → Bool) (k : String) (m : MediaItem) (ms : List MediaItem)
    → Only k m ms
    → Only k m (delete_media p ms)
unfolding delete_media Only
Only-delete p k m [] only = only
Only-delete p k m (x ∷ ms) only =
    let rec = Only-delete p k m ms only.1 in
    elim (Bool-cases (p x)) [ inl f ↦ simp f rec | inr f ↦ simp f (only.0, rec) ]

-- The row stands and is not among the changed ids, or it is gone and among them.
unfoldable pub Stands : String → MediaItem → Db × List String → Type 0
Stands k m (db, changed) =
    (find_media k db.media ≡ some m) × Only k m db.media × (among changed k ≡ false)

unfoldable pub Went : String → Db × List String → Type 0
Went k (db, changed) = (find_media k db.media ≡ none) × (among changed k ≡ true)

is_purgeable-id :
    (id stored : String) (jobs : Table) (x : MediaItem)
    → is_purgeable id stored jobs x ≡ true
    → str_eq x.id id ≡ true
unfolding is_purgeable
is_purgeable-id id stored jobs x h = ground arith

purgeable_other :
    (id stored k : String) (jobs : Table) (x : MediaItem)
    → str_eq id k ≡ false
    → str_eq x.id k ≡ true
    → is_purgeable id stored jobs x ≡ false
purgeable_other id stored k jobs x other at = elim (Bool-cases (is_purgeable id stored jobs x)) [
  | inr e ↦ e
  | inl e ↦
      let one = str_eq_same x.id id (is_purgeable-id id stored jobs x e) in
      let two = str_eq_same x.id k at in
      let same : str_eq id k ≡ true = rw (sym one, sym two) (str_eq_refl x.id) in absurd (cc)
]

module _ (actor k : String) (m : MediaItem) (i : MediaItem) where
  purge_one-other :
      (s : Db × List String)
      → str_eq i.id k ≡ false
      → Stands k m s
      → Stands k m (purge_one actor i s)
  unfolding purge_one Stands
  purge_one-other (db, changed) other (at, only, out) =
      let p = is_purgeable i.id i.stored_filename db.jobs in
      elim (Bool-cases (any_media p db.media)) [
        | inr e ↦ simp e (at, only, out)
        | inl e ↦
            let keeps =
              find_media-skips p k db.media
                (λ x f. purgeable_other i.id i.stored_filename k db.jobs x other f) in
            simp e (keeps ∙ at, Only-delete p k m db.media only, ground arith)
      ]

  purge_one-same :
      (s : Db × List String)
      → str_eq i.id k ≡ true
      → Stands k m s
      → Stands k m (purge_one actor i s) ⊎ Went k (purge_one actor i s)
  unfolding purge_one Stands Went
  purge_one-same (db, changed) same (at, only, out) =
      let p = is_purgeable i.id i.stored_filename db.jobs in
      let key = str_eq_same i.id k same in
      elim (Bool-cases (any_media p db.media)) [
        | inr e ↦ simp e (inl (at, only, out))
        | inl e ↦
            let row =
              any_media-row p k m db.media only
                (λ x f.
                  subst (λ j. str_eq x.id j ≡ true) key
                    (is_purgeable-id i.id i.stored_filename db.jobs x f))
                e in
            simp e (inr (find_media-deleted p k m db.media only row, ground arith))
      ]

  purge_one-Went : (s : Db × List String) → Went k s → Went k (purge_one actor i s)
  unfolding purge_one Went
  purge_one-Went (db, changed) (none_left, within) =
      let p = is_purgeable i.id i.stored_filename db.jobs in
      elim (Bool-cases (any_media p db.media)) [
        | inr e ↦ simp e (none_left, within)
        | inl e ↦ simp e (find_media-stays_none p k db.media none_left, ground arith)
      ]

module _ (actor k : String) (m : MediaItem) where
  pub purge_loop-Absent :
      (items : List MediaItem) (s : Db × List String)
      → Absent k items
      → Stands k m s
      → Stands k m (purge_loop actor items s)
  unfolding purge_loop Absent
  purge_loop-Absent [] s absent h = h
  purge_loop-Absent (i ∷ items) s absent h =
      purge_loop-Absent items (purge_one actor i s) absent.1
        (purge_one-other actor k m i s absent.0 h)

  purge_loop-Went :
      (items : List MediaItem) (s : Db × List String) → Went k s → Went k (purge_loop actor items s)
  unfolding purge_loop
  purge_loop-Went [] s h = h
  purge_loop-Went (i ∷ items) s h =
      purge_loop-Went items (purge_one actor i s) (purge_one-Went actor k m i s h)

  pub purge_loop-Once :
      (items : List MediaItem) (s : Db × List String)
      → Once k m items
      → Stands k m s
      → Stands k m (purge_loop actor items s) ⊎ Went k (purge_loop actor items s)
  unfolding purge_loop Once
  purge_loop-Once [] s once h = absurd once
  purge_loop-Once (i ∷ items) s (inl (e, f, absent)) h = elim (purge_one-same actor k m i s e h) [
    | inl g ↦ inl (purge_loop-Absent items (purge_one actor i s) absent g)
    | inr g ↦ inr (purge_loop-Went items (purge_one actor i s) g)
  ]
  purge_loop-Once (i ∷ items) s (inr (e, once)) h =
      purge_loop-Once items (purge_one actor i s) once (purge_one-other actor k m i s e h)
