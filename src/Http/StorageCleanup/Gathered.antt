-- ===== src/Http/StorageCleanup/Gathered.antt =====
-- The items that a purge gathers: each id once, each with its row.
use mathlib.Core.Path.{subst}
use event_gallery.Base.{
  ◌≡◌, ◌⊎◌, inl, inr, refl, sym, ◌∙◌, Bool, true, false, Bool-cases, Option, none, some, String,
  List, [], ◌∷◌, str_eq, arith,
}
use event_gallery.Store.Job.{
  Result, ok, err, not_claimed, unknown_counter, constraint_failed, no_rows,
}
use event_gallery.Store.Finish.{among}
use event_gallery.Store.Media.{MediaItem, is_trashed, Db, find_media, scan_one, get_by_id}
use event_gallery.Http.StorageCleanup.{gather_row, gather}
use event_gallery.Http.StorageCleanup.Rows.{Absent, Once, find_media-id, str_eq_same}

-- What one row adds.
data Adds (r : Result MediaItem) (old new : List MediaItem) : Type 0 where
  nothing : old ≡ new → Adds r old new
  item : (x : MediaItem) → r ≡ ok x → x ∷ old ≡ new → Adds r old new

gather_row-Adds :
    (rest : Option (List MediaItem)) (r : Result MediaItem) (items : List MediaItem)
    → gather_row rest r ≡ some items
    → (old : List MediaItem) × (rest ≡ some old) × Adds r old items
gather_row-Adds none r items e = absurd (cc)
gather_row-Adds (some old) (err no_rows) items e = (old, refl, nothing cc)
gather_row-Adds (some old) (err not_claimed) items e = absurd (cc)
gather_row-Adds (some old) (err unknown_counter) items e = absurd (cc)
gather_row-Adds (some old) (err constraint_failed) items e = absurd (cc)
gather_row-Adds (some old) (ok x) items e = elim (Bool-cases (is_trashed x.status)) [
  | inl f ↦ let new : some (x ∷ old) ≡ some items = simp f at e in (old, refl, item x refl cc)
  | inr f ↦ let wrong : none ≡ some items = simp f at e in absurd (cc)
]

scan_one-row : (o : Option MediaItem) (x : MediaItem) → scan_one o ≡ ok x → o ≡ some x
scan_one-row none x e = absurd (cc)
scan_one-row (some y) x e = cc

module _ (k : String) (m : MediaItem) (db : Db) (at : find_media k db.media ≡ some m) where
  -- An id that was seen is not gathered again, and any other at most once.
  unfoldable pub Gathered : List String → List MediaItem → Type 0
  Gathered seen items =
      ((among seen k ≡ true) × Absent k items)
      ⊎ ((among seen k ≡ false) × (Absent k items ⊎ Once k m items))

  get_by_id-row :
      (id : String) (x : MediaItem) → get_by_id id db ≡ ok x → find_media id db.media ≡ some x
  unfolding get_by_id
  get_by_id-row id x e = scan_one-row (find_media id db.media) x e

  forget :
      (id : String) (seen : List String) (items : List MediaItem)
      → Gathered (id ∷ seen) items
      → Gathered seen items
  unfolding Gathered
  forget id seen items (inl (e, absent)) = elim (Bool-cases (among seen k)) [
    | inl f ↦ inl (f, absent)
    | inr f ↦ inr (f, inl absent)
  ]
  forget id seen items (inr (e, h)) = inr (ground arith, h)

  Absent-seen :
      (id : String) (seen : List String) (old : List MediaItem)
      → str_eq id k ≡ true
      → Gathered (id ∷ seen) old
      → Absent k old
  unfolding Gathered
  Absent-seen id seen old hit (inl (e, absent)) = absent
  Absent-seen id seen old hit (inr (e, h)) = absurd (ground arith)

  -- An item of another id comes before the gathered ones.
  beside :
      (id : String) (seen : List String) (x : MediaItem) (old : List MediaItem)
      → str_eq id k ≡ false
      → str_eq x.id k ≡ false
      → Gathered (id ∷ seen) old
      → Gathered seen (x ∷ old)
  unfolding Gathered Absent Once
  beside id seen x old miss f (inl (e, absent)) = inl (ground arith, (f, absent))
  beside id seen x old miss f (inr (e, inl absent)) = inr (ground arith, inl (f, absent))
  beside id seen x old miss f (inr (e, inr once)) = inr (ground arith, inr (inr (f, once)))

  with_row :
      (id : String) (seen : List String) (x : MediaItem) (old : List MediaItem)
      → among seen id ≡ false
      → get_by_id id db ≡ ok x
      → Gathered (id ∷ seen) old
      → Gathered seen (x ∷ old)
  unfolding Gathered Absent Once
  with_row id seen x old fresh e h =
      let here = get_by_id-row id x e in
      let key = str_eq_same x.id id (find_media-id id x db.media here) in
      elim (Bool-cases (str_eq x.id k)) [
        | inl f ↦
            let to_k : id ≡ k = sym key ∙ str_eq_same x.id k f in
            let there : find_media k db.media ≡ some x =
              subst (λ j. find_media j db.media ≡ some x) to_k here in
            let rows : some x ≡ some m = sym there ∙ at in
            let same : x ≡ m = cc in
            let fresh_k : among seen k ≡ false = subst (λ j. among seen j ≡ false) to_k fresh in
            let hit : str_eq id k ≡ true = rw (sym key) f in
            inr (fresh_k, inr (inl (f, same, Absent-seen id seen old hit h)))
        | inr f ↦ let miss : str_eq id k ≡ false = rw (sym key) f in beside id seen x old miss f h
      ]

  pub gather-Gathered :
      (readable : String → Bool) (ids seen : List String) (items : List MediaItem)
      → gather readable db seen ids ≡ some items
      → Gathered seen items
  unfolding gather Gathered Absent
  gather-Gathered readable [] seen items e =
      let same : [] ≡ items = cc in
      elim (Bool-cases (among seen k)) [
        | inl f ↦ inl (f, subst (Absent k) same tt)
        | inr f ↦ inr (f, inl (subst (Absent k) same tt))
      ]
  gather-Gathered readable (id ∷ ids) seen items e = elim (Bool-cases (among seen id)) [
    | inl f ↦ gather-Gathered readable ids seen items (simp f at e)
    | inr f ↦ elim (Bool-cases (readable id)) [
      | inr g ↦ let wrong : none ≡ some items = simp (f, g) at e in absurd (cc)
      | inl g ↦
          let (old, rest, adds) =
            gather_row-Adds (gather readable db (id ∷ seen) ids) (get_by_id id db) items
              (simp (f, g) at e) in
          let rec = gather-Gathered readable ids (id ∷ seen) old rest in
          elim adds [
            | nothing q ↦ forget id seen items (subst (Gathered (id ∷ seen)) q rec)
            | item x p q ↦ subst (Gathered seen) q (with_row id seen x old f p rec)
          ]
    ]
  ]
