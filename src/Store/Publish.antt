-- ===== src/Store/Publish.antt =====
-- What `PublishMedia` has done when it succeeds: the hash of the content has one owner, which is the new
-- item, or was there before.
use mathlib.Core.Path.{subst}
use event_gallery.Base.{
  ℕ, suc, ◌≤◌, List, [], true, false, if◌then◌else◌, ◌≡◌, ◌⊎◌, inl, inr, refl, sym, Bool, not,
  Option, none, some, String, ◌∷◌, arith, Bool-cases, str_eq, str_eq_refl, is_some, ◌==◌,
}
use event_gallery.Store.Job.{Result, ok, err}
use event_gallery.Store.Sql.{affected}
use event_gallery.Store.Media.{
  Db, MediaItem, find_sha, find_media, publish_media, fence_row, fenced, inserted, insert_or_skip,
  settle, settle_insert,
}

-- The owner of a hash after a publication, and where it comes from.
abbrev pub Owner : MediaItem → Db → Db → String → Bool → Type 0
Owner item db db' id duplicate =
    (m : MediaItem) × (find_sha item.sha256 db'.media ≡ some m)
    × (m.id ≡ id)
    × (duplicate ≡ not (str_eq m.id item.id))
    × ((find_sha item.sha256 db.media ≡ some m) ⊎ (m.id ≡ item.id))

abbrev pub Answers : MediaItem → Db → Db × Result (String × Bool) → Type 0
Answers item db (db', ok (id, duplicate)) = Owner item db db' id duplicate
Answers item db (db', err e) = Unit

module _ (id token : String) (item : MediaItem) (now : ℕ) (db : Db) where
  settle-Answers :
      (before after : Db) (o : Option MediaItem)
      → find_sha item.sha256 after.media ≡ o
      → ((m : MediaItem) → o ≡ some m → (find_sha item.sha256 db.media ≡ some m) ⊎ (m.id ≡ item.id))
      → Answers item db (settle id token item now before after o)
  settle-Answers before after none e h = tt
  settle-Answers before after (some m) e h = (m, e, refl, refl, h m refl)

  -- A database whose owner of the hash is old or new.
  abbrev Sourced : Db → Type 0
  Sourced after =
      (m : MediaItem)
      → find_sha item.sha256 after.media ≡ some m
      → (find_sha item.sha256 db.media ≡ some m) ⊎ (m.id ≡ item.id)

  settle_insert-Answers :
      (before : Db) (r : Result Db)
      → ((after : Db) → r ≡ ok after → Sourced after)
      → Answers item db (settle_insert id token item now before r)
  settle_insert-Answers before (err e) h = tt
  settle_insert-Answers before (ok after) h =
      settle-Answers before after (find_sha item.sha256 after.media) refl (h after refl)

  new_owner :
      (d : Db) (m : MediaItem)
      → find_sha item.sha256 (inserted d item ∷ d.media) ≡ some m
      → m.id ≡ item.id
  new_owner d m q = ground (arith, str_eq_refl item.sha256)

  insert-Sourced :
      (d : Db)
      → d.media ≡ db.media
      → (after : Db) → insert_or_skip item d ≡ ok after
      → Sourced after
  insert-Sourced d same after = elim (Bool-cases (is_some (find_sha item.sha256 d.media))) [
    | inl e ↦ simp e (λ k m q.
        let kept : d ≡ after = ground (arith, k) in
        inl (
          subst (λ ms. find_sha item.sha256 ms ≡ some m) same
            (subst (λ (y : Db). find_sha item.sha256 y.media ≡ some m) (sym kept) q)))
    | inr e ↦ elim (Bool-cases (is_some (find_media item.id d.media))) [
      | inl f ↦ simp (e, f) (λ k. absurd (cc))
      | inr f ↦
          simp (e, f)
            (λ k m q.
              let grown : record d { media = inserted d item ∷ d.media } ≡ after =
                ground (arith, k) in
              let q' = subst (λ (y : Db). find_sha item.sha256 y.media ≡ some m) (sym grown) q in
              inr (new_owner d m q'))
    ]
  ]

  pub publish_media-Answers : Answers item db (publish_media id token item now db)
  unfolding publish_media
  publish_media-Answers = elim (Bool-cases (affected (fence_row id token) db.jobs == 0)) [
    | inl e ↦ simp e tt
    | inr e ↦ simp e (
        settle_insert-Answers db (insert_or_skip item (fenced id token now db))
          (insert-Sourced (fenced id token now db) refl))
  ]

-- How many rows have a hash.
unfoldable pub owners : String → List MediaItem → ℕ
owners h [] = 0
owners h (m ∷ ms) = let rest = owners h ms in if str_eq m.sha256 h then suc rest else rest

-- A hash that was nowhere twice has exactly one row.
abbrev pub OneOwner : String → Db × Result (String × Bool) → Type 0
OneOwner h (db', ok r) = owners h db'.media ≡ 1
OneOwner h (db', err e) = Unit

owners-none : (h : String) (ms : List MediaItem) → find_sha h ms ≡ none → owners h ms ≡ 0
unfolding owners
owners-none h [] e = refl
owners-none h (m ∷ ms) e = elim (Bool-cases (str_eq m.sha256 h)) [
  | inl f ↦ let wrong : some m ≡ none = simp f at e in absurd (cc)
  | inr f ↦ simp f (owners-none h ms (simp f at e))
]

owners-some : (h : String) (ms : List MediaItem) → is_some (find_sha h ms) ≡ true → 1 ≤ owners h ms
unfolding owners
owners-some h [] e = absurd (cc)
owners-some h (m ∷ ms) e = elim (Bool-cases (str_eq m.sha256 h)) [
  | inl f ↦ simp f (omega arith)
  | inr f ↦ simp f (owners-some h ms (simp f at e))
]

is_some-none : {A : Type 0} (o : Option A) → is_some o ≡ false → o ≡ none
is_some-none none e = refl
is_some-none (some x) e = absurd (cc)

insert_or_skip-owners :
    (item : MediaItem) (d after : Db)
    → owners item.sha256 d.media ≤ 1
    → insert_or_skip item d ≡ ok after
    → owners item.sha256 after.media ≡ 1
unfolding owners
insert_or_skip-owners item d after one =
    elim (Bool-cases (is_some (find_sha item.sha256 d.media))) [
      | inl e ↦ simp e (λ k.
          let kept : d ≡ after = ground (arith, k) in
          let there = owners-some item.sha256 d.media e in
          subst (λ (y : Db). owners item.sha256 y.media ≡ 1) kept (omega arith))
      | inr e ↦ elim (Bool-cases (is_some (find_media item.id d.media))) [
        | inl f ↦ simp (e, f) (λ k. absurd (cc))
        | inr f ↦
            simp (e, f)
              (λ k.
                let grown : record d { media = inserted d item ∷ d.media } ≡ after =
                  ground (arith, k) in
                let nowhere =
                  owners-none item.sha256 d.media (is_some-none (find_sha item.sha256 d.media) e) in
                subst (λ (y : Db). owners item.sha256 y.media ≡ 1) grown
                  (rw (str_eq_refl item.sha256, nowhere) refl))
      ]
    ]

settle-OneOwner :
    (id token : String) (item : MediaItem) (now : ℕ) (before : Db) (r : Result Db)
    → ((after : Db) → r ≡ ok after → owners item.sha256 after.media ≡ 1)
    → OneOwner item.sha256 (settle_insert id token item now before r)
settle-OneOwner id token item now before (err e) h = tt
settle-OneOwner id token item now before (ok after) h = found (find_sha item.sha256 after.media)
  where
    found : (o : Option MediaItem) → OneOwner item.sha256 (settle id token item now before after o)
    found none = tt
    found (some m) = h after refl

publish_media-OneOwner :
    (id token : String) (item : MediaItem) (now : ℕ) (db : Db)
    → owners item.sha256 db.media ≤ 1
    → OneOwner item.sha256 (publish_media id token item now db)
unfolding publish_media
publish_media-OneOwner id token item now db one =
    elim (Bool-cases (affected (fence_row id token) db.jobs == 0)) [
      | inl e ↦ simp e tt
      | inr e ↦ simp e (
          settle-OneOwner id token item now db (insert_or_skip item (fenced id token now db))
            (λ after k. insert_or_skip-owners item (fenced id token now db) after one k))
    ]

abbrev pub Owned : MediaItem → Db → Db × Result (String × Bool) → Type 0
Owned item db r = Answers item db r × OneOwner item.sha256 r

-- Where at most one media row has the hash of the content, a publication that succeeds leaves exactly one
-- with that hash, and answers with its id; it reports a duplicate exactly if that is not the new
-- item's, and then that row was there before.
pub publish_media-Owned :
    (id token : String) (item : MediaItem) (now : ℕ) (db : Db)
    → owners item.sha256 db.media ≤ 1
    → Owned item db (publish_media id token item now db)
publish_media-Owned id token item now db one =
    (publish_media-Answers id token item now db, publish_media-OneOwner id token item now db one)
