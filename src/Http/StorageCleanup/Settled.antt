-- ===== src/Http/StorageCleanup/Settled.antt =====
-- A purge of media and its recovery: a row with all its files, or neither.
use event_gallery.Base.{◌≡◌, ◌⊎◌, inl, inr, refl, Bool, true, none, some, String, List, [], ◌∷◌}
use event_gallery.Store.Media.{MediaItem, Db, find_media}
use event_gallery.Media.Staging.{Artifact, Place, Answer, Slots}
use event_gallery.Media.Purge.{manifest_of, is_valid_manifest}
use event_gallery.Media.Purge.Shapes.{Held, Going, home, spent, Bare}
use event_gallery.Http.StorageCleanup.{Volume, reconcile_purge_stages}
use event_gallery.Http.StorageCleanup.Loops.{Listed, pass-keeps, pass-settles}
use event_gallery.Http.StorageCleanup.Rows.{Only}
use event_gallery.Http.StorageCleanup.Recovery.{Recoverable, purge_media-Recoverable}
use event_gallery.Http.StorageCleanup.Visits.{
  Bare-visit, row_visit, gone_visit, row-Works, gone-Works,
}
use event_gallery.Http.StorageCleanup.{Purged, purge_media}

-- Passes that meet any entries and any faults, each with what it can read.
abbrev pub Pass : Type 0
Pass = (String → Bool) × List (String × Bool) × List Answer

abbrev pub passes : (String → Bool) → Db → List Pass → Volume → Volume
passes is_base db [] v = v
passes is_base db ((readable, entries, ws) ∷ ps) v =
    passes is_base db ps (reconcile_purge_stages is_base readable db entries v ws).1

-- The row with every file live and none staged, or no row and no file.
unfoldable pub Settled : String → MediaItem → Slots → Db → Place → Type 0
Settled k m orig db p =
    ((find_media k db.media ≡ some m)
      × ((a : Artifact) → (p.live a ≡ orig a) × (p.staged a ≡ none)))
    ⊎ ((find_media k db.media ≡ none) × ((a : Artifact) → (p.live a ≡ none) × (p.staged a ≡ none)))

-- The files of an id after a purge, passes with faults, and a last pass without.
abbrev pub after_recovery :
    (String → Bool) → Purged → List Pass → (String → Bool) → List (String × Bool) → String → Place
after_recovery is_base done ps readable entries k =
    (reconcile_purge_stages is_base readable done.db entries (passes is_base done.db ps done.run.1)
        []).1
      k

module _ (is_base : String → Bool) (m : MediaItem) (orig : Slots) (db : Db)
    (valid : is_valid_manifest is_base (manifest_of m) ≡ true) where
  passes-row :
      (ps : List Pass) (v : Volume)
      → find_media m.id db.media ≡ some m
      → Held orig (manifest_of m) (v m.id)
      → Held orig (manifest_of m) (passes is_base db ps v m.id)
  passes-row [] v at h = h
  passes-row ((readable, entries, ws) ∷ ps) v at h =
      passes-row ps (reconcile_purge_stages is_base readable db entries v ws).1 at (
        pass-keeps is_base readable db m.id m (Held orig (manifest_of m))
          (λ opens. row_visit is_base orig readable db m opens at) entries v ws h)

  passes-gone :
      (ps : List Pass) (v : Volume)
      → find_media m.id db.media ≡ none
      → Going orig (manifest_of m) (v m.id)
      → Going orig (manifest_of m) (passes is_base db ps v m.id)
  passes-gone [] v at h = h
  passes-gone ((readable, entries, ws) ∷ ps) v at h =
      passes-gone ps (reconcile_purge_stages is_base readable db entries v ws).1 at (
        pass-keeps is_base readable db m.id m (Going orig (manifest_of m))
          (λ opens. gone_visit is_base orig readable db m opens at) entries v ws h)

  recover :
      (ps : List Pass) (readable : String → Bool) (entries : List (String × Bool)) (v : Volume)
      → readable m.id ≡ true
      → Listed m.id entries
      → Recoverable m.id m orig db v
      → Settled m.id m orig db
          ((reconcile_purge_stages is_base readable db entries (passes is_base db ps v) []).1 m.id)
  unfolding Recoverable Settled Bare
  recover ps readable entries v r listed (inl (at, h)) = inl (
    at,
    (pass-settles is_base readable db m.id m (Held orig (manifest_of m)) (Bare home orig)
        (λ opens. row_visit is_base orig readable db m opens at)
        (λ opens. Bare-visit is_base orig readable db home opens)
        (row-Works is_base orig readable db m valid r at) entries (passes is_base db ps v) listed
        (passes-row ps v at h)).0,
  )
  recover ps readable entries v r listed (inr (at, h)) = inr (
    at,
    (pass-settles is_base readable db m.id m (Going orig (manifest_of m)) (Bare spent orig)
        (λ opens. gone_visit is_base orig readable db m opens at)
        (λ opens. Bare-visit is_base orig readable db spent opens)
        (gone-Works is_base orig readable db m valid r at) entries (passes is_base db ps v) listed
        (passes-gone ps v at h)).0,
  )

-- A permanent deletion may fail or end with the process at any system call, and so may any number of
-- recovery passes after it. One more pass, in which every call works and the stage of the item is
-- listed, leaves the item whole: its row stands with every file in its live place and none staged, or
-- its row is gone with every file of it. The row was the only one of its id, the id and the stored
-- name are names of a manifest that is accepted, and before the purge the files were live, with
-- nothing staged and no manifest.
pub purge_media-Settled :
    (is_base readable : String → Bool) (healthy commits : Bool) (actor : String) (ids : List String)
    (db : Db) (v : Volume) (ws : List Answer) (m : MediaItem) (orig : Slots) (ps : List Pass)
    (last_readable : String → Bool) (entries : List (String × Bool))
    → find_media m.id db.media ≡ some m
    → Only m.id m db.media
    → is_valid_manifest is_base (manifest_of m) ≡ true
    → Bare home orig (v m.id)
    → last_readable m.id ≡ true
    → Listed m.id entries
    → Settled m.id m orig (purge_media is_base readable healthy commits actor ids db v ws).db (
        after_recovery is_base
          (purge_media is_base readable healthy commits actor ids db v ws)
          ps
          last_readable
          entries
          m.id)
purge_media-Settled is_base readable healthy commits actor ids db v ws m orig ps last entries at
      only valid live r listed =
    let done = purge_media is_base readable healthy commits actor ids db v ws in
    recover is_base m orig done.db valid ps last entries done.run.1 r listed (
      purge_media-Recoverable m.id m orig refl db at only commits actor is_base readable healthy ids
        v ws live)
