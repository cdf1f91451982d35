-- ===== src/Http/StorageCleanup/Recovery.antt =====
-- A purge that may stop anywhere, the passes that recover from it, and what they leave of one media
-- item: its row with all its files, or neither.
use mathlib.Core.Path.{subst}
use event_gallery.Base.{
  ◌≡◌, ◌⊎◌, inl, inr, refl, sym, Bool, true, false, Bool-cases, Option, none, some, String, List,
  [],
}
use event_gallery.Store.Finish.{among}
use event_gallery.Store.Media.{MediaItem, Db, find_media}
use event_gallery.Store.Purge.{purge_trashed}
use event_gallery.Media.Staging.{Place, Answer, finished, failed, crashed, Slots}
use event_gallery.Media.Staging.Triples.{Triple, Triple-mono}
use event_gallery.Media.Purge.{restore, finalize, manifest_of}
use event_gallery.Media.Purge.Shapes.{
  Held, Going, home, gone, either, lost, spent, Bare, Shape, all_at, Under, Shape-Under,
}
use event_gallery.Media.Purge.Restoring.{restore-Triple}
use event_gallery.Media.Purge.Finalizing.{finalize-Triple}
use event_gallery.Http.StorageCleanup.{
  Volume, StageRun, stage_items, VolumeRun, run_each, put_back, close_stage, refuse, after_commit,
  purge_staged, purge_items, gather, purge_media,
}
use event_gallery.Http.StorageCleanup.Rows.{
  Only, Absent, Once, Stands, Went, purge_loop-Absent, purge_loop-Once,
}
use event_gallery.Http.StorageCleanup.Gathered.{Gathered, gather-Gathered}
use event_gallery.Http.StorageCleanup.Items.{run_each-Absent, run_each-Once}
use event_gallery.Http.StorageCleanup.Stages.{
  Missed, Staged, stage_items-Missed, stage_items-Staged,
}

-- The row stands and every file is in one of its two places, or the row is gone and the files are
-- going.
unfoldable pub Recoverable : String → MediaItem → Slots → Db → Volume → Type 0
Recoverable k m orig db v =
    ((find_media k db.media ≡ some m) × Held orig (manifest_of m) (v k))
    ⊎ ((find_media k db.media ≡ none) × Going orig (manifest_of m) (v k))

module _ (k : String) (m : MediaItem) (orig : Slots) where
  abbrev Live : Place → Type 0
  Live = Bare home orig

  abbrev Gone : Place → Type 0
  Gone = Shape (all_at gone) orig (manifest_of m)

  abbrev Safe : Place → Type 0
  Safe = Held orig (manifest_of m)

  abbrev Over : Place → Type 0
  Over = Going orig (manifest_of m)

  Gone-Safe : (p : Place) → Gone p → Safe p
  unfolding Held Under
  Gone-Safe p h =
      inr (Shape-Under either (all_at gone) orig (manifest_of m) p (λ b o l s q. inr q) h)

  Gone-Over : (p : Place) → Gone p → Over p
  unfolding Going Under
  Gone-Over p h =
      inr (Shape-Under lost (all_at gone) orig (manifest_of m) p (λ b o l s q. (q.0, inr q.1)) h)

  Live-Safe : (p : Place) → Live p → Safe p
  unfolding Held
  Live-Safe p h = inl h

  restores : Triple Gone Safe Safe restore
  unfolding Under
  restores p ws h =
      Triple-mono (Shape (all_at either) orig (manifest_of m)) Live Safe Safe Safe restore Live-Safe
        (λ q c. c) (restore-Triple orig (manifest_of m)) p ws
        (Shape-Under either (all_at gone) orig (manifest_of m) p (λ b o l s q. inr q) h)

  finalizes : Triple Gone Over Over finalize
  unfolding Under Going
  finalizes p ws h =
      Triple-mono (Shape (all_at lost) orig (manifest_of m)) (Bare spent orig) Over Over Over
        finalize (λ q c. inl c) (λ q c. c) (finalize-Triple orig (manifest_of m)) p ws
        (Shape-Under lost (all_at gone) orig (manifest_of m) p (λ b o l s q. (q.0, inr q.1)) h)

  refuse-place : (r : VolumeRun) → (refuse r).1 ≡ r.1
  refuse-place (finished, v, ws) = refl
  refuse-place (failed, v, ws) = refl
  refuse-place (crashed, v, ws) = refl

  -- Putting the stages back leaves the files safe.
  put_back-Safe :
      (staged : List MediaItem) (v : Volume) (ws : List Answer)
      → (Gone (v k) × Once k m staged) ⊎ (Safe (v k) × Absent k staged)
      → Safe ((refuse (run_each put_back staged v ws)).1 k)
  put_back-Safe staged v ws (inl (h, once)) =
      subst (λ u. Safe (u k)) (sym (refuse-place (run_each put_back staged v ws)))
        (run_each-Once k m Gone Safe put_back staged v ws once restores Gone-Safe h)
  put_back-Safe staged v ws (inr (h, absent)) =
      subst (λ u. Safe (u k)) (sym (refuse-place (run_each put_back staged v ws)))
        (subst Safe (sym (run_each-Absent k put_back staged v ws absent)) h)

  closes-Kept :
      (changed : List String)
      → among changed m.id ≡ false
      → Triple Gone Safe Safe (close_stage changed m)
  closes-Kept changed e p ws h = simp e (restores p ws h)

  closes-Gone :
      (changed : List String)
      → among changed m.id ≡ true
      → Triple Gone Over Over (close_stage changed m)
  closes-Gone changed e p ws h = simp e (finalizes p ws h)

  purged-row :
      (db : Db) (actor : String) (items : List MediaItem)
      → find_media k db.media ≡ some m
      → Only k m db.media
      → Once k m items
      → Stands k m (purge_trashed true actor items db) ⊎ Went k (purge_trashed true actor items db)
  unfolding purge_trashed Stands
  purged-row db actor items at only once =
      purge_loop-Once actor k m items (db, []) once (at, only, refl)

  unpurged-row :
      (db : Db) (actor : String) (items : List MediaItem)
      → find_media k db.media ≡ some m
      → Only k m db.media
      → Absent k items
      → Stands k m (purge_trashed true actor items db)
  unfolding purge_trashed Stands
  unpurged-row db actor items at only absent =
      purge_loop-Absent actor k m items (db, []) absent (at, only, refl)

  module _ (key : k ≡ m.id) where
    after_commit-Recoverable :
        (staged : List MediaItem) (v : Volume) (ws : List Answer) (s : Db × List String)
        → Gone (v k)
        → Once k m staged
        → Stands k m s ⊎ Went k s
        → Recoverable k m orig (after_commit staged v ws s).db (after_commit staged v ws s).run.1
    unfolding Recoverable Stands Went
    after_commit-Recoverable staged v ws (after, changed) h once (inl (row, one, out)) =
        let still = closes-Kept changed (subst (λ j. among changed j ≡ false) key out) in
        inl (
          row,
          run_each-Once k m Gone Safe (close_stage changed) staged v ws once still Gone-Safe h,
        )
    after_commit-Recoverable staged v ws (after, changed) h once (inr (none_left, within)) =
        let over = closes-Gone changed (subst (λ j. among changed j ≡ true) key within) in
        inr (
          none_left,
          run_each-Once k m Gone Over (close_stage changed) staged v ws once over Gone-Over h,
        )

    Absent-after :
        (staged : List MediaItem) (v : Volume) (ws : List Answer) (s : Db × List String)
        → Safe (v k)
        → Absent k staged
        → Stands k m s
        → Recoverable k m orig (after_commit staged v ws s).db (after_commit staged v ws s).run.1
    unfolding Recoverable Stands
    Absent-after staged v ws (after, changed) h absent (row, one, out) =
        inl (row, subst Safe (sym (run_each-Absent k (close_stage changed) staged v ws absent)) h)

    module _ (db : Db) (at : find_media k db.media ≡ some m) (only : Only k m db.media)
        (commits : Bool) (actor : String) where
      purge_staged-Once :
          (items : List MediaItem) (s : StageRun)
          → Once k m items
          → Staged k m orig s
          → Recoverable k m orig
              (purge_staged commits actor items db s).db
              (purge_staged commits actor items db s).run.1
      unfolding purge_staged Staged Recoverable
      purge_staged-Once items (crashed, staged, v, ws) once (inl (h, o)) =
          inl (at, Gone-Safe (v k) h)
      purge_staged-Once items (crashed, staged, v, ws) once (inr (h, o)) = inl (at, h)
      purge_staged-Once items (failed, staged, v, ws) once h = inl (at, put_back-Safe staged v ws h)
      purge_staged-Once items (finished, staged, v, ws) once (h, o) = elim (Bool-cases commits) [
        | inl e ↦ simp e (
            after_commit-Recoverable staged v ws (purge_trashed true actor items db) h o
              (purged-row db actor items at only once))
        | inr e ↦ simp e (inl (at, put_back-Safe staged v ws (inl (h, o))))
      ]

      purge_staged-Absent :
          (items : List MediaItem) (v : Volume) (s : StageRun)
          → Absent k items
          → Missed k v s
          → Live (v k)
          → Recoverable k m orig
              (purge_staged commits actor items db s).db
              (purge_staged commits actor items db s).run.1
      unfolding purge_staged Recoverable Missed Stands
      purge_staged-Absent items v (crashed, staged, u, ws) out (same, absent) h =
          inl (at, subst Safe (sym same) (Live-Safe (v k) h))
      purge_staged-Absent items v (failed, staged, u, ws) out (same, absent) h =
          inl (
            at,
            put_back-Safe staged u ws (inr (subst Safe (sym same) (Live-Safe (v k) h), absent)),
          )
      purge_staged-Absent items v (finished, staged, u, ws) out (same, absent) h =
          let safe = subst Safe (sym same) (Live-Safe (v k) h) in
          elim (Bool-cases commits) [
            | inl e ↦ simp e (
                Absent-after staged u ws (purge_trashed true actor items db) safe absent
                  (unpurged-row db actor items at only out))
            | inr e ↦ simp e (inl (at, put_back-Safe staged u ws (inr (safe, absent))))
          ]

      purge_items-Recoverable :
          (is_base : String → Bool) (healthy : Bool) (o : Option (List MediaItem)) (v : Volume)
          (ws : List Answer)
          → ((items : List MediaItem) → o ≡ some items → Absent k items ⊎ Once k m items)
          → Live (v k)
          → Recoverable k m orig
              (purge_items is_base healthy commits actor o db v ws).db
              (purge_items is_base healthy commits actor o db v ws).run.1
      unfolding purge_items Recoverable
      purge_items-Recoverable is_base healthy none v ws parts h = inl (at, Live-Safe (v k) h)
      purge_items-Recoverable is_base healthy (some items) v ws parts h =
          elim (Bool-cases healthy) [
            | inr e ↦ simp e (inl (at, Live-Safe (v k) h))
            | inl e ↦ elim (parts items refl) [
              | inl absent ↦ simp e (
                  purge_staged-Absent items v (stage_items is_base items v ws) absent
                    (stage_items-Missed k is_base items v ws absent) h)
              | inr once ↦ simp e (
                  purge_staged-Once items (stage_items is_base items v ws) once
                    (stage_items-Staged k m orig is_base items v ws once h))
            ]
          ]

      gathered-parts :
          (readable : String → Bool) (ids : List String) (items : List MediaItem)
          → gather readable db [] ids ≡ some items
          → Absent k items ⊎ Once k m items
      unfolding Gathered
      gathered-parts readable ids items e =
          elim (gather-Gathered k m db at readable ids [] items e) [
            | inl (f, absent) ↦ inl absent
            | inr (f, h) ↦ h
          ]

      pub purge_media-Recoverable :
          (is_base readable : String → Bool) (healthy : Bool) (ids : List String) (v : Volume)
          (ws : List Answer)
          → Live (v k)
          → Recoverable k m orig
              (purge_media is_base readable healthy commits actor ids db v ws).db
              (purge_media is_base readable healthy commits actor ids db v ws).run.1
      unfolding purge_media
      purge_media-Recoverable is_base readable healthy ids v ws h =
          purge_items-Recoverable is_base healthy (gather readable db [] ids) v ws
            (λ items e. gathered-parts readable ids items e) h
