-- ===== src/Http/StorageCleanup/Visits.antt =====
-- One visit of a recovery pass, while the row stands and after it is gone.
use event_gallery.Base.{◌≡◌, inl, inr, Bool, true, Bool-cases, none, some, String, []}
use event_gallery.Store.Media.{MediaItem, Db, find_media}
use event_gallery.Media.Staging.{Artifact, Place, Slots}
use event_gallery.Media.Staging.Triples.{Triple, Works, Triple-mono}
use event_gallery.Media.Purge.{restore, finalize, manifest_of, is_valid_manifest, sweep_empty}
use event_gallery.Media.Purge.Shapes.{
  Held, Going, home, either, lost, spent, Marked, Bare, Shape, all_at, Tag,
}
use event_gallery.Media.Purge.Restoring.{restore-Triple, restore-Works}
use event_gallery.Media.Purge.Finalizing.{finalize-Triple, finalize-Works}
use event_gallery.Http.StorageCleanup.{reconcile_stage}
use event_gallery.Http.StorageCleanup.Passes.{
  sweep_empty-Bare, load_stage-Bare, load_stage-Marked, load_stage-valid, resolve-row, resolve-gone,
  resolve-unread,
}

module _ (is_base : String → Bool) (orig : Slots) where
  -- A place without a manifest stays as it is, and a visit to it works.
  pub Bare-visit :
      (readable : String → Bool) (db : Db) (t : Tag) (opens : Bool)
      → Triple (Bare t orig) (Bare t orig) (Bare t orig) (reconcile_stage is_base readable db opens)
  unfolding reconcile_stage
  Bare-visit readable db t opens p ws h = elim (load_stage-Bare is_base opens p t orig h) [
    | inl e ↦ simp e (sweep_empty-Bare t orig p h)
    | inr e ↦ simp e h
  ]

  Bare-Works :
      (readable : String → Bool) (db : Db) (t : Tag)
      → Works (Bare t orig) (Bare t orig) (reconcile_stage is_base readable db true)
  unfolding reconcile_stage
  Bare-Works readable db t p h = elim (load_stage-Bare is_base true p t orig h) [
    | inl e ↦ (sweep_empty p, simp e, sweep_empty-Bare t orig p h)
    | inr e ↦ (p, simp e, h)
  ]

  module _ (readable : String → Bool) (db : Db) (m : MediaItem) where
    abbrev Safe : Place → Type 0
    Safe = Held orig (manifest_of m)

    abbrev Over : Place → Type 0
    Over = Going orig (manifest_of m)

    marked :
        (g : Artifact → Tag) (p : Place) → Shape g orig (manifest_of m) p → Marked (manifest_of m) p
    unfolding Shape
    marked g p h = h.1

    pub row_visit :
        (opens : Bool)
        → find_media m.id db.media ≡ some m
        → Triple Safe Safe Safe (reconcile_stage is_base readable db opens)
    unfolding reconcile_stage Held
    row_visit opens at p ws (inl h) =
        Triple-mono (Bare home orig) (Bare home orig) (Bare home orig) Safe Safe
          (reconcile_stage is_base readable db opens) (λ q c. inl c) (λ q c. inl c)
          (Bare-visit readable db home opens) p ws h
    row_visit opens at p ws (inr h) =
        elim (load_stage-Marked is_base opens p (manifest_of m) (marked (all_at either) p h)) [
          | inr e ↦ simp e (inr h)
          | inl e ↦ elim (Bool-cases (readable m.id)) [
            | inr r ↦ simp (e, resolve-unread readable db m p ws r) (inr h)
            | inl r ↦
                simp (e, resolve-row readable db m p ws r at)
                  (Triple-mono (Shape (all_at either) orig (manifest_of m)) (Bare home orig) Safe
                    Safe Safe restore (λ q c. inl c) (λ q c. c)
                    (restore-Triple orig (manifest_of m)) p ws h)
          ]
        ]

    pub gone_visit :
        (opens : Bool)
        → find_media m.id db.media ≡ none
        → Triple Over Over Over (reconcile_stage is_base readable db opens)
    unfolding reconcile_stage Going
    gone_visit opens at p ws (inl h) =
        Triple-mono (Bare spent orig) (Bare spent orig) (Bare spent orig) Over Over
          (reconcile_stage is_base readable db opens) (λ q c. inl c) (λ q c. inl c)
          (Bare-visit readable db spent opens) p ws h
    gone_visit opens at p ws (inr h) =
        elim (load_stage-Marked is_base opens p (manifest_of m) (marked (all_at lost) p h)) [
          | inr e ↦ simp e (inr h)
          | inl e ↦ elim (Bool-cases (readable m.id)) [
            | inr r ↦ simp (e, resolve-unread readable db m p ws r) (inr h)
            | inl r ↦
                simp (e, resolve-gone readable db m p ws r at)
                  (Triple-mono (Shape (all_at lost) orig (manifest_of m)) (Bare spent orig) Over
                    Over Over finalize (λ q c. inl c) (λ q c. c)
                    (finalize-Triple orig (manifest_of m)) p ws h)
          ]
        ]

    module _ (valid : is_valid_manifest is_base (manifest_of m) ≡ true)
        (r : readable m.id ≡ true) where
      pub row-Works :
          find_media m.id db.media ≡ some m
          → Works Safe (Bare home orig) (reconcile_stage is_base readable db true)
      unfolding reconcile_stage Held
      row-Works at p (inl h) = Bare-Works readable db home p h
      row-Works at p (inr h) =
          let (q, run, done) = restore-Works orig (manifest_of m) p h in
          let loaded =
            load_stage-valid is_base p (manifest_of m) valid (marked (all_at either) p h) in
          (q, simp (loaded, resolve-row readable db m p [] r at) run, done)

      pub gone-Works :
          find_media m.id db.media ≡ none
          → Works Over (Bare spent orig) (reconcile_stage is_base readable db true)
      unfolding reconcile_stage Going
      gone-Works at p (inl h) = Bare-Works readable db spent p h
      gone-Works at p (inr h) =
          let (q, run, done) = finalize-Works orig (manifest_of m) p h in
          let loaded =
            load_stage-valid is_base p (manifest_of m) valid (marked (all_at lost) p h) in
          (q, simp (loaded, resolve-gone readable db m p [] r at) run, done)
