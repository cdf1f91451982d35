-- ===== src/Http/StorageCleanup/Passes.antt =====
-- What a recovery pass does with the stage of one media item.
use event_gallery.Base.{
  ◌≡◌, ◌⊎◌, inl, inr, Bool, true, false, Bool-cases, ◌&&◌, none, some, String, List, str_eq_refl,
}
use event_gallery.Store.Media.{MediaItem, Db, find_media, get_by_id}
use event_gallery.Media.Staging.{Place, Answer, finished, Manifest, Slots}
use event_gallery.Media.Purge.{
  restore, finalize, manifest_of, is_valid_manifest, load_stage, load_manifest, sweep_empty, stage,
  no_stage, problem, is_empty_dir,
}
use event_gallery.Media.Purge.Shapes.{Marked, Bare, Tag}
use event_gallery.Http.StorageCleanup.{resolve_loaded}

-- The removal of an empty stage directory moves no file.
pub sweep_empty-Bare :
    (t : Tag) (orig : Slots) (p : Place) → Bare t orig p → Bare t orig (sweep_empty p)
unfolding sweep_empty Bare
sweep_empty-Bare t orig p h = elim (Bool-cases (p.has_dir && is_empty_dir p)) [
  | inl e ↦ simp e h
  | inr e ↦ simp e h
]

load_manifest-unmarked :
    (is_base : String → Bool) (p : Place)
    → (load_manifest is_base p none ≡ no_stage) ⊎ (load_manifest is_base p none ≡ problem)
unfolding load_manifest
load_manifest-unmarked is_base p = elim (Bool-cases (is_empty_dir p)) [
  | inl e ↦ inl (simp e)
  | inr e ↦ inr (simp e)
]

-- Without a manifest there is no stage, and with one the stage is that of the manifest or a problem.
module _ (is_base : String → Bool) (opens : Bool) (p : Place) where
  pub load_stage-Bare :
      (t : Tag) (orig : Slots)
      → Bare t orig p
      → (load_stage is_base opens p ≡ no_stage) ⊎ (load_stage is_base opens p ≡ problem)
  unfolding load_stage Bare
  load_stage-Bare t orig (slots, e) = elim (Bool-cases p.has_dir) [
    | inr f ↦ inl (simp f)
    | inl f ↦ elim (Bool-cases opens) [
      | inr g ↦ inr (simp (f, g))
      | inl g ↦ simp (f, g, e) (load_manifest-unmarked is_base p)
    ]
  ]

  pub load_stage-Marked :
      (m : Manifest)
      → Marked m p
      → (load_stage is_base opens p ≡ stage m) ⊎ (load_stage is_base opens p ≡ problem)
  unfolding load_stage Marked load_manifest
  load_stage-Marked m (e, f, g) = elim (Bool-cases opens) [
    | inr q ↦ inr (simp (g, q))
    | inl q ↦ elim (Bool-cases (is_valid_manifest is_base m)) [
      | inl v ↦ inl (simp (g, q, e, v))
      | inr v ↦ inr (simp (g, q, e, v))
    ]
  ]

pub load_stage-valid :
    (is_base : String → Bool) (p : Place) (m : Manifest)
    → is_valid_manifest is_base m ≡ true
    → Marked m p
    → load_stage is_base true p ≡ stage m
unfolding load_stage Marked load_manifest
load_stage-valid is_base p m v (e, f, g) = simp (g, e, v)

module _ (readable : String → Bool) (db : Db) (m : MediaItem) where
  -- The row, or its absence, decides what becomes of the stage.
  pub resolve-row :
      (p : Place) (ws : List Answer)
      → readable m.id ≡ true
      → find_media m.id db.media ≡ some m
      → resolve_loaded readable db (stage (manifest_of m)) p ws ≡ restore p ws
  unfolding manifest_of get_by_id
  resolve-row p ws r at = let same = str_eq_refl m.stored_filename in simp (r, at, same)

  pub resolve-gone :
      (p : Place) (ws : List Answer)
      → readable m.id ≡ true
      → find_media m.id db.media ≡ none
      → resolve_loaded readable db (stage (manifest_of m)) p ws ≡ finalize p ws
  unfolding manifest_of get_by_id
  resolve-gone p ws r at = simp (r, at)

  pub resolve-unread :
      (p : Place) (ws : List Answer)
      → readable m.id ≡ false
      → resolve_loaded readable db (stage (manifest_of m)) p ws ≡ (finished, p, ws)
  unfolding manifest_of
  resolve-unread p ws r = simp r
