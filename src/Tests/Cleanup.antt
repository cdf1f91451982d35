-- ===== src/Tests/Cleanup.antt =====
-- A permanent deletion that ends half way, and its recovery.
use event_gallery.Base.{◌≡◌, refl, inl, Bool, true, false, none, some, String, List, [], ◌∷◌}
use event_gallery.Store.Media.{MediaItem, MediaStatus, Db, find_media, is_trashed, get_by_id}
use event_gallery.Store.Purge.{
  purge_trashed, purge_loop, purge_one, is_purgeable, is_awaited, any_media, delete_media,
}
use event_gallery.Media.Staging.{
  original, thumbnail, preview, Slots, put, Answer, works, fails, crashes, call, in_order, or_clean,
}
use event_gallery.Media.Purge.{
  manifest_of, is_valid_manifest, stage_for_purge, stage_files, write_purge_manifest,
  move_if_exists, restore, restore_if_exists, remove_manifest_and_dir, load_stage, load_manifest,
}
use event_gallery.Media.Purge.Shapes.{Bare, home}
use event_gallery.Http.StorageCleanup.{
  Volume, purge_media, gather, purge_items, purge_staged, stage_items, run_each, reconcile_stage,
  reconcile_purge_stages,
}
use event_gallery.Http.StorageCleanup.Rows.{Only}
use event_gallery.Http.StorageCleanup.Loops.{Listed}
use event_gallery.Http.StorageCleanup.Settled.{Pass, Settled, after_recovery, purge_media-Settled}
use event_gallery.Tests.Protocol.{photo}

abbrev old_photo : MediaItem
old_photo = record photo { status = MediaStatus.trashed }

abbrev trash : Db
trash = record { jobs = []; media = old_photo ∷ []; config = []; audit = [] }

abbrev photo_files : Slots
photo_files original = some "picture"
photo_files thumbnail = some "small picture"
photo_files preview = none

abbrev disk : Volume
disk k = record {
  live = photo_files;
  staged = λ a. none;
  has_dir = false;
  has_temporary = false;
  manifest = none;
}

abbrev any_name : String → Bool
any_name s = true

-- The process ends after the original has moved to the stage.
abbrev ends_half_way : List Answer
ends_half_way =
    works ∷ works ∷ works ∷ works ∷ works ∷ works ∷ works ∷ works ∷ works ∷ works ∷ crashes ∷ []

-- A pass that cannot read the stage, and one whose first calls work.
abbrev faulty_passes : List Pass
faulty_passes =
    (any_name, (("m1", false) ∷ []), [])
    ∷ (any_name, (("m1", true) ∷ []), (works ∷ fails ∷ []))
    ∷ []

Only-row : Only "m1" old_photo trash.media
unfolding Only
Only-row = ((λ e. refl), tt)

accepted : is_valid_manifest any_name (manifest_of old_photo) ≡ true
unfolding is_valid_manifest manifest_of
accepted = refl

all_live : Bare home photo_files (disk "m1")
unfolding Bare
all_live = ((λ a. (refl, refl)), refl)

listed : Listed "m1" (("m1", true) ∷ [])
unfolding Listed
listed = inl (refl, refl)

purge_media-Settled_example :
    Settled "m1" old_photo photo_files
      (purge_media any_name any_name true true "admin" ("m1" ∷ []) trash disk ends_half_way).db
      (after_recovery any_name
        (purge_media any_name any_name true true "admin" ("m1" ∷ []) trash disk ends_half_way)
        faulty_passes
        any_name
        (("m1", true) ∷ [])
        "m1")
purge_media-Settled_example =
    purge_media-Settled any_name any_name true true "admin" ("m1" ∷ []) trash disk ends_half_way
      old_photo photo_files faulty_passes any_name (("m1", true) ∷ []) refl Only-row accepted
      all_live refl listed

original_staged :
    ((purge_media any_name any_name true true "admin" ("m1" ∷ []) trash disk ends_half_way).run.1
        "m1").staged
      original
    ≡ some "picture"
unfolding purge_media gather get_by_id is_trashed purge_items purge_staged stage_items
    stage_for_purge stage_files write_purge_manifest move_if_exists call in_order or_clean put
    run_each manifest_of
original_staged = refl

original_back :
    (after_recovery any_name
        (purge_media any_name any_name true true "admin" ("m1" ∷ []) trash disk ends_half_way)
        []
        any_name
        (("m1", true) ∷ [])
        "m1").live
      original
    ≡ some "picture"
unfolding purge_media gather get_by_id is_trashed purge_items purge_staged stage_items
    stage_for_purge stage_files write_purge_manifest move_if_exists call in_order or_clean put
    run_each manifest_of reconcile_purge_stages reconcile_stage load_stage load_manifest
    is_valid_manifest restore restore_if_exists remove_manifest_and_dir
original_back = refl

photo_deleted :
    find_media "m1"
      (purge_media any_name any_name true true "admin" ("m1" ∷ []) trash disk []).db.media
    ≡ none
unfolding purge_media gather get_by_id is_trashed purge_items purge_staged stage_items
    stage_for_purge stage_files write_purge_manifest move_if_exists call in_order or_clean put
    run_each manifest_of purge_trashed purge_loop purge_one is_purgeable is_awaited any_media
    delete_media
photo_deleted = refl
