-- ===== src/Media/Purge.antt =====
-- backend/internal/media/purge.go: the stage of a purge, from `StageForPurge` to `Restore` or
-- `Finalize`, and `LoadPurgeStages` on one stage directory.
pub mod Shapes
pub mod Changes
pub mod Closing
pub mod Three
pub mod Restoring
pub mod Finalizing
pub mod Staged
pub mod Calms
use event_gallery.Base.{
  Bool, true, false, not, ◌&&◌, ◌||◌, Option, none, some, String, List, [], ◌∷◌, is_some, str_eq,
  ◌==◌, if◌then◌else◌,
}
use event_gallery.Store.Media.{MediaItem}
use event_gallery.Media.Staging.{
  Artifact, original, thumbnail, preview, Slots, put, Manifest, Place, Answer, works, fails,
  crashes, Outcome, finished, failed, crashed, Ran, Op, stops, call, change, change_if, ask, quiet,
  in_order, or_clean,
}

-- `filepath.Base(s) == s` for a text that is not empty; `is_base` is the comparison.
abbrev pub is_name : (String → Bool) → String → Bool
is_name is_base s = not (str_eq s "") && is_base s

abbrev pub moved_to : Artifact → Place → Option String → Place
moved_to a p none = p
moved_to a p (some c) = record p { live = put a none p.live; staged = put a (some c) p.staged }

abbrev pub moved_out : Artifact → Place → Place
moved_out a p = moved_to a p (p.live a)

-- `moveIfExists` of a live file to the stage: a file that is not there is passed over.
unfoldable pub move_if_exists : Artifact → Op
move_if_exists a = in_order (change (moved_out a) ∷ quiet ∷ quiet ∷ [])

abbrev pub moved_back : Artifact → Place → Place
moved_back a p = record p { live = put a (p.staged a) p.live; staged = put a none p.staged }

abbrev restore_over : Artifact → Bool → Op
restore_over a true = stops failed
restore_over a false = change (moved_back a)

abbrev restore_found : Artifact → Bool → Op
restore_found a false = stops finished
restore_found a true = ask (λ p. is_some (p.live a)) (restore_over a)

-- `restoreIfExists`, which refuses to overwrite a live file.
unfoldable pub restore_if_exists : Artifact → Op
restore_if_exists a = ask (λ p. is_some (p.staged a)) (restore_found a)

abbrev pub without_manifest : Place → Place
without_manifest p = record p { manifest = none }

-- os.Remove of a directory fails unless it is empty.
abbrev pub is_empty_dir : Place → Bool
is_empty_dir p =
    not (is_some (p.staged original))
    && not (is_some (p.staged thumbnail))
    && not (is_some (p.staged preview))
    && not (is_some p.manifest)
    && not p.has_temporary

abbrev pub without_dir : Place → Place
without_dir p = record p { has_dir = false }

unfoldable pub remove_manifest_and_dir : Op
remove_manifest_and_dir =
    in_order (change without_manifest ∷ quiet ∷ change_if is_empty_dir without_dir ∷ quiet ∷ [])

unfoldable pub restore : Op
restore = in_order (
    restore_if_exists original
    ∷ restore_if_exists thumbnail
    ∷ restore_if_exists preview
    ∷ quiet
    ∷ quiet
    ∷ quiet
    ∷ remove_manifest_and_dir
    ∷ [])

abbrev pub erased : Artifact → Place → Place
erased a p = record p { staged = put a none p.staged }

unfoldable pub finalize : Op
finalize = in_order (
    change (erased original)
    ∷ change (erased thumbnail)
    ∷ change (erased preview)
    ∷ quiet
    ∷ remove_manifest_and_dir
    ∷ [])

-- The temporary file is created, written, synced, closed and renamed.
unfoldable pub write_purge_manifest : Manifest → Op
write_purge_manifest m = in_order (
    change (λ p. record p { has_temporary = true })
    ∷ quiet
    ∷ quiet
    ∷ quiet
    ∷ change (λ p. record p { has_temporary = false; manifest = some m })
    ∷ quiet
    ∷ [])

-- os.RemoveAll of a stage directory that holds no artifact yet.
unfoldable pub remove_all : Op
remove_all =
    change
      λ p. record p { manifest = none; has_temporary = false; staged = λ a. none; has_dir = false }

unfoldable pub manifest_of : MediaItem → Manifest
manifest_of item = record {
  version = 1;
  media_id = item.id;
  stored_filename = item.stored_filename;
}

-- The calls after the identity is checked: the directories, the manifest, the files and a last sync.
unfoldable pub stage_files : Manifest → Op
stage_files m = in_order (
    quiet
    ∷ change (λ p. record p { has_dir = true })
    ∷ or_clean (in_order (write_purge_manifest m ∷ quiet ∷ [])) remove_all
    ∷ or_clean
        (in_order (
          move_if_exists original ∷ move_if_exists thumbnail ∷ move_if_exists preview ∷ quiet ∷ []))
        restore
    ∷ [])

unfoldable pub stage_for_purge : (String → Bool) → MediaItem → Op
stage_for_purge is_base item =
    if is_name is_base item.id && is_name is_base item.stored_filename
    then stage_files (manifest_of item)
    else stops failed

-- What `LoadPurgeStages` makes of one entry.
pub data Loaded : Type 0 where
  no_stage problem : Loaded
  stage : Manifest → Loaded

unfoldable pub is_valid_manifest : (String → Bool) → Manifest → Bool
is_valid_manifest is_base m =
    m.version == 1 && is_name is_base m.media_id && is_name is_base m.stored_filename

unfoldable pub load_manifest : (String → Bool) → Place → Option Manifest → Loaded
load_manifest is_base p none = if is_empty_dir p then no_stage else problem
load_manifest is_base p (some m) = if is_valid_manifest is_base m then stage m else problem

-- A directory that cannot be read is a problem, and one that is not there is no entry.
unfoldable pub load_stage : (String → Bool) → Bool → Place → Loaded
load_stage is_base readable p =
    if not p.has_dir
    then no_stage
    else if readable
    then load_manifest is_base p p.manifest
    else problem

-- An empty stage directory, which a crash left, is removed by the way.
unfoldable pub sweep_empty : Place → Place
sweep_empty p = if p.has_dir && is_empty_dir p then without_dir p else p
