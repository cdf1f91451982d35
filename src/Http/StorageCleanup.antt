-- ===== src/Http/StorageCleanup.antt =====
-- backend/internal/httpapi/storage_cleanup.go: `purgeMedia`, which deletes trashed media for good, and
-- `reconcilePurgeStages`, which ends what a crash interrupted. A volume gives the files of each media
-- id; the order of the stages, which Go leaves open, is that of the items.
pub mod Rows
pub mod Gathered
pub mod Items
pub mod Stages
pub mod Recovery
pub mod Passes
pub mod Loops
pub mod Visits
pub mod Settled
use event_gallery.Base.{
  ℕ, Bool, true, false, not, ◌&&◌, ◌||◌, Option, none, some, String, List, [], ◌∷◌, str_eq,
  if◌then◌else◌,
}
use event_gallery.Store.Job.{Result, ok, err, StoreError, no_rows}
use event_gallery.Store.Finish.{among}
use event_gallery.Store.Media.{MediaItem, is_trashed, Db, get_by_id}
use event_gallery.Store.Purge.{purge_trashed}
use event_gallery.Media.Staging.{
  Manifest, Place, Answer, Outcome, finished, failed, crashed, Ran, Op, stops,
}
use event_gallery.Media.Purge.{
  stage_for_purge, restore, finalize, Loaded, no_stage, problem, stage, load_stage, sweep_empty,
}

abbrev pub Volume : Type 0
Volume = String → Place

abbrev pub set_place : String → Place → Volume → Volume
set_place k p v j = if str_eq k j then p else v j

-- The trashed items of the ids, each once; a missing row is passed over. None is an error: a row that
-- cannot be read, or one that is not trashed.
abbrev pub gather_row : (Option (List MediaItem)) → Result MediaItem → Option (List MediaItem)
gather_row none r = none
gather_row (some items) (err no_rows) = some items
gather_row (some items) (err _) = none
gather_row (some items) (ok item) = if is_trashed item.status then some (item ∷ items) else none

unfoldable pub gather : (String → Bool) → Db → List String → List String → Option (List MediaItem)
gather readable db seen [] = some []
gather readable db seen (id ∷ ids) =
    let again = gather readable db seen ids in
    let rest = gather readable db (id ∷ seen) ids in
    if among seen id then again else if readable id then gather_row rest (get_by_id id db) else none

-- The items staged so far, with the volume.
abbrev pub StageRun : Type 0
StageRun = Outcome × List MediaItem × Volume × List Answer

abbrev pub also_staged : MediaItem → StageRun → StageRun
also_staged i (o, staged, v, ws) = (o, i ∷ staged, v, ws)

abbrev pub after_stage : (Volume → List Answer → StageRun) → MediaItem → Volume → Ran → StageRun
after_stage rest i v (finished, p, ws) = also_staged i (rest (set_place i.id p v) ws)
after_stage rest i v (failed, p, ws) = (failed, [], set_place i.id p v, ws)
after_stage rest i v (crashed, p, ws) = (crashed, [], set_place i.id p v, ws)

unfoldable pub stage_items : (String → Bool) → List MediaItem → Volume → List Answer → StageRun
stage_items is_base [] v ws = (finished, [], v, ws)
stage_items is_base (i ∷ items) v ws =
    after_stage (λ u us. stage_items is_base items u us) i v (stage_for_purge is_base i (v i.id) ws)

-- An operation on the stage of every item; errors are logged, and only the end of the process stops it.
abbrev pub VolumeRun : Type 0
VolumeRun = Outcome × Volume × List Answer

abbrev pub after_each : (Volume → List Answer → VolumeRun) → String → Volume → Ran → VolumeRun
after_each rest k v (crashed, p, ws) = (crashed, set_place k p v, ws)
after_each rest k v (_, p, ws) = rest (set_place k p v) ws

unfoldable pub run_each : (MediaItem → Op) → List MediaItem → Volume → List Answer → VolumeRun
run_each op [] v ws = (finished, v, ws)
run_each op (i ∷ items) v ws = after_each (λ u us. run_each op items u us) i.id v (op i (v i.id) ws)

abbrev pub put_back : MediaItem → Op
put_back i = restore

-- A stage whose row went is finalized, and any other restored.
abbrev pub close_stage : List String → MediaItem → Op
close_stage changed i = if among changed i.id then finalize else restore

-- An error is returned, unless the process ended before.
abbrev pub refuse : VolumeRun → VolumeRun
refuse (crashed, v, ws) = (crashed, v, ws)
refuse (_, v, ws) = (failed, v, ws)

-- What is returned and left: the outcome and the volume, the database, and the ids that changed.
pub record Purged : Type 0 where
  pub run : VolumeRun
  pub db : Db
  pub changed : List String

-- The end of the stages after the rows went.
abbrev pub after_commit : List MediaItem → Volume → List Answer → Db × List String → Purged
after_commit staged v ws (db, changed) = record {
  run = run_each (close_stage changed) staged v ws;
  db = db;
  changed = changed;
}

-- `PurgeTrashed` between the staging and its end; `commits` is false when it returns an error.
unfoldable pub purge_staged : Bool → String → List MediaItem → Db → StageRun → Purged
purge_staged commits actor items db (crashed, staged, v, ws) = record {
  run = (crashed, v, ws);
  db = db;
  changed = [];
}
purge_staged commits actor items db (failed, staged, v, ws) = record {
  run = refuse (run_each put_back staged v ws);
  db = db;
  changed = [];
}
purge_staged commits actor items db (finished, staged, v, ws) =
    if commits
    then after_commit staged v ws (purge_trashed true actor items db)
    else record { run = refuse (run_each put_back staged v ws); db = db; changed = [] }

unfoldable pub purge_items :
    (String → Bool)
    → Bool
    → Bool
    → String
    → Option (List MediaItem)
    → Db
    → Volume
    → List Answer
    → Purged
purge_items is_base healthy commits actor none db v ws = record {
  run = (failed, v, ws);
  db = db;
  changed = [];
}
purge_items is_base healthy commits actor (some items) db v ws =
    if healthy
    then purge_staged commits actor items db (stage_items is_base items v ws)
    else record { run = (failed, v, ws); db = db; changed = [] }

unfoldable pub purge_media :
    (String → Bool)
    → (String → Bool)
    → Bool
    → Bool
    → String
    → List String
    → Db
    → Volume
    → List Answer
    → Purged
purge_media is_base readable healthy commits actor ids db v ws =
    purge_items is_base healthy commits actor (gather readable db [] ids) db v ws

-- The stored name of a row must be that of the manifest.
abbrev pub resolve_stage : Manifest → Result MediaItem → Op
resolve_stage m (ok item) =
    if str_eq item.stored_filename m.stored_filename then restore else stops finished
resolve_stage m (err no_rows) = finalize
resolve_stage m (err _) = stops finished

abbrev pub resolve_loaded : (String → Bool) → Db → Loaded → Op
resolve_loaded readable db no_stage p ws = stops finished (sweep_empty p) ws
resolve_loaded readable db problem p ws = stops finished p ws
resolve_loaded readable db (stage m) p ws =
    if readable m.media_id
    then resolve_stage m (get_by_id m.media_id db) p ws
    else stops finished p ws

unfoldable pub reconcile_stage : (String → Bool) → (String → Bool) → Db → Bool → Op
reconcile_stage is_base readable db opens p ws =
    resolve_loaded readable db (load_stage is_base opens p) p ws

-- One entry after another, each under the id it belongs to, with whether its directory can be read.
unfoldable pub reconcile_purge_stages :
    (String → Bool) → (String → Bool) → Db → List (String × Bool) → Volume → List Answer → VolumeRun
reconcile_purge_stages is_base readable db [] v ws = (finished, v, ws)
reconcile_purge_stages is_base readable db ((k, opens) ∷ entries) v ws =
    after_each (λ u us. reconcile_purge_stages is_base readable db entries u us) k v
      (reconcile_stage is_base readable db opens (v k) ws)
