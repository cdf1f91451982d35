-- ===== src/Ingest/Reconcile/Pass.antt =====
-- backend/internal/ingest/recover.go and manager.go: one pass of the reconciler over the upload directory,
-- `reconcileOnce`, with `sweepCancelled` and `resolveRowsWithoutFiles`. Its statements and visits run one after
-- another; what others commit between them is the subject of Ingest.Protocol.
pub mod Coverage
pub mod Closures
use event_gallery.Base.{
  ℕ, ◌-◌, Bool, true, false, not, ◌&&◌, ◌||◌, Option, none, some, String, List, [], ◌∷◌,
  if◌then◌else◌, str_eq,
}
use event_gallery.Store.Sql.{Table}
use event_gallery.Store.Queue.{claim_cancelled_for_discard, list_stale_uploading}
use event_gallery.Store.Finish.{mark_unobservable, among}
use event_gallery.Ingest.Durability.{Stat, missing, unreadable, found}
use event_gallery.Ingest.UploadId.{safe_upload_id}
use event_gallery.Ingest.Reconcile.{Tools, Look, Witnesses, Visit, reconcile_one, forget_unseen}

-- `os.DirEntry`: its name, and IsDir.
pub record DirEntry : Type 0 where
  pub name : String
  pub is_dir : Bool

-- What one pass gets: ReadDir, the clock, which is read once here, os.Stat of the two paths of an upload,
-- whether a statement works, whether the process goes on at an entry, and what a visit sees.
-- `without_suffix` is strings.TrimSuffix(name, ".info").
pub record Pass : Type 0 where
  pub entries : Option (List DirEntry)
  pub now : ℕ
  pub reconcile_interval : ℕ
  pub sweep_works : Bool
  pub list_works : Bool
  pub data_stat : String → Stat
  pub info_stat : String → Stat
  pub mark_works : String → Bool
  pub goes_on : String → Bool
  pub look_at : String → Look
  pub without_suffix : String → String

unfoldable pub sweep_cancelled : Pass → Table → Table
sweep_cancelled p t =
    if p.sweep_works
    then (claim_cancelled_for_discard (p.now - p.reconcile_interval) p.now t).0
    else t

-- os.Stat without an error.
abbrev pub stat_works : Stat → Bool
stat_works missing = false
stat_works unreadable = false
stat_works (found regular size) = true

-- `UploadPathsExist`: a stat that fails, for whatever reason, counts as absence.
unfoldable pub upload_paths_exist : Pass → String → Bool
upload_paths_exist p id = stat_works (p.data_stat id) || stat_works (p.info_stat id)

unfoldable pub resolve_row : Pass → String → Table → Table
resolve_row p id t =
    if upload_paths_exist p id || not (p.mark_works id) then t else (mark_unobservable id p.now t).0

unfoldable pub resolve_rows : Pass → List String → Table → Table
resolve_rows p [] t = t
resolve_rows p (id ∷ ids) t = resolve_rows p ids (resolve_row p id t)

abbrev pub max_stale_uploads_per_pass : ℕ
max_stale_uploads_per_pass = 200

unfoldable pub resolve_rows_without_files : Pass → Table → Table
resolve_rows_without_files p t =
    if p.list_works
    then resolve_rows p
        (list_stale_uploading (p.now - p.reconcile_interval) max_stale_uploads_per_pass t) t
    else t

-- The database, the witnesses, and the set `seen`.
pub record Progress : Type 0 where
  pub table : Table
  pub witnesses : Witnesses
  pub seen : List String

abbrev pub visited : String → List String → Visit → Progress
visited id seen v = record { table = v.table; witnesses = v.witnesses; seen = id ∷ seen }

-- One entry of the directory.
unfoldable pub enter_entry : Tools → Pass → DirEntry → Progress → Progress
enter_entry tools p e x =
    let id = p.without_suffix e.name in
    if e.is_dir || not (safe_upload_id id) || among x.seen id
    then x
    else visited id x.seen (reconcile_one tools (p.look_at id) id x.witnesses x.table)

-- Whether the walk came to its end.
unfoldable pub walk_entries : Tools → Pass → List DirEntry → Progress → Progress × Bool
walk_entries tools p [] x = (x, true)
walk_entries tools p (e ∷ es) x =
    if p.goes_on e.name then walk_entries tools p es (enter_entry tools p e x) else (x, false)

-- Witnesses are dropped only by a pass that came to its end.
abbrev pub after_walk : Progress × Bool → Progress × Bool
after_walk (x, false) = (x, false)
after_walk (x, true) = (record x { witnesses = forget_unseen (among x.seen) x.witnesses }, true)

abbrev pub over_entries :
    Tools → Pass → Option (List DirEntry) → Witnesses → Table → Progress × Bool
over_entries tools p none w t = (record { table = t; witnesses = w; seen = [] }, false)
over_entries tools p (some es) w t = after_walk (
    walk_entries tools p es (record {
      table = resolve_rows_without_files p (sweep_cancelled p t);
      witnesses = w;
      seen = [];
    }))

unfoldable pub reconcile_once : Tools → Pass → Witnesses → Table → Progress × Bool
reconcile_once tools p w t = over_entries tools p p.entries w t
