-- ===== src/Tests/Reconcile.antt =====
-- The reconciler at a file without a sidecar, on its second visit.
use event_gallery.Base.{
  length, ◌≢◌, none, arith, ◌≡◌, refl, true, false, some, List, [], ◌∷◌, str_eq,
}
use event_gallery.Store.Sql.{Table, find_row, require_one_row, affected, update_where}
use event_gallery.Store.Job.{scan_upload_job, status_eq}
use event_gallery.Store.Queue.{get_upload_job, create_uploading_job, promote_to_pending}
use event_gallery.Ingest.Durability.{
  Answers, found, missing, unreadable, synced, make_durable, sync_and_promote, sync_then,
  promote_synced,
}
use event_gallery.Http.Reply.{runs, ensure_durable}
use event_gallery.Ingest.Protocol.{run, start, admits}
use event_gallery.Tests.Protocol.{photo_job}
use event_gallery.Ingest.Reconcile.{
  adopt, adopted_job, Seen, parse_missing, Tools, Look, quiet_period, adoption_witnessed,
  trusted_sidecar, reconcile_rowless, reconcile_one, forget_unseen,
}
use event_gallery.Ingest.Reconcile.Pass.{
  sweep_cancelled, resolve_rows_without_files, Pass, reconcile_once, walk_entries,
}
use event_gallery.Ingest.Reconcile.Pass.Coverage.{Covers, reconcile_once-Covers}
use event_gallery.Ingest.Reconcile.Pass.Closures.{Closure, resolve_rows_without_files-Closure}
use event_gallery.Ingest.Reconcile.Warrant.{Warrant, reconcile_one-Warrant}
use event_gallery.Ingest.Reconcile.Witness.{
  Turn, visits, ends_pass, witnesses_after, SeenTwice, reconcile_one-SeenTwice,
}

abbrev tools : Tools
tools = record {
  data_path = λ id. id;
  info_path = λ id. id;
  clean = λ p. p;
  trim = λ t. t;
  lower = λ t. t;
  base = λ t. t;
  truncate = λ t. t;
  incomplete_retention = 1000;
}

abbrev residue : Seen
residue = record { size = 10; mod_time = 50 }

abbrev well : Answers
well = record {
  contained = true;
  row_readable = true;
  stat = found true 10;
  data_synced = true;
  info_synced = synced;
  dir_synced = true;
  during = λ t. t;
  promotion_runs = true;
  after = λ t. t;
  row_readable_again = true;
}

abbrev late_look : Look
late_look = record {
  row_readable = true;
  deletes = true;
  writes = true;
  file = some residue;
  sidecar_present = false;
  sidecar = parse_missing;
  now = 5000;
  media_id = "m1";
  admission = runs true;
  answers = well;
}

abbrev empty : Table
empty = []

abbrev first_visit : List Turn
first_visit = ends_pass (λ id. str_eq id "u1") ∷ visits "u1" late_look empty ∷ []

adopted_row :
    length (reconcile_one tools late_look "u1" (witnesses_after tools first_visit) empty).table ≡ 1
unfolding forget_unseen reconcile_one reconcile_rowless trusted_sidecar adoption_witnessed
    get_upload_job find_row quiet_period adopt create_uploading_job adopted_job ensure_durable
    make_durable scan_upload_job sync_and_promote sync_then promote_synced promote_to_pending
    require_one_row affected status_eq update_where
adopted_row = refl

one_row : (t : Table) → length t ≡ 1 → t ≢ []
one_row [] e = absurd (omega arith)
one_row (r ∷ t) e = λ q. cc

adopts :
    (reconcile_one tools late_look "u1" (witnesses_after tools first_visit) empty).table ≢ empty
adopts =
    one_row (reconcile_one tools late_look "u1" (witnesses_after tools first_visit) empty).table
      adopted_row

no_row : get_upload_job "u1" empty ≡ none
unfolding get_upload_job find_row
no_row = refl

reconcile_one-SeenTwice_example : SeenTwice tools late_look "u1" first_visit
reconcile_one-SeenTwice_example =
    reconcile_one-SeenTwice tools first_visit late_look "u1" empty no_row refl adopts

reconcile_one-Warrant_example :
    Warrant tools late_look "u1"
      (("u1", residue) ∷ [])
      empty
      (reconcile_one tools late_look "u1" (("u1", residue) ∷ []) empty).table
reconcile_one-Warrant_example =
    reconcile_one-Warrant tools late_look "u1" (("u1", residue) ∷ []) empty

abbrev pass : Pass
pass = record {
  entries =
      some (record { name = "u1"; is_dir = false } ∷ record { name = "-u"; is_dir = true } ∷ []);
  now = 5000;
  reconcile_interval = 60;
  sweep_works = true;
  list_works = true;
  data_stat = λ id. found true 10;
  info_stat = λ id. missing;
  mark_works = λ id. true;
  goes_on = λ name. true;
  look_at = λ id. late_look;
  without_suffix = λ name. name;
}

completed : (reconcile_once tools pass [] empty).1 ≡ true
unfolding reconcile_once walk_entries
completed = refl

reconcile_once-Covers_example :
    Covers tools pass []
      (resolve_rows_without_files pass (sweep_cancelled pass empty))
      (record { name = "u1"; is_dir = false } ∷ record { name = "-u"; is_dir = true } ∷ [])
      (reconcile_once tools pass [] empty).0
reconcile_once-Covers_example =
    reconcile_once-Covers tools pass
      (record { name = "u1"; is_dir = false } ∷ record { name = "-u"; is_dir = true } ∷ []) [] empty
      refl completed

-- A create whose client vanished.
abbrev stale : Table
stale = (run start (admits photo_job 100 ∷ [])).db.jobs

abbrev nothing_there : Pass
nothing_there = record pass { data_stat = λ id. missing; info_stat = λ id. unreadable }

resolve_rows_without_files-Closure_example :
    Closure nothing_there "u1"
      (find_row "u1" stale)
      (find_row "u1" (resolve_rows_without_files nothing_there stale))
resolve_rows_without_files-Closure_example =
    resolve_rows_without_files-Closure nothing_there "u1" stale
