-- ===== src/Tests/Stages.antt =====
-- The stages of the workers at concrete inputs.
use event_gallery.Base.{
  ◌≡◌, ◌⊎◌, ◌≤◌, ◌<◌, ◌*◌, ◌^◌, inl, inr, refl, true, false, none, some, String, [], ◌∷◌, min,
  arith, Bool, Bool-cases,
}
use event_gallery.Base.Int.{pos}
use event_gallery.Store.Job.{
  processing, cleanup, complete, UploadJob, status_eq, is_terminal, scan_upload_job,
}
use event_gallery.Store.Sql.{find_row, update_where, affected, require_one_row}
use event_gallery.Store.Queue.{
  get_upload_job, create_uploading_job, promote_to_pending, claim_next_job, earliest,
}
use event_gallery.Http.Proxy.{terminate, may_terminate}
use event_gallery.Store.Media.{
  Db, MediaKind, get_by_id, sample_stored_filenames, publish_media, auto_approved,
}
use event_gallery.Store.Publish.{Owned, owners, publish_media-Owned}
use event_gallery.Ingest.Protocol.{
  admits, promotes, claims, publishes, fresh_run, cleaning, run, start, perform, claim, stage_from,
  stage_to, publish_job,
}
use event_gallery.Ingest.Removal.{
  data_file, info_file, original, sees_one, file_eq, Disk, holds, without, World, check_health,
  any_visible, run_removal,
}
use event_gallery.Ingest.Removal.Absence.{Settled, run_removal-Settled, Gone}
use event_gallery.Ingest.Removal.Files.{may_go, is_owned, holds-without}
use event_gallery.Ingest.Removal.Ownership.{Precise, run_removal-spares}
use event_gallery.Ingest.Removal.Progress.{
  Answering, Terminates, Leased, Closed, without-gone, run_removal-completes,
}
use event_gallery.Ingest.Backoff.{backoff_for, backoff_for-bounds}
use event_gallery.Ingest.Processing.{Attempt, recognised, prepare_and_publish}
use event_gallery.Ingest.Processing.Outcomes.{Justified, prepare_and_publish-Justified}
use event_gallery.Tests.Protocol.{photo_job, photo}

-- A job in cleanup, and a database without media.
abbrev cleaned_job : UploadJob
cleaned_job = record photo_job { status = cleanup; lease_token = "t3" }

abbrev empty_db : Db
empty_db = start.db

-- A DELETE of tusd that removes the sidecar and leaves the data file.
abbrev remove_info : String → Disk → Disk × Bool
remove_info id d = (without (file_eq (info_file id)) d, true)

abbrev calm : World
calm = record {
  sampling = true;
  sees = λ n. true;
  owner_readable = true;
  stats = λ n. true;
  unlinks = λ f. true;
  syncs = λ n. true;
  writes = true;
  terminator = λ id t d. terminate true remove_info id t d;
  next = 500;
  cause = "";
}

abbrev stored : Disk
stored = data_file "u1" ∷ info_file "u1" ∷ original "m1.jpg" ∷ []

abbrev disk : Disk
disk = data_file "u1" ∷ info_file "u1" ∷ data_file "u2" ∷ []

run_removal-Settled_example :
    Settled
      (check_health calm empty_db disk)
      calm
      cleaned_job
      400
      empty_db.jobs
      (run_removal false calm cleaned_job 400 empty_db disk)
run_removal-Settled_example = run_removal-Settled false calm cleaned_job 400 empty_db disk

calm-Precise : Precise calm
unfolding terminate
calm-Precise id t d f not_data not_info h =
    elim (Bool-cases (may_terminate (get_upload_job id t))) [
      | inl e ↦ rw e (holds-without (file_eq (info_file id)) f d not_info h)
      | inr e ↦ rw e h
    ]

calm-Terminates : Terminates calm "u1" empty_db.jobs
unfolding terminate may_terminate get_upload_job find_row start
calm-Terminates d = (refl, ground (arith, without-gone (info_file "u1") d))

calm-Answering : Answering calm
calm-Answering = (refl, refl, (λ n. refl), (λ n. refl), λ f. refl)

calm_healthy : check_health calm empty_db disk ≡ true
unfolding check_health any_visible sample_stored_filenames start
calm_healthy = refl

not_mine : may_go (is_owned (get_by_id "m1" empty_db)) cleaned_job (data_file "u2") ≡ false
unfolding may_go
not_mine = refl

there : holds (data_file "u2") disk ≡ true
unfolding holds file_eq
there = refl

run_removal-spares_example :
    holds (data_file "u2") (run_removal true calm cleaned_job 400 empty_db disk).0 ≡ true
run_removal-spares_example =
    run_removal-spares calm calm-Precise (data_file "u2") cleaned_job true 400 empty_db disk
      not_mine there

-- A published upload in cleanup, under the lease of its worker.
abbrev cleaning_db : Db
cleaning_db =
    (run start (
      admits photo_job 100
      ∷ promotes "u1" 110
      ∷ claims fresh_run "t1" 120 50
      ∷ publishes "t1" photo 200
      ∷ claims cleaning "t3" 310 50
      ∷ [])).db

cleaning_healthy : check_health calm cleaning_db stored ≡ true
unfolding check_health any_visible sample_stored_filenames sees_one holds file_eq start run perform
    claim claim_next_job create_uploading_job promote_to_pending publish_media auto_approved
    find_row update_where affected require_one_row earliest stage_from stage_to publish_job
    status_eq is_terminal scan_upload_job
cleaning_healthy = refl

cleaning-Leased : Leased cleaned_job cleaning_db.jobs
unfolding start run perform claim claim_next_job create_uploading_job promote_to_pending
    publish_media auto_approved find_row update_where affected require_one_row earliest stage_from
    stage_to publish_job status_eq is_terminal scan_upload_job
cleaning-Leased = (_, refl, refl)

may_clean : may_terminate (get_upload_job "u1" cleaning_db.jobs) ≡ true
unfolding may_terminate get_upload_job start run perform claim claim_next_job create_uploading_job
    promote_to_pending publish_media auto_approved find_row update_where affected require_one_row
    earliest stage_from stage_to publish_job status_eq is_terminal scan_upload_job
may_clean = refl

cleaning-Terminates : Terminates calm "u1" cleaning_db.jobs
unfolding terminate
cleaning-Terminates d = rw may_clean (refl, ground (arith, without-gone (info_file "u1") d))

run_removal-completes_example :
    let r = run_removal false calm cleaned_job 400 cleaning_db stored in
    Closed "u1" complete 400 r.1 × Gone "u1" r.0
run_removal-completes_example =
    run_removal-completes false calm cleaned_job complete 400 cleaning_db stored calm-Answering
      cleaning-Terminates cleaning_healthy (inl (refl, refl)) cleaning-Leased

backoff_for-bounds_example :
    (1 ≤ backoff_for 900000000000 (pos 2))
    × (backoff_for 900000000000 (pos 20) ≤ 900000000000)
    × (backoff_for 900000000000 (pos 2) ≤ backoff_for 900000000000 (pos 20))
    × ((30 < 2) ⊎ (backoff_for 900000000000 (pos 2) ≡ min (2 ^ 2 * 1000000000) 900000000000))
backoff_for-bounds_example = backoff_for-bounds 900000000000 2 20 (omega arith) (omega arith)

abbrev attempt : Attempt
attempt = record {
  healthy = true;
  sniffed = recognised "image/jpeg" MediaKind.image;
  allowed = λ mime kind. true;
  hash = some "aa";
  size = some 10;
  extension = λ mime name. ".jpg";
  identity_runs = true;
  copies = true;
  copy_verified = true;
  prepared_runs = true;
  lookup_runs = true;
  verified = λ m. true;
  meanwhile = λ db. db;
  derived = record {
    width = some 4;
    height = some 3;
    duration_ms = none;
    has_thumbnail = true;
    has_preview = false;
    captured_at = none;
  };
  uploaded_at = "2026-01-01T00:00:00Z";
  publish_runs = true;
  audits = true;
  next = 500;
  cause = "";
}

-- A job under the lease of its worker.
abbrev claimed_db : Db
claimed_db =
    (run start (admits photo_job 100 ∷ promotes "u1" 110 ∷ claims fresh_run "t1" 120 50 ∷ [])).db

abbrev claimed_job : UploadJob
claimed_job = record photo_job { status = processing; lease_token = "t1" }

prepare_and_publish-Justified_example :
    Justified attempt claimed_job claimed_db
      (prepare_and_publish attempt claimed_job 130 claimed_db)
prepare_and_publish-Justified_example =
    prepare_and_publish-Justified attempt claimed_job 130 claimed_db

one_at_most : owners photo.sha256 claimed_db.media ≤ 1
unfolding owners start run perform claim claim_next_job create_uploading_job promote_to_pending
    find_row update_where affected require_one_row earliest stage_from stage_to status_eq
    is_terminal scan_upload_job
one_at_most = omega arith

publish_media-Owned_example : Owned photo claimed_db (publish_media "u1" "t1" photo 130 claimed_db)
publish_media-Owned_example = publish_media-Owned "u1" "t1" photo 130 claimed_db one_at_most
