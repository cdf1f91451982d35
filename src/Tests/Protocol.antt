-- ===== src/Tests/Protocol.antt =====
-- Runs of the upload protocol.
use event_gallery.Base.{◌≡◌, refl, true, false, none, some, List, [], ◌∷◌}
use event_gallery.Store.Job.{
  uploading, pending, processing, complete, status_eq, is_terminal, UploadJob, scan_upload_job,
}
use event_gallery.Store.Sql.{find_row, update_where, affected, require_one_row}
use event_gallery.Store.Queue.{
  create_uploading_job, promote_to_pending, claim_next_job, earliest, finish_job,
  request_cancellation, release_for_retry,
}
use event_gallery.Store.Claim.{ClaimOutcome, claim_next_job-ClaimOutcome}
use event_gallery.Store.Media.{MediaItem, MediaKind, MediaStatus, publish_media, auto_approved}
use event_gallery.Ingest.Protocol.{
  Action, admits, promotes, claims, cancels, retries, publishes, finishes, fresh_run, cleaning,
  reclaimed_run, perform, run, start, claim, stage_from, stage_to, retry_job, publish_job,
  finish_stage,
}
use event_gallery.Ingest.Protocol.Claims.{SystemOk}
use event_gallery.Ingest.Protocol.Runs.{run-start-SystemOk}

abbrev pub photo_job : UploadJob
photo_job = record {
  upload_id = "u1";
  media_id = "m1";
  status = uploading;
  original_filename = "a.jpg";
  stored_filename = "";
  mime_type = "";
  expected_size = 10;
  declared_sha256 = "";
  authoritative_sha256 = "";
  guest_name = "Ana";
  uploader_ip = "10.0.0.1";
  source_completed_at = none;
  prepared_at = none;
  cancellation_requested_at = none;
  result_media_id = "";
  terminal_reason = "";
  lease_token = "";
  lease_until = none;
  next_attempt_at = 0;
  processing_failures = 0;
  conversion_failures = 0;
  cleanup_failures = 0;
  last_error = "";
  created_at = 0;
  updated_at = 0;
  terminal_at = none;
}

abbrev pub photo : MediaItem
photo = record {
  id = "m1";
  original_filename = "a.jpg";
  stored_filename = "m1.jpg";
  kind = MediaKind.image;
  mime_type = "image/jpeg";
  size_bytes = 10;
  sha256 = "aa";
  width = some 4;
  height = some 3;
  duration_ms = none;
  has_thumbnail = true;
  has_preview = false;
  captured_at = none;
  uploaded_at = "2026-01-01T00:00:00Z";
  approved_at = none;
  uploader_name = "Ana";
  uploader_ip = "10.0.0.1";
  status = MediaStatus.active;
  deleted_at = none;
}

abbrev whole_life : List Action
whole_life =
    admits photo_job 100
    ∷ promotes "u1" 110
    ∷ claims fresh_run "t1" 120 50
    ∷ claims reclaimed_run "t2" 180 50
    ∷ retries "t1" 300 "late" 190
    ∷ publishes "t2" photo 200
    ∷ cancels "u1" 205
    ∷ claims cleaning "t3" 310 50
    ∷ finishes "t3" 320
    ∷ []

-- The late retry of the first worker and the late cancellation change nothing.
whole_life_completes :
    elim (find_row "u1" (run start whole_life).db.jobs) [ none ↦ uploading | some r ↦ r.status ]
    ≡ complete
unfolding run start perform claim claim_next_job create_uploading_job promote_to_pending finish_job
    request_cancellation release_for_retry publish_media auto_approved find_row update_where
    affected require_one_row earliest stage_from stage_to retry_job publish_job finish_stage
    status_eq is_terminal scan_upload_job
whole_life_completes = refl

run-start-SystemOk_example : SystemOk (run start whole_life)
run-start-SystemOk_example = run-start-SystemOk whole_life

claim_next_job-ClaimOutcome_example :
    let (t', job) =
      claim_next_job pending processing "t1" 120 50
        (run start (admits photo_job 100 ∷ promotes "u1" 110 ∷ [])).db.jobs in
    ClaimOutcome pending processing "t1" 120 50
      (run start (admits photo_job 100 ∷ promotes "u1" 110 ∷ [])).db.jobs
      t'
      job
claim_next_job-ClaimOutcome_example =
    claim_next_job-ClaimOutcome pending processing "t1" 120 50
      (run start (admits photo_job 100 ∷ promotes "u1" 110 ∷ [])).db.jobs
      (run-start-SystemOk (admits photo_job 100 ∷ promotes "u1" 110 ∷ [])).keys
