-- ===== src/Ingest/Protocol.antt =====
-- The life of upload jobs under every interleaving: each action is one committed statement of
-- backend/internal/store with the arguments that its callers in backend/internal/ingest and
-- backend/internal/httpapi pass. Workers act on the jobs that `ClaimNextJob` returned to them, however
-- late; a restart leaves such jobs in the hands of workers that no longer run.
pub mod Invariant
pub mod Statements
pub mod Workers
pub mod Publication
pub mod Claims
pub mod Runs
use event_gallery.Base.{
  ℕ, Bool, true, false, Option, none, some, String, List, [], ◌∷◌, str_eq, if◌then◌else◌,
}
use event_gallery.Store.Job.{
  JobStatus, pending, processing, cleanup, complete, discarding, discarded, status_eq, Row,
  UploadJob,
}
use event_gallery.Store.Sql.{Table, find_row}
use event_gallery.Store.Queue.{
  create_uploading_job, promote_to_pending, claim_next_job, release_for_retry,
  claim_uploading_for_discard, request_cancellation, claim_cancelled_for_discard, finish_job,
  requeue_startup,
}
use event_gallery.Store.Finish.{
  record_artifact_identity, record_prepared, mark_unobservable, delete_upload_job, reopen_terminal,
  delete_terminal_jobs_before,
}
use event_gallery.Store.Media.{Db, MediaItem, publish_media}

-- The table `stages` of `claimAndRunOnce`.
pub data Stage : Type 0 where
  cleaning discard_run fresh_run reclaimed_run : Stage

unfoldable pub stage_from : Stage → JobStatus
stage_from cleaning = cleanup
stage_from discard_run = discarding
stage_from fresh_run = pending
stage_from reclaimed_run = processing

unfoldable pub stage_to : Stage → JobStatus
stage_to cleaning = cleanup
stage_to discard_run = discarding
stage_to fresh_run = processing
stage_to reclaimed_run = processing

-- The two reasons of `clientRejection`.
pub data Rejection : Type 0 where
  unsupported_type checksum_mismatch : Rejection

unfoldable pub rejection_reason : Rejection → String
rejection_reason unsupported_type = "unsupported_type"
rejection_reason checksum_mismatch = "checksum_mismatch"

pub data Action : Type 0 where
  admits : UploadJob → ℕ → Action
  promotes : String → ℕ → Action
  claims : Stage → String → ℕ → ℕ → Action
  cancels : String → ℕ → Action
  expires_partial : String → ℕ → Action
  sweeps : ℕ → ℕ → Action
  loses_sight : String → ℕ → Action
  restarts : ℕ → Action
  identifies : String → String → String → String → ℕ → Action
  prepares : String → ℕ → Action
  retries : String → ℕ → String → ℕ → Action
  rejects : String → Rejection → ℕ → Action
  publishes : String → MediaItem → ℕ → Action
  finishes : String → ℕ → Action
  reopens : String → ℕ → Action
  readopts : String → Action
  forgets : ℕ → ℕ → Action

pub record System : Type 0 where
  pub db : Db
  pub handed : List UploadJob

abbrev pub issued : String → List UploadJob → Bool
issued token [] = false
issued token (c ∷ cs) =
    let rest = issued token cs in if str_eq c.lease_token token then true else rest

-- The job that a worker with this token was handed.
abbrev pub find_handed : String → List UploadJob → Option UploadJob
find_handed token [] = none
find_handed token (c ∷ cs) =
    let rest = find_handed token cs in if str_eq c.lease_token token then some c else rest

abbrev pub with_jobs : System → Table → System
with_jobs s t = record s { db = record (s.db) { jobs = t } }

abbrev pub hand_out : System → Table → Option UploadJob → System
hand_out s t none = with_jobs s t
hand_out s t (some job) = record s { db = record (s.db) { jobs = t }; handed = job ∷ s.handed }

-- `runWorker` takes a job; a token that was issued before is never drawn again.
unfoldable pub claim : Stage → String → ℕ → ℕ → System → System
claim stage token now lease_for s =
    let (t, job) =
      claim_next_job (stage_from stage) (stage_to stage) token now lease_for s.db.jobs in
    if issued token s.handed then s else hand_out s t job

-- `runProcessing` goes back to pending and `retryCleanup` stays in the job's own stage.
unfoldable pub retry_job : UploadJob → ℕ → String → ℕ → Table → Table
retry_job job next cause now t =
    if status_eq job.status processing
    then (release_for_retry job.upload_id job.lease_token pending next "processing_failures" cause
        now t).0
    else (release_for_retry job.upload_id job.lease_token job.status next "cleanup_failures" cause
        now t).0

unfoldable pub identify_job : UploadJob → String → String → String → ℕ → Table → Table
identify_job job stored_filename mime_type sha256 now t =
    let (t', e) =
      record_artifact_identity job.upload_id job.lease_token stored_filename mime_type sha256 now
        t in
    t'

unfoldable pub reject_job : UploadJob → Rejection → ℕ → Table → Table
reject_job job why now t =
    if status_eq job.status processing
    then (finish_job job.upload_id job.lease_token discarding (rejection_reason why) now t).0
    else t

-- `finishBySourceRemoval` of `runCleanup` and of `runDiscard`.
unfoldable pub finish_stage : UploadJob → ℕ → Table → Table
finish_stage job now t =
    if status_eq job.status cleanup
    then (finish_job job.upload_id job.lease_token complete "" now t).0
    else if status_eq job.status discarding
    then (finish_job job.upload_id job.lease_token discarded job.terminal_reason now t).0
    else t

unfoldable pub publish_job : UploadJob → MediaItem → ℕ → Db → Db
publish_job job item now db =
    if status_eq job.status processing
    then (publish_media job.upload_id job.lease_token item now db).0
    else db

-- The reconciler's choices for a row that it has just read.
unfoldable pub reopen_row : Option Row → String → ℕ → Table → Table
reopen_row none id now t = t
reopen_row (some r) id now t =
    if status_eq r.status complete
    then (reopen_terminal id cleanup now t).0
    else if status_eq r.status discarded
    then (reopen_terminal id discarding now t).0
    else t

unfoldable pub readopt_row : Option Row → String → Table → Table
readopt_row none id t = t
readopt_row (some r) id t =
    if status_eq r.status discarded
    then if str_eq r.terminal_reason "unobservable" then delete_upload_job id t else t
    else t

abbrev by_worker : String → (UploadJob → Table → Table) → System → System
by_worker token act s = elim (find_handed token s.handed) [
  | none ↦ s
  | some job ↦ with_jobs s (act job s.db.jobs)
]

unfoldable pub perform : Action → System → System
unfolding claim
perform (admits j now) s = with_jobs s (create_uploading_job j now s.db.jobs).0
perform (promotes id now) s = with_jobs s (promote_to_pending id now s.db.jobs).0
perform (claims stage token now lease_for) s = claim stage token now lease_for s
perform (cancels id now) s = with_jobs s (request_cancellation id now s.db.jobs).0
perform (expires_partial id now) s = with_jobs s (claim_uploading_for_discard id now s.db.jobs).0
perform (sweeps idle_before now) s =
    with_jobs s (claim_cancelled_for_discard idle_before now s.db.jobs).0
perform (loses_sight id now) s = with_jobs s (mark_unobservable id now s.db.jobs).0
perform (restarts now) s = with_jobs s (requeue_startup now s.db.jobs).0
perform (identifies token stored_filename mime_type sha256 now) s =
    by_worker token (λ job. identify_job job stored_filename mime_type sha256 now) s
perform (prepares token now) s =
    by_worker token (λ job t. (record_prepared job.upload_id job.lease_token now t).0) s
perform (retries token next cause now) s = by_worker token (λ job. retry_job job next cause now) s
perform (rejects token why now) s = by_worker token (λ job. reject_job job why now) s
perform (publishes token item now) s = elim (find_handed token s.handed) [
  | none ↦ s
  | some job ↦ record s { db = publish_job job item now s.db }
]
perform (finishes token now) s = by_worker token (λ job. finish_stage job now) s
perform (reopens id now) s = with_jobs s (reopen_row (find_row id s.db.jobs) id now s.db.jobs)
perform (readopts id) s = with_jobs s (readopt_row (find_row id s.db.jobs) id s.db.jobs)
perform (forgets cutoff limit) s = with_jobs s (delete_terminal_jobs_before cutoff limit s.db.jobs)

unfoldable pub run : System → List Action → System
run s [] = s
run s (a ∷ acts) = run (perform a s) acts

-- An empty database.
unfoldable pub start : System
start = record { db = record { jobs = []; media = []; config = []; audit = [] }; handed = [] }
