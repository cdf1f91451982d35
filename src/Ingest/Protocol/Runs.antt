-- ===== src/Ingest/Protocol/Runs.antt =====
-- Every action, and so every run, keeps the invariant.
use event_gallery.Base.{
  ℕ, ◌≡◌, refl, Option, none, some, String, List, [], ◌∷◌, str_eq, Bool-cases, Option-cases, inl,
  inr, ◌==◌,
}
use event_gallery.Store.Job.{
  JobStatus, processing, cleanup, complete, discarding, discarded, status_eq, Row, UploadJob,
  Result, ok, err,
}
use event_gallery.Store.Sql.{Table, affected}
use event_gallery.Store.Queue.{
  release_for_retry, finish_job, promote_to_pending, claim_uploading_for_discard,
  request_cancellation, claim_cancelled_for_discard, requeue_startup,
}
use event_gallery.Store.Finish.{
  mark_unobservable, delete_upload_job, reopen_terminal, delete_terminal_jobs_before,
  record_artifact_identity, record_prepared,
}
use event_gallery.Store.Media.{
  Db, MediaItem, publish_media, settle, settle_insert, fenced, fence_row, find_sha,
}
use event_gallery.Store.Keys.{
  Distinct, Distinct-update_where, Distinct-delete_where, Distinct-create,
}
use event_gallery.Ingest.Protocol.Statements.{
  Rows, create_uploading_job-Rows, promote_to_pending-Rows, claim_uploading_for_discard-Rows,
  request_cancellation-Rows, claim_cancelled_for_discard-Rows, mark_unobservable-Rows,
  requeue_startup-Rows, delete_terminal_jobs_before-Rows, reopen_row-Rows, readopt_row-Rows,
}
use event_gallery.Ingest.Protocol.Workers.{
  identify_job-Rows, record_prepared-Rows, retry_job-Rows, reject_job-Rows, finish_stage-Rows,
}
use event_gallery.Ingest.Protocol.Publication.{publish_job-Rows, insert_or_skip-jobs}
use event_gallery.Ingest.Protocol.Claims.{SystemOk, claim-SystemOk}
use event_gallery.Ingest.Protocol.{
  Action, admits, promotes, claims, cancels, expires_partial, sweeps, loses_sight, restarts,
  identifies, prepares, retries, rejects, publishes, finishes, reopens, readopts, forgets, System,
  find_handed, retry_job, identify_job, reject_job, finish_stage, publish_job, reopen_row,
  Rejection, rejection_reason, readopt_row, perform, run, start, by_worker,
}

-- An action of a worker that keeps the rows keeps the system.
worker_step :
    (token : String) (act : UploadJob → Table → Table) (s : System)
    → ((job : UploadJob)
        → find_handed token s.handed ≡ some job
        → Rows s.handed (act job s.db.jobs))
    → ((job : UploadJob) (t : Table) → Distinct t → Distinct (act job t))
    → SystemOk s
    → SystemOk (by_worker token act s)
worker_step token act s rows keys h = elim (Option-cases (find_handed token s.handed)) [
  | inl e ↦ rw (e, by_worker) h
  | inr (job, e) ↦
      rw (e, by_worker) (record { rows = rows job e; keys = keys job s.db.jobs h.keys })
]

module _ (job : UploadJob) (t : Table) (d : Distinct t) where
  identify_job-Distinct :
      (stored_filename mime_type sha256 : String) (now : ℕ)
      → Distinct (identify_job job stored_filename mime_type sha256 now t)
  unfolding identify_job record_artifact_identity
  identify_job-Distinct stored_filename mime_type sha256 now =
      Distinct-update_where _ _ t (λ r. refl) d

  record_prepared-Distinct :
      (now : ℕ) → Distinct (record_prepared job.upload_id job.lease_token now t).0
  unfolding record_prepared
  record_prepared-Distinct now = Distinct-update_where _ _ t (λ r. refl) d

  retry_job-Distinct :
      (next : ℕ) (cause : String) (now : ℕ) → Distinct (retry_job job next cause now t)
  unfolding retry_job release_for_retry
  retry_job-Distinct next cause now = elim (Bool-cases (status_eq job.status processing)) [
    | inl e ↦ rw e (Distinct-update_where _ _ t (λ r. refl) d)
    | inr e ↦ rw e (Distinct-update_where _ _ t (λ r. refl) d)
  ]

  finish_job-Distinct :
      (status : JobStatus) (reason : String) (now : ℕ)
      → Distinct (finish_job job.upload_id job.lease_token status reason now t).0
  unfolding finish_job
  finish_job-Distinct status reason now = Distinct-update_where _ _ t (λ r. refl) d

  reject_job-Distinct : (why : Rejection) (now : ℕ) → Distinct (reject_job job why now t)
  unfolding reject_job
  reject_job-Distinct why now = elim (Bool-cases (status_eq job.status processing)) [
    | inl e ↦ rw e (finish_job-Distinct discarding (rejection_reason why) now)
    | inr e ↦ rw e d
  ]

  finish_stage-Distinct : (now : ℕ) → Distinct (finish_stage job now t)
  unfolding finish_stage
  finish_stage-Distinct now = elim (Bool-cases (status_eq job.status cleanup)) [
    | inl e ↦ rw e (finish_job-Distinct complete "" now)
    | inr e ↦ elim (Bool-cases (status_eq job.status discarding)) [
      | inl f ↦ rw (e, f) (finish_job-Distinct discarded job.terminal_reason now)
      | inr f ↦ rw (e, f) d
    ]
  ]

settle-Distinct :
    (id token : String) (item : MediaItem) (now : ℕ) (before db : Db) (o : Option MediaItem)
    → Distinct before.jobs
    → Distinct db.jobs
    → Distinct (settle id token item now before db o).0.jobs
settle-Distinct id token item now before db none b d = b
settle-Distinct id token item now before db (some m) b d =
    Distinct-update_where _ _ db.jobs (λ r. refl) d

settle_insert-Distinct :
    (id token : String) (item : MediaItem) (now : ℕ) (before : Db) (o : Result Db)
    → Distinct before.jobs
    → ((db : Db) → o ≡ ok db → Distinct db.jobs)
    → Distinct (settle_insert id token item now before o).0.jobs
settle_insert-Distinct id token item now before (err e) b d = b
settle_insert-Distinct id token item now before (ok db) b d =
    settle-Distinct id token item now before db (find_sha item.sha256 db.media) b (d db refl)

publish_media-Distinct :
    (id token : String) (item : MediaItem) (now : ℕ) (db : Db)
    → Distinct db.jobs
    → Distinct (publish_media id token item now db).0.jobs
unfolding publish_media
publish_media-Distinct id token item now db d =
    elim (Bool-cases (affected (fence_row id token) db.jobs == 0)) [
      | inl z ↦ rw z d
      | inr z ↦ rw z (
          settle_insert-Distinct id token item now db _ d λ stored s.
            rw (insert_or_skip-jobs item (fenced id token now db) stored s)
              (Distinct-update_where _ _ db.jobs (λ r. refl) d))
    ]

publish_job-Distinct :
    (job : UploadJob) (item : MediaItem) (now : ℕ) (db : Db)
    → Distinct db.jobs
    → Distinct (publish_job job item now db).jobs
unfolding publish_job
publish_job-Distinct job item now db d = elim (Bool-cases (status_eq job.status processing)) [
  | inl e ↦ rw e (publish_media-Distinct job.upload_id job.lease_token item now db d)
  | inr e ↦ rw e d
]

reopen_row-Distinct :
    (o : Option Row) (id : String) (now : ℕ) (t : Table)
    → Distinct t
    → Distinct (reopen_row o id now t)
unfolding reopen_row reopen_terminal
reopen_row-Distinct none id now t d = d
reopen_row-Distinct (some r) id now t d = elim (Bool-cases (status_eq r.status complete)) [
  | inl e ↦ rw e (Distinct-update_where _ _ t (λ x. refl) d)
  | inr e ↦ elim (Bool-cases (status_eq r.status discarded)) [
    | inl f ↦ rw (e, f) (Distinct-update_where _ _ t (λ x. refl) d)
    | inr f ↦ rw (e, f) d
  ]
]

readopt_row-Distinct :
    (o : Option Row) (id : String) (t : Table) → Distinct t → Distinct (readopt_row o id t)
unfolding readopt_row delete_upload_job
readopt_row-Distinct none id t d = d
readopt_row-Distinct (some r) id t d = elim (Bool-cases (status_eq r.status discarded)) [
  | inl e ↦ elim (Bool-cases (str_eq r.terminal_reason "unobservable")) [
    | inl f ↦ rw (e, f) (Distinct-delete_where _ t d)
    | inr f ↦ rw (e, f) d
  ]
  | inr e ↦ rw e d
]

-- Every action of the protocol keeps the invariant.
pub perform-SystemOk : (a : Action) (s : System) → SystemOk s → SystemOk (perform a s)
unfolding perform
perform-SystemOk (admits j now) s h = record {
  rows = create_uploading_job-Rows s.handed j now s.db.jobs h.rows;
  keys = Distinct-create j now s.db.jobs h.keys;
}
perform-SystemOk (promotes id now) s h = record {
  rows = promote_to_pending-Rows s.handed id now s.db.jobs h.rows;
  keys = unfold promote_to_pending in Distinct-update_where _ _ s.db.jobs (λ r. refl) h.keys;
}
perform-SystemOk (claims stage token now lease_for) s h =
    claim-SystemOk stage token now lease_for s h
perform-SystemOk (cancels id now) s h = record {
  rows = request_cancellation-Rows s.handed id now s.db.jobs h.rows;
  keys = unfold request_cancellation in Distinct-update_where _ _ s.db.jobs (λ r. refl) h.keys;
}
perform-SystemOk (expires_partial id now) s h = record {
  rows = claim_uploading_for_discard-Rows s.handed id now s.db.jobs h.rows;
  keys =
      unfold claim_uploading_for_discard in Distinct-update_where _ _ s.db.jobs (λ r. refl) h.keys;
}
perform-SystemOk (sweeps idle_before now) s h = record {
  rows = claim_cancelled_for_discard-Rows s.handed idle_before now s.db.jobs h.rows;
  keys =
      unfold claim_cancelled_for_discard in Distinct-update_where _ _ s.db.jobs (λ r. refl) h.keys;
}
perform-SystemOk (loses_sight id now) s h = record {
  rows = mark_unobservable-Rows s.handed id now s.db.jobs h.rows;
  keys = unfold mark_unobservable in Distinct-update_where _ _ s.db.jobs (λ r. refl) h.keys;
}
perform-SystemOk (restarts now) s h = record {
  rows = requeue_startup-Rows s.handed now s.db.jobs h.rows;
  keys = unfold requeue_startup in Distinct-update_where _ _ s.db.jobs (λ r. refl) h.keys;
}
perform-SystemOk (identifies token stored_filename mime_type sha256 now) s h =
    worker_step token _ s
      (λ job e.
        identify_job-Rows s.handed token job e stored_filename mime_type sha256 now s.db.jobs
          h.rows)
      (λ job t d. identify_job-Distinct job t d stored_filename mime_type sha256 now) h
perform-SystemOk (prepares token now) s h =
    worker_step token _ s (λ job e. record_prepared-Rows s.handed token job e now s.db.jobs h.rows)
      (λ job t d. record_prepared-Distinct job t d now) h
perform-SystemOk (retries token next cause now) s h =
    worker_step token _ s
      (λ job e. retry_job-Rows s.handed token job e next cause now s.db.jobs h.rows)
      (λ job t d. retry_job-Distinct job t d next cause now) h
perform-SystemOk (rejects token why now) s h =
    worker_step token _ s (λ job e. reject_job-Rows s.handed token job e why now s.db.jobs h.rows)
      (λ job t d. reject_job-Distinct job t d why now) h
perform-SystemOk (publishes token item now) s h = elim (Option-cases (find_handed token s.handed)) [
  | inl e ↦ rw (e, perform) h
  | inr (job, e) ↦
      rw (e, perform)
        (record {
          rows = publish_job-Rows s.handed token job e item now s.db h.rows;
          keys = publish_job-Distinct job item now s.db h.keys;
        })
]
perform-SystemOk (finishes token now) s h =
    worker_step token _ s (λ job e. finish_stage-Rows s.handed token job e now s.db.jobs h.rows)
      (λ job t d. finish_stage-Distinct job t d now) h
perform-SystemOk (reopens id now) s h = record {
  rows = reopen_row-Rows s.handed _ id now s.db.jobs refl h.keys h.rows;
  keys = reopen_row-Distinct _ id now s.db.jobs h.keys;
}
perform-SystemOk (readopts id) s h = record {
  rows = readopt_row-Rows s.handed _ id s.db.jobs h.rows;
  keys = readopt_row-Distinct _ id s.db.jobs h.keys;
}
perform-SystemOk (forgets cutoff limit) s h = record {
  rows = delete_terminal_jobs_before-Rows s.handed cutoff limit s.db.jobs h.rows;
  keys = unfold delete_terminal_jobs_before in Distinct-delete_where _ s.db.jobs h.keys;
}

run-SystemOk : (s : System) (acts : List Action) → SystemOk s → SystemOk (run s acts)
unfolding run
run-SystemOk s [] h = h
run-SystemOk s (a ∷ acts) h = run-SystemOk (perform a s) acts (perform-SystemOk a s h)

-- From an empty database, under every sequence of admissions, promotions, claims, cancellations,
-- janitor and reconciler passes, restarts and writes of workers holding old or current leases: the
-- upload ids of the rows are distinct, and every row has paired lease columns, a lease token only in
-- a worked stage and always in processing, the stage that each worker holding its token was handed,
-- a source completion time and no cancellation from pending to complete, a result media id from
-- cleanup on, a terminal time exactly when terminal, a reason when discarded, and a positive size.
pub run-start-SystemOk : (acts : List Action) → SystemOk (run start acts)
unfolding start
run-start-SystemOk acts = run-SystemOk start acts (record { rows = tt; keys = tt })
