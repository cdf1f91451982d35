-- ===== src/Ingest/Protocol/Workers.antt =====
-- The statements of a worker keep the invariant of the rows: they touch a row only while it carries
-- the worker's token, and then it stands in the stage that the worker was handed.
use event_gallery.Base.{
  ℕ, ◌≡◌, refl, true, false, some, String, List, arith, str_eq, Bool-cases, inl, inr,
}
use event_gallery.Store.Job.{
  JobStatus, pending, processing, cleanup, complete, discarding, discarded, status_eq, is_terminal,
  Row, UploadJob,
}
use event_gallery.Store.Sql.{Table, All-update_where}
use event_gallery.Store.Queue.{owns, released, finished, release_for_retry, finish_job}
use event_gallery.Store.Finish.{record_artifact_identity, record_prepared}
use event_gallery.Ingest.Protocol.Invariant.{
  RowOk, LifeOk, LeaseOk-free, Agrees-handed, is_durable, is_published, is_dropped,
}
use event_gallery.Ingest.Protocol.Statements.{Rows}
use event_gallery.Ingest.Protocol.{
  find_handed, identify_job, retry_job, reject_job, finish_stage, rejection_reason, Rejection,
  unsupported_type, checksum_mismatch,
}

-- Either the row is not the worker's, or it stands where the worker was handed it.
pub owns-status :
    (cs : List UploadJob) (token : String) (job : UploadJob) (r : Row)
    → find_handed token cs ≡ some job
    → RowOk cs r
    → owns job.upload_id job.lease_token r ≡ true
    → job.status ≡ r.status
owns-status cs token job r e h own =
    Agrees-handed token cs r.lease_token r.status h.lease.agrees e (ground arith)

rejection_reason_given : (why : Rejection) → str_eq (rejection_reason why) "" ≡ false
unfolding rejection_reason
rejection_reason_given unsupported_type = refl
rejection_reason_given checksum_mismatch = refl

status_eq→eq : (a b : JobStatus) → status_eq a b ≡ true → a ≡ b
unfolding status_eq
status_eq→eq a b h = ground arith

module _ (r : Row) (now : ℕ) (h : LifeOk r) where
  processing_back :
      status_eq r.status processing ≡ true
      → (status_eq pending processing ≡ false) × LifeOk (record r { status = pending })
  unfolding status_eq is_durable is_published is_dropped is_terminal
  processing_back e = (refl, ground arith)

  processing_rejected :
      (why : Rejection)
      → status_eq r.status processing ≡ true
      → (status_eq discarding processing ≡ false)
        × LifeOk (finished discarding (rejection_reason why) now r)
  unfolding status_eq is_durable is_published is_dropped is_terminal
  processing_rejected why e = (refl, ground (arith, rejection_reason_given why))

  cleanup_completed :
      status_eq r.status cleanup ≡ true
      → (status_eq complete processing ≡ false) × LifeOk (finished complete "" now r)
  unfolding status_eq is_durable is_published is_dropped is_terminal
  cleanup_completed e = (refl, ground arith)

  discard_completed :
      (reason : String)
      → status_eq r.status discarding ≡ true
      → (status_eq discarded processing ≡ false) × LifeOk (finished discarded reason now r)
  unfolding status_eq is_durable is_published is_dropped is_terminal
  discard_completed reason e = (
    refl,
    elim (Bool-cases (str_eq reason "")) [
      | inl b ↦ rw b (ground arith)
      | inr b ↦ rw b (ground arith)
    ],
  )

module _ (cs : List UploadJob) (token : String) (job : UploadJob)
    (handed : find_handed token cs ≡ some job) where
  pub identify_job-Rows :
      (stored_filename mime_type sha256 : String) (now : ℕ) (t : Table)
      → Rows cs t
      → Rows cs (identify_job job stored_filename mime_type sha256 now t)
  unfolding identify_job record_artifact_identity
  identify_job-Rows stored_filename mime_type sha256 now t =
      All-update_where (RowOk cs) _ _ t
        λ r h e. record { lease = h.lease; life = ground (arith, h.life) }

  pub record_prepared-Rows :
      (now : ℕ) (t : Table)
      → Rows cs t
      → Rows cs (record_prepared job.upload_id job.lease_token now t).0
  unfolding record_prepared
  record_prepared-Rows now t =
      All-update_where (RowOk cs) _ _ t
        λ r h e. record { lease = h.lease; life = ground (arith, h.life) }

  release-RowOk :
      (status : JobStatus) (next : ℕ) (counter cause : String) (now : ℕ) (r : Row)
      → (job.status ≡ r.status
          → (status_eq status processing ≡ false) × LifeOk (record r { status = status }))
      → RowOk cs r
      → owns job.upload_id job.lease_token r ≡ true
      → RowOk cs (released status next counter cause now r)
  release-RowOk status next counter cause now r fits h own =
      let f = fits (owns-status cs token job r handed h own) in
      record { lease = LeaseOk-free cs status f.0; life = ground (arith, f.1) }

  -- The retry of a processing attempt goes to pending, that of a removal stays where it is.
  pub retry_job-Rows :
      (next : ℕ) (cause : String) (now : ℕ) (t : Table)
      → Rows cs t
      → Rows cs (retry_job job next cause now t)
  unfolding retry_job release_for_retry
  retry_job-Rows next cause now t h = elim (Bool-cases (status_eq job.status processing)) [
    | inl e ↦ rw e (
        All-update_where (RowOk cs) _ _ t
          (λ r k own.
            release-RowOk pending next "processing_failures" cause now r
              (λ s. processing_back r now k.life (rw (← s) e)) k own)
          h)
    | inr e ↦ rw e (
        All-update_where (RowOk cs) _ _ t
          (λ r k own.
            release-RowOk job.status next "cleanup_failures" cause now r (λ s. (e, rw s k.life)) k
              own)
          h)
  ]

  finish-RowOk :
      (status : JobStatus) (reason : String) (now : ℕ) (r : Row)
      → (job.status ≡ r.status
          → (status_eq status processing ≡ false) × LifeOk (finished status reason now r))
      → RowOk cs r
      → owns job.upload_id job.lease_token r ≡ true
      → RowOk cs (finished status reason now r)
  finish-RowOk status reason now r fits h own =
      let f = fits (owns-status cs token job r handed h own) in
      record { lease = LeaseOk-free cs status f.0; life = f.1 }

  pub reject_job-Rows :
      (why : Rejection) (now : ℕ) (t : Table) → Rows cs t → Rows cs (reject_job job why now t)
  unfolding reject_job finish_job
  reject_job-Rows why now t h = elim (Bool-cases (status_eq job.status processing)) [
    | inl e ↦ rw e (
        All-update_where (RowOk cs) _ _ t
          (λ r k own.
            finish-RowOk discarding (rejection_reason why) now r
              (λ s. processing_rejected r now k.life why (rw (← s) e)) k own)
          h)
    | inr e ↦ rw e h
  ]

  complete_job-Rows :
      (now : ℕ) (t : Table)
      → status_eq job.status cleanup ≡ true
      → Rows cs t
      → Rows cs (finish_job job.upload_id job.lease_token complete "" now t).0
  unfolding finish_job
  complete_job-Rows now t e = All-update_where (RowOk cs) _ _ t λ r k own.
      finish-RowOk complete "" now r (λ s. cleanup_completed r now k.life (rw (← s) e)) k own

  discard_job-Rows :
      (now : ℕ) (t : Table)
      → status_eq job.status discarding ≡ true
      → Rows cs t
      → Rows cs (finish_job job.upload_id job.lease_token discarded job.terminal_reason now t).0
  unfolding finish_job
  discard_job-Rows now t e = All-update_where (RowOk cs) _ _ t λ r k own.
      finish-RowOk discarded job.terminal_reason now r
        (λ s. discard_completed r now k.life job.terminal_reason (rw (← s) e)) k own

  pub finish_stage-Rows : (now : ℕ) (t : Table) → Rows cs t → Rows cs (finish_stage job now t)
  unfolding finish_stage
  finish_stage-Rows now t h = elim (Bool-cases (status_eq job.status cleanup)) [
    | inl e ↦ rw e (complete_job-Rows now t e h)
    | inr e ↦ elim (Bool-cases (status_eq job.status discarding)) [
      | inl f ↦ rw (e, f) (discard_job-Rows now t f h)
      | inr f ↦ rw (e, f) h
    ]
  ]
