-- ===== src/Ingest/Protocol/Statements.antt =====
-- Every statement of the queue keeps the invariant of the rows: first those that need no lease.
use event_gallery.Base.{
  ℕ, ◌≡◌, refl, true, false, Option, none, some, String, List, arith, str_eq, if◌then◌else◌, All,
  All-both, Bool-cases, inl, inr, ◌||◌, ◌==◌,
}
use event_gallery.Store.Job.{
  JobStatus, uploading, pending, processing, cleanup, complete, discarding, discarded, status_eq,
  is_terminal, Row, UploadJob,
}
use event_gallery.Store.Sql.{
  Table, All-update_where, All-update_into, All-delete_where, find_row, find_row-All,
}
use event_gallery.Store.Keys.{Distinct, find_row-alone}
use event_gallery.Ingest.Protocol.{reopen_row, readopt_row}
use event_gallery.Store.Queue.{
  create_uploading_job, promote_to_pending, claim_uploading_for_discard, request_cancellation,
  claim_cancelled_for_discard, requeue_startup, taken, cancelled_reason,
}
use event_gallery.Store.Finish.{
  mark_unobservable, delete_upload_job, reopen_terminal, delete_terminal_jobs_before,
}
use event_gallery.Ingest.Protocol.Invariant.{
  RowOk, LifeOk, LeaseOk-free, LeaseOk-move, is_durable, is_published, is_dropped,
}

abbrev pub Rows : List UploadJob → Table → Type 0
Rows cs = All (RowOk cs)

cancelled_reason_given : (reason : String) → str_eq (cancelled_reason reason) "" ≡ false
cancelled_reason_given reason = elim (Bool-cases (str_eq reason "")) [
  | inl e ↦ rw e refl
  | inr e ↦ rw e e
]

module _ (cs : List UploadJob) where
  pub create_uploading_job-Rows :
      (j : UploadJob) (now : ℕ) (t : Table) → Rows cs t → Rows cs (create_uploading_job j now t).0
  unfolding create_uploading_job status_eq is_durable is_published is_dropped is_terminal
  create_uploading_job-Rows j now t h = elim (Bool-cases (taken j t || j.expected_size == 0)) [
    | inl e ↦ rw e h
    | inr e ↦ rw e (record { lease = LeaseOk-free cs uploading refl; life = ground arith }, h)
  ]

  pub promote_to_pending-Rows :
      (id : String) (now : ℕ) (t : Table) → Rows cs t → Rows cs (promote_to_pending id now t).0
  unfolding promote_to_pending status_eq is_durable is_published is_dropped is_terminal
  promote_to_pending-Rows id now t = All-update_where (RowOk cs) _ _ t λ r h e. record {
    lease =
        LeaseOk-move cs r.lease_token r.lease_until r.status pending h.lease (ground arith) refl;
    life = ground (arith, h.life);
  }

  pub claim_uploading_for_discard-Rows :
      (id : String) (now : ℕ) (t : Table)
      → Rows cs t
      → Rows cs (claim_uploading_for_discard id now t).0
  unfolding claim_uploading_for_discard status_eq is_durable is_published is_dropped is_terminal
  claim_uploading_for_discard-Rows id now t = All-update_where (RowOk cs) _ _ t λ r h e. record {
    lease =
        LeaseOk-move cs r.lease_token r.lease_until r.status discarding h.lease (ground arith) refl;
    life = ground (arith, h.life, cancelled_reason_given r.terminal_reason);
  }

  pub request_cancellation-Rows :
      (id : String) (now : ℕ) (t : Table) → Rows cs t → Rows cs (request_cancellation id now t).0
  unfolding request_cancellation status_eq is_durable is_published is_dropped is_terminal
  request_cancellation-Rows id now t =
      All-update_where (RowOk cs) _ _ t
        λ r h e. record { lease = h.lease; life = ground (arith, h.life) }

  pub claim_cancelled_for_discard-Rows :
      (idle_before now : ℕ) (t : Table)
      → Rows cs t
      → Rows cs (claim_cancelled_for_discard idle_before now t).0
  unfolding claim_cancelled_for_discard status_eq is_durable is_published is_dropped is_terminal
  claim_cancelled_for_discard-Rows idle_before now t = All-update_where (RowOk cs) _ _ t λ r h e.
      record {
        lease = LeaseOk-free cs discarding refl;
        life = ground (arith, h.life, cancelled_reason_given r.terminal_reason);
      }

  pub mark_unobservable-Rows :
      (id : String) (now : ℕ) (t : Table) → Rows cs t → Rows cs (mark_unobservable id now t).0
  unfolding mark_unobservable status_eq is_durable is_published is_dropped is_terminal
  mark_unobservable-Rows id now t =
      All-update_where (RowOk cs) _ _ t
        λ r h e. record { lease = LeaseOk-free cs discarded refl; life = ground (arith, h.life) }

  pub requeue_startup-Rows : (now : ℕ) (t : Table) → Rows cs t → Rows cs (requeue_startup now t).0
  unfolding requeue_startup status_eq is_durable is_published is_dropped is_terminal
  requeue_startup-Rows now t = All-update_where (RowOk cs) _ _ t λ r h e. record {
    lease =
        LeaseOk-free cs (if status_eq r.status processing then pending else r.status)
          (ground arith);
    life = ground (arith, h.life);
  }

  pub delete_upload_job-Rows :
      (id : String) (t : Table) → Rows cs t → Rows cs (delete_upload_job id t)
  unfolding delete_upload_job
  delete_upload_job-Rows id t = All-delete_where (RowOk cs) _ t

  pub delete_terminal_jobs_before-Rows :
      (cutoff limit : ℕ) (t : Table)
      → Rows cs t
      → Rows cs (delete_terminal_jobs_before cutoff limit t)
  unfolding delete_terminal_jobs_before
  delete_terminal_jobs_before-Rows cutoff limit t = All-delete_where (RowOk cs) _ t

  -- A row that matches a reopening is the row that the reconciler has read.
  reopen_terminal-Rows :
      (id : String) (status : JobStatus) (now : ℕ) (t : Table) (r : Row)
      → status_eq status processing ≡ false
      → LifeOk (record r { status = status; terminal_at = none })
      → All (λ x. str_eq x.upload_id id ≡ true → x ≡ r) t
      → Rows cs t
      → Rows cs (reopen_terminal id status now t).0
  unfolding reopen_terminal
  reopen_terminal-Rows id status now t r p fits alone h =
      All-update_into _ _ t
        (λ x k e. record {
          lease = LeaseOk-free cs status p;
          life = ground (arith, fits, k.1 (ground arith));
        })
        (λ x k e. k.0) (All-both _ _ t h alone)

  complete_reopened :
      (r : Row)
      → LifeOk r
      → status_eq r.status complete ≡ true
      → LifeOk (record r { status = cleanup; terminal_at = none })
  unfolding status_eq is_durable is_published is_dropped is_terminal
  complete_reopened r h e = ground arith

  discarded_reopened :
      (r : Row)
      → LifeOk r
      → status_eq r.status discarded ≡ true
      → LifeOk (record r { status = discarding; terminal_at = none })
  unfolding status_eq is_durable is_published is_dropped is_terminal
  discarded_reopened r h e = ground arith

  reopen_found-Rows :
      (r : Row) (id : String) (now : ℕ) (t : Table)
      → LifeOk r
      → All (λ x. str_eq x.upload_id id ≡ true → x ≡ r) t
      → Rows cs t
      → Rows cs (reopen_row (some r) id now t)
  unfolding reopen_row status_eq
  reopen_found-Rows r id now t l alone h = elim (Bool-cases (status_eq r.status complete)) [
    | inl e ↦ rw e (reopen_terminal-Rows id cleanup now t r refl (complete_reopened r l e) alone h)
    | inr e ↦ elim (Bool-cases (status_eq r.status discarded)) [
      | inl f ↦
          rw (e, f)
            (reopen_terminal-Rows id discarding now t r refl (discarded_reopened r l f) alone h)
      | inr f ↦ rw (e, f) h
    ]
  ]

  pub reopen_row-Rows :
      (o : Option Row) (id : String) (now : ℕ) (t : Table)
      → find_row id t ≡ o
      → Distinct t
      → Rows cs t
      → Rows cs (reopen_row o id now t)
  unfolding reopen_row
  reopen_row-Rows none id now t e d h = h
  reopen_row-Rows (some r) id now t e d h =
      reopen_found-Rows r id now t (find_row-All (RowOk cs) id t h e).0.life
        (find_row-alone id t d e) h

  pub readopt_row-Rows :
      (o : Option Row) (id : String) (t : Table) → Rows cs t → Rows cs (readopt_row o id t)
  unfolding readopt_row
  readopt_row-Rows none id t h = h
  readopt_row-Rows (some r) id t h = elim (Bool-cases (status_eq r.status discarded)) [
    | inl e ↦ elim (Bool-cases (str_eq r.terminal_reason "unobservable")) [
      | inl f ↦ rw (e, f) (delete_upload_job-Rows id t h)
      | inr f ↦ rw (e, f) h
    ]
    | inr e ↦ rw e h
  ]
