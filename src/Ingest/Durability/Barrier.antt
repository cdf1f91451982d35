-- ===== src/Ingest/Durability/Barrier.antt =====
-- What the three answers of the barrier mean.
use event_gallery.Base.{
  ℕ, ◌≡◌, List, [], ◌∷◌, ◌++◌, inl, inr, refl, true, Option, none, some, String, arith, str_eq_iff,
  Bool-cases, Option-cases,
}
use event_gallery.Store.Job.{
  JobStatus, uploading, discarding, discarded, StoreError, not_claimed, Row, UploadJob,
  scan_upload_job,
}
use event_gallery.Store.Sql.{Table, find_row}
use event_gallery.Store.Queue.{get_upload_job, promote_to_pending, can_promote, promoted}
use event_gallery.Store.Keys.{Distinct}
use event_gallery.Store.Rows.{exec_success}
use event_gallery.Ingest.Protocol.Invariant.{is_durable}
use event_gallery.Ingest.Durability.{
  Answers, Outcome, works, syncs_data, syncs_info, syncs_dir, durable, Stat, missing, unreadable,
  found, classify_lost_promotion, Effect, after_promotion, promote_synced, sync_then,
  sync_and_promote, check_source, check_status, check_job, make_durable,
}

-- The row of the upload stands in pending or a later stage of publication.
abbrev pub Committed : String → Table → Type 0
Committed id t = (r : Row) × (find_row id t ≡ some r) × (is_durable r.status ≡ true)

-- An answer of success comes with a committed row.
abbrev pub Truthful : String → Outcome → Type 0
Truthful id o = o.result ≡ durable → Committed id o.table

promoted_only : (id : String) (r : Row) → can_promote id r ≡ true → r.upload_id ≡ id
promoted_only id r e = (str_eq_iff r.upload_id id).0 (ground arith)

promote_to_pending-Committed :
    (id : String) (now : ℕ) (t : Table)
    → Distinct t
    → (promote_to_pending id now t).1 ≡ none
    → Committed id (promote_to_pending id now t).0
unfolding promote_to_pending is_durable
promote_to_pending-Committed id now t d e =
    let (r, at, q, written) =
      exec_success (can_promote id) (promoted now) id t d (λ x. refl) (promoted_only id) e in
    (promoted now r, written, refl)

-- The read of a job is that of its row.
get_upload_job-row :
    (id : String) (t : Table) {job : UploadJob}
    → get_upload_job id t ≡ some job
    → (r : Row) × (find_row id t ≡ some r) × (job ≡ scan_upload_job r)
unfolding get_upload_job
get_upload_job-row id t {job} e = elim (Option-cases (find_row id t)) [
  | inl n ↦ absurd (ground arith)
  | inr (r, s) ↦ (r, s, ground arith)
]

job-Committed :
    (id : String) (t : Table) (job : UploadJob)
    → get_upload_job id t ≡ some job
    → is_durable job.status ≡ true
    → Committed id t
unfolding scan_upload_job
job-Committed id t job e d = let (r, s, same) = get_upload_job-row id t e in (r, s, ground arith)

classify-Truthful :
    (id : String) (a : Answers) (done : List Effect) (t : Table) (o : Option UploadJob)
    → get_upload_job id t ≡ o
    → Truthful id (classify_lost_promotion id a done t)
unfolding classify_lost_promotion is_durable
classify-Truthful id a done t none e = λ k. absurd (ground arith)
classify-Truthful id a done t (some job) e = λ k. job-Committed id t job e (ground arith)

module _ (id : String) (now : ℕ) (a : Answers) where
  after_promotion-Truthful :
      (done : List Effect) (t : Table) (e : Option StoreError)
      → (e ≡ none → Committed id t)
      → Truthful id (after_promotion id a done (t, e))
  after_promotion-Truthful done t none c = λ _. c refl
  after_promotion-Truthful done t (some not_claimed) c =
      classify-Truthful id a done (a.after t) (get_upload_job id (a.after t)) refl
  after_promotion-Truthful done t (some e) c = λ k. absurd (cc)

  promote_synced-Truthful :
      (done : List Effect) (t : Table) → Distinct t → Truthful id (promote_synced id now a done t)
  unfolding promote_synced
  promote_synced-Truthful done t d = elim (Bool-cases a.promotion_runs) [
    | inl e ↦ simp e (
        after_promotion-Truthful done (promote_to_pending id now t).0
          (promote_to_pending id now t).1 (promote_to_pending-Committed id now t d))
    | inr e ↦ simp e (λ k. absurd (cc))
  ]

  sync_then-Truthful :
      (e : Effect) (t : Table) (next : List Effect → Outcome) (done : List Effect)
      → ((done : List Effect) → Truthful id (next done))
      → Truthful id (sync_then a e t next done)
  unfolding sync_then
  sync_then-Truthful e t next done h = elim (Bool-cases (works a e)) [
    | inl f ↦ simp f (h (done ++ e ∷ []))
    | inr f ↦ simp f (λ k. absurd (cc))
  ]

  sync-Truthful : (t : Table) → Distinct (a.during t) → Truthful id (sync_and_promote id now a t)
  unfolding sync_and_promote
  sync-Truthful t d = sync_then-Truthful syncs_data t _ [] λ done.
      sync_then-Truthful syncs_info t _ done λ done'.
        sync_then-Truthful syncs_dir t _ done'
          λ done''. promote_synced-Truthful done'' (a.during t) d

  check_source-Truthful :
      (t : Table) (expected : ℕ) (s : Stat)
      → Distinct (a.during t)
      → Truthful id (check_source id now a expected s t)
  check_source-Truthful t expected missing d = λ k. absurd (cc)
  check_source-Truthful t expected unreadable d = λ k. absurd (cc)
  check_source-Truthful t expected (found regular size) d = λ k. ground (arith, sync-Truthful t d)

  check_status-Truthful :
      (t : Table) (job : UploadJob) (s : JobStatus)
      → get_upload_job id t ≡ some job
      → job.status ≡ s
      → Distinct (a.during t)
      → Truthful id (check_status id now a job s t)
  unfolding is_durable
  check_status-Truthful t job uploading e q d = check_source-Truthful t job.expected_size a.stat d
  check_status-Truthful t job discarding e q d = λ k. absurd (cc)
  check_status-Truthful t job discarded e q d = λ k. absurd (cc)
  check_status-Truthful t job _ e q d = λ k. job-Committed id t job e (rw q)

  check_job-Truthful :
      (t : Table) (o : Option UploadJob)
      → get_upload_job id t ≡ o
      → Distinct (a.during t)
      → Truthful id (check_job id now a o t)
  check_job-Truthful t none e d = λ k. absurd (cc)
  check_job-Truthful t (some job) e d = check_status-Truthful t job job.status e refl d

  make_durable-Truthful :
      (t : Table) → Distinct (a.during t) → Truthful id (make_durable id now a t)
  unfolding make_durable
  make_durable-Truthful t d = elim (Bool-cases a.contained) [
    | inl e ↦ elim (Bool-cases a.row_readable) [
      | inl f ↦ simp (e, f) (check_job-Truthful t (get_upload_job id t) refl d)
      | inr f ↦ simp (e, f) (λ k. absurd (cc))
    ]
    | inr e ↦ simp e (λ k. absurd (cc))
  ]

  -- The barrier answers success only when the row of the upload stands, in the database that it
  -- leaves, in pending or a later stage of publication, whatever the file system answered and
  -- whatever others committed meanwhile, as long as that kept the upload ids distinct.
  pub make_durable-Committed :
      (t : Table)
      → Distinct (a.during t)
      → (make_durable id now a t).result ≡ durable
      → Committed id (make_durable id now a t).table
  make_durable-Committed t d k = make_durable-Truthful t d k
