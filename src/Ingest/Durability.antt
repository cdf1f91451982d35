-- ===== src/Ingest/Durability.antt =====
-- backend/internal/ingest/durability.go: the barrier that a completed upload passes before tus may
-- report success. What the operating system answers, and what other callers commit to the database
-- while the barrier waits, is an argument.
pub mod Barrier
pub mod Refusals
use event_gallery.Base.{
  ℕ, Bool, true, false, Option, none, some, String, List, [], ◌∷◌, ◌++◌, ◌==◌, not, is_some,
  if◌then◌else◌,
}
use event_gallery.Store.Job.{
  JobStatus, uploading, pending, processing, cleanup, complete, discarding, discarded, StoreError,
  not_claimed, UploadJob,
}
use event_gallery.Store.Sql.{Table}
use event_gallery.Store.Queue.{get_upload_job, promote_to_pending}

-- `os.Stat` of the data file.
pub data Stat : Type 0 where
  missing : Stat
  unreadable : Stat
  found : Bool → ℕ → Stat

-- `fsyncFile` of the sidecar, which may be absent.
pub data SyncResult : Type 0 where
  synced : SyncResult
  not_there : SyncResult
  sync_failed : SyncResult

-- nil, an error that wraps ErrDurabilityFinal, and any other error.
pub data Durability : Type 0 where
  durable : Durability
  final : Durability
  transient : Durability

pub data Effect : Type 0 where
  syncs_data syncs_info syncs_dir promotes_row : Effect

-- The answers that one run of the barrier gets. `contained` is the test that the data path stands
-- directly in the upload directory; `during` and `after` are what others commit while it syncs, and
-- between a lost promotion and the second read of the row.
pub record Answers : Type 0 where
  pub contained : Bool
  pub row_readable : Bool
  pub stat : Stat
  pub data_synced : Bool
  pub info_synced : SyncResult
  pub dir_synced : Bool
  pub during : Table → Table
  pub promotion_runs : Bool
  pub after : Table → Table
  pub row_readable_again : Bool

pub record Outcome : Type 0 where
  pub table : Table
  pub result : Durability
  pub effects : List Effect

abbrev stop : Table → Durability → List Effect → Outcome
stop t d effects = record { table = t; result = d; effects = effects }

-- The `switch` on the status of a row that a lost promotion finds.
abbrev classify_status : JobStatus → Option ℕ → Durability
classify_status discarding cancelled_at = final
classify_status discarded cancelled_at = final
classify_status uploading cancelled_at = if is_some cancelled_at then final else transient
classify_status _ cancelled_at = durable

abbrev classify_job : Option UploadJob → Durability
classify_job none = final
classify_job (some job) = classify_status job.status job.cancellation_requested_at

unfoldable pub classify_lost_promotion : String → Answers → List Effect → Table → Outcome
classify_lost_promotion id a done t =
    stop t (if a.row_readable_again then classify_job (get_upload_job id t) else transient) done

-- The error of `PromoteToPending`.
abbrev pub after_promotion : String → Answers → List Effect → Table × Option StoreError → Outcome
after_promotion id a done (t, none) = stop t durable (done ++ promotes_row ∷ [])
after_promotion id a done (t, some not_claimed) = classify_lost_promotion id a done (a.after t)
after_promotion id a done (t, some e) = stop t transient done

unfoldable pub promote_synced : String → ℕ → Answers → List Effect → Table → Outcome
promote_synced id now a done t =
    if a.promotion_runs
    then after_promotion id a done (promote_to_pending id now t)
    else stop t transient done

abbrev pub info_ok : SyncResult → Bool
info_ok synced = true
info_ok not_there = true
info_ok sync_failed = false

-- Whether a call works.
abbrev pub works : Answers → Effect → Bool
works a syncs_data = a.data_synced
works a syncs_info = info_ok a.info_synced
works a syncs_dir = a.dir_synced
works a promotes_row = a.promotion_runs

-- One sync, which is recorded when it is done, and what follows it.
unfoldable pub sync_then :
    Answers → Effect → Table → (List Effect → Outcome) → List Effect → Outcome
sync_then a e t next done = if works a e then next (done ++ e ∷ []) else stop t transient done

-- The three syncs, in order, and then the promotion of what others left meanwhile.
unfoldable pub sync_and_promote : String → ℕ → Answers → Table → Outcome
sync_and_promote id now a t =
    sync_then a syncs_data t
      (sync_then a syncs_info t
        (sync_then a syncs_dir t (λ done. promote_synced id now a done (a.during t))))
      []

abbrev pub check_source : String → ℕ → Answers → ℕ → Stat → Table → Outcome
check_source id now a expected missing t = stop t final []
check_source id now a expected unreadable t = stop t final []
check_source id now a expected (found regular size) t =
    if not regular
    then stop t final []
    else if size == expected
    then sync_and_promote id now a t
    else stop t final []

abbrev pub check_status : String → ℕ → Answers → UploadJob → JobStatus → Table → Outcome
check_status id now a job uploading t = check_source id now a job.expected_size a.stat t
check_status id now a job discarding t = stop t final []
check_status id now a job discarded t = stop t final []
check_status id now a job _ t = stop t durable []

abbrev pub check_job : String → ℕ → Answers → Option UploadJob → Table → Outcome
check_job id now a none t = stop t final []
check_job id now a (some job) t = check_status id now a job job.status t

unfoldable pub make_durable : String → ℕ → Answers → Table → Outcome
make_durable id now a t =
    if not a.contained
    then stop t final []
    else if not a.row_readable
    then stop t transient []
    else check_job id now a (get_upload_job id t) t
