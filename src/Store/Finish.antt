-- ===== src/Store/Finish.antt =====
-- backend/internal/store/upload_jobs.go: artifact records, the closures of a job, their reversal and
-- expiry, and the summary of the queue.
use event_gallery.Base.{
  ℕ, ◌+◌, Bool, false, not, ◌&&◌, ◌||◌, Option, none, some, String, List, [], ◌∷◌, ltb, str_eq,
  is_some, if◌then◌else◌, select, take, map, length,
}
use event_gallery.Store.Job.{
  JobStatus, uploading, pending, processing, cleanup, complete, discarding, discarded, status_eq,
  is_terminal, StoreError, Row,
}
use event_gallery.Store.Sql.{Table, delete_where, exec}
use event_gallery.Store.Queue.{owns}

unfoldable pub record_artifact_identity :
    String → String → String → String → String → ℕ → Table → Table × Option StoreError
record_artifact_identity id token stored_filename mime_type sha256 now = exec (owns id token) λ r.
    record r {
      stored_filename = some stored_filename;
      mime_type = some mime_type;
      authoritative_sha256 = some sha256;
      updated_at = now;
    }

unfoldable pub record_prepared : String → String → ℕ → Table → Table × Option StoreError
record_prepared id token now =
    exec (owns id token) λ r. record r { prepared_at = some now; updated_at = now }

unfoldable pub mark_unobservable : String → ℕ → Table → Table × Option StoreError
mark_unobservable id now =
    exec
      (λ r.
        str_eq r.upload_id id
        && status_eq r.status uploading
        && not (is_some r.source_completed_at))
      λ r. record r {
        status = discarded;
        terminal_reason = "unobservable";
        terminal_at = some now;
        lease_token = none;
        lease_until = none;
        updated_at = now;
      }

unfoldable pub delete_upload_job : String → Table → Table
delete_upload_job id = delete_where λ r. str_eq r.upload_id id && is_terminal r.status

unfoldable pub reopen_terminal : String → JobStatus → ℕ → Table → Table × Option StoreError
reopen_terminal id status now =
    exec (λ r. str_eq r.upload_id id && is_terminal r.status)
      λ r. record r {
        status = status;
        terminal_at = none;
        next_attempt_at = now;
        lease_token = none;
        lease_until = none;
        updated_at = now;
      }

-- `terminal_at IS NOT NULL AND terminal_at < ?`.
abbrev before_cutoff : ℕ → Option ℕ → Bool
before_cutoff cutoff none = false
before_cutoff cutoff (some at) = ltb at cutoff

abbrev pub is_expired : ℕ → Row → Bool
is_expired cutoff r = is_terminal r.status && before_cutoff cutoff r.terminal_at

-- `upload_id IN (...)`.
abbrev pub among : List String → String → Bool
among [] id = false
among (k ∷ ks) id = str_eq k id || among ks id

unfoldable pub delete_terminal_jobs_before : ℕ → ℕ → Table → Table
delete_terminal_jobs_before cutoff limit t =
    let ids = take limit (map (λ (r : Row). r.upload_id) (select (is_expired cutoff) t)) in
    delete_where (λ r. among ids r.upload_id) t

pub record QueueSummary : Type 0 where
  pub counts : JobStatus → ℕ
  pub active : ℕ
  pub oldest_pending_attempt_at : Option ℕ
  pub max_processing_failures : ℕ

-- COUNT(*) of one status.
abbrev pub count_status : JobStatus → Table → ℕ
count_status s t = length (select (λ r. status_eq r.status s) t)

-- MIN(next_attempt_at) and MAX(processing_failures) of a group.
abbrev min_attempt : Table → Option ℕ
min_attempt [] = none
min_attempt (r ∷ t) = elim (min_attempt t) [
  | none ↦ some r.next_attempt_at
  | some m ↦ some (if ltb m r.next_attempt_at then m else r.next_attempt_at)
]

abbrev max_failures : Table → ℕ
max_failures [] = 0
max_failures (r ∷ t) =
    let rest = max_failures t in
    if ltb rest r.processing_failures then r.processing_failures else rest

-- One round of the loop over the groups.
abbrev add_group : Table → QueueSummary → JobStatus → QueueSummary
add_group t q s =
    let group = select (λ (r : Row). status_eq r.status s) t in
    if is_terminal s then q else record q {
      active = q.active + length group;
      oldest_pending_attempt_at =
          if status_eq s pending then min_attempt group else q.oldest_pending_attempt_at;
      max_processing_failures =
          if ltb q.max_processing_failures (max_failures group)
          then max_failures group
          else q.max_processing_failures;
    }

abbrev add_groups : Table → QueueSummary → List JobStatus → QueueSummary
add_groups t q [] = q
add_groups t q (s ∷ ss) = add_groups t (add_group t q s) ss

abbrev all_statuses : List JobStatus
all_statuses = uploading ∷ pending ∷ processing ∷ cleanup ∷ complete ∷ discarding ∷ discarded ∷ []

-- An empty group is no group: it changes nothing, so the loop may go over every status.
unfoldable pub summarize_queue : Table → QueueSummary
summarize_queue t =
    add_groups t
      (record {
        counts = λ s. count_status s t;
        active = 0;
        oldest_pending_attempt_at = none;
        max_processing_failures = 0;
      })
      all_statuses
