-- ===== src/Store/Queue.antt =====
-- backend/internal/store/upload_jobs.go: the statements that move an upload job, each a function of
-- the table. `now` is the clock reading that the Go code takes or is given; a fresh lease token is an
-- argument, since crypto/rand makes it.
use event_gallery.Base.{
  ℕ, ◌+◌, Bool, true, false, not, ◌&&◌, ◌||◌, Option, none, some, String, List, [], ◌∷◌, ltb, leb,
  str_eq, null_eq, is_some, if◌then◌else◌, select, take, map, ◌==◌,
}
use event_gallery.Store.Job.{
  JobStatus, uploading, pending, processing, cleanup, discarding, status_eq, is_terminal,
  StoreError, unknown_counter, constraint_failed, Row, UploadJob, scan_upload_job,
}
use event_gallery.Store.Sql.{Table, update_where, affected, find_row, exec}

-- COALESCE(column, ?).
abbrev coalesce : Option ℕ → ℕ → Option ℕ
coalesce none n = some n
coalesce (some m) n = some m

-- `WHERE upload_id = ? AND lease_token = ?`.
abbrev pub owns : String → String → Row → Bool
owns id token r = str_eq r.upload_id id && null_eq r.lease_token token

abbrev pub taken : UploadJob → Table → Bool
taken j [] = false
taken j (r ∷ t) = str_eq r.upload_id j.upload_id || str_eq r.media_id j.media_id || taken j t

abbrev pub new_row : UploadJob → ℕ → Row
new_row j now = record {
  upload_id = j.upload_id;
  media_id = j.media_id;
  status = uploading;
  original_filename = j.original_filename;
  stored_filename = none;
  mime_type = none;
  expected_size = j.expected_size;
  declared_sha256 = j.declared_sha256;
  authoritative_sha256 = none;
  guest_name = j.guest_name;
  uploader_ip = j.uploader_ip;
  source_completed_at = none;
  prepared_at = none;
  cancellation_requested_at = none;
  result_media_id = none;
  terminal_reason = "";
  lease_token = none;
  lease_until = none;
  next_attempt_at = now;
  processing_failures = 0;
  conversion_failures = 0;
  cleanup_failures = 0;
  last_error = "";
  created_at = now;
  updated_at = now;
  terminal_at = none;
}

-- The INSERT, refused by the primary key, the UNIQUE media id and CHECK (expected_size > 0).
unfoldable pub create_uploading_job : UploadJob → ℕ → Table → Table × Option StoreError
create_uploading_job j now t =
    if taken j t || j.expected_size == 0
    then (t, some constraint_failed)
    else (new_row j now ∷ t, none)

unfoldable pub get_upload_job : String → Table → Option UploadJob
get_upload_job id t = elim (find_row id t) [ none ↦ none | some r ↦ some (scan_upload_job r) ]

abbrev pub can_promote : String → Row → Bool
can_promote id r =
    str_eq r.upload_id id
    && status_eq r.status uploading
    && not (is_some r.cancellation_requested_at)

abbrev pub promoted : ℕ → Row → Row
promoted now r = record r {
  status = pending;
  source_completed_at = coalesce r.source_completed_at now;
  next_attempt_at = now;
  updated_at = now;
}

unfoldable pub promote_to_pending : String → ℕ → Table → Table × Option StoreError
promote_to_pending id now = exec (can_promote id) (promoted now)

-- A lease that is over, or none.
abbrev pub lease_free : ℕ → Option ℕ → Bool
lease_free now none = true
lease_free now (some until) = leb until now

abbrev pub is_due : JobStatus → ℕ → Row → Bool
is_due from now r =
    status_eq r.status from && leb r.next_attempt_at now && lease_free now r.lease_until

-- ORDER BY next_attempt_at LIMIT 1; SQLite leaves the order of ties open, here the first row wins.
unfoldable pub earliest : Table → Option Row
earliest [] = none
earliest (r ∷ t) = elim (earliest t) [
  | none ↦ some r
  | some b ↦ some (if ltb b.next_attempt_at r.next_attempt_at then b else r)
]

abbrev pub leased : JobStatus → String → ℕ → ℕ → Row → Row
leased to token until now r = record r {
  status = to;
  lease_token = some token;
  lease_until = some until;
  updated_at = now;
}

-- One UPDATE ... RETURNING; `none` is nil, nil: no job is due.
abbrev pub lease_out : JobStatus → String → ℕ → ℕ → Table → Option Row → Table × Option UploadJob
lease_out to token now lease_for t none = (t, none)
lease_out to token now lease_for t (some r) = (
  update_where (λ x. str_eq x.upload_id r.upload_id) (leased to token (now + lease_for) now) t,
  some (scan_upload_job (leased to token (now + lease_for) now r)),
)

unfoldable pub claim_next_job :
    JobStatus → JobStatus → String → ℕ → ℕ → Table → Table × Option UploadJob
claim_next_job from to token now lease_for t =
    lease_out to token now lease_for t (earliest (select (is_due from now) t))

-- The three columns that `counter` may name.
abbrev bump_counter : String → Row → Row
bump_counter counter r =
    if str_eq counter "processing_failures"
    then record r { processing_failures = r.processing_failures + 1 }
    else if str_eq counter "conversion_failures"
    then record r { conversion_failures = r.conversion_failures + 1 }
    else record r { cleanup_failures = r.cleanup_failures + 1 }

abbrev pub known_counter : String → Bool
known_counter counter =
    str_eq counter "processing_failures"
    || str_eq counter "conversion_failures"
    || str_eq counter "cleanup_failures"

abbrev pub released : JobStatus → ℕ → String → String → ℕ → Row → Row
released status next counter last_error now r =
    let b = bump_counter counter r in
    record b {
      status = status;
      lease_token = none;
      lease_until = none;
      next_attempt_at = next;
      last_error = last_error;
      updated_at = now;
    }

unfoldable pub release_for_retry :
    String → String → JobStatus → ℕ → String → String → ℕ → Table → Table × Option StoreError
release_for_retry id token status next counter last_error now t =
    if known_counter counter
    then exec (owns id token) (released status next counter last_error now) t
    else (t, some unknown_counter)

-- CASE WHEN terminal_reason = '' THEN 'cancelled' ELSE terminal_reason END.
abbrev pub cancelled_reason : String → String
cancelled_reason reason = if str_eq reason "" then "cancelled" else reason

unfoldable pub claim_uploading_for_discard : String → ℕ → Table → Table × Option StoreError
claim_uploading_for_discard id now =
    exec (λ r. str_eq r.upload_id id && status_eq r.status uploading)
      λ r. record r {
        status = discarding;
        terminal_reason = cancelled_reason r.terminal_reason;
        next_attempt_at = now;
        updated_at = now;
      }

unfoldable pub request_cancellation : String → ℕ → Table → Table × Option StoreError
request_cancellation id now =
    exec (λ r. str_eq r.upload_id id && status_eq r.status uploading)
      λ r. record r {
        cancellation_requested_at = coalesce r.cancellation_requested_at now;
        updated_at = now;
      }

abbrev pub is_idle_cancelled : ℕ → Row → Bool
is_idle_cancelled idle_before r =
    status_eq r.status uploading
    && is_some r.cancellation_requested_at
    && leb r.updated_at idle_before

-- The sweep of the cancelled uploads, with the number of rows it moved.
unfoldable pub claim_cancelled_for_discard : ℕ → ℕ → Table → Table × ℕ
claim_cancelled_for_discard idle_before now t = (
  update_where (is_idle_cancelled idle_before)
      (λ r. record r {
        status = discarding;
        terminal_reason = cancelled_reason r.terminal_reason;
        next_attempt_at = now;
        lease_token = none;
        lease_until = none;
        updated_at = now;
      })
      t,
  affected (is_idle_cancelled idle_before) t,
)

abbrev pub is_stale_uploading : ℕ → Row → Bool
is_stale_uploading idle_before r =
    status_eq r.status uploading
    && not (is_some r.source_completed_at)
    && not (is_some r.cancellation_requested_at)
    && leb r.updated_at idle_before

unfoldable pub list_stale_uploading : ℕ → ℕ → Table → List String
list_stale_uploading idle_before limit t =
    take limit (map (λ (r : Row). r.upload_id) (select (is_stale_uploading idle_before) t))

abbrev pub finished : JobStatus → String → ℕ → Row → Row
finished status reason now r = record r {
  status = status;
  terminal_reason = if str_eq reason "" then r.terminal_reason else reason;
  terminal_at = if is_terminal status then some now else r.terminal_at;
  lease_token = none;
  lease_until = none;
  updated_at = now;
}

unfoldable pub finish_job :
    String → String → JobStatus → String → ℕ → Table → Table × Option StoreError
finish_job id token status reason now = exec (owns id token) (finished status reason now)

-- `status IN ('processing', 'cleanup', 'discarding')`.
abbrev pub in_worked_stage : JobStatus → Bool
in_worked_stage s = status_eq s processing || status_eq s cleanup || status_eq s discarding

unfoldable pub requeue_startup : ℕ → Table → Table × ℕ
requeue_startup now t = (
  update_where (λ r. in_worked_stage r.status)
      (λ r. record r {
        status = if status_eq r.status processing then pending else r.status;
        lease_token = none;
        lease_until = none;
        next_attempt_at = now;
        updated_at = now;
      })
      t,
  affected (λ r. in_worked_stage r.status) t,
)
