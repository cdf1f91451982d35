-- ===== src/Store/Job.antt =====
-- backend/internal/store/upload_jobs.go and db/migrations: the rows of the durable ingest queue.
-- A nullable column is an `Option`; timestamps are microseconds since 1970, as natural numbers.
use event_gallery.Base.{ℕ, Bool, true, false, Option, String, text_or_empty}

pub data JobStatus : Type 0 where
  uploading pending processing cleanup complete discarding discarded : JobStatus

-- `status = ?`.
unfoldable pub status_eq : JobStatus → JobStatus → Bool
status_eq uploading uploading = true
status_eq pending pending = true
status_eq processing processing = true
status_eq cleanup cleanup = true
status_eq complete complete = true
status_eq discarding discarding = true
status_eq discarded discarded = true
status_eq _ _ = false

-- `status IN ('complete', 'discarded')`.
unfoldable pub is_terminal : JobStatus → Bool
is_terminal complete = true
is_terminal discarded = true
is_terminal _ = false

pub data StoreError : Type 0 where
  not_claimed : StoreError
  unknown_counter : StoreError
  constraint_failed : StoreError
  no_rows : StoreError

pub data Result {ℓ} (A : Type ℓ) : Type ℓ where
  ok : A → Result A
  err : StoreError → Result A

-- One row of the table upload_jobs.
pub record Row : Type 0 where
  pub upload_id : String
  pub media_id : String
  pub status : JobStatus
  pub original_filename : String
  pub stored_filename : Option String
  pub mime_type : Option String
  pub expected_size : ℕ
  pub declared_sha256 : String
  pub authoritative_sha256 : Option String
  pub guest_name : String
  pub uploader_ip : String
  pub source_completed_at : Option ℕ
  pub prepared_at : Option ℕ
  pub cancellation_requested_at : Option ℕ
  pub result_media_id : Option String
  pub terminal_reason : String
  pub lease_token : Option String
  pub lease_until : Option ℕ
  pub next_attempt_at : ℕ
  pub processing_failures : ℕ
  pub conversion_failures : ℕ
  pub cleanup_failures : ℕ
  pub last_error : String
  pub created_at : ℕ
  pub updated_at : ℕ
  pub terminal_at : Option ℕ

-- The struct that the callers read.
pub record UploadJob : Type 0 where
  pub upload_id : String
  pub media_id : String
  pub status : JobStatus
  pub original_filename : String
  pub stored_filename : String
  pub mime_type : String
  pub expected_size : ℕ
  pub declared_sha256 : String
  pub authoritative_sha256 : String
  pub guest_name : String
  pub uploader_ip : String
  pub source_completed_at : Option ℕ
  pub prepared_at : Option ℕ
  pub cancellation_requested_at : Option ℕ
  pub result_media_id : String
  pub terminal_reason : String
  pub lease_token : String
  pub lease_until : Option ℕ
  pub next_attempt_at : ℕ
  pub processing_failures : ℕ
  pub conversion_failures : ℕ
  pub cleanup_failures : ℕ
  pub last_error : String
  pub created_at : ℕ
  pub updated_at : ℕ
  pub terminal_at : Option ℕ

-- `scanUploadJob`: the NULL texts read as empty ones, the NULL times as nil.
unfoldable pub scan_upload_job : Row → UploadJob
scan_upload_job r = record {
  upload_id = r.upload_id;
  media_id = r.media_id;
  status = r.status;
  original_filename = r.original_filename;
  stored_filename = text_or_empty r.stored_filename;
  mime_type = text_or_empty r.mime_type;
  expected_size = r.expected_size;
  declared_sha256 = r.declared_sha256;
  authoritative_sha256 = text_or_empty r.authoritative_sha256;
  guest_name = r.guest_name;
  uploader_ip = r.uploader_ip;
  source_completed_at = r.source_completed_at;
  prepared_at = r.prepared_at;
  cancellation_requested_at = r.cancellation_requested_at;
  result_media_id = text_or_empty r.result_media_id;
  terminal_reason = r.terminal_reason;
  lease_token = text_or_empty r.lease_token;
  lease_until = r.lease_until;
  next_attempt_at = r.next_attempt_at;
  processing_failures = r.processing_failures;
  conversion_failures = r.conversion_failures;
  cleanup_failures = r.cleanup_failures;
  last_error = r.last_error;
  created_at = r.created_at;
  updated_at = r.updated_at;
  terminal_at = r.terminal_at;
}
