-- ===== src/Ingest/Processing.antt =====
-- backend/internal/ingest/process.go: one attempt of `runProcessing`, from the claimed job to the
-- publication, its rejection or its retry. What the file system, the media tools and the failing
-- database answer is an argument.
pub mod Outcomes
use Prim.Native.String.{◌++◌}
use event_gallery.Base.{
  ℕ, Bool, true, false, not, ◌&&◌, ◌||◌, Option, none, some, String, List, [], ◌∷◌, str_eq,
  if◌then◌else◌,
}
use event_gallery.Store.Job.{pending, discarding, StoreError, no_rows, Result, ok, err, UploadJob}
use event_gallery.Store.Sql.{Table}
use event_gallery.Store.Queue.{release_for_retry, finish_job}
use event_gallery.Store.Finish.{record_artifact_identity, record_prepared}
use event_gallery.Store.Media.{
  Db, MediaItem, MediaKind, active, AuditEntry, get_by_sha256, publish_media,
}
use event_gallery.Ingest.Protocol.{Rejection, unsupported_type, checksum_mismatch, rejection_reason}

-- `media.Sniff`: a MIME type with its kind, ErrUnsupportedType, or another error.
pub data Sniffed : Type 0 where
  recognised : String → MediaKind → Sniffed
  unsupported : Sniffed
  sniff_failed : Sniffed

-- `media.DeriveResult`.
pub record Derived : Type 0 where
  pub width : Option ℕ
  pub height : Option ℕ
  pub duration_ms : Option ℕ
  pub has_thumbnail : Bool
  pub has_preview : Bool
  pub captured_at : Option String

-- The world of one attempt. The Boolean fields say whether a step is answered without error, and
-- `meanwhile` is what others commit between the lookup of the hash and the publication.
pub record Attempt : Type 0 where
  pub healthy : Bool
  pub sniffed : Sniffed
  pub allowed : String → MediaKind → Bool
  pub hash : Option String
  pub size : Option ℕ
  pub extension : String → String → String
  pub identity_runs : Bool
  pub copies : Bool
  pub copy_verified : Bool
  pub prepared_runs : Bool
  pub lookup_runs : Bool
  pub verified : MediaItem → Bool
  pub meanwhile : Db → Db
  pub derived : Derived
  pub uploaded_at : String
  pub publish_runs : Bool
  pub audits : Bool
  pub next : ℕ
  pub cause : String

-- nil with the authoritative id and whether it is a duplicate, a `clientRejection`, or another error.
pub data Verdict : Type 0 where
  published : String → Bool → Verdict
  rejected : Rejection → Verdict
  failed : Verdict

unfoldable pub actor_name : UploadJob → String
actor_name job = if str_eq job.guest_name "" then "anonymous guest" else job.guest_name

-- `recordUploadAudit`: best effort.
unfoldable pub record_upload_audit : Attempt → UploadJob → String → String → Db → Db
record_upload_audit w job media_id detail db =
    if w.audits
    then record db {
      audit =
          record {
            action = "upload";
            actor = actor_name job;
            media_id = media_id;
            filename = job.original_filename;
            details = detail;
          }
          ∷ db.audit;
    }
    else db

abbrev pub media_item : Attempt → UploadJob → String → String → MediaKind → ℕ → String → MediaItem
media_item w job stored mime kind size sum = record {
  id = job.media_id;
  original_filename = job.original_filename;
  stored_filename = stored;
  kind = kind;
  mime_type = mime;
  size_bytes = size;
  sha256 = sum;
  width = w.derived.width;
  height = w.derived.height;
  duration_ms = w.derived.duration_ms;
  has_thumbnail = w.derived.has_thumbnail;
  has_preview = w.derived.has_preview;
  captured_at = w.derived.captured_at;
  uploaded_at = w.uploaded_at;
  approved_at = none;
  uploader_name = job.guest_name;
  uploader_ip = job.uploader_ip;
  status = active;
  deleted_at = none;
}

abbrev pub audit_detail : Bool → String
audit_detail true = "duplicate content ignored (already in gallery)"
audit_detail false = ""

abbrev pub after_publish : Attempt → UploadJob → Db × Result (String × Bool) → Db × Verdict
after_publish w job (db, ok (id, duplicate)) =
    (record_upload_audit w job id (audit_detail duplicate) db, published id duplicate)
after_publish w job (db, err e) = (db, failed)

unfoldable pub publish_item : Attempt → UploadJob → MediaItem → ℕ → Db → Db × Verdict
publish_item w job item now db =
    if not w.publish_runs
    then (db, failed)
    else after_publish w job (publish_media job.upload_id job.lease_token item now db)

-- The copy that a duplicate would keep must be intact.
abbrev pub check_existing : Attempt → Result MediaItem → Bool
check_existing w (ok m) = w.verified m
check_existing w (err no_rows) = true
check_existing w (err e) = false

unfoldable pub resolve_content : Attempt → UploadJob → MediaItem → ℕ → Db → Db × Verdict
resolve_content w job item now db =
    if w.lookup_runs && check_existing w (get_by_sha256 item.sha256 db)
    then publish_item w job item now (w.meanwhile db)
    else (db, failed)

-- After the verified copy: `RecordPrepared`.
abbrev pub prepared :
    Attempt → UploadJob → MediaItem → ℕ → Db → Table × Option StoreError → Db × Verdict
prepared w job item now db (t, none) = resolve_content w job item now (record db { jobs = t })
prepared w job item now db (t, some e) = (db, failed)

-- After `RecordArtifactIdentity`: the copy, its verification and the mark.
abbrev pub copied : Attempt → UploadJob → MediaItem → ℕ → Db → Db × Verdict
copied w job item now db =
    if w.copies && w.copy_verified && w.prepared_runs
    then prepared w job item now db (record_prepared job.upload_id job.lease_token now db.jobs)
    else (db, failed)

abbrev pub identified :
    Attempt → UploadJob → MediaItem → ℕ → Db → Table × Option StoreError → Db × Verdict
identified w job item now db (t, none) = copied w job item now (record db { jobs = t })
identified w job item now db (t, some e) = (db, failed)

abbrev pub sized :
    Attempt → UploadJob → String → MediaKind → String → ℕ → Option ℕ → Db → Db × Verdict
sized w job mime kind sum now none db = (db, failed)
sized w job mime kind sum now (some size) db =
    let item =
      media_item w job (job.media_id ++ w.extension mime job.original_filename) mime kind size
        sum in
    if w.identity_runs
    then identified w job item now db (
        record_artifact_identity job.upload_id job.lease_token item.stored_filename mime sum now
          db.jobs)
    else (db, failed)

abbrev pub hashed : Attempt → UploadJob → String → MediaKind → ℕ → Option String → Db → Db × Verdict
hashed w job mime kind now none db = (db, failed)
hashed w job mime kind now (some sum) db =
    if not (str_eq job.declared_sha256 "") && not (str_eq job.declared_sha256 sum)
    then (db, rejected checksum_mismatch)
    else sized w job mime kind sum now w.size db

abbrev pub classified : Attempt → UploadJob → ℕ → Sniffed → Db → Db × Verdict
classified w job now unsupported db = (db, rejected unsupported_type)
classified w job now sniff_failed db = (db, failed)
classified w job now (recognised mime kind) db =
    if not (w.allowed mime kind)
    then (db, rejected unsupported_type)
    else hashed w job mime kind now w.hash db

unfoldable pub prepare_and_publish : Attempt → UploadJob → ℕ → Db → Db × Verdict
prepare_and_publish w job now db = classified w job now w.sniffed db

unfoldable pub retry_processing : Attempt → UploadJob → ℕ → Db → Db
retry_processing w job now db = record db {
  jobs =
      (release_for_retry job.upload_id job.lease_token pending w.next "processing_failures" w.cause
        now db.jobs).0;
}

abbrev pub rejection_detail : Rejection → String
rejection_detail unsupported_type = "rejected: unsupported or unrecognized file type"
rejection_detail checksum_mismatch = "rejected: checksum mismatch after upload"

abbrev pub conclude : Attempt → UploadJob → ℕ → Db × Verdict → Db
conclude w job now (db, published id duplicate) = db
conclude w job now (db, rejected why) =
    let db' = record_upload_audit w job "" (rejection_detail why) db in
    record db' {
      jobs =
          (finish_job job.upload_id job.lease_token discarding (rejection_reason why) now
            db'.jobs).0;
    }
conclude w job now (db, failed) = retry_processing w job now db

unfoldable pub run_processing : Attempt → UploadJob → ℕ → Db → Db
run_processing w job now db =
    if w.healthy
    then conclude w job now (prepare_and_publish w job now db)
    else retry_processing w job now db
