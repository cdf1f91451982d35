-- ===== src/Ingest/Reconcile.antt =====
-- backend/internal/ingest/recover.go: `reconcileOne` and its evidence. What one pass sees of an upload
-- on the volume, the clock and the barrier are an argument, and so are the functions of paths and
-- texts of the Go library.
pub mod Pass
pub mod Warrant
pub mod Witness
use Prim.Native.String.{len}
use event_gallery.Base.{
  ℕ, ◌+◌, Bool, true, false, not, ◌&&◌, ◌||◌, Option, none, some, String, List, [], ◌∷◌, ltb, ◌==◌,
  str_eq, is_some, if◌then◌else◌,
}
use event_gallery.Store.Job.{
  JobStatus, uploading, pending, processing, cleanup, complete, discarding, discarded, StoreError,
  UploadJob,
}
use event_gallery.Store.Sql.{Table}
use event_gallery.Store.Queue.{get_upload_job, create_uploading_job}
use event_gallery.Store.Finish.{delete_upload_job, reopen_terminal}
use event_gallery.Ingest.Durability.{Answers, Durability, durable}
use event_gallery.Http.Reply.{Admission, Ensured, answered, ensure_durable}

-- A regular file, with its modification time.
pub record Seen : Type 0 where
  pub size : ℕ
  pub mod_time : ℕ

pub record Info : Type 0 where
  pub id : String
  pub size : ℕ
  pub metadata : String → String
  pub storage_path : String
  pub storage_info_path : String

-- `tussidecar.Parse`: os.ErrNotExist, any other error, or the sidecar.
pub data Parsed : Type 0 where
  parse_missing parse_failed : Parsed
  parsed : Info → Parsed

pub data Evidence : Type 0 where
  trusted : Info → Evidence
  absent untrusted : Evidence

-- The paths of an upload and the library's functions: filepath.Clean, strings.TrimSpace,
-- strings.ToLower, filepath.Base, and `name[:200]` of a longer name, which may cut a rune in two.
pub record Tools : Type 0 where
  pub data_path : String → String
  pub info_path : String → String
  pub clean : String → String
  pub trim : String → String
  pub lower : String → String
  pub base : String → String
  pub truncate : String → String
  pub incomplete_retention : ℕ

abbrev pub shortened : Tools → String → String
shortened tools name =
    if str_eq name "" || str_eq name "." || str_eq name "/"
    then "recovered-upload"
    else if ltb 200 (len name)
    then tools.truncate name
    else name

unfoldable pub sanitize_adopted_filename : Tools → String → String
sanitize_adopted_filename tools name = shortened tools (tools.base (tools.trim name))

-- What one pass sees and gets. `file` is none unless Lstat finds a regular file; `deletes` and `writes` say
-- whether DeleteUploadJob and the statement after it reach the database.
pub record Look : Type 0 where
  pub row_readable : Bool
  pub deletes : Bool
  pub writes : Bool
  pub file : Option Seen
  pub sidecar_present : Bool
  pub sidecar : Parsed
  pub now : ℕ
  pub media_id : String
  pub admission : Admission
  pub answers : Answers

-- `adoptWitness`, under its mutex.
abbrev pub Witnesses : Type 0
Witnesses = List (String × Seen)

abbrev pub witness_of : String → Witnesses → Option Seen
witness_of id [] = none
witness_of id ((k, s) ∷ w) = let rest = witness_of id w in if str_eq k id then some s else rest

-- 48 hours in microseconds, where the retention is off.
unfoldable pub quiet_period : Tools → ℕ
quiet_period tools =
    if tools.incomplete_retention == 0 then 172800000000 else tools.incomplete_retention

abbrev pub same_seen : Option Seen → Seen → Bool
same_seen none s = false
same_seen (some p) s = p.size == s.size && p.mod_time == s.mod_time

unfoldable pub adoption_witnessed : Tools → String → Seen → ℕ → Witnesses → Bool × Witnesses
adoption_witnessed tools id s now w = (
  if ltb now (s.mod_time + quiet_period tools) then false else same_seen (witness_of id w) s,
  (id, s) ∷ w,
)

unfoldable pub describes : Tools → String → Info → Bool
describes tools id info =
    str_eq info.id id
    && str_eq (tools.clean info.storage_path) (tools.clean (tools.data_path id))
    && (str_eq info.storage_info_path ""
        || str_eq (tools.clean info.storage_info_path) (tools.clean (tools.info_path id)))

unfoldable pub trusted_sidecar : Tools → String → Parsed → Evidence
trusted_sidecar tools id parse_missing = absent
trusted_sidecar tools id parse_failed = untrusted
trusted_sidecar tools id (parsed info) = if describes tools id info then trusted info else untrusted

-- The database and the witnesses that a visit leaves, with whether it returned an error.
pub record Visit : Type 0 where
  pub table : Table
  pub witnesses : Witnesses
  pub failed : Bool

abbrev pub leaves : Table → Witnesses → Visit
leaves t w = record { table = t; witnesses = w; failed = false }

abbrev pub fails : Table → Witnesses → Visit
fails t w = record { table = t; witnesses = w; failed = true }

abbrev pub is_error : Ensured → Bool
is_error (answered durable) = false
is_error _ = true

abbrev pub commit_source : Look → String → Witnesses → Table → Visit
commit_source look id w t =
    let (after, e) = ensure_durable look.admission id look.now look.answers t in
    record { table = after; witnesses = w; failed = is_error e }

unfoldable pub adopted_job : Tools → Look → String → ℕ → (String → String) → UploadJob
adopted_job tools look id size metadata = record {
  upload_id = id;
  media_id = look.media_id;
  status = uploading;
  original_filename = sanitize_adopted_filename tools (metadata "filename");
  stored_filename = "";
  mime_type = "";
  expected_size = size;
  declared_sha256 = tools.lower (tools.trim (metadata "sha256"));
  authoritative_sha256 = "";
  guest_name = tools.trim (metadata "guestName");
  uploader_ip = "";
  source_completed_at = none;
  prepared_at = none;
  cancellation_requested_at = none;
  result_media_id = "";
  terminal_reason = "";
  lease_token = "";
  lease_until = none;
  next_attempt_at = 0;
  processing_failures = 0;
  conversion_failures = 0;
  cleanup_failures = 0;
  last_error = "";
  created_at = 0;
  updated_at = 0;
  terminal_at = none;
}

abbrev pub after_create : Look → String → Witnesses → Table × Option StoreError → Visit
after_create look id w (t, none) = commit_source look id w t
after_create look id w (t, some e) = fails t w

unfoldable pub adopt : Tools → Look → String → ℕ → (String → String) → Witnesses → Table → Visit
adopt tools look id size metadata w t =
    if look.writes
    then after_create look id w
        (create_uploading_job (adopted_job tools look id size metadata) look.now t)
    else fails t w

abbrev pub after_witness : Tools → Look → String → Seen → Table → Bool × Witnesses → Visit
after_witness tools look id s t (false, w) = leaves t w
after_witness tools look id s t (true, w) = adopt tools look id s.size (λ key. "") w t

abbrev pub weigh : Tools → Look → String → Seen → Evidence → Witnesses → Table → Visit
weigh tools look id s (trusted info) w t =
    if s.size == info.size then adopt tools look id info.size info.metadata w t else leaves t w
weigh tools look id s untrusted w t = leaves t w
weigh tools look id s absent w t =
    after_witness tools look id s t (adoption_witnessed tools id s look.now w)

-- An upload without a row, where its data file is there.
unfoldable pub reconcile_rowless : Tools → Look → String → Option Seen → Witnesses → Table → Visit
reconcile_rowless tools look id none w t = leaves t w
reconcile_rowless tools look id (some s) w t =
    weigh tools look id s (trusted_sidecar tools id look.sidecar) w t

unfoldable pub reconcile_uploading :
    Look → String → UploadJob → Option Seen → Witnesses → Table → Visit
reconcile_uploading look id job none w t = leaves t w
reconcile_uploading look id job (some s) w t =
    if s.size == job.expected_size then commit_source look id w t else leaves t w

-- The removal of a finished upload starts again.
unfoldable pub reopen_returned : JobStatus → Look → String → Witnesses → Table → Visit
reopen_returned target look id w t =
    let (after, e) = reopen_terminal id target look.now t in
    if look.writes then record { table = after; witnesses = w; failed = is_some e } else fails t w

-- A file of a finished upload came back.
unfoldable pub reopen_finished : JobStatus → Look → String → Witnesses → Table → Visit
reopen_finished target look id w t =
    if not (is_some look.file) && not look.sidecar_present
    then leaves t w
    else reopen_returned target look id w t

-- A row that was closed as unobservable is dropped, and the upload is one without a row.
unfoldable pub readopt : Tools → Look → String → Witnesses → Table → Visit
readopt tools look id w t =
    if look.deletes
    then reconcile_rowless tools look id look.file w (delete_upload_job id t)
    else fails t w

abbrev pub reconcile_status :
    Tools → Look → String → UploadJob → JobStatus → Witnesses → Table → Visit
reconcile_status tools look id job uploading w t = reconcile_uploading look id job look.file w t
reconcile_status tools look id job discarded w t =
    if str_eq job.terminal_reason "unobservable"
    then readopt tools look id w t
    else reopen_finished discarding look id w t
reconcile_status tools look id job complete w t = reopen_finished cleanup look id w t
reconcile_status tools look id job _ w t = leaves t w

abbrev pub reconcile_job : Tools → Look → String → Option UploadJob → Witnesses → Table → Visit
reconcile_job tools look id none w t = reconcile_rowless tools look id look.file w t
reconcile_job tools look id (some job) w t = reconcile_status tools look id job job.status w t

unfoldable pub reconcile_one : Tools → Look → String → Witnesses → Table → Visit
reconcile_one tools look id w t =
    if look.row_readable then reconcile_job tools look id (get_upload_job id t) w t else fails t w

-- `forgetAdoptionCandidates`: the uploads that a pass did not see.
unfoldable pub forget_unseen : (String → Bool) → Witnesses → Witnesses
forget_unseen seen [] = []
forget_unseen seen ((k, s) ∷ w) =
    let rest = forget_unseen seen w in if seen k then (k, s) ∷ rest else rest
