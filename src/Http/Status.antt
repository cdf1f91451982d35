-- ===== src/Http/Status.antt =====
-- backend/internal/httpapi/uploads_status.go: what the browser is told of its uploads, whose ids are
-- the only credential.
pub mod Answers
pub mod Told
use mathlib.Core.Path.{subst}
use event_gallery.Base.{
  ℕ, zero, suc, ◌≡◌, ◌≢◌, ◌⊎◌, inl, inr, refl, sym, Bool, true, false, not, ◌&&◌, ◌||◌, Option,
  none, some, String, List, [], ◌∷◌, length, ltb, ◌==◌, arith, Bool-cases, Option-cases, All,
  str_eq, str_eq_iff, if◌then◌else◌, is_some,
}
use event_gallery.Store.Job.{
  JobStatus, uploading, pending, processing, cleanup, complete, discarding, discarded, StoreError,
  no_rows, Result, ok, err, UploadJob,
}
use event_gallery.Store.Queue.{get_upload_job}
use event_gallery.Store.Media.{Db, MediaItem, find_media, get_visible_by_id, is_visible}

pub data State : Type 0 where
  state_unknown state_recovering state_uploading state_processing state_published state_duplicate
        state_cancelled state_failed :
      State

pub record Entry : Type 0 where
  pub state : State
  pub media_id : String

-- The outcome of a request: refused as malformed, refused for now, or answered.
pub data StatusReply : Type 0 where
  bad_request : StatusReply
  retry_later : StatusReply
  answers : List (String × Entry) → StatusReply

-- Whether the reads of each id reach the database.
pub record Reads : Type 0 where
  pub jobs_readable : String → Bool
  pub media_readable : String → Bool

abbrev pub entry : State → String → Entry
entry s m = record { state = s; media_id = m }

unfoldable pub shown_id : String → Result MediaItem → Option String
shown_id id (ok m) = some id
shown_id id (err no_rows) = some ""
shown_id id (err _) = none

unfoldable pub visible_media_id : Bool → String → Db → Option String
visible_media_id readable id db =
    if str_eq id ""
    then some ""
    else if not readable
    then none
    else shown_id id (get_visible_by_id id db)

unfoldable pub ended_state : String → State
ended_state reason =
    if str_eq reason "cancelled" || str_eq reason "unobservable"
    then state_cancelled
    else state_failed

unfoldable pub published_state : UploadJob → State
published_state job =
    if not (str_eq job.result_media_id "") && not (str_eq job.result_media_id job.media_id)
    then state_duplicate
    else state_published

unfoldable pub published_entry : UploadJob → Option String → Option Entry
published_entry job none = none
published_entry job (some m) = some (entry (published_state job) m)

unfoldable pub status_entry : Bool → UploadJob → JobStatus → Db → Option Entry
status_entry readable job uploading db =
    some (
      entry (if is_some job.cancellation_requested_at then state_cancelled else state_uploading) "")
status_entry readable job pending db = some (entry state_processing "")
status_entry readable job processing db = some (entry state_processing "")
status_entry readable job discarding db = some (entry (ended_state job.terminal_reason) "")
status_entry readable job discarded db = some (entry (ended_state job.terminal_reason) "")
status_entry readable job _ db =
    published_entry job (visible_media_id readable job.result_media_id db)

unfoldable pub public_upload_state : Bool → Option UploadJob → Db → Option Entry
public_upload_state readable none db = some (entry state_unknown "")
public_upload_state readable (some job) db = status_entry readable job job.status db

unfoldable pub answered_already : String → List (String × Entry) → Bool
answered_already id [] = false
answered_already id ((k, e) ∷ m) = let rest = answered_already id m in str_eq k id || rest

-- One turn of the loop; `recovering` is the startup inventory.
unfoldable pub answer_one : Bool → Reads → Db → String → Option Entry
answer_one recovering reads db id =
    if not (reads.jobs_readable id)
    then none
    else let job = get_upload_job id db.jobs in
      if not (is_some job) && recovering
      then some (entry state_recovering "")
      else public_upload_state (reads.media_readable id) job db

unfoldable pub store_answer :
    String → Option Entry → List (String × Entry) → Option (List (String × Entry))
store_answer id none m = none
store_answer id (some e) m = some ((id, e) ∷ m)

unfoldable pub answer_next :
    Bool → Reads → Db → String → Option (List (String × Entry)) → Option (List (String × Entry))
answer_next recovering reads db id none = none
answer_next recovering reads db id (some m) =
    if answered_already id m then some m else store_answer id (answer_one recovering reads db id) m

-- The loop over the ids, with the answers so far.
unfoldable pub answer_all :
    Bool
    → Reads
    → Db
    → List String
    → Option (List (String × Entry))
    → Option (List (String × Entry))
answer_all recovering reads db [] m = m
answer_all recovering reads db (id ∷ ids) m =
    answer_all recovering reads db ids (answer_next recovering reads db id m)

unfoldable pub reply_of : Option (List (String × Entry)) → StatusReply
reply_of none = retry_later
reply_of (some m) = answers m

unfoldable pub handle_upload_status : Bool → Reads → Db → List String → StatusReply
handle_upload_status recovering reads db ids =
    if length ids == 0 || ltb 100 (length ids)
    then bad_request
    else reply_of (answer_all recovering reads db ids (some []))
