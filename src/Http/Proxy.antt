-- ===== src/Http/Proxy.antt =====
-- backend/internal/httpapi/tus_proxy.go: the public tus route. It fences a completed upload that is not
-- committed yet, answers DELETE itself, and forwards the rest to tusd.
pub mod Fence
pub mod Cancel
use event_gallery.Base.{
  ℕ, Bool, true, false, not, ◌&&◌, ◌||◌, Option, none, some, String, ◌==◌, ltb, if◌then◌else◌,
  str_eq, is_some,
}
use event_gallery.Store.Job.{
  JobStatus, uploading, pending, processing, status_eq, StoreError, not_claimed, UploadJob,
}
use event_gallery.Store.Sql.{Table}
use event_gallery.Store.Queue.{get_upload_job, request_cancellation}
use event_gallery.Ingest.UploadId.{safe_upload_id}
use event_gallery.Ingest.Durability.{
  Answers, durable, final, transient, Stat, missing, unreadable, found,
}
use event_gallery.Http.Reply.{
  Reply, forwarded, status, Admission, Ensured, answered, busy, shutting_down, out_of_time,
  ensure_durable,
}

pub data Method : Type 0 where
  post head patch delete other_method : Method

-- The request as the handler reads it: whether the limiter lets it through, whether the override
-- header is set, and `base`, the last segment of its path.
pub record TusRequest : Type 0 where
  pub allowed : Bool
  pub overridden : Bool
  pub method : Method
  pub base : String

-- What the parts around the handler answer. `before_write` is what others commit between the read and
-- the write of a DELETE, `between` what they commit between the fence's read and the barrier.
pub record Surroundings : Type 0 where
  pub attached : Bool
  pub ready : Bool
  pub fence_reads : Bool
  pub fence_stat : Stat
  pub between : Table → Table
  pub admission : Admission
  pub barrier : Answers
  pub delete_reads : Bool
  pub before_write : Table → Table
  pub delete_writes : Bool
  pub closed : Option Bool
  pub slot_free : Bool

-- `tusUploadIDFromPath`, from the path's last segment.
unfoldable pub tus_upload_id : String → String
tus_upload_id base =
    if str_eq base "tus" || str_eq base "." || str_eq base "/"
    then ""
    else if not (safe_upload_id base)
    then ""
    else base

-- A refusal: its code and its Retry-After.
abbrev pub Refusal : Type 0
Refusal = ℕ × Option ℕ

abbrev pub fence_retry : Refusal
fence_retry = (503, some 5)

-- What the fence answers in place of forwarding, if it does.
unfoldable pub fence_reply : Ensured → Option Refusal
fence_reply (answered durable) = none
fence_reply (answered final) = some (410, none)
fence_reply (answered transient) = some fence_retry
fence_reply busy = some fence_retry
fence_reply shutting_down = some fence_retry
fence_reply out_of_time = some fence_retry

-- `stat` finds a regular file of the size that the row expects.
unfoldable pub is_whole : Stat → ℕ → Bool
is_whole missing expected = false
is_whole unreadable expected = false
is_whole (found regular size) expected = regular && size == expected

unfoldable pub fence_job :
    Surroundings → String → ℕ → Option UploadJob → Table → Table × Option Refusal
fence_job w id now none t = (t, none)
fence_job w id now (some job) t =
    if not (status_eq job.status uploading)
    then (t, none)
    else if not (is_whole w.fence_stat job.expected_size)
    then (t, none)
    else let (t', e) = ensure_durable w.admission id now w.barrier (w.between t) in
      (t', fence_reply e)

unfoldable pub fence_completed_upload : Surroundings → String → ℕ → Table → Table × Option Refusal
fence_completed_upload w id now t =
    if not w.attached
    then (t, none)
    else if not w.ready
    then (t, some fence_retry)
    else if str_eq id ""
    then (t, none)
    else if not w.fence_reads
    then (t, some fence_retry)
    else fence_job w id now (get_upload_job id t) t

unfoldable pub cancel_reply : Bool → Option StoreError → Reply
cancel_reply false e = status 500 none
cancel_reply true none = status 204 none
cancel_reply true (some not_claimed) = status 409 none
cancel_reply true (some e) = status 500 none

unfoldable pub delete_job : Surroundings → String → ℕ → Option UploadJob → Table → Table × Reply
delete_job w id now none t = (t, status 204 none)
delete_job w id now (some job) t =
    if not (status_eq job.status uploading)
    then (t, status 409 none)
    else let t' = w.before_write t in
      let (t'', e) = request_cancellation id now t' in
      (if w.delete_writes then t'' else t', cancel_reply w.delete_writes e)

unfoldable pub handle_tus_delete : Surroundings → String → ℕ → Table → Table × Reply
handle_tus_delete w id now t =
    if str_eq id ""
    then (t, status 204 none)
    else if not w.delete_reads
    then (t, status 500 none)
    else delete_job w id now (get_upload_job id t) t

-- `uploadsClosed`: the stored expiry, if any, and the parser of the times, which the code gets from Go's
-- library. A failed read of the configuration is `none`.
unfoldable pub uploads_closed : (String → Option ℕ) → Option (Option String) → ℕ → Option Bool
uploads_closed parse none now = none
uploads_closed parse (some none) now = some false
uploads_closed parse (some (some value)) now =
    if str_eq value ""
    then some false
    else some (elim (parse value) [ none ↦ false | some expires ↦ ltb expires now ])

unfoldable pub post_reply : Option Bool → Reply
post_reply none = status 500 none
post_reply (some true) = status 403 none
post_reply (some false) = forwarded

unfoldable pub patch_reply : Bool → Reply
patch_reply slot_free = if slot_free then forwarded else status 429 none

-- The end of the handler, for a request that the fence lets through.
unfoldable pub route : Surroundings → Method → String → ℕ → Table → Table × Reply
route w post id now t = (t, post_reply w.closed)
route w patch id now t = (t, patch_reply w.slot_free)
route w delete id now t = handle_tus_delete w id now t
route w _ id now t = (t, forwarded)

unfoldable pub is_fenced : Method → Bool
is_fenced post = false
is_fenced other_method = false
is_fenced _ = true

unfoldable pub after_fence :
    Surroundings → Method → String → ℕ → Table × Option Refusal → Table × Reply
after_fence w m id now (t, some (code, retry)) = (t, status code retry)
after_fence w m id now (t, none) = route w m id now t

unfoldable pub handle_tus_proxy : Surroundings → TusRequest → ℕ → Table → Table × Reply
handle_tus_proxy w q now t =
    if not q.allowed
    then (t, status 429 none)
    else if q.overridden
    then (t, status 400 none)
    else let id = tus_upload_id q.base in
      after_fence w q.method id now
        (if is_fenced q.method then fence_completed_upload w id now t else (t, none))

-- `Terminate`: what the queue may still need is refused, and tusd is asked to remove the rest. `tusd`
-- is its DELETE, over whatever files it works on.
unfoldable pub may_terminate : Option UploadJob → Bool
may_terminate none = true
may_terminate (some job) = not (
    status_eq job.status uploading
    || status_eq job.status pending
    || status_eq job.status processing)

unfoldable pub terminate {ℓ} :
    {D : Type ℓ} → Bool → (String → D → D × Bool) → String → Table → D → D × Bool
terminate row_readable tusd id t d =
    if row_readable && may_terminate (get_upload_job id t) then tusd id d else (d, false)
