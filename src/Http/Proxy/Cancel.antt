-- ===== src/Http/Proxy/Cancel.antt =====
-- backend/internal/httpapi/tus_proxy.go: what `handleTusDelete` does.
use event_gallery.Base.{
  ℕ, ◌≡◌, ◌≢◌, ◌⊎◌, inl, inr, refl, ap, ◌∙◌, if◌then◌else◌, Bool, true, false, ◌&&◌, Option, none,
  some, String, [], ◌∷◌, map, arith, Bool-cases, str_eq, str_eq_iff, is_some, All,
}
use event_gallery.Store.Job.{uploading, status_eq, StoreError, not_claimed, UploadJob, Row}
use event_gallery.Store.Sql.{Table, update_where, find_row}
use event_gallery.Store.Keys.{Distinct}
use event_gallery.Store.Queue.{get_upload_job, request_cancellation}
use event_gallery.Store.Rows.{exec_success, exec_failure}
use event_gallery.Http.Reply.{Reply, status}
use event_gallery.Http.Proxy.Fence.{not_uploading}
use event_gallery.Http.Proxy.{Surroundings, cancel_reply, delete_job, handle_tus_delete}

-- A row, less the cancellation and the time of update if it is one of the upload.
abbrev pub uncancelled : String → Row → Row
uncancelled id r =
    if str_eq r.upload_id id
    then record r { cancellation_requested_at = none; updated_at = 0 }
    else r

-- What a cancellation of the upload may not change: every other row, and every other column.
abbrev pub stands : String → Table → Table
stands id t = map (uncancelled id) t

-- The row of the upload is uploading, with the cancellation recorded.
abbrev pub Cancelled : String → Table → Type 0
Cancelled id t =
    (r : Row) × (find_row id t ≡ some r)
    × (r.status ≡ uploading)
    × (is_some r.cancellation_requested_at ≡ true)

abbrev pub PastUploading : Option UploadJob → Type 0
PastUploading none = ⊥
PastUploading (some job) = job.status ≢ uploading

-- No row of the upload is uploading.
abbrev pub NoneUploading : String → Table → Type 0
NoneUploading id t =
    All (λ (r : Row). (str_eq r.upload_id id && status_eq r.status uploading) ≡ false) t

-- What an answered DELETE has done, where `o` is the row that it read, `t` the table before, and
-- `t'` the table it leaves.
abbrev pub Deleted : Surroundings → String → Option UploadJob → Table → Table × Reply → Type 0
Deleted w id o t (t', r) =
    ((t' ≡ t) ⊎ (stands id t' ≡ stands id (w.before_write t)))
    × ((r ≡ status 204 none) × ((id ≡ "") ⊎ (o ≡ none) ⊎ Cancelled id t')
        ⊎ (r ≡ status 409 none) × (PastUploading o ⊎ NoneUploading id t')
        ⊎ (r ≡ status 500 none))

stands-update_where :
    (id : String) (p : Row → Bool) (f : Row → Row) (t : Table)
    → ((r : Row) → p r ≡ true → uncancelled id (f r) ≡ uncancelled id r)
    → stands id (update_where p f t) ≡ stands id t
unfolding update_where
stands-update_where id p f [] k = refl
stands-update_where id p f (r ∷ t) k =
    let rest = stands-update_where id p f t k in
    elim (Bool-cases (p r)) [
      | inl e ↦ simp e (
          ap (λ (x : Row). x ∷ stands id (update_where p f t)) (k r e)
          ∙ ap (λ (xs : Table). uncancelled id r ∷ xs) rest)
      | inr e ↦ simp e (ap (λ (xs : Table). uncancelled id r ∷ xs) rest)
    ]

request-stands :
    (id : String) (now : ℕ) (t : Table) → stands id (request_cancellation id now t).0 ≡ stands id t
unfolding request_cancellation
request-stands id now t =
    stands-update_where id _ _ t
      λ r e. let ours : str_eq r.upload_id id ≡ true = ground arith in simp ours refl

request-Cancelled :
    (id : String) (now : ℕ) (t : Table)
    → Distinct t
    → (request_cancellation id now t).1 ≡ none
    → Cancelled id (request_cancellation id now t).0
unfolding request_cancellation status_eq
request-Cancelled id now t d e =
    let (r, at, q, written) =
      exec_success (λ r. str_eq r.upload_id id && status_eq r.status uploading) _ id t d (λ x. refl)
        (λ r q. (str_eq_iff r.upload_id id).0 (ground arith)) e in
    (_, written, ground arith, ground arith)

request-NoneUploading :
    (id : String) (now : ℕ) (t : Table)
    → (request_cancellation id now t).1 ≢ none
    → NoneUploading id (request_cancellation id now t).0
unfolding request_cancellation
request-NoneUploading id now t e =
    exec_failure (λ r. str_eq r.upload_id id && status_eq r.status uploading) _ t e

answered_cancel :
    (w : Surroundings) (id : String) (job : UploadJob) (t u : Table) (e : Option StoreError)
    → stands id u ≡ stands id (w.before_write t)
    → (e ≡ none → Cancelled id u)
    → (e ≢ none → NoneUploading id u)
    → Deleted w id (some job) t (u, cancel_reply true e)
unfolding cancel_reply
answered_cancel w id job t u none s c n = (inr s, inl (refl, inr (inr (c refl))))
answered_cancel w id job t u (some not_claimed) s c n = (inr s, inr (inl (refl, inr (n (λ k. cc)))))
answered_cancel w id job t u (some _) s c n = (inr s, inr (inr refl))

delete_job-Deleted :
    (w : Surroundings) (id : String) (now : ℕ) (o : Option UploadJob) (t : Table)
    → Distinct (w.before_write t)
    → Deleted w id o t (delete_job w id now o t)
unfolding delete_job cancel_reply
delete_job-Deleted w id now none t d = (inl refl, inl (refl, inr (inl refl)))
delete_job-Deleted w id now (some job) t d = elim (Bool-cases (status_eq job.status uploading)) [
  | inr e ↦ simp e (inl refl, inr (inl (refl, inl (not_uploading job.status e))))
  | inl e ↦ elim (Bool-cases w.delete_writes) [
    | inl f ↦
        simp (e, f)
          (answered_cancel w id job t (request_cancellation id now (w.before_write t)).0
            (request_cancellation id now (w.before_write t)).1
            (request-stands id now (w.before_write t))
            (request-Cancelled id now (w.before_write t) d)
            (request-NoneUploading id now (w.before_write t)))
    | inr f ↦ simp (e, f) (inr refl, inr (inr refl))
  ]
]

-- `handleTusDelete`, to which a DELETE comes that the fence before it lets through, answers with 204, 409
-- or 500 and forwards nothing. It writes nothing, or only the cancellation and its time on a row of the
-- upload: every other row and every other column, the status included, is as it was when it wrote.
-- The answer is 204 only if the path names no upload, the row is absent or the cancellation is
-- recorded on an uploading row, and 409 only if the row that it read, or then every row of the
-- upload, is past uploading. Upload ids stay distinct meanwhile.
pub handle_tus_delete-Deleted :
    (w : Surroundings) (id : String) (now : ℕ) (t : Table)
    → Distinct (w.before_write t)
    → Deleted w id (get_upload_job id t) t (handle_tus_delete w id now t)
unfolding handle_tus_delete
handle_tus_delete-Deleted w id now t d = elim (Bool-cases (str_eq id "")) [
  | inl e ↦ simp e (inl refl, inl (refl, inl ((str_eq_iff id "").0 e)))
  | inr e ↦ elim (Bool-cases w.delete_reads) [
    | inl f ↦ simp (e, f) (delete_job-Deleted w id now (get_upload_job id t) t d)
    | inr f ↦ simp (e, f) (inl refl, inr (inr refl))
  ]
]
