-- ===== src/Http/Hooks.antt =====
-- backend/internal/httpapi/tus_hooks.go: the pre-finish hook, whose answer becomes that of the
-- upload's last PATCH.
use event_gallery.Base.{
  ℕ, ◌≡◌, Bool, true, false, not, ◌||◌, none, some, String, if◌then◌else◌, arith, Bool-cases, inl,
  inr, str_eq,
}
use event_gallery.Base.Int.{ℤ, not_positive, eq_ℤ}
use event_gallery.Store.Sql.{Table}
use event_gallery.Store.Keys.{Distinct}
use event_gallery.Ingest.UploadId.{safe_upload_id}
use event_gallery.Ingest.Durability.{Answers, durable, final, transient}
use event_gallery.Ingest.Durability.Barrier.{Committed, make_durable-Committed}
use event_gallery.Http.Reply.{
  Reply, forwarded, status, Admission, runs, saturated, closing, Ensured, answered, busy,
  shutting_down, out_of_time, ensure_durable,
}

-- The fields of the hook's request that the handler reads. `path_matches` compares the cleaned storage path
-- with the one derived from the id.
pub record FinishRequest : Type 0 where
  pub upload_id : String
  pub storage_type : String
  pub path_matches : Bool
  pub size : ℤ
  pub offset : ℤ

-- `preFinishRetry` and `preFinishFinal`.
abbrev pub pre_finish_retry : Reply
pre_finish_retry = status 503 (some 5)

abbrev pub pre_finish_final : ℕ → Reply
pre_finish_final code = status code none

unfoldable pub pre_finish_reply : Ensured → Reply
pre_finish_reply (answered durable) = forwarded
pre_finish_reply (answered final) = pre_finish_final 410
pre_finish_reply (answered transient) = pre_finish_retry
pre_finish_reply busy = pre_finish_retry
pre_finish_reply shutting_down = pre_finish_retry
pre_finish_reply out_of_time = pre_finish_retry

-- `attached` says whether the ingest manager is set.
unfoldable pub handle_pre_finish_hook :
    Bool → FinishRequest → Admission → ℕ → Answers → Table → Table × Reply
handle_pre_finish_hook attached q adm now a t =
    if not attached
    then (t, pre_finish_retry)
    else if not (safe_upload_id q.upload_id)
    then (t, pre_finish_final 400)
    else if not (str_eq q.storage_type "filestore")
    then (t, pre_finish_final 400)
    else if not q.path_matches
    then (t, pre_finish_final 400)
    else if not_positive q.size || not (eq_ℤ q.offset q.size)
    then (t, pre_finish_final 400)
    else let (t', e) = ensure_durable adm q.upload_id now a t in (t', pre_finish_reply e)

pub ensure_durable-Committed :
    (adm : Admission) (id : String) (now : ℕ) (a : Answers) (t : Table)
    → Distinct (a.during t)
    → (ensure_durable adm id now a t).1 ≡ answered durable
    → Committed id (ensure_durable adm id now a t).0
unfolding ensure_durable
ensure_durable-Committed saturated id now a t d k = absurd (cc)
ensure_durable-Committed closing id now a t d k = absurd (cc)
ensure_durable-Committed (runs true) id now a t d k =
    make_durable-Committed id now a t d (ground arith)
ensure_durable-Committed (runs false) id now a t d k = absurd (cc)

pre_finish_reply-forwarded : (e : Ensured) → pre_finish_reply e ≡ forwarded → e ≡ answered durable
unfolding pre_finish_reply
pre_finish_reply-forwarded e k = ground arith

-- The last PATCH of an upload is reported as a success only when the row of the upload stands, in
-- the database that the hook leaves, in pending or a later stage of publication.
pub handle_pre_finish_hook-Committed :
    (attached : Bool) (q : FinishRequest) (adm : Admission) (now : ℕ) (a : Answers) (t : Table)
    → Distinct (a.during t)
    → (handle_pre_finish_hook attached q adm now a t).1 ≡ forwarded
    → Committed q.upload_id (handle_pre_finish_hook attached q adm now a t).0
unfolding handle_pre_finish_hook
handle_pre_finish_hook-Committed false q adm now a t d = λ k. absurd (cc)
handle_pre_finish_hook-Committed true q adm now a t d =
    elim (Bool-cases (safe_upload_id q.upload_id)) [
      | inr e ↦ simp e (λ k. absurd (cc))
      | inl e ↦ elim (Bool-cases (str_eq q.storage_type "filestore")) [
        | inr f ↦ simp (e, f) (λ k. absurd (cc))
        | inl f ↦ elim (Bool-cases q.path_matches) [
          | inr g ↦ simp (e, f, g) (λ k. absurd (cc))
          | inl g ↦ elim (Bool-cases (not_positive q.size || not (eq_ℤ q.offset q.size))) [
            | inl h ↦ simp (e, f, g, h) (λ k. absurd (cc))
            | inr h ↦
                simp (e, f, g, h)
                  (λ k.
                    ensure_durable-Committed adm q.upload_id now a t d
                      (pre_finish_reply-forwarded (ensure_durable adm q.upload_id now a t).1 k))
          ]
        ]
      ]
    ]
