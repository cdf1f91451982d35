-- ===== src/Http/Proxy/Fence.antt =====
-- backend/internal/httpapi/tus_proxy.go: what the fence lets through to tusd.
use mathlib.Core.Path.{subst}
use event_gallery.Base.{
  ℕ, sym, ◌≡◌, ◌≢◌, ◌⊎◌, inl, inr, refl, true, false, Option, none, some, String, arith, Bool-cases,
  str_eq, str_eq_iff,
}
use event_gallery.Store.Job.{JobStatus, uploading, status_eq, UploadJob}
use event_gallery.Store.Sql.{Table}
use event_gallery.Store.Keys.{Distinct}
use event_gallery.Store.Queue.{get_upload_job}
use event_gallery.Ingest.Durability.{durable, Stat, missing, unreadable, found}
use event_gallery.Ingest.Durability.Barrier.{Committed}
use event_gallery.Http.Reply.{forwarded, Ensured, answered, ensure_durable}
use event_gallery.Http.Hooks.{ensure_durable-Committed}
use event_gallery.Http.Proxy.{
  Refusal, Method, head, patch, TusRequest, Surroundings, tus_upload_id, fence_reply, is_whole,
  fence_job, fence_completed_upload, route, is_fenced, after_fence, handle_tus_proxy,
}

-- The queue does not wait for the source of this upload.
abbrev pub Untracked : Option UploadJob → Type 0
Untracked none = Unit
Untracked (some job) = job.status ≢ uploading

-- The stat of the source failed, or showed no regular file of the admitted size.
abbrev pub Unproved : Stat → ℕ → Type 0
Unproved missing n = Unit
Unproved unreadable n = Unit
Unproved (found regular size) n = (regular ≡ false) ⊎ (size ≢ n)

abbrev pub Partial : Stat → Option UploadJob → Type 0
Partial s none = ⊥
Partial s (some job) = Unproved s job.expected_size

not_whole : (s : Stat) (n : ℕ) → is_whole s n ≡ false → Unproved s n
unfolding is_whole
not_whole missing n e = tt
not_whole unreadable n e = tt
not_whole (found false size) n e = inl refl
not_whole (found true size) n e = inr (λ q. ground arith)

-- Why a request may go through.
abbrev pub Passable : Surroundings → String → Table → Table → Type 0
Passable w id t t' =
    (w.ready ≡ true)
    × ((id ≡ "")
        ⊎ (w.fence_reads ≡ true)
          × (Untracked (get_upload_job id t)
              ⊎ Partial w.fence_stat (get_upload_job id t)
              ⊎ Committed id t'))

fence_reply-none : (e : Ensured) → fence_reply e ≡ none → e ≡ answered durable
unfolding fence_reply
fence_reply-none e k = ground arith

pub not_uploading : (s : JobStatus) → status_eq s uploading ≡ false → s ≢ uploading
unfolding status_eq
not_uploading uploading e = absurd (cc)
not_uploading _ e = λ k. cc

fence_job-Passable :
    (w : Surroundings) (id : String) (now : ℕ) (o : Option UploadJob) (t : Table)
    → Distinct (w.barrier.during (w.between t))
    → (fence_job w id now o t).1 ≡ none
    → Untracked o ⊎ Partial w.fence_stat o ⊎ Committed id (fence_job w id now o t).0
unfolding fence_job
fence_job-Passable w id now none t d = λ k. inl tt
fence_job-Passable w id now (some job) t d = elim (Bool-cases (status_eq job.status uploading)) [
  | inr e ↦ λ k. inl (not_uploading job.status e)
  | inl e ↦ elim (Bool-cases (is_whole w.fence_stat job.expected_size)) [
    | inr f ↦ λ k. inr (inl (not_whole w.fence_stat job.expected_size f))
    | inl f ↦
        simp (e, f)
          (λ k. inr (
            inr (
              ensure_durable-Committed w.admission id now w.barrier (w.between t) d (
                fence_reply-none (ensure_durable w.admission id now w.barrier (w.between t)).1 k))))
  ]
]

fence-Passable :
    (w : Surroundings) (id : String) (now : ℕ) (t : Table)
    → w.attached ≡ true
    → Distinct (w.barrier.during (w.between t))
    → (fence_completed_upload w id now t).1 ≡ none
    → Passable w id t (fence_completed_upload w id now t).0
unfolding fence_completed_upload
fence-Passable w id now t at d = elim (Bool-cases w.ready) [
  | inr e ↦ simp (at, e) (λ k. absurd (cc))
  | inl e ↦ elim (Bool-cases (str_eq id "")) [
    | inl f ↦ λ k. (e, inl ((str_eq_iff id "").0 f))
    | inr f ↦ elim (Bool-cases w.fence_reads) [
      | inr g ↦ simp (at, e, f, g) (λ k. absurd (cc))
      | inl g ↦
          simp (at, e, f, g)
            (λ k. (refl, inr (refl, fence_job-Passable w id now (get_upload_job id t) t d k)))
    ]
  ]
]

routed :
    (w : Surroundings) (m : Method) (id : String) (now : ℕ) (p : Table × Option Refusal)
    → (m ≡ head) ⊎ (m ≡ patch)
    → (after_fence w m id now p).1 ≡ forwarded
    → (p.1 ≡ none) × ((after_fence w m id now p).0 ≡ p.0)
unfolding after_fence route
routed w m id now (t, some (code, retry)) c k = absurd (cc)
routed w m id now (t, none) (inl e) k = (refl, rw e)
routed w m id now (t, none) (inr e) k = (refl, rw e)

data_methods_fenced : (m : Method) → (m ≡ head) ⊎ (m ≡ patch) → is_fenced m ≡ true
unfolding is_fenced
data_methods_fenced m (inl e) = rw e
data_methods_fenced m (inr e) = rw e

passed :
    (w : Surroundings) (m : Method) (id : String) (now : ℕ) (t : Table)
    → (m ≡ head) ⊎ (m ≡ patch)
    → w.attached ≡ true
    → Distinct (w.barrier.during (w.between t))
    → let p = after_fence w m id now (fence_completed_upload w id now t) in
      p.1 ≡ forwarded → Passable w id t p.0
passed w m id now t c at d k =
    let (through, kept) = routed w m id now (fence_completed_upload w id now t) c k in
    subst (λ y. Passable w id t y) (sym kept) (fence-Passable w id now t at d through)

-- With an ingest manager attached, a HEAD or PATCH reaches tusd, which may then report the upload as
-- complete, only after the startup recovery, and if the path names no upload, or the row was read and is
-- not uploading, or the stat of the source failed or showed no regular file of the admitted size, or the
-- row is committed in the database that the handler leaves. Upload ids stay distinct meanwhile.
pub handle_tus_proxy-Passable :
    (w : Surroundings) (q : TusRequest) (now : ℕ) (t : Table)
    → (q.method ≡ head) ⊎ (q.method ≡ patch)
    → w.attached ≡ true
    → Distinct (w.barrier.during (w.between t))
    → (handle_tus_proxy w q now t).1 ≡ forwarded
    → Passable w (tus_upload_id q.base) t (handle_tus_proxy w q now t).0
unfolding handle_tus_proxy
handle_tus_proxy-Passable w q now t c at d = elim (Bool-cases q.allowed) [
  | inr e ↦ simp e (λ k. absurd (cc))
  | inl e ↦ elim (Bool-cases q.overridden) [
    | inl f ↦ simp (e, f) (λ k. absurd (cc))
    | inr f ↦
        simp (e, f, data_methods_fenced q.method c)
          (λ k. passed w q.method (tus_upload_id q.base) now t c at d k)
  ]
]
