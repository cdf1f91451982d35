-- ===== src/Ingest/Reconcile/Warrant.antt =====
-- What a visit of the reconciler may change, and on which evidence.
use event_gallery.Base.{
  ◌∷◌, ◌+◌, ◌≡◌, ◌≤◌, ◌⊎◌, inl, inr, refl, true, false, Bool-cases, not, ◌&&◌, Option, none, some,
  String, ltb, ◌==◌, str_eq, str_eq_iff, is_some, arith,
}
use event_gallery.Store.Job.{
  JobStatus, uploading, pending, processing, cleanup, complete, discarding, discarded, UploadJob,
}
use event_gallery.Store.Sql.{Table}
use event_gallery.Store.Queue.{get_upload_job}
use event_gallery.Store.Finish.{delete_upload_job, reopen_terminal}
use event_gallery.Http.Reply.{ensure_durable}
use event_gallery.Ingest.Reconcile.{
  readopt, reopen_returned, adopt, Seen, Info, Parsed, parse_missing, parse_failed, parsed, trusted,
  absent, Tools, Look, Witnesses, witness_of, quiet_period, same_seen, adoption_witnessed,
  describes, trusted_sidecar, Visit, weigh, reconcile_rowless, reconcile_uploading, reopen_finished,
  reconcile_status, reconcile_job, reconcile_one,
}

-- Why an upload without a row may be adopted, and with which size and metadata: its own sidecar says
-- that the file is whole, or it has no sidecar, has not changed since an earlier look, and was last
-- written longer ago than the quiet period.
unfoldable pub Finished : Tools → Look → String → Seen → Witnesses → Table → Table → Type 0
Finished tools look id s w t after =
    ((info : Info) × (look.sidecar ≡ parsed info)
      × (describes tools id info ≡ true)
      × (s.size ≡ info.size)
      × (after ≡ (adopt tools look id info.size info.metadata w t).table))
    ⊎ ((look.sidecar ≡ parse_missing)
        × (s.mod_time + quiet_period tools ≤ look.now)
        × ((p : Seen) × (witness_of id w ≡ some p) × (p.size ≡ s.size) × (p.mod_time ≡ s.mod_time))
        × (after ≡ (adopt tools look id s.size (λ key. "") ((id, s) ∷ w) t).table))

-- The data file is there and finished, and the upload was adopted.
abbrev pub Adopted : Tools → Look → String → Witnesses → Table → Table → Type 0
Adopted tools look id w t after =
    (s : Seen) × (look.file ≡ some s) × Finished tools look id s w t after

same_seen_iff :
    (o : Option Seen) (s : Seen)
    → same_seen o s ≡ true
    → (p : Seen) × (o ≡ some p) × (p.size ≡ s.size) × (p.mod_time ≡ s.mod_time)
same_seen_iff none s e = absurd (cc)
same_seen_iff (some p) s e = (p, refl, ground arith, ground arith)

module _ (tools : Tools) (look : Look) (id : String) where
  -- A visit that may not adopt leaves the table that it works on.
  Spares : Seen → Witnesses → Table → Visit → Type 0
  Spares s w t v = (v.table ≡ t) ⊎ Finished tools look id s w t v.table

  weigh-absent :
      (s : Seen) (w : Witnesses) (t : Table)
      → look.sidecar ≡ parse_missing
      → Spares s w t (weigh tools look id s absent w t)
  unfolding Spares Finished adoption_witnessed
  weigh-absent s w t e = elim (Bool-cases (ltb look.now (s.mod_time + quiet_period tools))) [
    | inl f ↦ simp f (inl refl)
    | inr f ↦ elim (Bool-cases (same_seen (witness_of id w) s)) [
      | inr g ↦ simp (f, g) (inl refl)
      | inl g ↦ simp (f, g) (inr (inr (e, ground arith, same_seen_iff (witness_of id w) s g, refl)))
    ]
  ]

  weigh-trusted :
      (s : Seen) (info : Info) (w : Witnesses) (t : Table)
      → look.sidecar ≡ parsed info
      → describes tools id info ≡ true
      → Spares s w t (weigh tools look id s (trusted info) w t)
  unfolding Spares Finished
  weigh-trusted s info w t e d = elim (Bool-cases (s.size == info.size)) [
    | inr f ↦ simp f (inl refl)
    | inl f ↦ simp f (inr (inl (info, e, d, ground arith, refl)))
  ]

  weigh-Spares :
      (s : Seen) (o : Parsed) (w : Witnesses) (t : Table)
      → look.sidecar ≡ o
      → Spares s w t (weigh tools look id s (trusted_sidecar tools id o) w t)
  unfolding Spares trusted_sidecar
  weigh-Spares s parse_missing w t e = weigh-absent s w t e
  weigh-Spares s parse_failed w t e = inl refl
  weigh-Spares s (parsed info) w t e = elim (Bool-cases (describes tools id info)) [
    | inl d ↦ simp d (weigh-trusted s info w t e d)
    | inr d ↦ simp d (inl refl)
  ]

  rowless-Adopted :
      (o : Option Seen) (w : Witnesses) (t : Table)
      → look.file ≡ o
      → ((reconcile_rowless tools look id o w t).table ≡ t)
        ⊎ Adopted tools look id w t (reconcile_rowless tools look id o w t).table
  unfolding reconcile_rowless Spares
  rowless-Adopted none w t e = inl refl
  rowless-Adopted (some s) w t e = elim (weigh-Spares s look.sidecar w t refl) [
    | inl same ↦ inl same
    | inr done ↦ inr (s, e, done)
  ]

-- A file of the upload is on the volume.
abbrev pub Present : Look → Type 0
Present look = (is_some look.file ≡ true) ⊎ (look.sidecar_present ≡ true)

-- What the reconciler may do about an upload, by its row and by what is on the volume.
pub data Warrant (tools : Tools) (look : Look) (id : String) (w : Witnesses) (t after : Table)
    : Type 0 where
  untouched : after ≡ t → Warrant tools look id w t after
  commits_whole :
      (job : UploadJob) (s : Seen)
      → get_upload_job id t ≡ some job
      → job.status ≡ uploading
      → look.file ≡ some s
      → s.size ≡ job.expected_size
      → after ≡ (ensure_durable look.admission id look.now look.answers t).0
      → Warrant tools look id w t after
  removes_again :
      (job : UploadJob) (target : JobStatus)
      → get_upload_job id t ≡ some job
      → ((job.status ≡ complete) × (target ≡ cleanup))
        ⊎ ((job.status ≡ discarded) × (target ≡ discarding))
      → Present look
      → after ≡ (reopen_terminal id target look.now t).0
      → Warrant tools look id w t after
  forgets_unobservable :
      (job : UploadJob)
      → get_upload_job id t ≡ some job
      → job.status ≡ discarded
      → job.terminal_reason ≡ "unobservable"
      → after ≡ delete_upload_job id t
      → Warrant tools look id w t after
  adopts_new :
      get_upload_job id t ≡ none → Adopted tools look id w t after → Warrant tools look id w t after
  adopts_again :
      (job : UploadJob)
      → get_upload_job id t ≡ some job
      → job.status ≡ discarded
      → job.terminal_reason ≡ "unobservable"
      → Adopted tools look id w (delete_upload_job id t) after
      → Warrant tools look id w t after

module _ (tools : Tools) (look : Look) (id : String) (w : Witnesses) (t : Table) where
  abbrev After : Visit → Type 0
  After v = Warrant tools look id w t v.table

  rowless-Warrant :
      get_upload_job id t ≡ none → After (reconcile_rowless tools look id look.file w t)
  rowless-Warrant e = elim (rowless-Adopted tools look id look.file w t refl) [
    | inl same ↦ untouched same
    | inr proof ↦ adopts_new e proof
  ]

  uploading-Warrant :
      (job : UploadJob) (o : Option Seen)
      → get_upload_job id t ≡ some job
      → job.status ≡ uploading
      → look.file ≡ o
      → After (reconcile_uploading look id job o w t)
  unfolding reconcile_uploading
  uploading-Warrant job none e s f = untouched refl
  uploading-Warrant job (some seen) e s f = elim (Bool-cases (seen.size == job.expected_size)) [
    | inl g ↦ simp g (commits_whole job seen e s f (ground arith) refl)
    | inr g ↦ simp g (untouched refl)
  ]

  returned-Warrant :
      (job : UploadJob) (target : JobStatus)
      → get_upload_job id t ≡ some job
      → ((job.status ≡ complete) × (target ≡ cleanup))
        ⊎ ((job.status ≡ discarded) × (target ≡ discarding))
      → Present look
      → After (reopen_returned target look id w t)
  unfolding reopen_returned
  returned-Warrant job target e s here = elim (Bool-cases look.writes) [
    | inl g ↦ simp g (removes_again job target e s here refl)
    | inr g ↦ simp g (untouched refl)
  ]

  finished-Warrant :
      (job : UploadJob) (target : JobStatus)
      → get_upload_job id t ≡ some job
      → ((job.status ≡ complete) × (target ≡ cleanup))
        ⊎ ((job.status ≡ discarded) × (target ≡ discarding))
      → After (reopen_finished target look id w t)
  unfolding reopen_finished
  finished-Warrant job target e s =
      elim (Bool-cases (not (is_some look.file) && not look.sidecar_present)) [
        | inl f ↦ simp f (untouched refl)
        | inr f ↦ simp f (returned-Warrant job target e s (present f))
      ]
    where
      present : not (is_some look.file) && not look.sidecar_present ≡ false → Present look
      present f = elim (Bool-cases (is_some look.file)) [
        | inl g ↦ inl g
        | inr g ↦ inr (ground arith)
      ]

  unobservable-Warrant :
      (job : UploadJob)
      → get_upload_job id t ≡ some job
      → job.status ≡ discarded
      → job.terminal_reason ≡ "unobservable"
      → After (readopt tools look id w t)
  unfolding readopt
  unobservable-Warrant job e s r = elim (Bool-cases look.deletes) [
    | inr f ↦ simp f (untouched refl)
    | inl f ↦ elim (rowless-Adopted tools look id look.file w (delete_upload_job id t) refl) [
      | inl same ↦ simp f (forgets_unobservable job e s r same)
      | inr proof ↦ simp f (adopts_again job e s r proof)
    ]
  ]

  status-Warrant :
      (job : UploadJob) (s : JobStatus)
      → get_upload_job id t ≡ some job
      → job.status ≡ s
      → After (reconcile_status tools look id job s w t)
  status-Warrant job uploading e q = uploading-Warrant job look.file e q refl
  status-Warrant job pending e q = untouched refl
  status-Warrant job processing e q = untouched refl
  status-Warrant job cleanup e q = untouched refl
  status-Warrant job complete e q = finished-Warrant job cleanup e (inl (q, refl))
  status-Warrant job discarding e q = untouched refl
  status-Warrant job discarded e q = elim (Bool-cases (str_eq job.terminal_reason "unobservable")) [
    | inl f ↦
        simp f (unobservable-Warrant job e q ((str_eq_iff job.terminal_reason "unobservable").0 f))
    | inr f ↦ simp f (finished-Warrant job discarding e (inr (q, refl)))
  ]

  job-Warrant :
      (o : Option UploadJob) → get_upload_job id t ≡ o → After (reconcile_job tools look id o w t)
  job-Warrant none e = rowless-Warrant e
  job-Warrant (some job) e = status-Warrant job job.status e refl

  -- A visit of the reconciler leaves the queue as it is, or has a warrant for the one thing it does: an
  -- upload in transfer runs the barrier only when its data file has the expected size; a finished one
  -- is reopened for removal only when a file of it is on the volume; one that was closed as unobservable
  -- loses that row; and one without a row, or closed as unobservable, is adopted only when its own
  -- sidecar says that the file is whole, with the size and metadata of that sidecar, or when it has no
  -- sidecar, is unchanged since the last look and was last written longer ago than the quiet period,
  -- with the size of the file and no metadata. Rows that workers own are never touched.
  pub reconcile_one-Warrant : Warrant tools look id w t (reconcile_one tools look id w t).table
  unfolding reconcile_one
  reconcile_one-Warrant = elim (Bool-cases look.row_readable) [
    | inl e ↦ simp e (job-Warrant (get_upload_job id t) refl)
    | inr e ↦ simp e (untouched refl)
  ]
