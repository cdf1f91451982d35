-- ===== src/Ingest/Removal/Progress.antt =====
-- A stage that deletes gets done: when the system calls answer, one attempt ends in the terminal state.
use event_gallery.Base.{
  ℕ, ◌≡◌, ◌⊎◌, ◌∙◌, sym, none, some, inl, inr, refl, Bool, true, false, ◌&&◌, String, [], ◌∷◌,
  arith, Bool-cases, str_eq_refl,
}
use mathlib.Core.Path.{subst}
use event_gallery.Store.Job.{
  UploadJob, JobStatus, cleanup, complete, discarding, discarded, status_eq, is_terminal, Row,
}
use event_gallery.Store.Sql.{Table, find_row, find_row-update_where}
use event_gallery.Store.Queue.{owns, finish_job, finished}
use event_gallery.Store.Media.{Db, get_by_id}
use event_gallery.Ingest.Protocol.{finish_stage}
use event_gallery.Ingest.Removal.{
  File, data_file, info_file, original, thumbnail, preview, temporary, file_eq, Disk, holds,
  without, World, stat_file, unlink, and_then, check_health, terminate_found, sync_dir, drop_rest,
  clear_source, is_absent, verify_gone, remove_source, sweep_temporaries, settle_removal, disown,
  remove_artifacts_if_unowned, erase_source, run_removal,
}
use event_gallery.Ingest.Removal.Files.{file_eq-same}
use event_gallery.Ingest.Removal.Absence.{Gone, and_then-last, erase_source-done}

-- Every query and system call of the attempt is answered.
abbrev pub Answering : World → Type 0
Answering w =
    (w.writes ≡ true)
    × (w.owner_readable ≡ true)
    × ((n : ℕ) → w.stats n ≡ true)
    × ((n : ℕ) → w.syncs n ≡ true)
    × ((f : File) → w.unlinks f ≡ true)

-- The terminator succeeds for the upload, and afterwards at most one of its two files is left.
abbrev pub Terminates : World → String → Table → Type 0
Terminates w id t =
    (d : Disk)
    → ((w.terminator id t d).1 ≡ true)
      × ((holds (data_file id) (w.terminator id t d).0
            && holds (info_file id) (w.terminator id t d).0)
          ≡ false)

file_eq_refl : (f : File) → file_eq f f ≡ true
unfolding file_eq
file_eq_refl (data_file a) = str_eq_refl a
file_eq_refl (info_file a) = str_eq_refl a
file_eq_refl (original a) = str_eq_refl a
file_eq_refl (thumbnail a) = str_eq_refl a
file_eq_refl (preview a) = str_eq_refl a
file_eq_refl (temporary a s) = ground (arith, str_eq_refl a, str_eq_refl s)

pub without-gone : (f : File) (d : Disk) → holds f (without (file_eq f) d) ≡ false
unfolding holds without
without-gone f [] = refl
without-gone f (g ∷ d) = elim (Bool-cases (file_eq f g)) [
  | inl e ↦ rw e (without-gone f d)
  | inr e ↦ elim (Bool-cases (file_eq g f)) [
    | inl q ↦ let same : g ≡ f = file_eq-same g f q in absurd (ground (arith, same, file_eq_refl f))
    | inr q ↦ ground (arith, without-gone f d)
  ]
]

without-less :
    (p : File → Bool) (f : File) (d : Disk) → holds f d ≡ false → holds f (without p d) ≡ false
unfolding holds without
without-less p f [] h = h
without-less p f (g ∷ d) h = ground (arith, without-less p f d)

-- The attempt goes on, with files that satisfy `P`.
abbrev Reaches {ℓ} : (Disk → Type ℓ) → Disk × Bool → Type ℓ
Reaches P p = (p.1 ≡ true) × P p.0

and_then-Reaches {ℓ κ} :
    (P : Disk → Type ℓ) (Q : Disk → Type κ) (p : Disk × Bool) (k : Disk → Disk × Bool)
    → Reaches P p
    → ((d : Disk) → P d → Reaches Q (k d))
    → Reaches Q (and_then p k)
and_then-Reaches P Q (d, true) k h step = step d h.1
and_then-Reaches P Q (d, false) k h step = absurd (ground (arith, h.0))

abbrev Always : Disk → Type 0
Always d = Unit

abbrev NotBoth : String → Disk → Type 0
NotBoth id d = (holds (data_file id) d && holds (info_file id) d) ≡ false

module _ (w : World) (answers : Answering w) (id : String) (t : Table) where
  terminate-Reaches :
      (d : Disk)
      → Terminates w id t
      → Reaches (NotBoth id) (terminate_found w id t (stat_file (w.stats 0) (data_file id) d) d)
  unfolding stat_file
  terminate-Reaches d h = elim (Bool-cases (holds (data_file id) d)) [
    | inl e ↦ simp (e, answers.2 0) (h d)
    | inr e ↦ simp (e, answers.2 0) (refl, refl)
  ]

  sync-Reaches {ℓ} : (P : Disk → Type ℓ) (n : ℕ) (d : Disk) → P d → Reaches P (sync_dir w n d)
  unfolding sync_dir
  sync-Reaches P n d h = (answers.3 n, h)

  unlink-Reaches :
      (f : File) (d : Disk) → holds f d ≡ true → unlink w f d ≡ (without (file_eq f) d, true)
  unfolding unlink
  unlink-Reaches f d h = rw (h, answers.4 f) refl

  drop_rest-Reaches : (d : Disk) → NotBoth id d → Reaches (Gone id) (drop_rest w id d)
  unfolding drop_rest stat_file
  drop_rest-Reaches d h = elim (Bool-cases (holds (data_file id) d)) [
    | inl e ↦ elim (Bool-cases (holds (info_file id) d)) [
      | inl q ↦ absurd (ground arith)
      | inr q ↦
          simp (e, q, answers.2 1, answers.2 2)
            (rw (unlink-Reaches (data_file id) d e) (
              refl,
              (
                without-gone (data_file id) d,
                without-less (file_eq (data_file id)) (info_file id) d q,
              ),
            ))
    ]
    | inr e ↦ elim (Bool-cases (holds (info_file id) d)) [
      | inl q ↦
          simp (e, q, answers.2 1, answers.2 2)
            (rw (unlink-Reaches (info_file id) d q) (
              refl,
              (
                without-less (file_eq (info_file id)) (data_file id) d e,
                without-gone (info_file id) d,
              ),
            ))
      | inr q ↦ simp (e, q, answers.2 1, answers.2 2) (refl, (refl, refl))
    ]
  ]

  verify_gone-Reaches : (d : Disk) → Gone id d → (verify_gone w id d).1 ≡ true
  unfolding verify_gone stat_file is_absent
  verify_gone-Reaches d (g, i) = rw (g, i, answers.2 3, answers.2 4) refl

  remove_source-Reaches : (d : Disk) → Terminates w id t → (remove_source w id t d).1 ≡ true
  unfolding remove_source clear_source
  remove_source-Reaches d h =
      let p = terminate_found w id t (stat_file (w.stats 0) (data_file id) d) d in
      let r =
        and_then-Reaches (NotBoth id) (NotBoth id) p (sync_dir w 0) (terminate-Reaches d h)
          (sync-Reaches (NotBoth id) 0) in
      let r' =
        and_then-Reaches (NotBoth id) (Gone id) (and_then p (sync_dir w 0)) (drop_rest w id) r
          drop_rest-Reaches in
      let r'' =
        and_then-Reaches (Gone id) (Gone id) (and_then (and_then p (sync_dir w 0)) (drop_rest w id))
          (sync_dir w 1) r' (sync-Reaches (Gone id) 1) in
      (and_then-Reaches (Gone id) Always (clear_source w id t d) (verify_gone w id) r''
        (λ d' g. (verify_gone-Reaches d' g, tt))).0

disown-Reaches :
    (disowns : Bool) (w : World) (job : UploadJob) (db : Db) (d : Disk)
    → w.owner_readable ≡ true
    → (disown disowns w job db d).1 ≡ true
unfolding disown remove_artifacts_if_unowned get_by_id
disown-Reaches disowns w job db d e = ground arith

disown_ready :
    (disowns : Bool) (w : World) (job : UploadJob) (db : Db) (d : Disk)
    → Answering w
    → Reaches Always (disown disowns w job db d)
disown_ready disowns w job db d a = (disown-Reaches disowns w job db d a.1, tt)

settle_removal-done :
    (w : World) (job : UploadJob) (now : ℕ) (t : Table) (p : Disk × Bool)
    → w.writes ≡ true
    → p.1 ≡ true
    → settle_removal w job now t p ≡ (p.0, finish_stage job now t)
settle_removal-done w job now t (d, true) e h = simp e refl
settle_removal-done w job now t (d, false) e h = absurd (ground (arith, h))

-- The row of the upload is leased to the job, in the deleting stage of the job.
abbrev pub Leased : UploadJob → Table → Type 0
Leased job t =
    (r : Row) × (find_row job.upload_id t ≡ some r) × (owns job.upload_id job.lease_token r ≡ true)

-- The row of the upload is closed in a status, at a time, with its lease given back.
abbrev pub Closed : String → JobStatus → ℕ → Table → Type 0
Closed id s now t =
    (r : Row) × (find_row id t ≡ some r)
    × (r.status ≡ s)
    × (r.terminal_at ≡ some now)
    × (r.lease_token ≡ none)

-- The terminal state of a deleting stage.
abbrev pub EndsIn : JobStatus → JobStatus → Type 0
EndsIn s s' = (s ≡ cleanup) × (s' ≡ complete) ⊎ (s ≡ discarding) × (s' ≡ discarded)

finish_job-Closed :
    (job : UploadJob) (s : JobStatus) (reason : String) (now : ℕ) (t : Table)
    → is_terminal s ≡ true
    → Leased job t
    → Closed job.upload_id s now (finish_job job.upload_id job.lease_token s reason now t).0
unfolding finish_job
finish_job-Closed job s reason now t h (r, at, held) =
    let f = finished s reason now in
    (
      f r,
      find_row-update_where (owns job.upload_id job.lease_token) f job.upload_id t (λ x. refl)
          ∙ rw (at, held) refl,
      refl,
      simp h refl,
      refl,
    )

finish_stage-Closed :
    (job : UploadJob) (s : JobStatus) (now : ℕ) (t : Table)
    → EndsIn job.status s
    → Leased job t
    → Closed job.upload_id s now (finish_stage job now t)
unfolding finish_stage status_eq is_terminal
finish_stage-Closed job s now t (inl (c, e)) l =
    simp (c, e) (finish_job-Closed job complete "" now t refl l)
finish_stage-Closed job s now t (inr (c, e)) l =
    simp (c, e) (finish_job-Closed job discarded job.terminal_reason now t refl l)

erasing_succeeds :
    (disowns : Bool) (w : World) (job : UploadJob) (db : Db) (d : Disk)
    → Answering w
    → Terminates w job.upload_id db.jobs
    → (and_then (disown disowns w job db d) (erase_source w job db.jobs)).1 ≡ true
unfolding erase_source
erasing_succeeds disowns w job db d a h =
    (and_then-Reaches Always Always (disown disowns w job db d) (erase_source w job db.jobs)
      (disown_ready disowns w job db d a)
      (λ d' u.
        (remove_source-Reaches w a job.upload_id db.jobs (sweep_temporaries w job d') h, tt))).0

-- Over healthy storage, when every query, system call and write is answered, when the terminator leaves
-- at most one of the upload's two files, and when the job holds the lease of its row in cleanup or in
-- discarding, one attempt of `runCleanup` or `runDiscard` closes that row as complete or as
-- discarded, gives the lease back, and leaves neither file of the upload.
pub run_removal-completes :
    (disowns : Bool) (w : World) (job : UploadJob) (s : JobStatus) (now : ℕ) (db : Db) (d : Disk)
    → Answering w
    → Terminates w job.upload_id db.jobs
    → check_health w db d ≡ true
    → EndsIn job.status s
    → Leased job db.jobs
    → let r = run_removal disowns w job now db d in
      Closed job.upload_id s now r.1 × Gone job.upload_id r.0
unfolding run_removal
run_removal-completes disowns w job s now db d a h e q l =
    let p = and_then (disown disowns w job db d) (erase_source w job db.jobs) in
    let done = erasing_succeeds disowns w job db d a h in
    simp e (
      subst (λ (r : Disk × Table). Closed job.upload_id s now r.1 × Gone job.upload_id r.0)
        (sym (settle_removal-done w job now db.jobs p a.0 done))
        (
          finish_stage-Closed job s now db.jobs q l,
          and_then-last (Gone job.upload_id) (disown disowns w job db d)
              (erase_source w job db.jobs) (λ d' g. (erase_source-done w job db.jobs d' g).1) done,
        ))
