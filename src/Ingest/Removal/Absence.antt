-- ===== src/Ingest/Removal/Absence.antt =====
-- What a stage that deletes has proved when it commits the terminal state, and over which storage.
use event_gallery.Base.{ℕ, ◌≡◌, ◌⊎◌, inl, inr, refl, Bool, true, false, String, arith, Bool-cases}
use event_gallery.Store.Job.{UploadJob}
use event_gallery.Store.Sql.{Table}
use event_gallery.Store.Media.{Db}
use event_gallery.Ingest.Protocol.{retry_job, finish_stage}
use event_gallery.Ingest.Removal.{
  File, data_file, info_file, Disk, holds, World, stat_file, clear_source, and_then, check_health,
  is_absent, verify_gone, remove_source, sweep_temporaries, settle_removal, run_removal,
  retry_cleanup, terminate_found, sync_dir, drop_rest, disown, erase_source,
}

-- Neither file of the upload is there.
abbrev pub Gone : String → Disk → Type 0
Gone id d = (holds (data_file id) d ≡ false) × (holds (info_file id) d ≡ false)

-- What the last step proves, the whole chain proves.
pub and_then-last {ℓ} :
    (P : Disk → Type ℓ) (p : Disk × Bool) (k : Disk → Disk × Bool)
    → ((d : Disk) → (k d).1 ≡ true → P (k d).0)
    → (and_then p k).1 ≡ true
    → P (and_then p k).0
and_then-last P (d, true) k step e = step d e
and_then-last P (d, false) k step e = absurd (cc)

stat_file-absent :
    (answered : Bool) (f : File) (d : Disk)
    → is_absent (stat_file answered f d) ≡ true
    → holds f d ≡ false
unfolding stat_file is_absent
stat_file-absent answered f d e = ground arith

verify_gone-Gone :
    (w : World) (id : String) (d : Disk)
    → (verify_gone w id d).1 ≡ true
    → Gone id (verify_gone w id d).0
unfolding verify_gone
verify_gone-Gone w id d e = (
  stat_file-absent (w.stats 3) (data_file id) d (ground arith),
  stat_file-absent (w.stats 4) (info_file id) d (ground arith),
)

remove_source-Gone :
    (w : World) (id : String) (t : Table) (d : Disk)
    → (remove_source w id t d).1 ≡ true
    → Gone id (remove_source w id t d).0
unfolding remove_source
remove_source-Gone w id t d =
    and_then-last (Gone id) (clear_source w id t d) (verify_gone w id) (verify_gone-Gone w id)

and_then-both :
    (p : Disk × Bool) (k : Disk → Disk × Bool)
    → (and_then p k).1 ≡ true
    → (p.1 ≡ true) × ((k p.0).1 ≡ true)
and_then-both (d, true) k e = (refl, e)
and_then-both (d, false) k e = absurd (cc)

-- Both fsyncs of the directory worked, and both closing stats were answered.
abbrev pub Proved : World → Type 0
Proved w = (w.syncs 0 ≡ true) × (w.syncs 1 ≡ true) × (w.stats 3 ≡ true) × (w.stats 4 ≡ true)

absent_answered :
    (answered : Bool) (f : File) (d : Disk)
    → is_absent (stat_file answered f d) ≡ true
    → answered ≡ true
unfolding stat_file is_absent
absent_answered answered f d e = ground arith

verify_gone-answered :
    (w : World) (id : String) (d : Disk)
    → (verify_gone w id d).1 ≡ true
    → (w.stats 3 ≡ true) × (w.stats 4 ≡ true)
unfolding verify_gone
verify_gone-answered w id d e = (
  absent_answered (w.stats 3) (data_file id) d (ground arith),
  absent_answered (w.stats 4) (info_file id) d (ground arith),
)

remove_source-Proved :
    (w : World) (id : String) (t : Table) (d : Disk) → (remove_source w id t d).1 ≡ true → Proved w
unfolding remove_source clear_source sync_dir
remove_source-Proved w id t d e =
    let p = terminate_found w id t (stat_file (w.stats 0) (data_file id) d) d in
    let (cleared, verified) = and_then-both (clear_source w id t d) (verify_gone w id) e in
    let (dropped, second) =
      and_then-both (and_then (and_then p (sync_dir w 0)) (drop_rest w id)) (sync_dir w 1)
        cleared in
    let (synced, rest) = and_then-both (and_then p (sync_dir w 0)) (drop_rest w id) dropped in
    let (ended, first) = and_then-both p (sync_dir w 0) synced in
    let (third, fourth) = verify_gone-answered w id (clear_source w id t d).0 verified in
    (first, second, third, fourth)

-- A removal leaves the queue as it is because the write failed, or ends in a retry, or in the terminal
-- state of the stage over healthy storage with both files proved gone.
abbrev pub Settled : Bool → World → UploadJob → ℕ → Table → Disk × Table → Type 0
Settled healthy w job now t (d', t') =
    ((t' ≡ t) × (w.writes ≡ false))
    ⊎ (t' ≡ retry_job job w.next w.cause now t)
    ⊎ (t' ≡ finish_stage job now t) × (healthy ≡ true) × Proved w × Gone job.upload_id d'

retry_cleanup-Settled :
    (healthy : Bool) (w : World) (job : UploadJob) (now : ℕ) (t : Table) (d : Disk)
    → Settled healthy w job now t (d, retry_cleanup w job now t)
retry_cleanup-Settled healthy w job now t d = elim (Bool-cases w.writes) [
  | inl e ↦ simp e (inr (inl refl))
  | inr e ↦ simp e (inl (refl, refl))
]

settle_removal-Settled :
    (w : World) (job : UploadJob) (now : ℕ) (t : Table) (p : Disk × Bool)
    → (p.1 ≡ true → Proved w × Gone job.upload_id p.0)
    → Settled true w job now t (settle_removal w job now t p)
settle_removal-Settled w job now t (d', false) gone = retry_cleanup-Settled true w job now t d'
settle_removal-Settled w job now t (d', true) gone = elim (Bool-cases w.writes) [
  | inl e ↦ simp e (inr (inr (refl, refl, (gone refl).0, (gone refl).1)))
  | inr e ↦ simp e (inl (refl, refl))
]

pub erase_source-done :
    (w : World) (job : UploadJob) (t : Table) (d : Disk)
    → (erase_source w job t d).1 ≡ true
    → Proved w × Gone job.upload_id (erase_source w job t d).0
unfolding erase_source
erase_source-done w job t d e = (
  remove_source-Proved w job.upload_id t (sweep_temporaries w job d) e,
  remove_source-Gone w job.upload_id t (sweep_temporaries w job d) e,
)

-- `runCleanup` and `runDiscard` end with the statement that retries their stage, or with the one that
-- commits its terminal state, or with neither because that write failed. The terminal state is
-- committed only over healthy storage, when both fsyncs of the upload directory worked, when the two
-- closing stats were answered, and with neither the data file nor the sidecar among the files they
-- leave, whatever the other system calls and the terminator answered.
pub run_removal-Settled :
    (disowns : Bool) (w : World) (job : UploadJob) (now : ℕ) (db : Db) (d : Disk)
    → Settled (check_health w db d) w job now db.jobs (run_removal disowns w job now db d)
unfolding run_removal
run_removal-Settled disowns w job now db d = elim (Bool-cases (check_health w db d)) [
  | inr e ↦ simp e (retry_cleanup-Settled false w job now db.jobs d)
  | inl e ↦ simp e (
      settle_removal-Settled w job now db.jobs
        (and_then (disown disowns w job db d) (erase_source w job db.jobs))
        (and_then-last (λ d'. Proved w × Gone job.upload_id d') (disown disowns w job db d)
          (erase_source w job db.jobs) (erase_source-done w job db.jobs)))
]
