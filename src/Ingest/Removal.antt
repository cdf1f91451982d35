-- ===== src/Ingest/Removal.antt =====
-- backend/internal/ingest/process.go, health.go and manager.go: the stages that delete, `runCleanup` and
-- `runDiscard`, over the files of an upload and of its media. What each system call answers is an
-- argument, and so is the `SourceTerminator`.
pub mod Absence
pub mod Files
pub mod Ownership
pub mod Progress
use event_gallery.Base.{
  ℕ, Bool, true, false, not, ◌&&◌, ◌||◌, Option, none, some, String, List, [], ◌∷◌, str_eq,
  if◌then◌else◌,
}
use event_gallery.Store.Job.{StoreError, no_rows, Result, ok, err, UploadJob}
use event_gallery.Store.Sql.{Table}
use event_gallery.Store.Queue.{get_upload_job}
use event_gallery.Store.Media.{Db, MediaItem, get_by_id, sample_stored_filenames}
use event_gallery.Ingest.Protocol.{retry_job, finish_stage}

-- The files that the program names: the data file and the sidecar of an upload id, an original by its
-- stored name, the two derived files of a media id, and a temporary copy by media id and lease.
pub data File : Type 0 where
  data_file : String → File
  info_file : String → File
  original : String → File
  thumbnail : String → File
  preview : String → File
  temporary : String → String → File

unfoldable pub file_eq : File → File → Bool
file_eq (data_file a) (data_file b) = str_eq a b
file_eq (info_file a) (info_file b) = str_eq a b
file_eq (original a) (original b) = str_eq a b
file_eq (thumbnail a) (thumbnail b) = str_eq a b
file_eq (preview a) (preview b) = str_eq a b
file_eq (temporary a s) (temporary b u) = str_eq a b && str_eq s u
file_eq _ _ = false

abbrev pub Disk : Type 0
Disk = List File

unfoldable pub holds : File → Disk → Bool
holds f [] = false
holds f (g ∷ d) = file_eq g f || holds f d

unfoldable pub without : (File → Bool) → Disk → Disk
without p [] = []
without p (g ∷ d) = let rest = without p d in if p g then rest else g ∷ rest

-- The world of one attempt: whether each query, stat, unlink, fsync and closing write is answered (the
-- stats and the fsyncs of a removal by their order), the `SourceTerminator`, and the retry that a failure asks for.
pub record World : Type 0 where
  pub sampling : Bool
  pub sees : String → Bool
  pub owner_readable : Bool
  pub stats : ℕ → Bool
  pub unlinks : File → Bool
  pub syncs : ℕ → Bool
  pub writes : Bool
  pub terminator : String → Table → Disk → Disk × Bool
  pub next : ℕ
  pub cause : String

pub data Presence : Type 0 where
  present absent unclear : Presence

-- Only ENOENT proves absence.
unfoldable pub stat_file : Bool → File → Disk → Presence
stat_file answered f d = if not answered then unclear else if holds f d then present else absent

-- `os.Remove`, where a file that is not there is no error.
unfoldable pub unlink : World → File → Disk → Disk × Bool
unlink w f d =
    if not (holds f d)
    then (d, true)
    else if w.unlinks f
    then (without (file_eq f) d, true)
    else (d, false)

-- The files so far, and whether the attempt goes on.
abbrev pub and_then : Disk × Bool → (Disk → Disk × Bool) → Disk × Bool
and_then (d, true) k = k d
and_then (d, false) k = (d, false)

unfoldable pub sees_one : World → List String → Disk → Bool
sees_one w [] d = false
sees_one w (n ∷ ns) d = let rest = sees_one w ns d in (w.sees n && holds (original n) d) || rest

unfoldable pub any_visible : World → List String → Disk → Bool
any_visible w [] d = true
any_visible w (n ∷ ns) d = sees_one w (n ∷ ns) d

-- `HealthGate.Check` with its sample of 8.
unfoldable pub check_health : World → Db → Disk → Bool
check_health w db d = w.sampling && any_visible w (sample_stored_filenames 8 db) d

abbrev pub terminate_found : World → String → Table → Presence → Disk → Disk × Bool
terminate_found w id t present d = w.terminator id t d
terminate_found w id t absent d = (d, true)
terminate_found w id t unclear d = (d, false)

unfoldable pub sync_dir : World → ℕ → Disk → Disk × Bool
sync_dir w n d = (d, w.syncs n)

-- What is left of the pair after the termination: a lone file is unlinked here, since tusd does not see
-- it any more.
abbrev pub drop_orphan : World → String → Presence → Presence → Disk → Disk × Bool
drop_orphan w id unclear _ d = (d, false)
drop_orphan w id present unclear d = (d, false)
drop_orphan w id absent unclear d = (d, false)
drop_orphan w id present absent d = unlink w (data_file id) d
drop_orphan w id absent present d = unlink w (info_file id) d
drop_orphan w id present present d = (d, false)
drop_orphan w id absent absent d = (d, true)

unfoldable pub is_absent : Presence → Bool
is_absent absent = true
is_absent _ = false

unfoldable pub verify_gone : World → String → Disk → Disk × Bool
verify_gone w id d = (
  d,
  is_absent (stat_file (w.stats 3) (data_file id) d)
      && is_absent (stat_file (w.stats 4) (info_file id) d),
)

unfoldable pub drop_rest : World → String → Disk → Disk × Bool
drop_rest w id d =
    drop_orphan w id (stat_file (w.stats 1) (data_file id) d)
      (stat_file (w.stats 2) (info_file id) d) d

unfoldable pub clear_source : World → String → Table → Disk → Disk × Bool
clear_source w id t d =
    and_then
      (and_then
        (and_then (terminate_found w id t (stat_file (w.stats 0) (data_file id) d) d)
          (sync_dir w 0))
        (drop_rest w id))
      (sync_dir w 1)

-- `finishBySourceRemoval` up to its last statement.
unfoldable pub remove_source : World → String → Table → Disk → Disk × Bool
remove_source w id t d = and_then (clear_source w id t d) (verify_gone w id)

-- Best effort: a failed unlink is ignored.
unfoldable pub try_unlink : World → File → Disk → Disk
try_unlink w f d = (unlink w f d).0

unfoldable pub remove_artifacts : World → UploadJob → Disk → Disk
remove_artifacts w job d =
    let d' =
      if str_eq job.stored_filename "" then d else try_unlink w (original job.stored_filename) d in
    try_unlink w (preview job.media_id) (try_unlink w (thumbnail job.media_id) d')

abbrev pub remove_if_unowned : World → UploadJob → Result MediaItem → Disk → Disk × Bool
remove_if_unowned w job (ok m) d = (d, true)
remove_if_unowned w job (err no_rows) d = (remove_artifacts w job d, true)
remove_if_unowned w job (err _) d = (d, false)

unfoldable pub remove_artifacts_if_unowned : World → UploadJob → Db → Disk → Disk × Bool
remove_artifacts_if_unowned w job db d =
    if w.owner_readable then remove_if_unowned w job (get_by_id job.media_id db) d else (d, false)

unfoldable pub is_leftover : World → String → File → Bool
is_leftover w media_id (temporary m token) = str_eq m media_id && w.unlinks (temporary m token)
is_leftover w media_id _ = false

unfoldable pub sweep_temporaries : World → UploadJob → Disk → Disk
sweep_temporaries w job d = without (is_leftover w job.media_id) d

-- `retryCleanup`: a write that fails is only logged.
abbrev pub retry_cleanup : World → UploadJob → ℕ → Table → Table
retry_cleanup w job now t = if w.writes then retry_job job w.next w.cause now t else t

-- The commit of the terminal state, whose failure is only logged, or `retryCleanup`.
abbrev pub settle_removal : World → UploadJob → ℕ → Table → Disk × Bool → Disk × Table
settle_removal w job now t (d, true) = (d, if w.writes then finish_stage job now t else t)
settle_removal w job now t (d, false) = (d, retry_cleanup w job now t)

unfoldable pub is_duplicate_result : UploadJob → Bool
is_duplicate_result job =
    not (str_eq job.result_media_id "") && not (str_eq job.result_media_id job.media_id)

unfoldable pub disown : Bool → World → UploadJob → Db → Disk → Disk × Bool
disown disowns w job db d = if disowns then remove_artifacts_if_unowned w job db d else (d, true)

unfoldable pub erase_source : World → UploadJob → Table → Disk → Disk × Bool
erase_source w job t d = remove_source w job.upload_id t (sweep_temporaries w job d)

-- `runCleanup` and `runDiscard`: `disowns` says whether the job's own artifacts are to go.
unfoldable pub run_removal : Bool → World → UploadJob → ℕ → Db → Disk → Disk × Table
run_removal disowns w job now db d =
    if not (check_health w db d)
    then (d, retry_cleanup w job now db.jobs)
    else settle_removal w job now db.jobs
        (and_then (disown disowns w job db d) (erase_source w job db.jobs))

unfoldable pub run_cleanup : World → UploadJob → ℕ → Db → Disk → Disk × Table
run_cleanup w job = run_removal (is_duplicate_result job) w job

unfoldable pub run_discard : World → UploadJob → ℕ → Db → Disk → Disk × Table
run_discard w job = run_removal true w job
