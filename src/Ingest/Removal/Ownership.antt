-- ===== src/Ingest/Removal/Ownership.antt =====
-- Which files a stage that deletes can touch: those of its own upload, and the derived files of its
-- media id only while no committed media row has that id.
use event_gallery.Base.{
  ℕ, ◌≡◌, inl, inr, Bool, true, false, String, Bool-cases, str_eq, if◌then◌else◌,
}
use event_gallery.Store.Job.{no_rows, Result, ok, err, UploadJob}
use event_gallery.Store.Sql.{Table}
use event_gallery.Store.Media.{Db, MediaItem, get_by_id}
use event_gallery.Ingest.Removal.{
  File, data_file, info_file, original, thumbnail, preview, file_eq, Disk, holds, World, Presence,
  present, absent, unclear, stat_file, unlink, and_then, check_health, terminate_found, sync_dir,
  drop_orphan, drop_rest, clear_source, verify_gone, remove_source, try_unlink, remove_artifacts,
  remove_if_unowned, remove_artifacts_if_unowned, is_leftover, sweep_temporaries, disown,
  erase_source, run_removal,
}
use event_gallery.Ingest.Removal.Files.{
  is_owned, may_go, holds-without, unlink-holds, and_then-holds, settle_removal-holds,
  leftover_goes, source_apart, artifacts_apart,
}

-- The documented effect of tusd's DELETE: it removes at most the upload's data file and sidecar.
abbrev pub Precise : World → Type 0
Precise w =
    (id : String) (t : Table) (d : Disk) (f : File)
    → file_eq (data_file id) f ≡ false
    → file_eq (info_file id) f ≡ false
    → holds f d ≡ true
    → holds f (w.terminator id t d).0 ≡ true

module _ (w : World) (precise : Precise w) (f : File) where
  module _ (id : String) (not_data : file_eq (data_file id) f ≡ false)
      (not_info : file_eq (info_file id) f ≡ false) where
    terminate_found-holds :
        (t : Table) (s : Presence) (d : Disk)
        → holds f d ≡ true
        → holds f (terminate_found w id t s d).0 ≡ true
    terminate_found-holds t present d h = precise id t d f not_data not_info h
    terminate_found-holds t absent d h = h
    terminate_found-holds t unclear d h = h

    drop_orphan-holds :
        (s i : Presence) (d : Disk) → holds f d ≡ true → holds f (drop_orphan w id s i d).0 ≡ true
    drop_orphan-holds present absent d h = unlink-holds f w (data_file id) d not_data h
    drop_orphan-holds absent present d h = unlink-holds f w (info_file id) d not_info h
    drop_orphan-holds unclear _ d h = h
    drop_orphan-holds present unclear d h = h
    drop_orphan-holds absent unclear d h = h
    drop_orphan-holds present present d h = h
    drop_orphan-holds absent absent d h = h

    drop_rest-holds : (d : Disk) → holds f d ≡ true → holds f (drop_rest w id d).0 ≡ true
    unfolding drop_rest
    drop_rest-holds d h = drop_orphan-holds _ _ d h

    remove_source-holds :
        (t : Table) (d : Disk) → holds f d ≡ true → holds f (remove_source w id t d).0 ≡ true
    unfolding remove_source clear_source sync_dir verify_gone
    remove_source-holds t d h =
        and_then-holds f (clear_source w id t d) (verify_gone w id) (λ e k. k)
          (and_then-holds f
            (and_then
              (and_then (terminate_found w id t (stat_file (w.stats 0) (data_file id) d) d)
                (sync_dir w 0))
              (drop_rest w id))
            (sync_dir w 1) (λ e k. k)
            (and_then-holds f
              (and_then (terminate_found w id t (stat_file (w.stats 0) (data_file id) d) d)
                (sync_dir w 0))
              (drop_rest w id) drop_rest-holds
              (and_then-holds f (terminate_found w id t (stat_file (w.stats 0) (data_file id) d) d)
                (sync_dir w 0) (λ e k. k)
                (terminate_found-holds t (stat_file (w.stats 0) (data_file id) d) d h))))

  module _ (job : UploadJob) where
    sweep_temporaries-holds :
        (owned : Bool) (d : Disk)
        → may_go owned job f ≡ false
        → holds f d ≡ true
        → holds f (sweep_temporaries w job d) ≡ true
    unfolding sweep_temporaries
    sweep_temporaries-holds owned d e h =
        holds-without (is_leftover w job.media_id) f d (leftover_goes job w owned f e) h

    erase_source-holds :
        (owned : Bool) (t : Table) (d : Disk)
        → may_go owned job f ≡ false
        → holds f d ≡ true
        → holds f (erase_source w job t d).0 ≡ true
    unfolding erase_source
    erase_source-holds owned t d e h =
        let (apart, apart') = source_apart job owned f e in
        remove_source-holds job.upload_id apart apart' t (sweep_temporaries w job d)
          (sweep_temporaries-holds owned d e h)

    remove_artifacts-holds :
        (d : Disk)
        → may_go false job f ≡ false
        → holds f d ≡ true
        → holds f (remove_artifacts w job d) ≡ true
    unfolding remove_artifacts try_unlink
    remove_artifacts-holds d e h =
        let (o, t, p) = artifacts_apart job f e in
        let d1 =
          if str_eq job.stored_filename ""
          then d
          else (unlink w (original job.stored_filename) d).0 in
        let first : holds f d1 ≡ true = elim (Bool-cases (str_eq job.stored_filename "")) [
          | inl q ↦ rw q h
          | inr q ↦ rw q (unlink-holds f w (original job.stored_filename) d o h)
        ] in
        unlink-holds f w (preview job.media_id) (unlink w (thumbnail job.media_id) d1).0 p
          (unlink-holds f w (thumbnail job.media_id) d1 t first)

    remove_if_unowned-holds :
        (d : Disk) (r : Result MediaItem)
        → may_go (is_owned r) job f ≡ false
        → holds f d ≡ true
        → holds f (remove_if_unowned w job r d).0 ≡ true
    unfolding is_owned
    remove_if_unowned-holds d (ok m) e h = h
    remove_if_unowned-holds d (err no_rows) e h = remove_artifacts-holds d e h
    remove_if_unowned-holds d (err _) e h = h

    disown-holds :
        (disowns : Bool) (db : Db) (d : Disk)
        → may_go (is_owned (get_by_id job.media_id db)) job f ≡ false
        → holds f d ≡ true
        → holds f (disown disowns w job db d).0 ≡ true
    unfolding disown remove_artifacts_if_unowned
    disown-holds false db d e h = h
    disown-holds true db d e h = elim (Bool-cases w.owner_readable) [
      | inl q ↦ simp q (remove_if_unowned-holds d (get_by_id job.media_id db) e h)
      | inr q ↦ simp q h
    ]

    -- A stage that deletes leaves every file that is not one of its upload: another upload's data
    -- and sidecar, another media's files and temporaries, and, as soon as a committed row has
    -- the media id of the job, the job's own original, thumbnail and preview.
    pub run_removal-spares :
        (disowns : Bool) (now : ℕ) (db : Db) (d : Disk)
        → may_go (is_owned (get_by_id job.media_id db)) job f ≡ false
        → holds f d ≡ true
        → holds f (run_removal disowns w job now db d).0 ≡ true
    unfolding run_removal
    run_removal-spares disowns now db d e h = elim (Bool-cases (check_health w db d)) [
      | inr q ↦ simp q h
      | inl q ↦ simp q (
          settle_removal-holds f w job now db.jobs
            (and_then (disown disowns w job db d) (erase_source w job db.jobs))
            (and_then-holds f (disown disowns w job db d) (erase_source w job db.jobs)
              (λ d'. erase_source-holds (is_owned (get_by_id job.media_id db)) db.jobs d' e)
              (disown-holds disowns db d e h)))
    ]
