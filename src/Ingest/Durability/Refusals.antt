-- ===== src/Ingest/Durability/Refusals.antt =====
-- What the barrier has done when it succeeds, and why it refuses for good.
use event_gallery.Base.{
  ℕ, ◌≡◌, ◌≢◌, ◌⊎◌, Bool, List, ◌++◌, true, false, Option, none, some, String, [], ◌∷◌, is_some,
}
use event_gallery.Store.Job.{uploading, UploadJob}
use event_gallery.Store.Sql.{Table}
use event_gallery.Store.Queue.{get_upload_job}
use event_gallery.Ingest.Protocol.Invariant.{is_durable, is_dropped}
use event_gallery.Ingest.Durability.{
  Answers, Outcome, durable, final, Stat, missing, unreadable, found, syncs_data, syncs_info,
  syncs_dir, promotes_row, sync_failed, Effect,
}

-- Nothing about the upload can be committed any more, as a read of its row shows.
abbrev pub Hopeless : Option UploadJob → Type 0
Hopeless none = Unit
Hopeless (some job) =
    (is_dropped job.status ≡ true)
    ⊎ (job.status ≡ uploading) × (is_some job.cancellation_requested_at ≡ true)

-- `os.Stat` failed, for whatever reason.
abbrev pub StatFailed : Stat → Type 0
StatFailed s = (s ≡ missing) ⊎ (s ≡ unreadable)

-- The source is there, and is no regular file or has another size.
abbrev pub Misfit : Stat → ℕ → Type 0
Misfit s n =
    (regular : Bool) × (size : ℕ) × (s ≡ found regular size) × ((regular ≡ false) ⊎ (size ≢ n))

-- The upload is still in transfer by its row, and its source was not seen, or is not the admitted file.
abbrev pub Unfit : Stat → Option UploadJob → Type 0
Unfit s none = ⊥
Unfit s (some job) = (job.status ≡ uploading) × (StatFailed s ⊎ Misfit s job.expected_size)

abbrev pub Final : String → Answers → Table → Outcome → Type 0
Final id a t o =
    o.result ≡ final
    → (a.contained ≡ false)
      ⊎ Hopeless (get_upload_job id t)
      ⊎ Unfit a.stat (get_upload_job id t)
      ⊎ Hopeless (get_upload_job id o.table)

-- All three syncs worked, in their order, and then the promotion unless another caller had made it.
abbrev pub Synced : Answers → Table → Outcome → Type 0
Synced a t o =
    (a.data_synced ≡ true)
    × (a.info_synced ≢ sync_failed)
    × (a.dir_synced ≡ true)
    × ((o.effects ≡ syncs_data ∷ syncs_info ∷ syncs_dir ∷ promotes_row ∷ [])
        ⊎ (o.effects ≡ syncs_data ∷ syncs_info ∷ syncs_dir ∷ []))

abbrev pub AlreadyIn : Option UploadJob → Type 0
AlreadyIn none = ⊥
AlreadyIn (some job) = is_durable job.status ≡ true

abbrev pub Fit : Stat → Option UploadJob → Type 0
Fit s none = ⊥
Fit s (some job) = (job.status ≡ uploading) × (s ≡ found true job.expected_size)

abbrev pub Earned : String → Answers → Table → Outcome → Type 0
Earned id a t o =
    o.result ≡ durable
    → AlreadyIn (get_upload_job id t) × (o.effects ≡ []) × (o.table ≡ t)
      ⊎ Fit a.stat (get_upload_job id t) × Synced a t o

module _ (id : String) (now : ℕ) (a : Answers) where
  -- What a step adds to the effects so far when it ends in success.
  Adds : List Effect → Outcome → Type 0
  Adds done o = o.result ≡ durable → (o.effects ≡ done ++ promotes_row ∷ []) ⊎ (o.effects ≡ done)

  -- An outcome that refuses for good leaves a hopeless row.
  Dead : Outcome → Type 0
  Dead o = o.result ≡ final → Hopeless (get_upload_job id o.table)
