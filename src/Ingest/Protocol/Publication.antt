-- ===== src/Ingest/Protocol/Publication.antt =====
-- The transaction of `PublishMedia`, called by a worker, keeps the invariant of the rows.
use event_gallery.Base.{
  ℕ, ◌≡◌, refl, true, false, Option, none, some, String, List, arith, Bool-cases, inl, inr, ◌==◌,
}
use event_gallery.Store.Job.{
  Result, ok, err, processing, cleanup, status_eq, is_terminal, Row, UploadJob,
}
use event_gallery.Store.Sql.{All-update_where, affected}
use event_gallery.Ingest.Protocol.Invariant.{
  RowOk, LifeOk, LeaseOk-free, is_durable, is_published, is_dropped,
}
use event_gallery.Ingest.Protocol.Statements.{Rows}
use event_gallery.Store.Media.{
  Db, MediaItem, publish_media, settle, settle_insert, fenced, fence_row, to_cleanup,
  insert_or_skip, find_sha,
}
use event_gallery.Ingest.Protocol.{publish_job, find_handed}
use event_gallery.Ingest.Protocol.Workers.{owns-status}

processing_left : status_eq cleanup processing ≡ false
unfolding status_eq
processing_left = refl

processing_published :
    (r : Row) (result : String) (now : ℕ)
    → LifeOk r
    → status_eq r.status processing ≡ true
    → LifeOk (to_cleanup result now r)
unfolding status_eq is_durable is_published is_dropped is_terminal
processing_published r result now h e = ground arith

-- The insertion of the media row leaves the queue alone.
pub insert_or_skip-jobs :
    (item : MediaItem) (db stored : Db) → insert_or_skip item db ≡ ok stored → stored.jobs ≡ db.jobs
insert_or_skip-jobs item db stored e = ground arith

module _ (cs : List UploadJob) (token : String) (job : UploadJob)
    (handed : find_handed token cs ≡ some job) where
  -- The publication moves a processing row, with the content's id, to cleanup.
  settle-Rows :
      (item : MediaItem) (now : ℕ) (before db : Db) (o : Option MediaItem)
      → status_eq job.status processing ≡ true
      → Rows cs before.jobs
      → Rows cs db.jobs
      → Rows cs (settle job.upload_id job.lease_token item now before db o).0.jobs
  settle-Rows item now before db none e hb h = hb
  settle-Rows item now before db (some m) e hb h =
      All-update_where (RowOk cs) _ _ db.jobs
        (λ r k own. record {
          lease = LeaseOk-free cs cleanup processing_left;
          life =
              processing_published r m.id now k.life
                (rw (← owns-status cs token job r handed k own) e);
        })
        h

  settle_insert-Rows :
      (item : MediaItem) (now : ℕ) (before : Db) (o : Result Db)
      → status_eq job.status processing ≡ true
      → Rows cs before.jobs
      → ((db : Db) → o ≡ ok db → Rows cs db.jobs)
      → Rows cs (settle_insert job.upload_id job.lease_token item now before o).0.jobs
  settle_insert-Rows item now before (err x) e hb h = hb
  settle_insert-Rows item now before (ok db) e hb h =
      settle-Rows item now before db (find_sha item.sha256 db.media) e hb (h db refl)

  fenced-Rows :
      (now : ℕ) (db : Db)
      → Rows cs db.jobs
      → Rows cs (fenced job.upload_id job.lease_token now db).jobs
  fenced-Rows now db =
      All-update_where (RowOk cs) _ _ db.jobs
        λ r k own. record { lease = k.lease; life = ground (arith, k.life) }

  publish_media-Rows :
      (item : MediaItem) (now : ℕ) (db : Db)
      → status_eq job.status processing ≡ true
      → Rows cs db.jobs
      → Rows cs (publish_media job.upload_id job.lease_token item now db).0.jobs
  unfolding publish_media
  publish_media-Rows item now db e h =
      elim (Bool-cases (affected (fence_row job.upload_id job.lease_token) db.jobs == 0)) [
        | inl z ↦ rw z h
        | inr z ↦ rw z (
            settle_insert-Rows item now db _ e h λ stored s.
              rw (insert_or_skip-jobs item (fenced job.upload_id job.lease_token now db) stored s)
                (fenced-Rows now db h))
      ]

  pub publish_job-Rows :
      (item : MediaItem) (now : ℕ) (db : Db)
      → Rows cs db.jobs
      → Rows cs (publish_job job item now db).jobs
  unfolding publish_job
  publish_job-Rows item now db h = elim (Bool-cases (status_eq job.status processing)) [
    | inl e ↦ rw e (publish_media-Rows item now db e h)
    | inr e ↦ rw e h
  ]
