-- ===== src/Lib.antt =====
-- Event gallery: the upload path of the backend, from the admission of an upload to the deletion
-- of its source, with the inspection of its media and the permanent deletion of what it published.
--
-- A guest's browser sends a file through the tus proxy (backend/internal/httpapi/tus_proxy.go) to
-- tusd, which calls the backend's hooks (tus_hooks.go). A row of the table upload_jobs carries the
-- upload through its statuses: uploading, pending, processing, cleanup and complete, or discarding
-- and discarded. Before tusd may report a completed upload, the durability barrier
-- (backend/internal/ingest/durability.go) syncs its files and commits the row as pending. Workers
-- (ingest/process.go) lease jobs, copy and publish the media, and then delete the source; a
-- reconciler (ingest/recover.go) repairs what a crash leaves. The browser asks for the state of
-- its uploads through uploads_status.go.
--
-- Store (backend/internal/store) models the tables as lists of rows: Store.Job has the rows and
-- the Go struct, Store.Sql the UPDATE, DELETE and SELECT of one condition, Store.Queue and
-- Store.Finish the statements of upload_jobs.go, each under the name of its Go method in snake
-- case, Store.Media the rows of media.go with PublishMedia, Store.Gallery the pages of
-- ListGallery, Store.Purge the PurgeTrashed of purge.go, Store.Moderation the approvals of
-- moderation.go with the values of config.go. A statement returns the new table with the error of
-- the method, and a transaction that fails returns the old database. Store.Keys, Store.Claim,
-- Store.Rows and Store.Publish hold the lemmas.
--
-- Ingest.Protocol is the life of all jobs: each Action is one committed statement with the
-- arguments that its callers pass, workers act on any job that ClaimNextJob ever handed to them,
-- and a run is a list of actions in any order. Ingest.Durability is makeDurable, where an argument
-- says what each system call answers and what others commit meanwhile; Ingest.Registry is the
-- registry of the barriers in flight; Ingest.Processing is runProcessing with prepareAndPublish;
-- Ingest.Removal is runCleanup, runDiscard and finishBySourceRemoval with HealthGate.Check over
-- the set of existing files; Ingest.Reconcile is reconcileOne, where an argument says what a visit
-- sees on the volume, and Ingest.Reconcile.Pass is reconcileOnce over the entries of the upload
-- directory; Ingest.Backoff is backoffFor; Ingest.UploadId is SafeUploadID. Http.Hooks is the pre-
-- finish hook, Http.Proxy the tus route with its fence, its DELETE and Terminate, Http.Status the
-- status endpoint. Limits.Concurrency is backend/internal/ratelimit/concurrency.go.
--
-- Media.Bytes, Media.Boxes and Media.Heif are the reader of EXIF in
-- backend/internal/media/heif_exif.go, which takes ReadAt as an argument. Media.Staging and
-- Media.Purge are the purge stages of media/purge.go over the files of one item, where a list of
-- answers says which system call works, fails or is never reached because the process ended;
-- Media.Staging.Triples is the logic of such operations. Http.StorageCleanup is purgeMedia and
-- reconcilePurgeStages of httpapi/storage_cleanup.go over the files of all items and the database.
-- Tests applies the theorems to concrete inputs.
--
-- Times are natural numbers of microseconds, and a nullable column is an Option. backoffFor keeps
-- the wrap-around of int64. Every function is structurally recursive on a list or a count of the
-- data, except the two walks over boxes: their fuel is one round per byte, which is enough because
-- a box takes eight bytes or more, as the results on their end show. A process that ends loses no
-- renamed file: syncs are modelled as calls that may fail, and the loss of unsynced changes is
-- not. The removal of a whole stage directory is one call, which is made or not, and so is the
-- read of a finished row with its reopening in Ingest.Protocol. Rows are found by their first
-- match, which the distinct keys of the table make the only one. Media ids are taken to be of one
-- length, as the generated ones are, so that the glob of sweepTemporaries names the temporaries of
-- one media id.
--
-- Not modelled: tusd, SQLite, the file system and the media tools, which are arguments; the loops,
-- tickers and contexts around the modelled steps; the parser of sidecars; the expiry of trash and
-- of incomplete uploads; a second stage for an item whose first one was left; the handlers of the
-- gallery and the administration, the branding, the sessions, the configuration and the frontend.
mod Base
pub mod Store
pub mod Ingest
pub mod Http
pub mod Limits
pub mod Media
mod Tests
