-- ===== src/Ingest/Processing/Outcomes.antt =====
-- Why an attempt rejects an upload, and what it has checked when it publishes one.
use Prim.Native.String.{◌++◌}
use mathlib.Core.Path.{subst}
use event_gallery.Base.{
  ℕ, ◌≡◌, ◌≢◌, ◌⊎◌, inl, inr, refl, sym, Bool, true, false, Option-cases, not, ◌&&◌, Option, none,
  some, String, arith, Bool-cases, str_eq, str_eq_iff,
}
use event_gallery.Store.Job.{StoreError, Result, ok, err, UploadJob}
use event_gallery.Store.Sql.{Table}
use event_gallery.Store.Finish.{record_artifact_identity, record_prepared}
use event_gallery.Store.Media.{Db, MediaItem, MediaKind, find_sha, get_by_sha256, publish_media}
use event_gallery.Store.Publish.{Answers, publish_media-Answers}
use event_gallery.Ingest.Protocol.{Rejection, unsupported_type, checksum_mismatch}
use event_gallery.Ingest.Processing.{
  Sniffed, recognised, unsupported, sniff_failed, Attempt, Verdict, published, rejected, failed,
  record_upload_audit, media_item, audit_detail, after_publish, publish_item, check_existing,
  resolve_content, prepared, copied, identified, sized, hashed, classified, prepare_and_publish,
}

-- The content is of no supported type.
abbrev pub Unsupported : Attempt → Sniffed → Type 0
Unsupported w unsupported = Unit
Unsupported w sniff_failed = ⊥
Unsupported w (recognised mime kind) = w.allowed mime kind ≡ false

-- The client declared another checksum than the one computed.
abbrev pub Mismatched : UploadJob → Option String → Type 0
Mismatched job none = ⊥
Mismatched job (some sum) = (str_eq job.declared_sha256 "" ≡ false) × (job.declared_sha256 ≢ sum)

abbrev pub Deserved : Attempt → UploadJob → Rejection → Type 0
Deserved w job unsupported_type = Unsupported w w.sniffed
Deserved w job checksum_mismatch = Mismatched job w.hash

-- The row that owned the hash when the attempt looked, if any, is verified.
abbrev pub Looked : Attempt → String → Db → Type 0
Looked w sum db =
    (find_sha sum db.media ≡ none)
    ⊎ ((m : MediaItem) × (find_sha sum db.media ≡ some m) × (w.verified m ≡ true))

-- What a published attempt has established, in the database that it leaves.
abbrev pub Verified : Attempt → UploadJob → Db → Db → String → Bool → Type 0
Verified w job db db' id duplicate =
    (sum : String) × (m : MediaItem) × (w.hash ≡ some sum)
    × ((str_eq job.declared_sha256 "" ≡ true) ⊎ (job.declared_sha256 ≡ sum))
    × (w.copies ≡ true)
    × (w.copy_verified ≡ true)
    × (find_sha sum db'.media ≡ some m)
    × (m.id ≡ id)
    × (duplicate ≡ not (str_eq m.id job.media_id))
    × Looked w sum db

-- What an attempt ends with.
abbrev pub Justified : Attempt → UploadJob → Db → Db × Verdict → Type 0
Justified w job db (db', published id duplicate) = Verified w job db db' id duplicate
Justified w job db (db', rejected why) = Deserved w job why × (db' ≡ db)
Justified w job db (db', failed) = Unit

check_existing-Looked :
    (w : Attempt) (sum : String) (db : Db)
    → check_existing w (get_by_sha256 sum db) ≡ true
    → Looked w sum db
unfolding get_by_sha256
check_existing-Looked w sum db c = elim (Option-cases (find_sha sum db.media)) [
  | inl e ↦ inl e
  | inr (m, e) ↦ inr (m, e, rw (e, check_existing) at c)
]

record_upload_audit-media :
    (w : Attempt) (job : UploadJob) (i d : String) (db : Db)
    → (record_upload_audit w job i d db).media ≡ db.media
unfolding record_upload_audit
record_upload_audit-media w job i d db = elim (Bool-cases w.audits) [
  | inl e ↦ rw e refl
  | inr e ↦ rw e refl
]

module _ (w : Attempt) (job : UploadJob) where
  -- What a publication of `item` establishes.
  abbrev Kept : MediaItem → Db → Db × Verdict → Type 0
  Kept item db (db', published id duplicate) =
      (m : MediaItem) × (find_sha item.sha256 db'.media ≡ some m)
      × (m.id ≡ id)
      × (duplicate ≡ not (str_eq m.id item.id))
      × Looked w item.sha256 db
  Kept item db (db', rejected why) = ⊥
  Kept item db (db', failed) = Unit

  after_publish-Kept :
      (item : MediaItem) (db late : Db) (p : Db × Result (String × Bool))
      → Looked w item.sha256 db
      → Answers item late p
      → Kept item db (after_publish w job p)
  after_publish-Kept item db late (db', ok (id, duplicate)) c (m, at, named, dup, source) =
      (m, rw (record_upload_audit-media w job id (audit_detail duplicate) db') at, named, dup, c)
  after_publish-Kept item db late (db', err e) c o = tt

  publish_item-Kept :
      (item : MediaItem) (now : ℕ) (db late : Db)
      → Looked w item.sha256 db
      → Kept item db (publish_item w job item now late)
  unfolding publish_item
  publish_item-Kept item now db late c = elim (Bool-cases w.publish_runs) [
    | inl e ↦ simp e (
        after_publish-Kept item db late (publish_media job.upload_id job.lease_token item now late)
          c (publish_media-Answers job.upload_id job.lease_token item now late))
    | inr e ↦ simp e tt
  ]

  resolve_content-Kept :
      (item : MediaItem) (now : ℕ) (db : Db) → Kept item db (resolve_content w job item now db)
  unfolding resolve_content
  resolve_content-Kept item now db =
      elim (Bool-cases (w.lookup_runs && check_existing w (get_by_sha256 item.sha256 db))) [
        | inl e ↦ simp e (
            publish_item-Kept item now db (w.meanwhile db)
              (check_existing-Looked w item.sha256 db (ground arith)))
        | inr e ↦ simp e tt
      ]

  prepared-Kept :
      (item : MediaItem) (now : ℕ) (db : Db) (p : Table × Option StoreError)
      → Kept item db (prepared w job item now db p)
  prepared-Kept item now db (t, none) = resolve_content-Kept item now (record db { jobs = t })
  prepared-Kept item now db (t, some e) = tt

  -- A publication out of a copy that was made and verified.
  abbrev Copied : MediaItem → Db → Db × Verdict → Type 0
  Copied item db (db', published id duplicate) =
      (w.copies ≡ true) × (w.copy_verified ≡ true) × Kept item db (db', published id duplicate)
  Copied item db (db', rejected why) = ⊥
  Copied item db (db', failed) = Unit

  copy_made :
      (item : MediaItem) (db : Db) (r : Db × Verdict)
      → w.copies ≡ true
      → w.copy_verified ≡ true
      → Kept item db r
      → Copied item db r
  copy_made item db (db', published id duplicate) c v k = (c, v, k)
  copy_made item db (db', rejected why) c v k = k
  copy_made item db (db', failed) c v k = tt

  copied-Copied : (item : MediaItem) (now : ℕ) (db : Db) → Copied item db (copied w job item now db)
  copied-Copied item now db = elim (Bool-cases (w.copies && w.copy_verified && w.prepared_runs)) [
    | inl e ↦ simp e (
        copy_made item db
          (prepared w job item now db (record_prepared job.upload_id job.lease_token now db.jobs))
          (ground arith) (ground arith)
          (prepared-Kept item now db (record_prepared job.upload_id job.lease_token now db.jobs)))
    | inr e ↦ simp e tt
  ]

  identified-Copied :
      (item : MediaItem) (now : ℕ) (db : Db) (p : Table × Option StoreError)
      → Copied item db (identified w job item now db p)
  identified-Copied item now db (t, none) = copied-Copied item now (record db { jobs = t })
  identified-Copied item now db (t, some e) = tt

  content_checked :
      (item : MediaItem) (db : Db) (r : Db × Verdict)
      → w.hash ≡ some item.sha256
      → (str_eq job.declared_sha256 "" ≡ true) ⊎ (job.declared_sha256 ≡ item.sha256)
      → item.id ≡ job.media_id
      → Copied item db r
      → Justified w job db r
  content_checked item db (db', published id duplicate) h d same (c, v, (m, at, named, dup, ver)) =
      (
        item.sha256,
        m,
        h,
        d,
        c,
        v,
        at,
        named,
        subst (λ y. duplicate ≡ not (str_eq m.id y)) same dup,
        ver,
      )
  content_checked item db (db', rejected why) h d same k = absurd k
  content_checked item db (db', failed) h d same k = tt

  sized-Justified :
      (mime : String) (kind : MediaKind) (sum : String) (now : ℕ) (size : Option ℕ) (db : Db)
      → w.hash ≡ some sum
      → (str_eq job.declared_sha256 "" ≡ true) ⊎ (job.declared_sha256 ≡ sum)
      → Justified w job db (sized w job mime kind sum now size db)
  sized-Justified mime kind sum now none db h d = tt
  sized-Justified mime kind sum now (some size) db h d = elim (Bool-cases w.identity_runs) [
    | inr e ↦ simp e tt
    | inl e ↦
        let item =
          media_item w job (job.media_id ++ w.extension mime job.original_filename) mime kind size
            sum in
        simp e (
          content_checked item db
            (identified w job item now db (
              record_artifact_identity job.upload_id job.lease_token item.stored_filename mime sum
                now db.jobs))
            h d refl
            (identified-Copied item now db (
              record_artifact_identity job.upload_id job.lease_token item.stored_filename mime sum
                now db.jobs)))
  ]

  hashed-Justified :
      (mime : String) (kind : MediaKind) (now : ℕ) (o : Option String) (db : Db)
      → w.hash ≡ o
      → Justified w job db (hashed w job mime kind now o db)
  hashed-Justified mime kind now none db h = tt
  hashed-Justified mime kind now (some sum) db h =
      elim (Bool-cases (str_eq job.declared_sha256 "")) [
        | inl e ↦ simp e (sized-Justified mime kind sum now w.size db h (inl e))
        | inr e ↦ elim (Bool-cases (str_eq job.declared_sha256 sum)) [
          | inl f ↦
              simp (e, f)
                (sized-Justified mime kind sum now w.size db h
                  (inr ((str_eq_iff job.declared_sha256 sum).0 f)))
          | inr f ↦
              simp (e, f)
                (
                  subst (Mismatched job) (sym h)
                      (e, λ q. absurd (ground (arith, str_eq_iff job.declared_sha256 sum))),
                  refl,
                )
        ]
      ]

  classified-Justified :
      (now : ℕ) (s : Sniffed) (db : Db)
      → w.sniffed ≡ s
      → Justified w job db (classified w job now s db)
  classified-Justified now unsupported db q = (subst (Unsupported w) (sym q) tt, refl)
  classified-Justified now sniff_failed db q = tt
  classified-Justified now (recognised mime kind) db q = elim (Bool-cases (w.allowed mime kind)) [
    | inl e ↦ simp e (hashed-Justified mime kind now w.hash db refl)
    | inr e ↦ simp e (subst (Unsupported w) (sym q) e, refl)
  ]

  -- An attempt rejects an upload only because its content is of no supported type, or its hash is
  -- not the one that the client declared, and has then written nothing. It publishes one only when the
  -- declared hash, if any, is the computed one, the copy was made and verified, a media row owns the
  -- hash, which is reported as a duplicate exactly if it is not the upload's own, and the row that
  -- owned the hash when the attempt looked, if any, was verified, whatever others commit between that
  -- lookup and the publication.
  pub prepare_and_publish-Justified :
      (now : ℕ) (db : Db) → Justified w job db (prepare_and_publish w job now db)
  unfolding prepare_and_publish
  prepare_and_publish-Justified now db = classified-Justified now w.sniffed db refl
