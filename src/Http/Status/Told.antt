-- ===== src/Http/Status/Told.antt =====
-- What the row of an upload means to the browser.
use mathlib.Core.Path.{subst}
use event_gallery.Base.{
  ℕ, false, str_eq_iff, ◌≢◌, if◌then◌else◌, ◌≡◌, ◌⊎◌, inl, inr, refl, sym, Bool, true, Option, none,
  some, String, arith, Bool-cases, str_eq, is_some,
}
use event_gallery.Store.Job.{
  JobStatus, uploading, pending, processing, discarding, discarded, cleanup, complete, no_rows,
  Result, ok, err, UploadJob,
}
use event_gallery.Store.Media.{Db, MediaItem, get_visible_by_id}
use event_gallery.Http.Status.{
  state_unknown, state_recovering, state_uploading, state_processing, state_published,
  state_duplicate, state_cancelled, state_failed, ended_state, Entry, entry, shown_id,
  visible_media_id, published_state, published_entry, status_entry,
}

-- What the row of an upload means to the browser, while `recovering` or not.
pub data Told (recovering : Bool) (o : Option UploadJob) : Entry → Type 0 where
  told_unknown : o ≡ none → recovering ≡ false → Told recovering o (entry state_unknown "")
  told_recovering : o ≡ none → recovering ≡ true → Told recovering o (entry state_recovering "")
  told_uploading :
      (job : UploadJob)
      → o ≡ some job
      → job.status ≡ uploading
      → job.cancellation_requested_at ≡ none
      → Told recovering o (entry state_uploading "")
  told_withdrawn :
      (job : UploadJob)
      → o ≡ some job
      → job.status ≡ uploading
      → is_some job.cancellation_requested_at ≡ true
      → Told recovering o (entry state_cancelled "")
  told_processing :
      (job : UploadJob)
      → o ≡ some job
      → (job.status ≡ pending) ⊎ (job.status ≡ processing)
      → Told recovering o (entry state_processing "")
  told_published :
      (job : UploadJob) (m : String)
      → o ≡ some job
      → (job.status ≡ cleanup) ⊎ (job.status ≡ complete)
      → (job.result_media_id ≡ "") ⊎ (job.result_media_id ≡ job.media_id)
      → (m ≡ "") ⊎ (m ≡ job.result_media_id)
      → Told recovering o (entry state_published m)
  told_duplicate :
      (job : UploadJob) (m : String)
      → o ≡ some job
      → (job.status ≡ cleanup) ⊎ (job.status ≡ complete)
      → job.result_media_id ≢ ""
      → job.result_media_id ≢ job.media_id
      → (m ≡ "") ⊎ (m ≡ job.result_media_id)
      → Told recovering o (entry state_duplicate m)
  told_cancelled :
      (job : UploadJob)
      → o ≡ some job
      → (job.status ≡ discarding) ⊎ (job.status ≡ discarded)
      → (job.terminal_reason ≡ "cancelled") ⊎ (job.terminal_reason ≡ "unobservable")
      → Told recovering o (entry state_cancelled "")
  told_failed :
      (job : UploadJob)
      → o ≡ some job
      → (job.status ≡ discarding) ⊎ (job.status ≡ discarded)
      → job.terminal_reason ≢ "cancelled"
      → job.terminal_reason ≢ "unobservable"
      → Told recovering o (entry state_failed "")

differs : (a b : String) → str_eq a b ≡ false → a ≢ b
differs a b e = λ q. absurd (ground (arith, str_eq_iff a b))

no_time : (o : Option ℕ) → is_some o ≡ false → o ≡ none
no_time none e = refl
no_time (some n) e = absurd (cc)

module _ (recovering : Bool) (job : UploadJob) where
  uploading-Told :
      job.status ≡ uploading
      → Told recovering (some job) (
          entry
            (if is_some job.cancellation_requested_at then state_cancelled else state_uploading)
            "")
  uploading-Told q = elim (Bool-cases (is_some job.cancellation_requested_at)) [
    | inl e ↦ simp e (told_withdrawn job refl q e)
    | inr e ↦ simp e (told_uploading job refl q (no_time job.cancellation_requested_at e))
  ]

  ended-Told :
      (job.status ≡ discarding) ⊎ (job.status ≡ discarded)
      → Told recovering (some job) (entry (ended_state job.terminal_reason) "")
  unfolding ended_state
  ended-Told q = elim (Bool-cases (str_eq job.terminal_reason "cancelled")) [
    | inl e ↦
        simp e (told_cancelled job refl q (inl ((str_eq_iff job.terminal_reason "cancelled").0 e)))
    | inr e ↦ elim (Bool-cases (str_eq job.terminal_reason "unobservable")) [
      | inl f ↦
          simp (e, f)
            (told_cancelled job refl q (inr ((str_eq_iff job.terminal_reason "unobservable").0 f)))
      | inr f ↦
          simp (e, f)
            (told_failed job refl q (differs job.terminal_reason "cancelled" e)
              (differs job.terminal_reason "unobservable" f))
    ]
  ]

  -- What a client may be told of the media.
  Own : String → Type 0
  Own m = (m ≡ "") ⊎ (m ≡ job.result_media_id)

  published-Told :
      (m : String)
      → (job.status ≡ cleanup) ⊎ (job.status ≡ complete)
      → Own m
      → Told recovering (some job) (entry (published_state job) m)
  unfolding published_state Own
  published-Told m q own = elim (Bool-cases (str_eq job.result_media_id "")) [
    | inl e ↦
        simp e (told_published job m refl q (inl ((str_eq_iff job.result_media_id "").0 e)) own)
    | inr e ↦ elim (Bool-cases (str_eq job.result_media_id job.media_id)) [
      | inl f ↦
          simp (e, f)
            (told_published job m refl q (inr ((str_eq_iff job.result_media_id job.media_id).0 f))
              own)
      | inr f ↦
          simp (e, f)
            (told_duplicate job m refl q (differs job.result_media_id "" e)
              (differs job.result_media_id job.media_id f) own)
    ]
  ]

  shown_id-Own :
      (m : String) (r : Result MediaItem) → shown_id job.result_media_id r ≡ some m → Own m
  unfolding shown_id Own
  shown_id-Own m (ok item) k = let same : job.result_media_id ≡ m = ground arith in inr (sym same)
  shown_id-Own m (err no_rows) k = inl (ground arith)
  shown_id-Own m (err _) k = absurd (cc)

  visible_media_id-Own :
      (readable : Bool) (db : Db) (m : String)
      → visible_media_id readable job.result_media_id db ≡ some m
      → Own m
  unfolding visible_media_id Own
  visible_media_id-Own readable db m = elim (Bool-cases (str_eq job.result_media_id "")) [
    | inl e ↦ simp e (λ k. inl (ground arith))
    | inr e ↦ elim (Bool-cases readable) [
      | inl f ↦ simp (e, f) (shown_id-Own m (get_visible_by_id job.result_media_id db))
      | inr f ↦ simp (e, f) (λ k. absurd (cc))
    ]
  ]

  given :
      {d e : Entry} → Told recovering (some job) d → some d ≡ some e → Told recovering (some job) e
  given {d} {e} h k =
      let same : d ≡ e = cc in subst (λ (x : Entry). Told recovering (some job) x) same h

  published_entry-Told :
      (o : Option String) {e : Entry}
      → ((m : String) → o ≡ some m → Own m)
      → (job.status ≡ cleanup) ⊎ (job.status ≡ complete)
      → published_entry job o ≡ some e
      → Told recovering (some job) e
  unfolding published_entry
  published_entry-Told none h q k = absurd (cc)
  published_entry-Told (some m) h q k = given (published-Told m q (h m refl)) k

  pub status_entry-Told :
      (readable : Bool) (db : Db) (s : JobStatus) {e : Entry}
      → job.status ≡ s
      → status_entry readable job s db ≡ some e
      → Told recovering (some job) e
  unfolding status_entry
  status_entry-Told readable db uploading q k = given (uploading-Told q) k
  status_entry-Told readable db pending q k = given (told_processing job refl (inl q)) k
  status_entry-Told readable db processing q k = given (told_processing job refl (inr q)) k
  status_entry-Told readable db cleanup q k =
      published_entry-Told (visible_media_id readable job.result_media_id db)
        (visible_media_id-Own readable db) (inl q) k
  status_entry-Told readable db complete q k =
      published_entry-Told (visible_media_id readable job.result_media_id db)
        (visible_media_id-Own readable db) (inr q) k
  status_entry-Told readable db discarding q k = given (ended-Told (inl q)) k
  status_entry-Told readable db discarded q k = given (ended-Told (inr q)) k
