-- ===== src/Http/Status/Answers.antt =====
-- What a batch of upload ids is told: every id is answered, by the state of its row, and no entry
-- leads to media that the public may not see.
use mathlib.Core.Path.{subst}
use event_gallery.Base.{
  false, ◌≡◌, ◌⊎◌, inl, inr, refl, Bool, true, not, ◌&&◌, ◌||◌, Option, none, some, String, List,
  [], ◌∷◌, length, ltb, ◌==◌, arith, Bool-cases, Option-cases, All, str_eq, str_eq_refl, is_some,
}
use event_gallery.Store.Job.{JobStatus, cleanup, complete, no_rows, Result, ok, err, UploadJob}
use event_gallery.Store.Queue.{get_upload_job}
use event_gallery.Store.Media.{Db, MediaItem, find_media, get_visible_by_id, is_visible}
use event_gallery.Http.Status.Told.{Told, told_unknown, told_recovering, status_entry-Told}
use event_gallery.Http.Status.{
  State, state_unknown, state_recovering, Entry, answers, Reads, entry, shown_id, visible_media_id,
  published_state, published_entry, status_entry, public_upload_state, answered_already, answer_one,
  store_answer, answer_next, answer_all, reply_of, handle_upload_status,
}

-- An entry names no media, or one that is stored, active and approved.
abbrev Discreet : Db → Entry → Type 0
Discreet db e =
    (e.media_id ≡ "")
    ⊎ ((m : MediaItem) × (find_media e.media_id db.media ≡ some m) × (is_visible m ≡ true))

module _ (db : Db) where
  get_visible_by_id-ok :
      (id : String) (m : MediaItem)
      → get_visible_by_id id db ≡ ok m
      → (find_media id db.media ≡ some m) × (is_visible m ≡ true)
  unfolding get_visible_by_id
  get_visible_by_id-ok id m e = ground arith

  shown_id-Discreet :
      (id m : String) (s : State) (r : Result MediaItem)
      → get_visible_by_id id db ≡ r
      → shown_id id r ≡ some m
      → Discreet db (entry s m)
  unfolding shown_id
  shown_id-Discreet id m s (ok item) e k =
      let same : id ≡ m = ground arith in
      let (at, seen) = get_visible_by_id-ok id item e in
      subst (λ y. Discreet db (entry s y)) same (inr (item, at, seen))
  shown_id-Discreet id m s (err no_rows) e k = inl (ground arith)
  shown_id-Discreet id m s (err _) e k = absurd (cc)

  visible_media_id-Discreet :
      (readable : Bool) (id m : String) (s : State)
      → visible_media_id readable id db ≡ some m
      → Discreet db (entry s m)
  unfolding visible_media_id
  visible_media_id-Discreet readable id m s = elim (Bool-cases (str_eq id "")) [
    | inl e ↦ simp e (λ k. inl (ground arith))
    | inr e ↦ elim (Bool-cases readable) [
      | inl f ↦ simp (e, f) (shown_id-Discreet id m s (get_visible_by_id id db) refl)
      | inr f ↦ simp (e, f) (λ k. absurd (cc))
    ]
  ]

  published-Discreet :
      (job : UploadJob) (o : Option String) {e : Entry}
      → ((m : String) → o ≡ some m → Discreet db (entry (published_state job) m))
      → published_entry job o ≡ some e
      → Discreet db e
  unfolding published_entry
  published-Discreet job none h k = absurd (cc)
  published-Discreet job (some m) {e} h k =
      let same : entry (published_state job) m ≡ e = ground arith in
      subst (Discreet db) same (h m refl)

  status-Discreet :
      (readable : Bool) (job : UploadJob) (s : JobStatus) {e : Entry}
      → status_entry readable job s db ≡ some e
      → Discreet db e
  unfolding status_entry
  status-Discreet readable job cleanup k =
      published-Discreet job (visible_media_id readable job.result_media_id db)
        (λ m q. visible_media_id-Discreet readable job.result_media_id m (published_state job) q) k
  status-Discreet readable job complete k =
      published-Discreet job (visible_media_id readable job.result_media_id db)
        (λ m q. visible_media_id-Discreet readable job.result_media_id m (published_state job) q) k
  status-Discreet readable job _ {e} k = inl (ground arith)

  state-Discreet :
      (readable : Bool) (o : Option UploadJob) {e : Entry}
      → public_upload_state readable o db ≡ some e
      → Discreet db e
  unfolding public_upload_state
  state-Discreet readable none {e} k = inl (ground arith)
  state-Discreet readable (some job) k = status-Discreet readable job job.status k

  module _ (recovering : Bool) (reads : Reads) where
    answer_one-Discreet :
        (id : String) {e : Entry} → answer_one recovering reads db id ≡ some e → Discreet db e
    unfolding answer_one
    answer_one-Discreet id {e} = elim (Bool-cases (reads.jobs_readable id)) [
      | inr f ↦ simp f (λ k. absurd (cc))
      | inl f ↦ elim (Bool-cases (not (is_some (get_upload_job id db.jobs)) && recovering)) [
        | inl g ↦ simp (f, g) (λ k. inl (ground arith))
        | inr g ↦
            simp (f, g)
              (λ k. state-Discreet (reads.media_readable id) (get_upload_job id db.jobs) k)
      ]
    ]

    row-Told :
        (readable : Bool) (o : Option UploadJob) {e : Entry}
        → not (is_some o) && recovering ≡ false
        → public_upload_state readable o db ≡ some e
        → Told recovering o e
    unfolding public_upload_state
    row-Told readable none {e} r k =
        let same : entry state_unknown "" ≡ e = cc in
        subst (λ (x : Entry). Told recovering none x) same (told_unknown refl (ground arith))
    row-Told readable (some job) r k =
        status_entry-Told recovering job readable db job.status refl k

    inventory-Told :
        (o : Option UploadJob) {e : Entry}
        → not (is_some o) && recovering ≡ true
        → some (entry state_recovering "") ≡ some e
        → Told recovering o e
    inventory-Told none {e} r k =
        let same : entry state_recovering "" ≡ e = cc in
        subst (λ (x : Entry). Told recovering none x) same (told_recovering refl (ground arith))
    inventory-Told (some job) r k = absurd (ground arith)

    answer_one-Told :
        (id : String) {e : Entry}
        → answer_one recovering reads db id ≡ some e
        → Told recovering (get_upload_job id db.jobs) e
    unfolding answer_one
    answer_one-Told id {e} = elim (Bool-cases (reads.jobs_readable id)) [
      | inr f ↦ simp f (λ k. absurd (cc))
      | inl f ↦ elim (Bool-cases (not (is_some (get_upload_job id db.jobs)) && recovering)) [
        | inl g ↦ simp (f, g) (λ k. inventory-Told (get_upload_job id db.jobs) g k)
        | inr g ↦
            simp (f, g) (λ k. row-Told (reads.media_readable id) (get_upload_job id db.jobs) g k)
      ]
    ]

    -- An entry that the loop stored tells of the row of its id.
    abbrev pub IsAnswer : String × Entry → Type 0
    IsAnswer p = Told recovering (get_upload_job p.0 db.jobs) p.1 × Discreet db p.1

    -- What one turn of the loop keeps and adds.
    abbrev Answered : String → List (String × Entry) → List (String × Entry) → Type 0
    Answered id m m' =
        (All IsAnswer m → All IsAnswer m')
        × (answered_already id m' ≡ true)
        × ((k : String) → answered_already k m ≡ true → answered_already k m' ≡ true)

    store_answer-Answered :
        (id : String) (o : Option Entry) (m : List (String × Entry)) {m' : List (String × Entry)}
        → answer_one recovering reads db id ≡ o
        → store_answer id o m ≡ some m'
        → Answered id m m'
    unfolding store_answer answered_already
    store_answer-Answered id none m q k = absurd (cc)
    store_answer-Answered id (some e) m {m'} q k =
        let same : (id, e) ∷ m ≡ m' = ground arith in
        subst (Answered id m) same (
          (λ h. ((answer_one-Told id q, answer_one-Discreet id q), h)),
          rw (str_eq_refl id),
          λ j h. ground arith,
        )

    answer_next-Answered :
        (id : String) (m : List (String × Entry)) {m' : List (String × Entry)}
        → answer_next recovering reads db id (some m) ≡ some m'
        → Answered id m m'
    unfolding answer_next
    answer_next-Answered id m {m'} = elim (Bool-cases (answered_already id m)) [
      | inl e ↦ simp e (λ k.
          let same : m ≡ m' = ground arith in subst (Answered id m) same ((λ h. h), e, λ j h. h))
      | inr e ↦ simp e (λ k. store_answer-Answered id (answer_one recovering reads db id) m refl k)
    ]

    reply_of-answers :
        (o : Option (List (String × Entry))) {m : List (String × Entry)}
        → reply_of o ≡ answers m
        → o ≡ some m
    unfolding reply_of
    reply_of-answers none k = absurd (cc)
    reply_of-answers (some n) k = ground arith

    answer_all-none : (ids : List String) → answer_all recovering reads db ids none ≡ none
    unfolding answer_all answer_next
    answer_all-none [] = refl
    answer_all-none (id ∷ ids) = answer_all-none ids

    answer_all-Answered :
        (ids : List String) (m : List (String × Entry)) {m' : List (String × Entry)}
        → answer_all recovering reads db ids (some m) ≡ some m'
        → (All IsAnswer m → All IsAnswer m')
          × All (λ id. answered_already id m' ≡ true) ids
          × ((k : String) → answered_already k m ≡ true → answered_already k m' ≡ true)
    unfolding answer_all
    answer_all-Answered [] m {m'} k =
        let same : m ≡ m' = ground arith in
        (
          (λ h. subst (All IsAnswer) same h),
          tt,
          λ j h. subst (λ y. answered_already j y ≡ true) same h,
        )
    answer_all-Answered (id ∷ ids) m {m'} k =
        elim (Option-cases (answer_next recovering reads db id (some m))) [
          | inl e ↦ absurd (ground (arith, answer_all-none ids))
          | inr (n, e) ↦
              let (keep, at, more) = answer_next-Answered id m e in
              let (keep', rest, more') = answer_all-Answered ids n {m' = m'} (rw e at k) in
              ((λ h. keep' (keep h)), (more' id at, rest), λ j h. more' j (more j h))
        ]

    -- A batch that is answered has an entry for each id that it names, and each entry tells of the row of
    -- its id: unknown or recovering without a row, uploading or cancelled while in transfer, processing
    -- while pending or processed, published or duplicate after it, by whether the result is another
    -- media id, and cancelled or failed while discarded, by the reason. An entry names no media but the
    -- result of its row, and that only if it is stored, active and approved: an id of pending or
    -- trashed media never leaves.
    pub handle_upload_status-IsAnswer :
        (ids : List String) {m : List (String × Entry)}
        → handle_upload_status recovering reads db ids ≡ answers m
        → All IsAnswer m × All (λ id. answered_already id m ≡ true) ids
    unfolding handle_upload_status
    handle_upload_status-IsAnswer ids {m} =
        elim (Bool-cases (length ids == 0 || ltb 100 (length ids))) [
          | inl e ↦ simp e (λ k. absurd (cc))
          | inr e ↦ simp e (λ k.
              let all = reply_of-answers (answer_all recovering reads db ids (some [])) k in
              let (keep, each, more) = answer_all-Answered ids [] all in (keep tt, each))
        ]
