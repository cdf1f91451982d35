-- ===== src/Ingest/Reconcile/Witness.antt =====
-- The witnesses of adoption are looks of earlier visits.
use event_gallery.Base.{
  ℕ, ◌≢◌, ◌≤◌, ◌∙◌, ◌≡◌, ◌⊎◌, inl, inr, refl, sym, Bool, true, false, Bool-cases, Option, none,
  some, String, List, [], ◌∷◌, str_eq, str_eq_iff, if◌then◌else◌, ltb, is_some, not, ◌&&◌, ◌+◌,
  ◌==◌,
}
use event_gallery.Store.Job.{
  JobStatus, uploading, pending, processing, cleanup, complete, discarding, discarded, StoreError,
  UploadJob,
}
use event_gallery.Store.Sql.{Table}
use event_gallery.Ingest.Reconcile.{
  readopt, reopen_returned, parse_missing, Seen, Evidence, trusted, absent, untrusted, Tools, Look,
  Witnesses, witness_of, quiet_period, same_seen, adoption_witnessed, trusted_sidecar, Visit,
  adopted_job, after_create, adopt, after_witness, weigh, reconcile_rowless, reconcile_uploading,
  reopen_finished, reconcile_status, reconcile_job, reconcile_one, forget_unseen,
}
use event_gallery.Store.Queue.{get_upload_job, create_uploading_job}
use event_gallery.Store.Finish.{delete_upload_job}
use event_gallery.Ingest.Reconcile.Warrant.{
  Finished, Warrant, untouched, commits_whole, removes_again, forgets_unobservable, adopts_new,
  adopts_again, reconcile_one-Warrant,
}
use mathlib.Core.Path.{subst}

-- What happens to the witnesses: a visit to an upload, or the end of a pass that saw some uploads.
pub data Turn : Type 0 where
  visits : String → Look → Table → Turn
  ends_pass : (String → Bool) → Turn

abbrev pub turn : Tools → Turn → Witnesses → Witnesses
turn tools (visits id look t) w = (reconcile_one tools look id w t).witnesses
turn tools (ends_pass seen) w = forget_unseen seen w

-- The turns so far, the latest first.
abbrev pub witnesses_after : Tools → List Turn → Witnesses
witnesses_after tools [] = []
witnesses_after tools (e ∷ es) = turn tools e (witnesses_after tools es)

-- One of the turns was a visit to the upload that saw the file so.
abbrev pub WasSeen : String → Seen → List Turn → Type 0
WasSeen id s [] = ⊥
WasSeen id s (visits k look t ∷ es) = ((k ≡ id) × (look.file ≡ some s)) ⊎ WasSeen id s es
WasSeen id s (ends_pass seen ∷ es) = WasSeen id s es

module _ (tools : Tools) (look : Look) (id : String) where
  -- A visit keeps the witnesses or adds what it saw of its upload.
  Grows : Witnesses → Visit → Type 0
  Grows w v = (v.witnesses ≡ w) ⊎ ((s : Seen) × (look.file ≡ some s) × (v.witnesses ≡ (id, s) ∷ w))

  after_create-keeps :
      (w : Witnesses) (r : Table × Option StoreError) → (after_create look id w r).witnesses ≡ w
  after_create-keeps w (t, none) = refl
  after_create-keeps w (t, some e) = refl

  adopt-keeps :
      (size : ℕ) (metadata : String → String) (w : Witnesses) (t : Table)
      → (adopt tools look id size metadata w t).witnesses ≡ w
  unfolding adopt
  adopt-keeps size metadata w t = elim (Bool-cases look.writes) [
    | inl e ↦ simp e (
        after_create-keeps w
          (create_uploading_job (adopted_job tools look id size metadata) look.now t))
    | inr e ↦ simp e refl
  ]

  after_witness-adds :
      (s : Seen) (t : Table) (b : Bool) (w : Witnesses)
      → (after_witness tools look id s t (b, w)).witnesses ≡ w
  after_witness-adds s t true w = adopt-keeps s.size (λ key. "") w t
  after_witness-adds s t false w = refl

  weigh-Grows :
      (s : Seen) (e : Evidence) (w : Witnesses) (t : Table)
      → look.file ≡ some s
      → Grows w (weigh tools look id s e w t)
  unfolding Grows adoption_witnessed
  weigh-Grows s untrusted w t f = inl refl
  weigh-Grows s absent w t f = inr (
    s,
    f,
    after_witness-adds s t
        (if ltb look.now (s.mod_time + quiet_period tools)
          then false
          else same_seen (witness_of id w) s)
        ((id, s) ∷ w),
  )
  weigh-Grows s (trusted info) w t f = elim (Bool-cases (s.size == info.size)) [
    | inl g ↦ simp g (inl (adopt-keeps info.size info.metadata w t))
    | inr g ↦ simp g (inl refl)
  ]

  rowless-Grows :
      (o : Option Seen) (w : Witnesses) (t : Table)
      → look.file ≡ o
      → Grows w (reconcile_rowless tools look id o w t)
  unfolding reconcile_rowless Grows
  rowless-Grows none w t f = inl refl
  rowless-Grows (some s) w t f = weigh-Grows s (trusted_sidecar tools id look.sidecar) w t f

  uploading-Grows :
      (job : UploadJob) (o : Option Seen) (w : Witnesses) (t : Table)
      → Grows w (reconcile_uploading look id job o w t)
  unfolding reconcile_uploading Grows
  uploading-Grows job none w t = inl refl
  uploading-Grows job (some s) w t = elim (Bool-cases (s.size == job.expected_size)) [
    | inl g ↦ simp g (inl refl)
    | inr g ↦ simp g (inl refl)
  ]

  returned-Grows :
      (target : JobStatus) (w : Witnesses) (t : Table)
      → Grows w (reopen_returned target look id w t)
  unfolding reopen_returned Grows
  returned-Grows target w t = elim (Bool-cases look.writes) [
    | inl g ↦ simp g (inl refl)
    | inr g ↦ simp g (inl refl)
  ]

  finished-Grows :
      (target : JobStatus) (w : Witnesses) (t : Table)
      → Grows w (reopen_finished target look id w t)
  unfolding reopen_finished Grows
  finished-Grows target w t =
      elim (Bool-cases (not (is_some look.file) && not look.sidecar_present)) [
        | inl g ↦ simp g (inl refl)
        | inr g ↦ simp g (returned-Grows target w t)
      ]

  readopt-Grows : (w : Witnesses) (t : Table) → Grows w (readopt tools look id w t)
  unfolding readopt Grows
  readopt-Grows w t = elim (Bool-cases look.deletes) [
    | inl e ↦ simp e (rowless-Grows look.file w (delete_upload_job id t) refl)
    | inr e ↦ simp e (inl refl)
  ]

  status-Grows :
      (job : UploadJob) (s : JobStatus) (w : Witnesses) (t : Table)
      → Grows w (reconcile_status tools look id job s w t)
  unfolding Grows
  status-Grows job uploading w t = uploading-Grows job look.file w t
  status-Grows job pending w t = inl refl
  status-Grows job processing w t = inl refl
  status-Grows job cleanup w t = inl refl
  status-Grows job complete w t = finished-Grows cleanup w t
  status-Grows job discarding w t = inl refl
  status-Grows job discarded w t = elim (Bool-cases (str_eq job.terminal_reason "unobservable")) [
    | inl f ↦ simp f (readopt-Grows w t)
    | inr f ↦ simp f (finished-Grows discarding w t)
  ]

  job-Grows :
      (o : Option UploadJob) (w : Witnesses) (t : Table)
      → Grows w (reconcile_job tools look id o w t)
  job-Grows none w t = rowless-Grows look.file w t refl
  job-Grows (some job) w t = status-Grows job job.status w t

  reconcile_one-Grows : (w : Witnesses) (t : Table) → Grows w (reconcile_one tools look id w t)
  unfolding reconcile_one Grows
  reconcile_one-Grows w t = elim (Bool-cases look.row_readable) [
    | inl e ↦ simp e (job-Grows (get_upload_job id t) w t)
    | inr e ↦ simp e (inl refl)
  ]

forgotten :
    (seen : String → Bool) (id : String) (w : Witnesses)
    → seen id ≡ false
    → witness_of id (forget_unseen seen w) ≡ none
unfolding forget_unseen
forgotten seen id [] e = refl
forgotten seen id ((k, s) ∷ w) e =
    let rec = forgotten seen id w e in
    elim (Bool-cases (seen k)) [
      | inr f ↦ simp f rec
      | inl f ↦ elim (Bool-cases (str_eq k id)) [
        | inl g ↦
            let same = (str_eq_iff k id).0 g in
            let wrong : true ≡ false = sym f ∙ subst (λ x. seen x ≡ false) (sym same) e in
            absurd (cc)
        | inr g ↦ simp (f, g) rec
      ]
    ]

forget_unseen-witness_of :
    (seen : String → Bool) (id : String) (s : Seen) (w : Witnesses)
    → witness_of id (forget_unseen seen w) ≡ some s
    → witness_of id w ≡ some s
unfolding forget_unseen
forget_unseen-witness_of seen id s [] e = e
forget_unseen-witness_of seen id s ((k, p) ∷ w) e = elim (Bool-cases (seen k)) [
  | inl f ↦ elim (Bool-cases (str_eq k id)) [
    | inl g ↦ simp g (simp (f, g) at e)
    | inr g ↦ simp g (forget_unseen-witness_of seen id s w (simp (f, g) at e))
  ]
  | inr f ↦ elim (Bool-cases (str_eq k id)) [
    | inr g ↦ simp g (forget_unseen-witness_of seen id s w (simp f at e))
    | inl g ↦
        let same = (str_eq_iff k id).0 g in
        let gone = forgotten seen id w (subst (λ x. seen x ≡ false) same f) in
        let wrong : none ≡ some s = sym gone ∙ (simp f at e) in absurd (cc)
  ]
]

after_visit :
    (tools : Tools) (look : Look) (k id : String) (s : Seen) (w : Witnesses) (v : Visit)
    → Grows tools look k w v
    → witness_of id v.witnesses ≡ some s
    → ((k ≡ id) × (look.file ≡ some s)) ⊎ (witness_of id w ≡ some s)
unfolding Grows
after_visit tools look k id s w v (inl same) e = inr (subst (λ u. witness_of id u ≡ some s) same e)
after_visit tools look k id s w v (inr (p, f, new)) e =
    let found : witness_of id ((k, p) ∷ w) ≡ some s = subst (λ u. witness_of id u ≡ some s) new e in
    elim (Bool-cases (str_eq k id)) [
      | inl g ↦ inl ((str_eq_iff k id).0 g, f ∙ (simp g at found))
      | inr g ↦ inr (simp g at found)
    ]

sooner : {A B C : Type 0} → A ⊎ B → (B → C) → A ⊎ C
sooner (inl a) f = inl a
sooner (inr b) f = inr (f b)

-- Every witness, after any visits and passes, is what an earlier visit to that upload saw of its file.
witnesses_after-WasSeen :
    (tools : Tools) (es : List Turn) (id : String) (s : Seen)
    → witness_of id (witnesses_after tools es) ≡ some s
    → WasSeen id s es
witnesses_after-WasSeen tools [] id s e = absurd (cc)
witnesses_after-WasSeen tools (ends_pass seen ∷ es) id s e =
    witnesses_after-WasSeen tools es id s
      (forget_unseen-witness_of seen id s (witnesses_after tools es) e)
witnesses_after-WasSeen tools (visits k look t ∷ es) id s e =
    let w = witnesses_after tools es in
    sooner
      (after_visit tools look k id s w (reconcile_one tools look k w t)
        (reconcile_one-Grows tools look k w t) e)
      (witnesses_after-WasSeen tools es id s)

-- The file that an adoption without a sidecar takes: quiet for long enough, and seen the same before.
abbrev pub SeenTwice : Tools → Look → String → List Turn → Type 0
SeenTwice tools look id es =
    (s : Seen) × (p : Seen) × (look.file ≡ some s)
    × (s.mod_time + quiet_period tools ≤ look.now)
    × WasSeen id p es
    × (p.size ≡ s.size)
    × (p.mod_time ≡ s.mod_time)

warranted :
    (tools : Tools) (es : List Turn) (look : Look) (id : String) (t after : Table)
    → Warrant tools look id (witnesses_after tools es) t after
    → get_upload_job id t ≡ none
    → look.sidecar ≡ parse_missing
    → after ≢ t
    → SeenTwice tools look id es
unfolding Finished
warranted tools es look id t after (untouched same) n m d = absurd (d same)
warranted tools es look id t after (commits_whole job s e q f g h) n m d = absurd (cc)
warranted tools es look id t after (removes_again job target e q f h) n m d = absurd (cc)
warranted tools es look id t after (forgets_unobservable job e q r h) n m d = absurd (cc)
warranted tools es look id t after (adopts_again job e q r h) n m d = absurd (cc)
warranted tools es look id t after (adopts_new e (s, f, inl (info, g, whole, size, same))) n m d =
    absurd (cc)
warranted tools es look id t after (adopts_new e (s, f, inr (g, quiet, (p, at, size, time), same)))
      n m d =
    (s, p, f, quiet, witnesses_after-WasSeen tools es id p at, size, time)

-- After any visits and passes, a visit to an upload without a row and without a sidecar changes the
-- queue only if it sees a data file that was last written longer ago than the quiet period, and that an
-- earlier visit to that upload saw with the same size and modification time.
pub reconcile_one-SeenTwice :
    (tools : Tools) (es : List Turn) (look : Look) (id : String) (t : Table)
    → get_upload_job id t ≡ none
    → look.sidecar ≡ parse_missing
    → (reconcile_one tools look id (witnesses_after tools es) t).table ≢ t
    → SeenTwice tools look id es
reconcile_one-SeenTwice tools es look id t n m d =
    let w = witnesses_after tools es in
    warranted tools es look id t (reconcile_one tools look id w t).table
      (reconcile_one-Warrant tools look id w t) n m d
