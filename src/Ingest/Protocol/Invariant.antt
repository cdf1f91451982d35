-- ===== src/Ingest/Protocol/Invariant.antt =====
-- What holds of every row of upload_jobs between two actions of the protocol, and of the jobs that
-- workers were handed.
use event_gallery.Base.{
  ℕ, ◌<◌, ◌≡◌, refl, Bool, true, false, Option, none, some, String, List, [], ◌∷◌, arith, str_eq,
  str_eq_iff, null_eq, is_some, All, Bool-cases, inl, inr,
}
use event_gallery.Store.Job.{
  JobStatus, pending, processing, cleanup, complete, discarding, discarded, status_eq, is_terminal,
  Row, UploadJob,
}
use event_gallery.Store.Queue.{in_worked_stage}
use event_gallery.Ingest.Protocol.{issued, find_handed}

-- A row that carries the token of a handed job still stands in the stage it was handed in.
abbrev pub Agrees : Option String → JobStatus → UploadJob → Type 0
Agrees tok s c = null_eq tok c.lease_token ≡ true → c.status ≡ s

abbrev pub Issued : List UploadJob → Option String → Type 0
Issued cs none = Unit
Issued cs (some t) = issued t cs ≡ true

pub record LeaseOk (cs : List UploadJob) (tok : Option String) (until : Option ℕ) (s : JobStatus)
    : Type 0 where
  pub paired : is_some tok ≡ is_some until
  pub agrees : All (Agrees tok s) cs
  pub token_issued : Issued cs tok
  pub idle : in_worked_stage s ≡ false → tok ≡ none
  pub held : s ≡ processing → is_some tok ≡ true

-- The statuses of an upload that has passed the durability barrier and is to be published.
unfoldable pub is_durable : JobStatus → Bool
is_durable pending = true
is_durable processing = true
is_durable cleanup = true
is_durable complete = true
is_durable _ = false

unfoldable pub is_published : JobStatus → Bool
is_published cleanup = true
is_published complete = true
is_published _ = false

unfoldable pub is_dropped : JobStatus → Bool
is_dropped discarding = true
is_dropped discarded = true
is_dropped _ = false

pub record LifeOk (r : Row) : Type 0 where
  pub durable : is_durable r.status ≡ true → is_some r.source_completed_at ≡ true
  pub uncancelled : is_durable r.status ≡ true → r.cancellation_requested_at ≡ none
  pub resolved : is_published r.status ≡ true → is_some r.result_media_id ≡ true
  pub closed : is_terminal r.status ≡ is_some r.terminal_at
  pub reasoned : is_dropped r.status ≡ true → str_eq r.terminal_reason "" ≡ false
  pub sized : 0 < r.expected_size

pub record RowOk (cs : List UploadJob) (r : Row) : Type 0 where
  pub lease : LeaseOk cs r.lease_token r.lease_until r.status
  pub life : LifeOk r

pub Agrees-free : (s : JobStatus) (cs : List UploadJob) → All (Agrees none s) cs
Agrees-free s [] = tt
Agrees-free s (c ∷ cs) = ((λ e. cc), Agrees-free s cs)

-- No lease fits every stage but processing.
pub LeaseOk-free :
    (cs : List UploadJob) (s : JobStatus) → status_eq s processing ≡ false → LeaseOk cs none none s
unfolding status_eq
LeaseOk-free cs s h = record {
  paired = refl;
  agrees = Agrees-free s cs;
  token_issued = tt;
  idle = λ e. refl;
  held = λ e. ground arith;
}

-- So does leaving a stage that has no lease.
pub LeaseOk-move :
    (cs : List UploadJob) (tok : Option String) (until : Option ℕ) (s s' : JobStatus)
    → LeaseOk cs tok until s
    → in_worked_stage s ≡ false
    → status_eq s' processing ≡ false
    → LeaseOk cs tok until s'
LeaseOk-move cs none none s s' h i p = LeaseOk-free cs s' p
LeaseOk-move cs none (some u) s s' h i p = absurd (ground (arith, h.paired))
LeaseOk-move cs (some t) until s s' h i p = absurd (ground (arith, h.idle i))

-- The stage of a handed job is that of a row which still carries its token.
pub Agrees-handed :
    (token : String) (cs : List UploadJob) (tok : Option String) (s : JobStatus) {c : UploadJob}
    → All (Agrees tok s) cs
    → find_handed token cs ≡ some c
    → null_eq tok c.lease_token ≡ true
    → c.status ≡ s
Agrees-handed token [] tok s {c} h e m = cc
Agrees-handed token (x ∷ cs) tok s {c} h e m = elim (Bool-cases (str_eq x.lease_token token)) [
  | inl hit ↦ ground (arith, h.0)
  | inr miss ↦ Agrees-handed token cs tok s {c = c} h.1 (ground arith) m
]

-- A token that was not issued fits no row, so handing out a job under it keeps the others' leases.
pub LeaseOk-issue :
    (cs : List UploadJob) (tok : Option String) (until : Option ℕ) (s : JobStatus) (c : UploadJob)
    → issued c.lease_token cs ≡ false
    → LeaseOk cs tok until s
    → LeaseOk (c ∷ cs) tok until s
LeaseOk-issue cs none until s c fresh h = record {
  paired = h.paired;
  agrees = ((λ e. cc), h.agrees);
  token_issued = tt;
  idle = h.idle;
  held = h.held;
}
LeaseOk-issue cs (some t) until s c fresh h = record {
  paired = h.paired;
  agrees = ((λ e. ground (arith, h.token_issued, str_eq_iff t c.lease_token)), h.agrees);
  token_issued = ground (arith, h.token_issued);
  idle = h.idle;
  held = h.held;
}
