-- ===== src/Ingest/Protocol/Claims.antt =====
-- Handing out a job keeps the invariant.
use mathlib.Core.Path.{subst}
use event_gallery.Base.{
  ℕ, ◌+◌, ◌≡◌, refl, sym, true, false, Option, none, some, String, List, [], ◌∷◌, arith, str_eq_iff,
  str_eq_refl, All, All-both, Bool-cases, inl, inr,
}
use event_gallery.Store.Job.{JobStatus, status_eq, is_terminal, Row, UploadJob, scan_upload_job}
use event_gallery.Store.Sql.{Table, All-update_into}
use event_gallery.Store.Queue.{in_worked_stage, leased}
use event_gallery.Store.Keys.{Distinct, Distinct-update_where}
use event_gallery.Store.Claim.{IsClaim, ClaimOutcome, claim_next_job-ClaimOutcome}
use event_gallery.Ingest.Protocol.Invariant.{
  Agrees, RowOk, LifeOk, LeaseOk-issue, is_durable, is_published, is_dropped,
}
use event_gallery.Ingest.Protocol.Statements.{Rows}
use event_gallery.Ingest.Protocol.{Stage, stage_from, stage_to, issued, claim, System, hand_out}

-- No handed job has a token that was never issued.
Agrees-fresh :
    (token : String) (s : JobStatus) (cs : List UploadJob)
    → issued token cs ≡ false
    → All (Agrees (some token) s) cs
Agrees-fresh token s [] e = tt
Agrees-fresh token s (c ∷ cs) e = (
  (λ m. ground (arith, str_eq_iff token c.lease_token, str_eq_iff c.lease_token token)),
  Agrees-fresh token s cs (ground arith),
)

leased-LifeOk :
    (stage : Stage) (token : String) (until now : ℕ) (r : Row)
    → status_eq r.status (stage_from stage) ≡ true
    → LifeOk r
    → LifeOk (leased (stage_to stage) token until now r)
unfolding stage_from stage_to status_eq is_durable is_published is_dropped is_terminal
leased-LifeOk stage token until now r e h = ground arith

stage_to_worked : (stage : Stage) → in_worked_stage (stage_to stage) ≡ true
unfolding stage_to status_eq
stage_to_worked stage = ground arith

leased-RowOk :
    (stage : Stage) (token : String) (until now : ℕ) (r : Row) (cs : List UploadJob)
    → status_eq r.status (stage_from stage) ≡ true
    → issued token cs ≡ false
    → RowOk cs r
    → let row = leased (stage_to stage) token until now r in RowOk (scan_upload_job row ∷ cs) row
unfolding scan_upload_job
leased-RowOk stage token until now r cs e fresh h = record {
  lease = record {
    paired = refl;
    agrees = ((λ m. refl), Agrees-fresh token (stage_to stage) cs fresh);
    token_issued = rw (str_eq_refl token);
    idle = λ i. absurd (ground (arith, stage_to_worked stage));
    held = λ p. refl;
  };
  life = leased-LifeOk stage token until now r e h.life;
}

-- What the system keeps between two actions.
pub record SystemOk (s : System) : Type 0 where
  pub rows : Rows s.handed s.db.jobs
  pub keys : Distinct s.db.jobs

module _ (stage : Stage) (token : String) (now lease_for : ℕ) (s : System)
    (fresh : issued token s.handed ≡ false) (h : SystemOk s) where
  -- The claimed row gets the fresh lease, and the others keep theirs.
  claimed-Rows :
      (t : Table) (job : UploadJob) (r : Row)
      → IsClaim (stage_from stage) (stage_to stage) token now lease_for s.db.jobs t job r
      → Rows (job ∷ s.handed) t
  unfolding scan_upload_job
  claimed-Rows t job r c =
      rw (c.written, c.returned)
        (All-update_into _ _ s.db.jobs
          (λ x k e.
            subst (λ y. RowOk (scan_upload_job (row r) ∷ s.handed) (row y)) (sym (k.1 e))
              (leased-RowOk stage token (now + lease_for) now r s.handed stands fresh
                (subst (RowOk s.handed) (k.1 e) k.0)))
          (λ x k e. record {
            lease =
                LeaseOk-issue s.handed x.lease_token x.lease_until x.status
                  (scan_upload_job (row r)) fresh (k.0).lease;
            life = (k.0).life;
          })
          (All-both _ _ s.db.jobs h.rows c.alone))
    where
      row : Row → Row
      row = leased (stage_to stage) token (now + lease_for) now

      stands : status_eq r.status (stage_from stage) ≡ true
      stands = ground (arith, c.due)

  hand_out-SystemOk :
      (t : Table) (job : Option UploadJob)
      → ClaimOutcome (stage_from stage) (stage_to stage) token now lease_for s.db.jobs t job
      → SystemOk (hand_out s t job)
  hand_out-SystemOk t none c = record { rows = rw (c.0) h.rows; keys = rw (c.0) h.keys }
  hand_out-SystemOk t (some job) (r, c) = record {
    rows = claimed-Rows t job r c;
    keys = rw (c.written) (Distinct-update_where _ _ _ (λ x. refl) h.keys);
  }

pub claim-SystemOk :
    (stage : Stage) (token : String) (now lease_for : ℕ) (s : System)
    → SystemOk s
    → SystemOk (claim stage token now lease_for s)
unfolding claim
claim-SystemOk stage token now lease_for s h = elim (Bool-cases (issued token s.handed)) [
  | inl old ↦ rw old h
  | inr fresh ↦ rw fresh (
      hand_out-SystemOk stage token now lease_for s fresh h _ _ (
        claim_next_job-ClaimOutcome (stage_from stage) (stage_to stage) token now lease_for
          s.db.jobs h.keys))
]
