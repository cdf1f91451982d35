-- ===== src/Store/Claim.antt =====
-- backend/internal/store/upload_jobs.go: what `ClaimNextJob` hands out.
use mathlib.Core.List.{Memᴰ}
use event_gallery.Base.{
  ℕ, ◌≤◌, ◌+◌, ◌≡◌, refl, Bool, true, false, Option, none, some, String, [], ◌∷◌, arith, str_eq,
  All, Bool-cases, inl, inr, select,
}
use event_gallery.Store.Job.{Row, UploadJob, JobStatus, scan_upload_job}
use event_gallery.Store.Sql.{Table, update_where}
use event_gallery.Store.Queue.{earliest, is_due, leased, lease_out, claim_next_job}
use event_gallery.Store.Keys.{
  Distinct, Distinct-same, All-of_mem, mem-select, earliest-mem, earliest-le, earliest-none,
}

select-empty : (p : Row → Bool) (t : Table) → select p t ≡ [] → All (λ x. p x ≡ false) t
select-empty p [] e = tt
select-empty p (r ∷ t) e = (ground arith, select-empty p t (ground arith))

-- A predicate of the kept rows, read on all rows.
All-of_select {ℓ} :
    (P : Row → Type ℓ) (p : Row → Bool) (t : Table)
    → All P (select p t)
    → All (λ x. p x ≡ true → P x) t
All-of_select P p [] h = tt
All-of_select P p (r ∷ t) h = elim (Bool-cases (p r)) [
  | inl e ↦ let k : All P (r ∷ select p t) = rw e at h in ((λ _. k.0), All-of_select P p t k.1)
  | inr e ↦ ((λ f. absurd (cc)), All-of_select P p t (rw e at h))
]

-- A claim is a due row of the wanted stage, before which none is due; it and no other row changes.
pub record IsClaim (from to : JobStatus) (token : String) (now lease_for : ℕ) (t t' : Table)
    (job : UploadJob) (r : Row) : Type 0 where
  pub stored : Memᴰ r t
  pub due : is_due from now r ≡ true
  pub first : All (λ y. is_due from now y ≡ true → r.next_attempt_at ≤ y.next_attempt_at) t
  pub returned : job ≡ scan_upload_job (leased to token (now + lease_for) now r)
  pub written :
      t'
      ≡ update_where (λ x. str_eq x.upload_id r.upload_id) (leased to token (now + lease_for) now) t
  pub alone : All (λ x. str_eq x.upload_id r.upload_id ≡ true → x ≡ r) t

abbrev pub ClaimOutcome :
    JobStatus → JobStatus → String → ℕ → ℕ → Table → Table → Option UploadJob → Type 0
ClaimOutcome from to token now lease_for t t' none =
    (t' ≡ t) × All (λ y. is_due from now y ≡ false) t
ClaimOutcome from to token now lease_for t t' (some job) =
    (r : Row) × IsClaim from to token now lease_for t t' job r

module _ (from to : JobStatus) (token : String) (now lease_for : ℕ) (t : Table)
    (d : Distinct t) where
  lease_out-ClaimOutcome :
      (o : Option Row)
      → earliest (select (is_due from now) t) ≡ o
      → let (t', job) = lease_out to token now lease_for t o in
        ClaimOutcome from to token now lease_for t t' job
  lease_out-ClaimOutcome none e = (refl, select-empty _ t (earliest-none _ e))
  lease_out-ClaimOutcome (some r) e =
      let (m, q) = mem-select (is_due from now) t r (earliest-mem _ e) in
      (
        r,
        record {
          stored = m;
          due = q;
          first = All-of_select _ (is_due from now) t (earliest-le _ e);
          returned = refl;
          written = refl;
          alone = All-of_mem _ t λ x n s. Distinct-same t d n m s;
        },
      )

  -- `ClaimNextJob` on a table with distinct keys either changes nothing, returns no job, and then no
  -- row of the stage is due; or returns one due row of the stage under the fresh lease, earliest by
  -- next_attempt_at, and changes this row alone.
  pub claim_next_job-ClaimOutcome :
      let (t', job) = claim_next_job from to token now lease_for t in
      ClaimOutcome from to token now lease_for t t' job
  unfolding claim_next_job
  claim_next_job-ClaimOutcome = lease_out-ClaimOutcome (earliest (select (is_due from now) t)) refl
