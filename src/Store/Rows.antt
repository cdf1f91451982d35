-- ===== src/Store/Rows.antt =====
-- A single row under the conditional updates of upload_jobs: what an update that reports success
-- wrote, and what one that reports ErrNotClaimed left.
use mathlib.Core.List.{Memᴰ}
use mathlib.Core.Path.{subst}
use event_gallery.Base.{
  ℕ, zero, suc, ◌≡◌, ◌≢◌, refl, sym, Bool, true, false, none, some, String, [], ◌∷◌, arith,
  str_eq_iff, str_eq_refl, Bool-cases, All, inl, inr,
}
use event_gallery.Store.Job.{Row}
use event_gallery.Store.Sql.{
  Table, update_where, affected, find_row, require_one_row, exec, find_row-update_where,
  update_where-affected_none,
}
use event_gallery.Store.Keys.{Distinct, KeepsKey, Absent-mem}

-- A row that counts is in the table.
affected-mem : (p : Row → Bool) (t : Table) → affected p t ≢ 0 → (r : Row) × Memᴰ r t × (p r ≡ true)
unfolding affected
affected-mem p [] h = absurd (h refl)
affected-mem p (x ∷ t) h = elim (Bool-cases (p x)) [
  | inl e ↦ (x, Memᴰ.head refl, e)
  | inr e ↦ let (r, m, q) = affected-mem p t (rw e at h) in (r, Memᴰ.tail m, q)
]

-- With distinct keys a stored row is the one that its key finds.
pub find_row_of_mem :
    (t : Table) {r : Row} → Distinct t → Memᴰ r t → find_row r.upload_id t ≡ some r
unfolding find_row
find_row_of_mem [] d m = elim m [ ]
find_row_of_mem (x ∷ t) {r} d (Memᴰ.head a) = rw a (rw (str_eq_refl x.upload_id))
find_row_of_mem (x ∷ t) {r} d (Memᴰ.tail m) =
    let apart = Absent-mem x.upload_id t r d.0 m in
    ground (
      arith,
      apart,
      str_eq_iff x.upload_id r.upload_id,
      str_eq_iff r.upload_id x.upload_id,
      find_row_of_mem t d.1 m,
    )

success_counts : (n : ℕ) → require_one_row n ≡ none → n ≢ 0
unfolding require_one_row
success_counts zero h = absurd (cc)
success_counts (suc n) h = λ z. absurd (omega arith)

-- A conditional update of one upload that succeeds has written that upload's row, which met the
-- condition.
pub exec_success :
    (p : Row → Bool) (f : Row → Row) (id : String) (t : Table)
    → Distinct t
    → KeepsKey f
    → ((r : Row) → p r ≡ true → r.upload_id ≡ id)
    → (exec p f t).1 ≡ none
    → (r : Row) × (find_row id t ≡ some r)
      × (p r ≡ true)
      × (find_row id (exec p f t).0 ≡ some (f r))
exec_success p f id t d keep only e =
    let (r, m, q) = affected-mem p t (success_counts (affected p t) e) in
    let at : find_row id t ≡ some r =
      subst (λ k. find_row k t ≡ some r) (only r q) (find_row_of_mem t d m) in
    (r, at, q, written r at q)
  where
    written :
        (r : Row)
        → find_row id t ≡ some r
        → p r ≡ true
        → find_row id (update_where p f t) ≡ some (f r)
    written r at q = rw (find_row-update_where p f id t keep, at) (rw q)

none_affected : (p : Row → Bool) (t : Table) → affected p t ≡ 0 → All (λ r. p r ≡ false) t
unfolding affected
none_affected p [] h = tt
none_affected p (r ∷ t) h = elim (Bool-cases (p r)) [
  | inl e ↦ absurd (ground arith)
  | inr e ↦ (e, none_affected p t (ground arith))
]

-- A conditional update that does not succeed leaves the table, in which no row meets the condition.
pub exec_failure :
    (p : Row → Bool) (f : Row → Row) (t : Table)
    → (exec p f t).1 ≢ none
    → All (λ r. p r ≡ false) (exec p f t).0
unfolding require_one_row
exec_failure p f t h =
    let nothing : affected p t ≡ 0 = ground arith in
    subst (All (λ r. p r ≡ false)) (sym (update_where-affected_none p f t nothing))
      (none_affected p t nothing)
