-- ===== src/Store/Sql.antt =====
-- The SQL statements of backend/internal/store on the table upload_jobs, as functions of a list of
-- rows: UPDATE, DELETE and SELECT with a WHERE clause, and the number of rows that they touch.
use event_gallery.Base.{
  ℕ, zero, suc, ◌≡◌, refl, Bool, true, false, Option, none, some, String, List, [], ◌∷◌, arith,
  str_eq, str_eq_iff, if◌then◌else◌, All, Bool-cases, inl, inr,
}
use mathlib.Core.Path.{subst}
use event_gallery.Store.Job.{Row, StoreError, not_claimed}

abbrev pub Table : Type 0
Table = List Row

unfoldable pub update_where : (Row → Bool) → (Row → Row) → Table → Table
update_where p f [] = []
update_where p f (r ∷ t) = (if p r then f r else r) ∷ update_where p f t

unfoldable pub delete_where : (Row → Bool) → Table → Table
delete_where p [] = []
delete_where p (r ∷ t) = let rest = delete_where p t in if p r then rest else r ∷ rest

-- `RowsAffected`.
unfoldable pub affected : (Row → Bool) → Table → ℕ
affected p [] = 0
affected p (r ∷ t) = let rest = affected p t in if p r then suc rest else rest

-- The first row of a key: the primary key makes it the only one.
unfoldable pub find_row : String → Table → Option Row
find_row k [] = none
find_row k (r ∷ t) = let rest = find_row k t in if str_eq r.upload_id k then some r else rest

-- `requireOneRow`: no row matched means that the caller does not own the job.
unfoldable pub require_one_row : ℕ → Option StoreError
require_one_row zero = some not_claimed
require_one_row (suc n) = none

-- A conditional update, with its error.
abbrev pub exec : (Row → Bool) → (Row → Row) → Table → Table × Option StoreError
exec p f t = (update_where p f t, require_one_row (affected p t))

-- An update that leaves the key alone changes the row of a key and no other.
pub find_row-update_where :
    (p : Row → Bool) (f : Row → Row) (k : String) (t : Table)
    → ((r : Row) → (f r).upload_id ≡ r.upload_id)
    → find_row k (update_where p f t)
      ≡ elim (find_row k t) [ none ↦ none | some r ↦ some (if p r then f r else r) ]
unfolding find_row update_where
find_row-update_where p f k [] keep = refl
find_row-update_where p f k (r ∷ t) keep =
    ground (arith, keep r, find_row-update_where p f k t keep)

-- No affected row means that nothing was written.
pub update_where-affected_none :
    (p : Row → Bool) (f : Row → Row) (t : Table) → affected p t ≡ 0 → update_where p f t ≡ t
unfolding update_where affected
update_where-affected_none p f [] h = refl
update_where-affected_none p f (r ∷ t) h = ground (arith, update_where-affected_none p f t)

pub exec_error_unchanged :
    (p : Row → Bool) (f : Row → Row) (t : Table) (e : StoreError)
    → (exec p f t).1 ≡ some e
    → (exec p f t).0 ≡ t
unfolding require_one_row
exec_error_unchanged p f t e h = update_where-affected_none p f t (ground arith)

-- What every row has, and every written row gets, every row has afterwards.
pub All-update_where {ℓ} :
    (P : Row → Type ℓ) (p : Row → Bool) (f : Row → Row) (t : Table)
    → ((r : Row) → P r → p r ≡ true → P (f r))
    → All P t
    → All P (update_where p f t)
unfolding update_where
All-update_where P p f [] step h = h
All-update_where P p f (r ∷ t) step h = elim (Bool-cases (p r)) [
  | inl e ↦ rw e (step r h.0 e, All-update_where P p f t step h.1)
  | inr e ↦ rw e (h.0, All-update_where P p f t step h.1)
]

-- The same, where the predicate changes with the update.
pub All-update_into {ℓ κ} :
    {P : Row → Type ℓ} {Q : Row → Type κ} (p : Row → Bool) (f : Row → Row) (t : Table)
    → ((r : Row) → P r → p r ≡ true → Q (f r))
    → ((r : Row) → P r → p r ≡ false → Q r)
    → All P t
    → All Q (update_where p f t)
unfolding update_where
All-update_into p f [] hit miss h = tt
All-update_into p f (r ∷ t) hit miss h = elim (Bool-cases (p r)) [
  | inl e ↦ rw e (hit r h.0 e, All-update_into p f t hit miss h.1)
  | inr e ↦ rw e (miss r h.0 e, All-update_into p f t hit miss h.1)
]

pub All-delete_where {ℓ} :
    (P : Row → Type ℓ) (p : Row → Bool) (t : Table) → All P t → All P (delete_where p t)
unfolding delete_where
All-delete_where P p [] h = h
All-delete_where P p (r ∷ t) h = elim (Bool-cases (p r)) [
  | inl e ↦ rw e (All-delete_where P p t h.1)
  | inr e ↦ rw e (h.0, All-delete_where P p t h.1)
]

pub find_row-All {ℓ} :
    (P : Row → Type ℓ) (k : String) (t : Table) {r : Row}
    → All P t
    → find_row k t ≡ some r
    → P r × (r.upload_id ≡ k)
unfolding find_row
find_row-All P k [] h e = cc
find_row-All P k (x ∷ t) {r} h e = elim (Bool-cases (str_eq x.upload_id k)) [
  | inl hit ↦
      let same : x ≡ r = ground arith in
      subst (λ y. P y × (y.upload_id ≡ k)) same (h.0, (str_eq_iff x.upload_id k).0 hit)
  | inr miss ↦ find_row-All P k t h.1 (ground arith)
]
