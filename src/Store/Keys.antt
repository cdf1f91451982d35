-- ===== src/Store/Keys.antt =====
-- The primary key of upload_jobs: no two rows have one upload id, whatever statement runs; and what
-- a claim that goes by the key of a selected row therefore touches.
use mathlib.Core.List.{Memᴰ}
use mathlib.Core.Path.{subst}
use event_gallery.Base.{
  ℕ, ◌≤◌, ltb, ◌≡◌, refl, sym, ap, ◌∙◌, Bool, true, false, none, some, String, [], ◌∷◌, arith,
  str_eq, str_eq_iff, All, All-mono, Bool-cases, Option-cases, inl, inr, ◌||◌, ◌==◌, select,
}
use event_gallery.Store.Job.{Row, UploadJob}
use event_gallery.Store.Sql.{Table, update_where, delete_where, find_row}
use event_gallery.Store.Queue.{earliest, taken, create_uploading_job}

abbrev pub Absent : String → Table → Type 0
Absent k t = All (λ x. str_eq x.upload_id k ≡ false) t

abbrev pub Distinct : Table → Type 0
Distinct [] = Unit
Distinct (r ∷ t) = Absent r.upload_id t × Distinct t

-- An UPDATE never sets the key.
abbrev pub KeepsKey : (Row → Row) → Type 0
KeepsKey f = (r : Row) → (f r).upload_id ≡ r.upload_id

Absent-update_where :
    (p : Row → Bool) (f : Row → Row) (k : String) (t : Table)
    → KeepsKey f
    → Absent k t
    → Absent k (update_where p f t)
unfolding update_where
Absent-update_where p f k [] keep h = h
Absent-update_where p f k (r ∷ t) keep h = elim (Bool-cases (p r)) [
  | inl e ↦ rw e (ap (λ i. str_eq i k) (keep r) ∙ h.0, Absent-update_where p f k t keep h.1)
  | inr e ↦ rw e (h.0, Absent-update_where p f k t keep h.1)
]

pub Distinct-update_where :
    (p : Row → Bool) (f : Row → Row) (t : Table)
    → KeepsKey f
    → Distinct t
    → Distinct (update_where p f t)
unfolding update_where
Distinct-update_where p f [] keep h = h
Distinct-update_where p f (r ∷ t) keep h = elim (Bool-cases (p r)) [
  | inl e ↦ rw e (
    rw (keep r) (Absent-update_where p f r.upload_id t keep h.0),
    Distinct-update_where p f t keep h.1,
  )
  | inr e ↦
      rw e (Absent-update_where p f r.upload_id t keep h.0, Distinct-update_where p f t keep h.1)
]

Absent-delete_where :
    (p : Row → Bool) (k : String) (t : Table) → Absent k t → Absent k (delete_where p t)
unfolding delete_where
Absent-delete_where p k [] h = h
Absent-delete_where p k (r ∷ t) h = elim (Bool-cases (p r)) [
  | inl e ↦ rw e (Absent-delete_where p k t h.1)
  | inr e ↦ rw e (h.0, Absent-delete_where p k t h.1)
]

pub Distinct-delete_where : (p : Row → Bool) (t : Table) → Distinct t → Distinct (delete_where p t)
unfolding delete_where
Distinct-delete_where p [] h = h
Distinct-delete_where p (r ∷ t) h = elim (Bool-cases (p r)) [
  | inl e ↦ rw e (Distinct-delete_where p t h.1)
  | inr e ↦ rw e (Absent-delete_where p r.upload_id t h.0, Distinct-delete_where p t h.1)
]

Absent-taken : (j : UploadJob) (t : Table) → taken j t ≡ false → Absent j.upload_id t
Absent-taken j [] e = tt
Absent-taken j (r ∷ t) e = (ground arith, Absent-taken j t (ground arith))

pub Distinct-create :
    (j : UploadJob) (now : ℕ) (t : Table) → Distinct t → Distinct (create_uploading_job j now t).0
unfolding create_uploading_job
Distinct-create j now t h = elim (Bool-cases (taken j t || j.expected_size == 0)) [
  | inl e ↦ rw e h
  | inr e ↦ rw e (Absent-taken j t (ground arith), h)
]

-- Two rows of the table with one key are one row.
pub Absent-mem :
    (k : String) (t : Table) (x : Row) → Absent k t → Memᴰ x t → str_eq x.upload_id k ≡ false
Absent-mem k [] x h m = elim m [ ]
Absent-mem k (r ∷ t) x h (Memᴰ.head e) = rw e h.0
Absent-mem k (r ∷ t) x h (Memᴰ.tail m) = Absent-mem k t x h.1 m

pub Distinct-same :
    (t : Table) {x y : Row}
    → Distinct t
    → Memᴰ x t
    → Memᴰ y t
    → str_eq x.upload_id y.upload_id ≡ true
    → x ≡ y
Distinct-same [] h m n e = elim m [ ]
Distinct-same (r ∷ t) h (Memᴰ.head a) (Memᴰ.head b) e = a ∙ sym b
Distinct-same (r ∷ t) {x} {y} h (Memᴰ.head a) (Memᴰ.tail n) e =
    absurd (clash (Absent-mem r.upload_id t y h.0 n))
  where
    clash : str_eq y.upload_id r.upload_id ≡ false → ⊥
    clash c =
        ground (arith, str_eq_iff x.upload_id y.upload_id, str_eq_iff y.upload_id r.upload_id, a)
Distinct-same (r ∷ t) {x} {y} h (Memᴰ.tail m) (Memᴰ.head b) e =
    absurd (clash (Absent-mem r.upload_id t x h.0 m))
  where
    clash : str_eq x.upload_id r.upload_id ≡ false → ⊥
    clash c =
        ground (arith, str_eq_iff x.upload_id y.upload_id, str_eq_iff x.upload_id r.upload_id, b)
Distinct-same (r ∷ t) h (Memᴰ.tail m) (Memᴰ.tail n) e = Distinct-same t h.1 m n e

module _ {ℓ} (P : Row → Type ℓ) where
  pub All-of_mem : (t : Table) → ((x : Row) → Memᴰ x t → P x) → All P t
  All-of_mem [] f = tt
  All-of_mem (r ∷ t) f = (f r (Memᴰ.head refl), All-of_mem t λ x m. f x (Memᴰ.tail m))

  pub All-mem : (t : Table) {x : Row} → All P t → Memᴰ x t → P x
  All-mem [] h m = elim m [ ]
  All-mem (r ∷ t) h (Memᴰ.head e) = subst P (sym e) h.0
  All-mem (r ∷ t) h (Memᴰ.tail m) = All-mem t h.1 m

mem-cons_kept :
    (p : Row → Bool) (r x : Row) (t s : Table)
    → (Memᴰ x s → Memᴰ x t × (p x ≡ true))
    → p r ≡ true
    → Memᴰ x (r ∷ s)
    → Memᴰ x (r ∷ t) × (p x ≡ true)
mem-cons_kept p r x t s rest e (Memᴰ.head a) = (Memᴰ.head a, rw a e)
mem-cons_kept p r x t s rest e (Memᴰ.tail n) = let (k, q) = rest n in (Memᴰ.tail k, q)

pub mem-select :
    (p : Row → Bool) (t : Table) (x : Row) → Memᴰ x (select p t) → Memᴰ x t × (p x ≡ true)
mem-select p [] x m = elim m [ ]
mem-select p (r ∷ t) x m = elim (Bool-cases (p r)) [
  | inl e ↦ mem-cons_kept p r x t (select p t) (mem-select p t x) e (rw e at m)
  | inr e ↦ let (n, q) = mem-select p t x (rw e at m) in (Memᴰ.tail n, q)
]

-- The row that ORDER BY next_attempt_at LIMIT 1 yields is in the table, and none is due before it.
pub earliest-mem : (t : Table) {x : Row} → earliest t ≡ some x → Memᴰ x t
unfolding earliest
earliest-mem [] e = cc
earliest-mem (r ∷ t) {x} e = elim (Option-cases (earliest t)) [
  | inl n ↦ Memᴰ.head (ground arith)
  | inr (b, s) ↦ elim (Bool-cases (ltb b.next_attempt_at r.next_attempt_at)) [
    | inl c ↦ Memᴰ.tail (earliest-mem t (ground arith))
    | inr c ↦ Memᴰ.head (ground arith)
  ]
]

pub earliest-none : (t : Table) → earliest t ≡ none → t ≡ []
unfolding earliest
earliest-none [] e = refl
earliest-none (r ∷ t) e = ground arith

pub earliest-le :
    (t : Table) {x : Row} → earliest t ≡ some x → All (λ y. x.next_attempt_at ≤ y.next_attempt_at) t
unfolding earliest
earliest-le [] e = tt
earliest-le (r ∷ t) {x} e = elim (Option-cases (earliest t)) [
  | inl n ↦ (
    ground arith,
    subst (All λ y. x.next_attempt_at ≤ y.next_attempt_at) (sym (earliest-none t n)) tt,
  )
  | inr (b, s) ↦ (ground arith, All-mono t (λ y h. ground arith) (earliest-le t s))
]

find_row-mem :
    (k : String) (t : Table) {r : Row} → find_row k t ≡ some r → Memᴰ r t × (r.upload_id ≡ k)
unfolding find_row
find_row-mem k [] e = cc
find_row-mem k (x ∷ t) {r} e = elim (Bool-cases (str_eq x.upload_id k)) [
  | inl hit ↦
      let same : x ≡ r = ground arith in
      (Memᴰ.head (sym same), ap (λ (y : Row). y.upload_id) (sym same) ∙ (str_eq_iff _ _).0 hit)
  | inr miss ↦ let (m, i) = find_row-mem k t (ground arith) in (Memᴰ.tail m, i)
]

-- The row that a key finds is the only row of that key.
pub find_row-alone :
    (k : String) (t : Table) {r : Row}
    → Distinct t
    → find_row k t ≡ some r
    → All (λ x. str_eq x.upload_id k ≡ true → x ≡ r) t
find_row-alone k t {r} d e =
    let (m, i) = find_row-mem k t e in All-of_mem _ t λ x n s. Distinct-same t d n m (rw i s)
