-- ===== src/Ingest/Reconcile/Pass/Closures.antt =====
-- Which rows a pass closes out as unobservable.
use event_gallery.Base.{
  ℕ, ◌-◌, ◌≡◌, inl, inr, refl, sym, ◌∙◌, Bool, true, false, Bool-cases, not, ◌&&◌, ◌||◌, Option,
  none, some, is_some, String, List, [], ◌∷◌, if◌then◌else◌, str_eq, str_eq_iff, arith,
}
use mathlib.Core.Path.{subst}
use event_gallery.Store.Job.{Row, JobStatus, uploading, discarded, status_eq}
use event_gallery.Store.Sql.{Table, find_row, find_row-update_where}
use event_gallery.Store.Queue.{list_stale_uploading}
use event_gallery.Store.Finish.{mark_unobservable}
use event_gallery.Ingest.Durability.{Stat, missing, unreadable, found}
use event_gallery.Ingest.Durability.Refusals.{StatFailed}
use event_gallery.Ingest.Reconcile.Pass.{
  Pass, stat_works, upload_paths_exist, resolve_row, resolve_rows, resolve_rows_without_files,
  max_stale_uploads_per_pass,
}

abbrev pub closed_out : ℕ → Row → Row
closed_out now r = record r {
  status = discarded;
  terminal_reason = "unobservable";
  terminal_at = some now;
  lease_token = none;
  lease_until = none;
  updated_at = now;
}

abbrev closable : String → Row → Bool
closable k r =
    str_eq r.upload_id k && status_eq r.status uploading && not (is_some r.source_completed_at)

-- A row is as it was, or it was in transfer, without a completed source, the stats of its data file and of
-- its sidecar failed, and it is closed out now.
pub data Closure (p : Pass) (id : String) (before after : Option Row) : Type 0 where
  stays : after ≡ before → Closure p id before after
  closes :
      (r : Row)
      → before ≡ some r
      → StatFailed (p.data_stat id)
      → StatFailed (p.info_stat id)
      → r.status ≡ uploading
      → r.source_completed_at ≡ none
      → after ≡ some (closed_out p.now r)
      → Closure p id before after

some-injective : {A : Type 0} {x y : A} → some x ≡ some y → x ≡ y
some-injective e = cc

uploading_only : (s : JobStatus) → status_eq s uploading ≡ true → s ≡ uploading
unfolding status_eq
uploading_only s e = ground arith

is_none : {A : Type 0} (o : Option A) → not (is_some o) ≡ true → o ≡ none
is_none none e = refl
is_none (some x) e = absurd (cc)

find_row_id : (id : String) (t : Table) (r : Row) → find_row id t ≡ some r → r.upload_id ≡ id
unfolding find_row
find_row_id id [] r e = absurd (cc)
find_row_id id (x ∷ t) r e = elim (Bool-cases (str_eq x.upload_id id)) [
  | inl f ↦
      let same : x ≡ r = some-injective (simp f at e) in
      subst (λ (y : Row). y.upload_id ≡ id) same ((str_eq_iff x.upload_id id).0 f)
  | inr f ↦ find_row_id id t r (simp f at e)
]

stat_failed : (s : Stat) → stat_works s ≡ false → StatFailed s
stat_failed missing e = inl refl
stat_failed unreadable e = inr refl
stat_failed (found regular size) e = absurd (cc)

unseen :
    (p : Pass) (id : String)
    → upload_paths_exist p id ≡ false
    → StatFailed (p.data_stat id) × StatFailed (p.info_stat id)
unfolding upload_paths_exist
unseen p id e =
    (stat_failed (p.data_stat id) (ground arith), stat_failed (p.info_stat id) (ground arith))

marks :
    (p : Pass) (k id : String) (t : Table) (o : Option Row) (after : Option Row)
    → upload_paths_exist p k ≡ false
    → find_row id t ≡ o
    → after
      ≡ elim o [ none ↦ none | some r ↦ some (if closable k r then closed_out p.now r else r) ]
    → Closure p id o after
marks p k id t none after absent f e = stays e
marks p k id t (some r) after absent f e = elim (Bool-cases (closable k r)) [
  | inr c ↦ stays (simp c at e)
  | inl c ↦
      let ours : r.upload_id ≡ k = (str_eq_iff r.upload_id k).0 (ground arith) in
      let none_seen =
        subst (λ i. upload_paths_exist p i ≡ false) (sym ours ∙ find_row_id id t r f) absent in
      let (data_failed, info_failed) = unseen p id none_seen in
      closes r refl data_failed info_failed (uploading_only r.status (ground arith))
        (is_none r.source_completed_at (ground arith)) (simp c at e)
]

resolve_row-Closure :
    (p : Pass) (k id : String) (t : Table)
    → Closure p id (find_row id t) (find_row id (resolve_row p k t))
unfolding resolve_row mark_unobservable
resolve_row-Closure p k id t = elim (Bool-cases (upload_paths_exist p k || not (p.mark_works k))) [
  | inl f ↦ simp f (stays refl)
  | inr f ↦ simp f (
      marks p k id t (find_row id t) _ (ground arith) refl
        (find_row-update_where (closable k) (closed_out p.now) id t (λ r. refl)))
]

follows :
    (p : Pass) (id : String) (a b c : Option Row)
    → Closure p id a b
    → Closure p id b c
    → Closure p id a c
follows p id a b c (stays same) d = subst (λ o. Closure p id o c) same d
follows p id a b c (closes r e x y s n f) (stays same) = closes r e x y s n (same ∙ f)
follows p id a b c (closes r e x y s n f) (closes q g h h' u m k) =
    let same : closed_out p.now r ≡ q = some-injective (sym f ∙ g) in
    let wrong : discarded ≡ uploading = subst (λ (y : Row). y.status ≡ uploading) (sym same) u in
    absurd (cc)

resolve_rows-Closure :
    (p : Pass) (ids : List String) (id : String) (t : Table)
    → Closure p id (find_row id t) (find_row id (resolve_rows p ids t))
unfolding resolve_rows
resolve_rows-Closure p [] id t = stays refl
resolve_rows-Closure p (k ∷ ids) id t =
    follows p id (find_row id t) (find_row id (resolve_row p k t))
      (find_row id (resolve_rows p ids (resolve_row p k t))) (resolve_row-Closure p k id t)
      (resolve_rows-Closure p ids id (resolve_row p k t))

-- The sweep over uploads that never produced bytes leaves the row of every upload as it is, but for rows
-- in transfer with no completed source for which the stats of both paths failed, for whatever reason:
-- these it may close out as unobservable, which changes nothing but the status, its reason and its
-- times, and the lease.
pub resolve_rows_without_files-Closure :
    (p : Pass) (id : String) (t : Table)
    → Closure p id (find_row id t) (find_row id (resolve_rows_without_files p t))
unfolding resolve_rows_without_files
resolve_rows_without_files-Closure p id t = elim (Bool-cases p.list_works) [
  | inr f ↦ simp f (stays refl)
  | inl f ↦ simp f (
      resolve_rows-Closure p
        (list_stale_uploading (p.now - p.reconcile_interval) max_stale_uploads_per_pass t) id t)
]
