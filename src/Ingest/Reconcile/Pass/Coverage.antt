-- ===== src/Ingest/Reconcile/Pass/Coverage.antt =====
-- Which uploads a pass visits, and whose witnesses it keeps.
use event_gallery.Base.{
  ◌≡◌, refl, ap, sym, ◌∙◌, inl, inr, Bool, true, false, Bool-cases, not, ◌&&◌, ◌||◌, some, String,
  List, [], ◌∷◌, str_eq, arith, str_eq_iff, All,
}
use mathlib.Core.Path.{subst}
use event_gallery.Store.Sql.{Table}
use event_gallery.Store.Finish.{among}
use event_gallery.Ingest.UploadId.{safe_upload_id}
use event_gallery.Ingest.Reconcile.{reconcile_one, Seen, Tools, Witnesses, forget_unseen}
use event_gallery.Ingest.Reconcile.Pass.{
  sweep_cancelled, resolve_rows_without_files, DirEntry, Pass, Progress, enter_entry, walk_entries,
  after_walk, reconcile_once,
}

-- The directory has a file of the upload, and the id is one that the hooks accept.
unfoldable pub is_listed_in : Pass → String → List DirEntry → Bool
is_listed_in p id [] = false
is_listed_in p id (e ∷ es) =
    not e.is_dir && safe_upload_id (p.without_suffix e.name) && str_eq (p.without_suffix e.name) id
    || is_listed_in p id es

same_id :
    (seen : List String) (k id : String)
    → among seen k ≡ true
    → str_eq k id ≡ true
    → among seen id ≡ true
same_id seen k id a e = subst (λ i. among seen i ≡ true) ((str_eq_iff k id).0 e) a

enter_entry-seen :
    (tools : Tools) (p : Pass) (e : DirEntry) (x : Progress) (id : String)
    → among (enter_entry tools p e x).seen id ≡ (
        not e.is_dir
          && safe_upload_id (p.without_suffix e.name)
          && str_eq (p.without_suffix e.name) id
        || among x.seen id)
unfolding enter_entry
enter_entry-seen tools p e x id =
    let k = p.without_suffix e.name in
    elim (Bool-cases e.is_dir) [
      | inl d ↦ simp d refl
      | inr d ↦ elim (Bool-cases (safe_upload_id k)) [
        | inr s ↦ simp (d, s) refl
        | inl s ↦ elim (Bool-cases (among x.seen k)) [
          | inr a ↦ simp (d, s, a) refl
          | inl a ↦ elim (Bool-cases (str_eq k id)) [
            | inr q ↦ simp (d, s, a, q) refl
            | inl q ↦ simp (d, s, a, q) (same_id x.seen k id a q)
          ]
        ]
      ]
    ]

or_swap : (a l s : Bool) → (l || (a || s)) ≡ ((a || l) || s)
or_swap true true s = refl
or_swap true false s = refl
or_swap false true s = refl
or_swap false false s = refl

walk_entries-seen :
    (tools : Tools) (p : Pass) (es : List DirEntry) (x : Progress) (id : String)
    → (walk_entries tools p es x).1 ≡ true
    → among (walk_entries tools p es x).0.seen id ≡ (is_listed_in p id es || among x.seen id)
unfolding walk_entries is_listed_in
walk_entries-seen tools p [] x id h = refl
walk_entries-seen tools p (e ∷ es) x id h = elim (Bool-cases (p.goes_on e.name)) [
  | inr g ↦ let wrong : false ≡ true = simp g at h in absurd (cc)
  | inl g ↦
      let rest = walk_entries-seen tools p es (enter_entry tools p e x) id (simp g at h) in
      let one = enter_entry-seen tools p e x id in
      let a =
        not e.is_dir
        && safe_upload_id (p.without_suffix e.name)
        && str_eq (p.without_suffix e.name) id in
      simp g (
        rest
        ∙ (λ i. is_listed_in p id es || one i)
        ∙ or_swap a (is_listed_in p id es) (among x.seen id))
]

-- No upload twice.
abbrev pub NoRepeats : List String → Type 0
NoRepeats [] = Unit
NoRepeats (id ∷ ids) = (among ids id ≡ false) × NoRepeats ids

enter_entry-NoRepeats :
    (tools : Tools) (p : Pass) (e : DirEntry) (x : Progress)
    → NoRepeats x.seen
    → NoRepeats (enter_entry tools p e x).seen
unfolding enter_entry
enter_entry-NoRepeats tools p e x h =
    let id = p.without_suffix e.name in
    elim (Bool-cases (e.is_dir || not (safe_upload_id id) || among x.seen id)) [
      | inl f ↦ simp f h
      | inr f ↦ simp f (ground arith, h)
    ]

walk_entries-NoRepeats :
    (tools : Tools) (p : Pass) (es : List DirEntry) (x : Progress)
    → NoRepeats x.seen
    → NoRepeats (walk_entries tools p es x).0.seen
unfolding walk_entries
walk_entries-NoRepeats tools p [] x h = h
walk_entries-NoRepeats tools p (e ∷ es) x h = elim (Bool-cases (p.goes_on e.name)) [
  | inr g ↦ simp g h
  | inl g ↦ simp g (
      walk_entries-NoRepeats tools p es (enter_entry tools p e x)
        (enter_entry-NoRepeats tools p e x h))
]

forget_unseen-All :
    (seen : List String) (w : Witnesses)
    → All (λ (e : String × Seen). among seen e.0 ≡ true) (forget_unseen (among seen) w)
unfolding forget_unseen
forget_unseen-All seen [] = tt
forget_unseen-All seen ((k, s) ∷ w) = elim (Bool-cases (among seen k)) [
  | inl a ↦ simp a (refl, forget_unseen-All seen w)
  | inr a ↦ simp a (forget_unseen-All seen w)
]

all_listed :
    (p : Pass) (es : List DirEntry) (seen : List String) (w : Witnesses)
    → ((id : String) → among seen id ≡ is_listed_in p id es)
    → All (λ (e : String × Seen). among seen e.0 ≡ true) w
    → All (λ (e : String × Seen). is_listed_in p e.0 es ≡ true) w
all_listed p es seen [] same h = tt
all_listed p es seen ((k, s) ∷ w) same h = (sym (same k) ∙ h.0, all_listed p es seen w same h.1)

-- The database and the witnesses after one visit to each upload of a list, the latest first.
unfoldable pub visits_to : Tools → Pass → Witnesses → Table → List String → Table × Witnesses
visits_to tools p w t [] = (t, w)
visits_to tools p w t (id ∷ ids) =
    let (u, v) = visits_to tools p w t ids in
    let done = reconcile_one tools (p.look_at id) id v u in (done.table, done.witnesses)

module _ (tools : Tools) (p : Pass) (w : Witnesses) (t : Table) where
  -- The progress is that of the visits to what it has seen, and no more.
  Visited : Progress → Type 0
  Visited x = (x.table, x.witnesses) ≡ visits_to tools p w t x.seen

  enter_entry-Visited :
      (e : DirEntry) (x : Progress) → Visited x → Visited (enter_entry tools p e x)
  unfolding enter_entry Visited visits_to
  enter_entry-Visited e x h =
      let id = p.without_suffix e.name in
      elim (Bool-cases (e.is_dir || not (safe_upload_id id) || among x.seen id)) [
        | inl f ↦ simp f h
        | inr f ↦ simp f (
            ap
              (λ (y : Table × Witnesses).
                let done = reconcile_one tools (p.look_at id) id y.1 y.0 in
                (done.table, done.witnesses))
              h)
      ]

  walk_entries-Visited :
      (es : List DirEntry) (x : Progress) → Visited x → Visited (walk_entries tools p es x).0
  unfolding walk_entries
  walk_entries-Visited [] x h = h
  walk_entries-Visited (e ∷ es) x h = elim (Bool-cases (p.goes_on e.name)) [
    | inr g ↦ simp g h
    | inl g ↦ simp g (walk_entries-Visited es (enter_entry tools p e x) (enter_entry-Visited e x h))
  ]

  -- What a pass that came to its end has done with the listed entries, after the sweeps left `t`.
  pub Covers : List DirEntry → Progress → Type 0
  Covers es x =
      ((id : String) → among x.seen id ≡ is_listed_in p id es)
      × NoRepeats x.seen
      × (x.table ≡ (visits_to tools p w t x.seen).0)
      × (x.witnesses ≡ forget_unseen (among x.seen) (visits_to tools p w t x.seen).1)
      × All (λ (e : String × Seen). is_listed_in p e.0 es ≡ true) x.witnesses

  after_walk-Covers :
      (es : List DirEntry) (y : Progress × Bool)
      → (y.1 ≡ true → (id : String) → among y.0.seen id ≡ is_listed_in p id es)
      → NoRepeats y.0.seen
      → Visited y.0
      → (after_walk y).1 ≡ true
      → Covers es (after_walk y).0
  unfolding Covers Visited
  after_walk-Covers es (x, false) all once seen e = absurd (cc)
  after_walk-Covers es (x, true) all once seen e = (
    all refl,
    once,
    ap (λ (y : Table × Witnesses). y.0) seen,
    ap (λ (y : Table × Witnesses). forget_unseen (among x.seen) y.1) seen,
    all_listed p es x.seen (forget_unseen (among x.seen) x.witnesses) (all refl)
        (forget_unseen-All x.seen x.witnesses),
  )

or_false : (b : Bool) → (b || false) ≡ b
or_false true = refl
or_false false = refl

-- A pass that came to its end over a directory has seen exactly the uploads of which the directory lists
-- a file under an id that the hooks accept, each of them once. The queue that it leaves is that of the
-- two sweeps followed by one visit of `reconcileOne` to each of these, and so are its witnesses, of
-- which it keeps those of the uploads it saw and no other.
pub reconcile_once-Covers :
    (tools : Tools) (p : Pass) (es : List DirEntry) (w : Witnesses) (t : Table)
    → p.entries ≡ some es
    → (reconcile_once tools p w t).1 ≡ true
    → Covers tools p w
        (resolve_rows_without_files p (sweep_cancelled p t))
        es
        (reconcile_once tools p w t).0
unfolding reconcile_once Visited visits_to
reconcile_once-Covers tools p es w t f e =
    let swept = resolve_rows_without_files p (sweep_cancelled p t) in
    let x : Progress = record { table = swept; witnesses = w; seen = [] } in
    simp f (
      after_walk-Covers tools p w swept es (walk_entries tools p es x)
        (λ h id. walk_entries-seen tools p es x id h ∙ or_false (is_listed_in p id es))
        (walk_entries-NoRepeats tools p es x tt) (walk_entries-Visited tools p w swept es x refl)
        (simp f at e))
