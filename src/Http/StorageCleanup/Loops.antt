-- ===== src/Http/StorageCleanup/Loops.antt =====
-- What a recovery pass over all stages does to the files of one media id.
use mathlib.Core.Path.{subst}
use event_gallery.Base.{
  ◌≡◌, ◌⊎◌, inl, inr, refl, sym, Bool, true, Bool-cases, String, List, [], ◌∷◌, str_eq,
}
use event_gallery.Store.Job.{
  Result, ok, err, not_claimed, unknown_counter, constraint_failed, no_rows,
}
use event_gallery.Store.Media.{MediaItem, Db, get_by_id}
use event_gallery.Media.Staging.{Place, Answer, finished, failed, crashed, Ran, Op, Manifest}
use event_gallery.Media.Staging.Triples.{Triple, Works, Ends-place}
use event_gallery.Media.Staging.Calm.{Calm, IsCalm}
use event_gallery.Media.Purge.{load_stage, Loaded, stage, no_stage, problem}
use event_gallery.Media.Purge.Calms.{restore-IsCalm, finalize-IsCalm}
use event_gallery.Http.StorageCleanup.{
  Volume, VolumeRun, set_place, after_each, resolve_stage, resolve_loaded, reconcile_stage,
  reconcile_purge_stages,
}
use event_gallery.Http.StorageCleanup.Items.{
  set_place-other, set_place-same, after_each-ends, after_each-other,
}
use event_gallery.Http.StorageCleanup.Rows.{str_eq_same}

module _ (readable : String → Bool) (db : Db) where
  resolve_stage-IsCalm : (m : Manifest) (r : Result MediaItem) → IsCalm (resolve_stage m r)
  resolve_stage-IsCalm m (ok item) p =
      elim (Bool-cases (str_eq item.stored_filename m.stored_filename)) [
        | inl e ↦ simp e (restore-IsCalm p)
        | inr e ↦ simp e
      ]
  resolve_stage-IsCalm m (err no_rows) p = finalize-IsCalm p
  resolve_stage-IsCalm m (err not_claimed) p = refl
  resolve_stage-IsCalm m (err unknown_counter) p = refl
  resolve_stage-IsCalm m (err constraint_failed) p = refl

  resolve_loaded-IsCalm : (l : Loaded) → IsCalm (resolve_loaded readable db l)
  resolve_loaded-IsCalm no_stage p = refl
  resolve_loaded-IsCalm problem p = refl
  resolve_loaded-IsCalm (stage m) p = elim (Bool-cases (readable m.media_id)) [
    | inl e ↦ simp e (resolve_stage-IsCalm m (get_by_id m.media_id db) p)
    | inr e ↦ simp e
  ]

  reconcile_stage-IsCalm :
      (is_base : String → Bool) (opens : Bool) → IsCalm (reconcile_stage is_base readable db opens)
  unfolding reconcile_stage
  reconcile_stage-IsCalm is_base opens p = resolve_loaded-IsCalm (load_stage is_base opens p) p

-- An entry of the id whose directory can be read.
unfoldable pub Listed : String → List (String × Bool) → Type 0
Listed k [] = ⊥
Listed k ((j, opens) ∷ entries) = ((str_eq j k ≡ true) × (opens ≡ true)) ⊎ Listed k entries

after_each-Calm :
    (rest : Volume → List Answer → VolumeRun) (j : String) (v : Volume) (r : Ran)
    → Calm r
    → after_each rest j v r ≡ rest (set_place j r.1 v) []
after_each-Calm rest j v (finished, p, ws) e = rw e refl
after_each-Calm rest j v (failed, p, ws) e = rw e refl
after_each-Calm rest j v (crashed, p, ws) e = absurd e

module _ (is_base readable : String → Bool) (db : Db) (k : String) (m : MediaItem) where
  abbrev One : Bool → Op
  One opens = reconcile_stage is_base readable db opens

  abbrev Pass : List (String × Bool) → Volume → List Answer → VolumeRun
  Pass = reconcile_purge_stages is_base readable db

  module _ (K : Place → Type 0) (keeps : (opens : Bool) → Triple K K K (One opens)) where
    -- What every visit keeps, a pass keeps.
    pub pass-keeps :
        (entries : List (String × Bool)) (v : Volume) (ws : List Answer)
        → K (v k)
        → K ((reconcile_purge_stages is_base readable db entries v ws).1 k)
    unfolding reconcile_purge_stages
    pass-keeps [] v ws h = h
    pass-keeps ((j, opens) ∷ entries) v ws h = elim (Bool-cases (str_eq j k)) [
      | inl e ↦
          let mine : K (v j) = subst (λ i. K (v i)) (sym (str_eq_same j k e)) h in
          after_each-ends k m K K (λ u us. Pass entries u us) j v (One opens (v j) ws) e
            (λ u us q. pass-keeps entries u us q) (keeps opens (v j) ws mine)
      | inr e ↦
          after_each-other k m K K (λ u us. Pass entries u us) j v (One opens (v j) ws) e (λ p q. q)
            (λ u us q. pass-keeps entries u us q) h
    ]

    -- A visit without faults leaves the files as kept, whichever id it is for.
    visit :
        (j : String) (opens : Bool) (v : Volume)
        → K (v k)
        → K (set_place j (One opens (v j) []).1 v k)
    visit j opens v h = elim (Bool-cases (str_eq j k)) [
      | inl e ↦
          let mine : K (v j) = subst (λ i. K (v i)) (sym (str_eq_same j k e)) h in
          subst K (sym (set_place-same k j (One opens (v j) []).1 v e))
            (Ends-place K (One opens (v j) []) (keeps opens (v j) [] mine))
      | inr e ↦ subst K (sym (set_place-other k j (One opens (v j) []).1 v e)) h
    ]

  module _ (K J : Place → Type 0) (keeps : (opens : Bool) → Triple K K K (One opens))
      (stays : (opens : Bool) → Triple J J J (One opens)) (works : Works K J (One true)) where
    -- A pass without faults that meets the id settles its files.
    pub pass-settles :
        (entries : List (String × Bool)) (v : Volume)
        → Listed k entries
        → K (v k)
        → J ((reconcile_purge_stages is_base readable db entries v []).1 k)
    unfolding reconcile_purge_stages Listed
    pass-settles [] v listed h = absurd listed
    pass-settles ((j, opens) ∷ entries) v (inl (e, opened)) h =
        let mine : K (v j) = subst (λ i. K (v i)) (sym (str_eq_same j k e)) h in
        let (q, run, done) = works (v j) mine in
        let went : One opens (v j) [] ≡ (finished, q, []) = rw opened run in
        let here : J (set_place j q v k) = subst J (sym (set_place-same k j q v e)) done in
        subst (λ r. J ((after_each (λ u us. Pass entries u us) j v r).1 k)) (sym went)
          (pass-keeps J stays entries (set_place j q v) [] here)
    pass-settles ((j, opens) ∷ entries) v (inr later) h =
        let calm =
          after_each-Calm (λ u us. Pass entries u us) j v (One opens (v j) [])
            (reconcile_stage-IsCalm readable db is_base opens (v j)) in
        subst (λ r. J (r.1 k)) (sym calm)
          (pass-settles entries (set_place j (One opens (v j) []).1 v) later
            (visit K keeps j opens v h))
