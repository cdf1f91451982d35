-- ===== src/Http/StorageCleanup/Items.antt =====
-- What the loops over the items do to the files of one media id.
use mathlib.Core.Path.{subst}
use event_gallery.Base.{◌≡◌, inl, inr, refl, sym, ◌∙◌, true, false, String, List, [], ◌∷◌, str_eq}
use event_gallery.Store.Media.{MediaItem}
use event_gallery.Media.Staging.{Place, Answer, finished, failed, crashed, Ran, Op}
use event_gallery.Media.Staging.Triples.{Ends, Triple}
use event_gallery.Http.StorageCleanup.{Volume, set_place, VolumeRun, after_each, run_each}
use event_gallery.Http.StorageCleanup.Rows.{Absent, Once, str_eq_same}

module _ (k : String) where
  pub set_place-other :
      (j : String) (p : Place) (v : Volume) → str_eq j k ≡ false → set_place j p v k ≡ v k
  set_place-other j p v e = simp e

  pub set_place-same :
      (j : String) (p : Place) (v : Volume) → str_eq j k ≡ true → set_place j p v k ≡ p
  set_place-same j p v e = simp e

  after_each-keeps :
      (rest : Volume → List Answer → VolumeRun) (j : String) (v : Volume) (r : Ran)
      → str_eq j k ≡ false
      → ((u : Volume) (us : List Answer) → (rest u us).1 k ≡ u k)
      → (after_each rest j v r).1 k ≡ v k
  after_each-keeps rest j v (crashed, p, ws) e h = set_place-other j p v e
  after_each-keeps rest j v (finished, p, ws) e h = h (set_place j p v) ws ∙ set_place-other j p v e
  after_each-keeps rest j v (failed, p, ws) e h = h (set_place j p v) ws ∙ set_place-other j p v e

  -- A loop leaves the files of an id that it does not meet.
  pub run_each-Absent :
      (op : MediaItem → Op) (items : List MediaItem) (v : Volume) (ws : List Answer)
      → Absent k items
      → (run_each op items v ws).1 k ≡ v k
  unfolding run_each Absent
  run_each-Absent op [] v ws absent = refl
  run_each-Absent op (i ∷ items) v ws absent =
      after_each-keeps (λ u us. run_each op items u us) i.id v (op i (v i.id) ws) absent.0
        λ u us. run_each-Absent op items u us absent.1

module _ (k : String) (m : MediaItem) (P K : Place → Type 0) where
  pub after_each-ends :
      (rest : Volume → List Answer → VolumeRun) (j : String) (v : Volume) (r : Ran)
      → str_eq j k ≡ true
      → ((u : Volume) (us : List Answer) → K (u k) → K ((rest u us).1 k))
      → Ends K K r
      → K ((after_each rest j v r).1 k)
  after_each-ends rest j v (crashed, p, ws) e go h = subst K (sym (set_place-same k j p v e)) h
  after_each-ends rest j v (finished, p, ws) e go h =
      go (set_place j p v) ws (subst K (sym (set_place-same k j p v e)) h)
  after_each-ends rest j v (failed, p, ws) e go h =
      go (set_place j p v) ws (subst K (sym (set_place-same k j p v e)) h)

  pub after_each-other :
      (rest : Volume → List Answer → VolumeRun) (j : String) (v : Volume) (r : Ran)
      → str_eq j k ≡ false
      → ((p : Place) → P p → K p)
      → ((u : Volume) (us : List Answer) → P (u k) → K ((rest u us).1 k))
      → P (v k)
      → K ((after_each rest j v r).1 k)
  after_each-other rest j v (crashed, p, ws) e stop go h =
      stop (set_place j p v k) (subst P (sym (set_place-other k j p v e)) h)
  after_each-other rest j v (finished, p, ws) e stop go h =
      go (set_place j p v) ws (subst P (sym (set_place-other k j p v e)) h)
  after_each-other rest j v (failed, p, ws) e stop go h =
      go (set_place j p v) ws (subst P (sym (set_place-other k j p v e)) h)

  -- A loop does to the files of the id what the operation on its item does, or nothing.
  pub run_each-Once :
      (op : MediaItem → Op) (items : List MediaItem) (v : Volume) (ws : List Answer)
      → Once k m items
      → Triple P K K (op m)
      → ((p : Place) → P p → K p)
      → P (v k)
      → K ((run_each op items v ws).1 k)
  unfolding run_each Once
  run_each-Once op [] v ws once t stop h = absurd once
  run_each-Once op (i ∷ items) v ws (inl (e, same, absent)) t stop h =
      let key = str_eq_same i.id k e in
      let mine : P (v i.id) = subst (λ j. P (v j)) (sym key) h in
      let done : Ends K K (op i (v i.id) ws) =
        subst (λ x. Ends K K (op x (v i.id) ws)) (sym same) (t (v i.id) ws mine) in
      after_each-ends (λ u us. run_each op items u us) i.id v (op i (v i.id) ws) e
        (λ u us q. subst K (sym (run_each-Absent k op items u us absent)) q) done
  run_each-Once op (i ∷ items) v ws (inr (e, once)) t stop h =
      after_each-other (λ u us. run_each op items u us) i.id v (op i (v i.id) ws) e stop
        (λ u us q. run_each-Once op items u us once t stop q) h
