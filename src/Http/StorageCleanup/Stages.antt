-- ===== src/Http/StorageCleanup/Stages.antt =====
-- What staging the items does to the files of one media id.
use mathlib.Core.Path.{subst}
use event_gallery.Base.{
  ◌≡◌, ◌⊎◌, inl, inr, refl, sym, ◌∙◌, Bool, true, false, Bool-cases, String, List, [], ◌∷◌, str_eq,
  ◌&&◌,
}
use event_gallery.Store.Media.{MediaItem}
use event_gallery.Media.Staging.{Place, Answer, finished, failed, crashed, Ran, Slots}
use event_gallery.Media.Staging.Triples.{Ends, Triple}
use event_gallery.Media.Purge.{stage_for_purge, manifest_of, is_name}
use event_gallery.Media.Purge.Shapes.{Held, home, gone, Bare, Shape, all_at}
use event_gallery.Http.StorageCleanup.{
  Volume, set_place, StageRun, also_staged, after_stage, stage_items,
}
use event_gallery.Media.Purge.Staged.{stage_files-Triple}
use event_gallery.Http.StorageCleanup.Items.{set_place-other, set_place-same}
use event_gallery.Http.StorageCleanup.Rows.{Absent, Once, str_eq_same}

module _ (k : String) where
  -- The files of an id that the loop does not meet stay, and it is not among the staged ones.
  unfoldable pub Missed : Volume → StageRun → Type 0
  Missed v (o, staged, u, ws) = (u k ≡ v k) × Absent k staged

  also_staged-Missed :
      (i : MediaItem) (v u : Volume) (s : StageRun)
      → str_eq i.id k ≡ false
      → u k ≡ v k
      → Missed u s
      → Missed v (also_staged i s)
  unfolding Missed Absent
  also_staged-Missed i v u (o, staged, w, ws) e f (g, absent) = (g ∙ f, (e, absent))

  after_stage-Missed :
      (rest : Volume → List Answer → StageRun) (i : MediaItem) (v : Volume) (r : Ran)
      → str_eq i.id k ≡ false
      → ((u : Volume) (us : List Answer) → Missed u (rest u us))
      → Missed v (after_stage rest i v r)
  unfolding Missed Absent
  after_stage-Missed rest i v (finished, p, ws) e h =
      also_staged-Missed i v (set_place i.id p v) (rest (set_place i.id p v) ws) e
        (set_place-other k i.id p v e) (h (set_place i.id p v) ws)
  after_stage-Missed rest i v (failed, p, ws) e h = (set_place-other k i.id p v e, tt)
  after_stage-Missed rest i v (crashed, p, ws) e h = (set_place-other k i.id p v e, tt)

  pub stage_items-Missed :
      (is_base : String → Bool) (items : List MediaItem) (v : Volume) (ws : List Answer)
      → Absent k items
      → Missed v (stage_items is_base items v ws)
  unfolding stage_items Missed Absent
  stage_items-Missed is_base [] v ws absent = (refl, tt)
  stage_items-Missed is_base (i ∷ items) v ws absent =
      after_stage-Missed (λ u us. stage_items is_base items u us) i v
        (stage_for_purge is_base i (v i.id) ws) absent.0
        λ u us. stage_items-Missed is_base items u us absent.1

module _ (k : String) (m : MediaItem) (orig : Slots) where
  abbrev Live : Place → Type 0
  Live = Bare home orig

  abbrev Gone : Place → Type 0
  Gone = Shape (all_at gone) orig (manifest_of m)

  abbrev Safe : Place → Type 0
  Safe = Held orig (manifest_of m)

  Live-Safe : (p : Place) → Live p → Safe p
  unfolding Held
  Live-Safe p h = inl h

  stage_for_purge-Triple :
      (is_base : String → Bool) → Triple Live Gone Safe (stage_for_purge is_base m)
  unfolding stage_for_purge
  stage_for_purge-Triple is_base p ws h =
      elim (Bool-cases (is_name is_base m.id && is_name is_base m.stored_filename)) [
        | inl e ↦ simp e (stage_files-Triple orig (manifest_of m) p ws h)
        | inr e ↦ simp e (Live-Safe p h)
      ]

  -- After staging that succeeds, the item is staged; after a failure, it is or its files are safe.
  unfoldable pub Staged : StageRun → Type 0
  Staged (finished, staged, v, ws) = Gone (v k) × Once k m staged
  Staged (failed, staged, v, ws) = (Gone (v k) × Once k m staged) ⊎ (Safe (v k) × Absent k staged)
  Staged (crashed, staged, v, ws) = (Gone (v k) × Once k m staged) ⊎ (Safe (v k) × Absent k staged)

  -- The item is staged, and the others after it are of other ids.
  also_staged-mine :
      (u : Volume) (i : MediaItem) (s : StageRun)
      → str_eq i.id k ≡ true
      → i ≡ m
      → Gone (u k)
      → Missed k u s
      → Staged (also_staged i s)
  unfolding Staged Missed Once
  also_staged-mine u i (finished, staged, v, ws) e f g (h, absent) =
      (subst Gone (sym h) g, inl (e, f, absent))
  also_staged-mine u i (failed, staged, v, ws) e f g (h, absent) =
      inl (subst Gone (sym h) g, inl (e, f, absent))
  also_staged-mine u i (crashed, staged, v, ws) e f g (h, absent) =
      inl (subst Gone (sym h) g, inl (e, f, absent))

  also_staged-other :
      (i : MediaItem) (s : StageRun) → str_eq i.id k ≡ false → Staged s → Staged (also_staged i s)
  unfolding Staged Once Absent
  also_staged-other i (finished, staged, v, ws) e (g, once) = (g, inr (e, once))
  also_staged-other i (failed, staged, v, ws) e (inl (g, once)) = inl (g, inr (e, once))
  also_staged-other i (failed, staged, v, ws) e (inr (g, absent)) = inr (g, (e, absent))
  also_staged-other i (crashed, staged, v, ws) e (inl (g, once)) = inl (g, inr (e, once))
  also_staged-other i (crashed, staged, v, ws) e (inr (g, absent)) = inr (g, (e, absent))

  after_stage-mine :
      (rest : Volume → List Answer → StageRun) (i : MediaItem) (v : Volume) (r : Ran)
      → str_eq i.id k ≡ true
      → i ≡ m
      → Ends Gone Safe r
      → ((u : Volume) (us : List Answer) → Missed k u (rest u us))
      → Staged (after_stage rest i v r)
  unfolding Staged Absent
  after_stage-mine rest i v (finished, p, ws) e f h go =
      also_staged-mine (set_place i.id p v) i (rest (set_place i.id p v) ws) e f
        (subst Gone (sym (set_place-same k i.id p v e)) h) (go (set_place i.id p v) ws)
  after_stage-mine rest i v (failed, p, ws) e f h go =
      inr (subst Safe (sym (set_place-same k i.id p v e)) h, tt)
  after_stage-mine rest i v (crashed, p, ws) e f h go =
      inr (subst Safe (sym (set_place-same k i.id p v e)) h, tt)

  after_stage-other :
      (rest : Volume → List Answer → StageRun) (i : MediaItem) (v : Volume) (r : Ran)
      → str_eq i.id k ≡ false
      → Live (v k)
      → ((u : Volume) (us : List Answer) → Live (u k) → Staged (rest u us))
      → Staged (after_stage rest i v r)
  unfolding Staged Absent
  after_stage-other rest i v (finished, p, ws) e h go =
      also_staged-other i (rest (set_place i.id p v) ws) e
        (go (set_place i.id p v) ws (subst Live (sym (set_place-other k i.id p v e)) h))
  after_stage-other rest i v (failed, p, ws) e h go =
      inr (subst Safe (sym (set_place-other k i.id p v e)) (Live-Safe (v k) h), tt)
  after_stage-other rest i v (crashed, p, ws) e h go =
      inr (subst Safe (sym (set_place-other k i.id p v e)) (Live-Safe (v k) h), tt)

  pub stage_items-Staged :
      (is_base : String → Bool) (items : List MediaItem) (v : Volume) (ws : List Answer)
      → Once k m items
      → Live (v k)
      → Staged (stage_items is_base items v ws)
  unfolding stage_items Once
  stage_items-Staged is_base [] v ws once h = absurd once
  stage_items-Staged is_base (i ∷ items) v ws (inl (e, same, absent)) h =
      let key = str_eq_same i.id k e in
      let mine : Live (v i.id) = subst (λ j. Live (v j)) (sym key) h in
      let done : Ends Gone Safe (stage_for_purge is_base i (v i.id) ws) =
        subst (λ x. Ends Gone Safe (stage_for_purge is_base x (v i.id) ws)) (sym same)
          (stage_for_purge-Triple is_base (v i.id) ws mine) in
      after_stage-mine (λ u us. stage_items is_base items u us) i v
        (stage_for_purge is_base i (v i.id) ws) e same done
        λ u us. stage_items-Missed k is_base items u us absent
  stage_items-Staged is_base (i ∷ items) v ws (inr (e, once)) h =
      after_stage-other (λ u us. stage_items is_base items u us) i v
        (stage_for_purge is_base i (v i.id) ws) e h
        λ u us q. stage_items-Staged is_base items u us once q
