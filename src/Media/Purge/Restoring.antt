-- ===== src/Media/Purge/Restoring.antt =====
-- `Restore` brings every staged file back, and `Finalize` erases it, whichever calls fail.
use event_gallery.Base.{
  ◌≡◌, ◌⊎◌, inl, inr, Option, Option-cases, none, some, String, List, [], ◌∷◌, is_some,
}
use event_gallery.Media.Staging.{
  Artifact, Slots, Manifest, Place, Answer, Op, call, quiet, in_order,
}
use event_gallery.Media.Staging.Triples.{
  Ends, Triple, Works, Triple-call, Triple-change, Triple-quiet, Triple-in_order, Works-quiet,
  Triple-in_order_nil, Triple-mono, Works-in_order, Works-in_order_nil,
}
use event_gallery.Media.Purge.{
  moved_back, restore_over, restore_found, restore_if_exists, remove_manifest_and_dir, restore,
}
use event_gallery.Media.Purge.Closing.{
  remove_manifest_and_dir-Triple, remove_manifest_and_dir-Works,
}
use event_gallery.Media.Purge.Three.{Triple-three, Works-three}
use event_gallery.Media.Purge.Changes.{moved_back-Shape, unstaged-Shape}
use event_gallery.Media.Purge.Shapes.{
  Tag, home, either, At, Shape, Bare, tag, all_at, Held, Under, Shape-Under,
}

module _ (g : Artifact → Tag) (orig : Slots) (m : Manifest) (a : Artifact) (e : g a ≡ either)
    (under : Under either g) where
  abbrev Before : Place → Type 0
  Before = Shape g orig m

  abbrev After : Place → Type 0
  After = Shape (tag a home g) orig m

  abbrev Open : Place → Type 0
  Open = Shape (all_at either) orig m

  opened : (p : Place) → Before p → Open p
  opened p h = Shape-Under either g orig m p under h

  -- The artifact is in the stage.
  abbrev Pending : Place → Type 0
  Pending p = (c : String) × (p.staged a ≡ some c) × Before p

  restore_over-Triple :
      (p : Place) (ws : List Answer)
      → Pending p
      → Ends After Open (restore_over a (is_some (p.live a)) p ws)
  restore_over-Triple p ws (c, f, h) =
      let (free, back) = moved_back-Shape g orig m a p c e f h in
      simp free (
        Triple-change Pending After Open (moved_back a) (λ q k. opened q k.2)
          (λ q k. (moved_back-Shape g orig m a q k.0 e k.1 k.2).1) p ws (c, f, h))

  pub restore_if_exists-Triple : Triple Before After Open (restore_if_exists a)
  unfolding restore_if_exists
  restore_if_exists-Triple =
      Triple-call Before After Open (λ p. restore_found a (is_some (p.staged a))) opened
        λ p ws h. elim (Option-cases (p.staged a)) [
          | inl f ↦ simp f (unstaged-Shape g orig m a p e f h)
          | inr (c, f) ↦ simp f (
              Triple-call Pending After Open (λ q. restore_over a (is_some (q.live a)))
                (λ q k. opened q k.2) restore_over-Triple p ws (c, f, h))
        ]

  pub restore_if_exists-Works : Works Before After (restore_if_exists a)
  unfolding restore_if_exists call
  restore_if_exists-Works p h = elim (Option-cases (p.staged a)) [
    | inl f ↦ (p, simp f, unstaged-Shape g orig m a p e f h)
    | inr (c, f) ↦
        let (free, back) = moved_back-Shape g orig m a p c e f h in
        (moved_back a p, simp (f, free), back)
  ]

home_either : (o l s : Option String) → At home o l s → At either o l s
home_either o l s h = inl h

either_either : (o l s : Option String) → At either o l s → At either o l s
either_either o l s h = h

Under-home : Under either (all_at home)
unfolding Under
Under-home b o l s h = inl h

home_clear : (o l s : Option String) → At home o l s → s ≡ none
home_clear o l s h = h.1

module _ (orig : Slots) (m : Manifest) where
  abbrev Opened : Place → Type 0
  Opened = Shape (all_at either) orig m

  abbrev Back : Place → Type 0
  Back = Shape (all_at home) orig m

  abbrev Closed : Place → Type 0
  Closed = Bare home orig

  Back-Held : (p : Place) → (Closed p ⊎ Back p) → Held orig m p
  unfolding Held
  Back-Held p (inl h) = inl h
  Back-Held p (inr h) = inr (Shape-Under either (all_at home) orig m p Under-home h)

  Opened-Held : (p : Place) → Opened p → Held orig m p
  unfolding Held
  Opened-Held p h = inr h

  one_back :
      (g : Artifact → Tag) (a : Artifact)
      → g a ≡ either
      → Under either g
      → Triple (Shape g orig m) (Shape (tag a home g) orig m) (Held orig m) (restore_if_exists a)
  one_back g a e under =
      Triple-mono (Shape g orig m) (Shape (tag a home g) orig m) Opened
        (Shape (tag a home g) orig m) (Held orig m) (restore_if_exists a) (λ p h. h) Opened-Held
        (restore_if_exists-Triple g orig m a e under)

  Back-closes : Triple Back Closed (Held orig m) remove_manifest_and_dir
  Back-closes =
      Triple-mono Back Closed (λ p. Closed p ⊎ Back p) Closed (Held orig m) remove_manifest_and_dir
        (λ p h. h) Back-Held (remove_manifest_and_dir-Triple home home_clear orig m)

  -- The syncs of the live directories, and the end of the stage.
  abbrev closing : List Op
  closing = quiet ∷ quiet ∷ quiet ∷ remove_manifest_and_dir ∷ []

  closing-Triple : Triple Back Closed (Held orig m) (in_order closing)
  closing-Triple =
      let H = Held orig m in
      let stop = λ (p : Place) (h : Back p). Back-Held p (inr h) in
      let rest = remove_manifest_and_dir ∷ [] in
      Triple-quiet Back Closed H (quiet ∷ quiet ∷ rest) stop (
        Triple-quiet Back Closed H (quiet ∷ rest) stop (
          Triple-quiet Back Closed H rest stop (
            Triple-in_order Back Closed H Closed remove_manifest_and_dir [] Back-closes
              (Triple-in_order_nil Closed Closed H (λ p h. h)))))

  -- Restore loses no file, wherever it stops, and it ends with every file in its live place.
  pub restore-Triple : Triple (Shape (all_at either) orig m) (Bare home orig) (Held orig m) restore
  unfolding restore
  restore-Triple =
      Triple-three either home either either_either home_either restore_if_exists orig m Closed
        (Held orig m) closing one_back closing-Triple

  closing-Works : Works Back Closed (in_order closing)
  closing-Works =
      let rest = remove_manifest_and_dir ∷ [] in
      Works-quiet Back Closed (quiet ∷ quiet ∷ rest) (
        Works-quiet Back Closed (quiet ∷ rest) (
          Works-quiet Back Closed rest (
            Works-in_order Back Closed Closed remove_manifest_and_dir []
              (remove_manifest_and_dir-Works home home_clear orig m)
              (Works-in_order_nil Closed Closed (λ p h. h)))))

  pub restore-Works : Works (Shape (all_at either) orig m) (Bare home orig) restore
  unfolding restore
  restore-Works =
      Works-three either home either either_either home_either restore_if_exists orig m Closed
        closing (λ g a e under. restore_if_exists-Works g orig m a e under) closing-Works
