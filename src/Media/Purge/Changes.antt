-- ===== src/Media/Purge/Changes.antt =====
-- What each change of the files does to where they stand.
use mathlib.Core.Path.{subst}
use event_gallery.Base.{◌≡◌, inl, inr, refl, sym, ◌∙◌, Option, none, some, String}
use event_gallery.Media.Staging.{Artifact, Slots, Manifest, Place}
use event_gallery.Media.Purge.{moved_to, moved_out, moved_back, erased}
use event_gallery.Media.Purge.Shapes.{
  Tag, home, gone, either, lost, spent, At, Shape, tag, Shape-tag, Shape-put, Shape-stage,
}

module _ (g : Artifact → Tag) (orig : Slots) (m : Manifest) (a : Artifact) where
  Shape-At :
      (t : Tag) (p : Place) → g a ≡ t → Shape g orig m p → At t (orig a) (p.live a) (p.staged a)
  unfolding Shape
  Shape-At t p e h = subst (λ u. At u (orig a) (p.live a) (p.staged a)) e (h.0 a)

  moved_to-Shape :
      (p : Place) (o : Option String)
      → g a ≡ home
      → p.live a ≡ o
      → Shape g orig m p
      → Shape (tag a gone g) orig m (moved_to a p o)
  moved_to-Shape p none e f h =
      let (l, s) = Shape-At home p e h in Shape-tag g orig a gone m p (f, s ∙ sym f ∙ l) h
  moved_to-Shape p (some c) e f h =
      let (l, s) = Shape-At home p e h in
      Shape-put g orig a gone m p none (some c) (refl, sym f ∙ l) h

  -- A live file that is there moves to the stage.
  pub moved_out-Shape :
      (p : Place) → g a ≡ home → Shape g orig m p → Shape (tag a gone g) orig m (moved_out a p)
  moved_out-Shape p e h = moved_to-Shape p (p.live a) e refl h

  -- A staged file that is there moves back, and its live place is free.
  pub moved_back-Shape :
      (p : Place) (c : String)
      → g a ≡ either
      → p.staged a ≡ some c
      → Shape g orig m p
      → (p.live a ≡ none) × Shape (tag a home g) orig m (moved_back a p)
  moved_back-Shape p c e f h = elim (Shape-At either p e h) [
    | inl (l, s) ↦ let wrong : none ≡ some c = sym s ∙ f in absurd (cc)
    | inr (l, s) ↦ (l, Shape-put g orig a home m p (p.staged a) none (s, refl) h)
  ]

  -- Without a staged file, the artifact is home.
  pub unstaged-Shape :
      (p : Place)
      → g a ≡ either
      → p.staged a ≡ none
      → Shape g orig m p
      → Shape (tag a home g) orig m p
  unstaged-Shape p e f h = elim (Shape-At either p e h) [
    | inl (l, s) ↦ Shape-tag g orig a home m p (l, s) h
    | inr (l, s) ↦ Shape-tag g orig a home m p (l ∙ sym f ∙ s, f) h
  ]

  pub erased-Shape :
      (p : Place) → g a ≡ lost → Shape g orig m p → Shape (tag a spent g) orig m (erased a p)
  erased-Shape p e h =
      let (l, s) = Shape-At lost p e h in Shape-stage g orig a spent m p none (l, refl) h
