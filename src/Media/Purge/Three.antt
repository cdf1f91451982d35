-- ===== src/Media/Purge/Three.antt =====
-- One step for each of the three artifacts, from one tag to another, with a third that covers both.
use event_gallery.Base.{◌≡◌, ◌∷◌, List, Option, String, refl}
use event_gallery.Media.Staging.{
  Artifact, original, thumbnail, preview, Slots, Manifest, Place, Op, in_order,
}
use event_gallery.Media.Staging.Triples.{
  Triple, Works, Triple-in_order, Triple-mono, Works-in_order,
}
use event_gallery.Media.Purge.Shapes.{
  Tag, At, Shape, tag, all_at, Under, Under-tag, tag_all, Shape-all,
}

module _ (u t w : Tag) (u_w : (o l s : Option String) → At u o l s → At w o l s)
    (t_w : (o l s : Option String) → At t o l s → At w o l s) (step : Artifact → Op) (orig : Slots)
    (m : Manifest) where
  abbrev first : Artifact → Tag
  first = tag original t (all_at u)

  abbrev second : Artifact → Tag
  second = tag thumbnail t first

  Under-start : Under w (all_at u)
  unfolding Under
  Under-start b o l s h = u_w o l s h

  Under-first : Under w first
  Under-first = Under-tag w t original (all_at u) t_w Under-start

  Under-second : Under w second
  Under-second = Under-tag w t thumbnail first t_w Under-first

  pub Triple-three :
      (J E : Place → Type 0) (ops : List Op)
      → ((g : Artifact → Tag) (a : Artifact)
          → g a ≡ u
          → Under w g
          → Triple (Shape g orig m) (Shape (tag a t g) orig m) E (step a))
      → Triple (Shape (all_at t) orig m) J E (in_order ops)
      → Triple
          (Shape (all_at u) orig m)
          J
          E
          (in_order (step original ∷ step thumbnail ∷ step preview ∷ ops))
  Triple-three J E ops each rest =
      let S = λ (g : Artifact → Tag). Shape g orig m in
      let last = step preview ∷ ops in
      Triple-in_order (S (all_at u)) J E (S first) (step original) (step thumbnail ∷ last)
        (each (all_at u) original refl Under-start)
        (Triple-in_order (S first) J E (S second) (step thumbnail) last
          (each first thumbnail refl Under-first)
          (Triple-in_order (S second) J E (S (all_at t)) (step preview) ops
            (Triple-mono (S second) (S (tag_all t (all_at u))) E (S (all_at t)) E (step preview)
              (Shape-all t (all_at u) orig m) (λ p h. h) (each second preview refl Under-second))
            rest))

  pub Works-three :
      (J : Place → Type 0) (ops : List Op)
      → ((g : Artifact → Tag) (a : Artifact)
          → g a ≡ u
          → Under w g
          → Works (Shape g orig m) (Shape (tag a t g) orig m) (step a))
      → Works (Shape (all_at t) orig m) J (in_order ops)
      → Works
          (Shape (all_at u) orig m)
          J
          (in_order (step original ∷ step thumbnail ∷ step preview ∷ ops))
  Works-three J ops each rest =
      let S = λ (g : Artifact → Tag). Shape g orig m in
      let last = step preview ∷ ops in
      Works-in_order (S (all_at u)) J (S first) (step original) (step thumbnail ∷ last)
        (each (all_at u) original refl Under-start)
        (Works-in_order (S first) J (S second) (step thumbnail) last
          (each first thumbnail refl Under-first)
          (Works-in_order (S second) J (S (tag_all t (all_at u))) (step preview) ops
            (each second preview refl Under-second)
            (λ p h. rest p (Shape-all t (all_at u) orig m p h))))
