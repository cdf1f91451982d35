-- ===== src/Media/Purge/Finalizing.antt =====
-- `Finalize` erases every staged file, whichever calls fail.
use event_gallery.Base.{◌≡◌, ◌⊎◌, inl, inr, Option, none, String, List, [], ◌∷◌}
use event_gallery.Media.Staging.{Artifact, Slots, Manifest, Place, Op, change, quiet, in_order}
use event_gallery.Media.Staging.Triples.{
  Triple, Works, Triple-change, Triple-quiet, Triple-in_order, Works-quiet, Triple-in_order_nil,
  Triple-mono, Works-change, Works-in_order, Works-in_order_nil,
}
use event_gallery.Media.Purge.{remove_manifest_and_dir, erased, finalize}
use event_gallery.Media.Purge.Closing.{
  remove_manifest_and_dir-Triple, remove_manifest_and_dir-Works,
}
use event_gallery.Media.Purge.Three.{Triple-three, Works-three}
use event_gallery.Media.Purge.Changes.{erased-Shape}
use event_gallery.Media.Purge.Shapes.{
  Tag, lost, spent, At, Shape, Bare, tag, all_at, Going, Under, Shape-Under,
}

spent_lost : (o l s : Option String) → At spent o l s → At lost o l s
spent_lost o l s h = (h.0, inl h.1)

lost_lost : (o l s : Option String) → At lost o l s → At lost o l s
lost_lost o l s h = h

Under-spent : Under lost (all_at spent)
unfolding Under
Under-spent b o l s h = spent_lost o l s h

spent_clear : (o l s : Option String) → At spent o l s → s ≡ none
spent_clear o l s h = h.1

module _ (orig : Slots) (m : Manifest) where
  abbrev Lost : Place → Type 0
  Lost = Shape (all_at lost) orig m

  abbrev Spent : Place → Type 0
  Spent = Shape (all_at spent) orig m

  abbrev Over : Place → Type 0
  Over = Bare spent orig

  Spent-Going : (p : Place) → (Over p ⊎ Spent p) → Going orig m p
  unfolding Going
  Spent-Going p (inl h) = inl h
  Spent-Going p (inr h) = inr (Shape-Under lost (all_at spent) orig m p Under-spent h)

  one_erased :
      (g : Artifact → Tag) (a : Artifact)
      → g a ≡ lost
      → Under lost g
      → Triple (Shape g orig m) (Shape (tag a spent g) orig m) (Going orig m) (change (erased a))
  unfolding Going
  one_erased g a e under =
      Triple-change (Shape g orig m) (Shape (tag a spent g) orig m) (Going orig m) (erased a)
        (λ p h. inr (Shape-Under lost g orig m p under h)) λ p h. erased-Shape g orig m a p e h

  abbrev ending : List Op
  ending = quiet ∷ remove_manifest_and_dir ∷ []

  ending-Triple : Triple Spent Over (Going orig m) (in_order ending)
  ending-Triple =
      let G = Going orig m in
      Triple-quiet Spent Over G (remove_manifest_and_dir ∷ []) (λ p h. Spent-Going p (inr h))
        (Triple-in_order Spent Over G Over remove_manifest_and_dir []
          (Triple-mono Spent Over (λ p. Over p ⊎ Spent p) Over G remove_manifest_and_dir (λ p h. h)
            Spent-Going (remove_manifest_and_dir-Triple spent spent_clear orig m))
          (Triple-in_order_nil Over Over G (λ p h. h)))

  -- Finalize brings no file back, wherever it stops, and it ends with none left.
  pub finalize-Triple :
      Triple (Shape (all_at lost) orig m) (Bare spent orig) (Going orig m) finalize
  unfolding finalize
  finalize-Triple =
      Triple-three lost spent lost lost_lost spent_lost (λ a. change (erased a)) orig m Over
        (Going orig m) ending one_erased ending-Triple

  pub finalize-Works : Works (Shape (all_at lost) orig m) (Bare spent orig) finalize
  unfolding finalize
  finalize-Works =
      Works-three lost spent lost lost_lost spent_lost (λ a. change (erased a)) orig m Over ending
        (λ g a e under.
          Works-change (Shape g orig m) (Shape (tag a spent g) orig m) (erased a)
            λ p h. erased-Shape g orig m a p e h)
        (Works-quiet Spent Over (remove_manifest_and_dir ∷ []) (
          Works-in_order Spent Over Over remove_manifest_and_dir []
            (remove_manifest_and_dir-Works spent spent_clear orig m)
            (Works-in_order_nil Over Over (λ p h. h))))
