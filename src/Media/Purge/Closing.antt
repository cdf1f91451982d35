-- ===== src/Media/Purge/Closing.antt =====
-- The removal of the manifest and of the stage directory, after the files have left it.
use event_gallery.Base.{◌≡◌, ◌⊎◌, inl, inr, refl, true, false, Option, none, String, [], ◌∷◌}
use event_gallery.Media.Staging.{
  Artifact, original, thumbnail, preview, Slots, Manifest, Place, change, change_if, quiet,
}
use event_gallery.Media.Staging.Triples.{
  Triple, Works, Triple-change, Triple-change_if, Triple-quiet, Triple-in_order, Works-change_if,
  Works-quiet, Triple-in_order_nil, Works-change, Works-in_order, Works-in_order_nil,
}
use event_gallery.Media.Purge.{without_manifest, is_empty_dir, without_dir, remove_manifest_and_dir}
use event_gallery.Media.Purge.Shapes.{Tag, At, Marked, Shape, Bare, all_at}

-- The end of a stage, when no artifact is left in it.
module _ (t : Tag) (clear : (o l s : Option String) → At t o l s → s ≡ none) (orig : Slots)
    (m : Manifest) where
  unmarked : (p : Place) → Shape (all_at t) orig m p → Bare t orig (without_manifest p)
  unfolding Shape Bare
  unmarked p (slots, rest) = (slots, refl)

  without_dir-Bare : (p : Place) → Bare t orig p → Bare t orig (without_dir p)
  unfolding Bare
  without_dir-Bare p h = h

  pub remove_manifest_and_dir-Triple :
      Triple
        (Shape (all_at t) orig m)
        (Bare t orig)
        (λ p. Bare t orig p ⊎ Shape (all_at t) orig m p)
        remove_manifest_and_dir
  unfolding remove_manifest_and_dir
  remove_manifest_and_dir-Triple =
      let S = Shape (all_at t) orig m in
      let B = Bare t orig in
      let E = λ (p : Place). Bare t orig p ⊎ Shape (all_at t) orig m p in
      Triple-in_order S B E B (change without_manifest)
        (quiet ∷ change_if is_empty_dir without_dir ∷ quiet ∷ [])
        (Triple-change S B E without_manifest (λ p h. inr h) unmarked)
        (Triple-quiet B B E (change_if is_empty_dir without_dir ∷ quiet ∷ []) (λ p h. inl h)
          (Triple-in_order B B E B (change_if is_empty_dir without_dir) (quiet ∷ [])
            (Triple-change_if B B E is_empty_dir without_dir (λ p h. inl h) without_dir-Bare)
            (Triple-quiet B B E [] (λ p h. inl h) (Triple-in_order_nil B B E (λ p h. h)))))

  Empty : Place → Type 0
  Empty p = Bare t orig p × (p.has_temporary ≡ false)

  emptied : (p : Place) → Shape (all_at t) orig m p → Empty (without_manifest p)
  unfolding Shape Marked Bare Empty
  emptied p (slots, (e, f, g)) = ((slots, refl), f)

  Empty-is_empty_dir : (p : Place) → Empty p → is_empty_dir p ≡ true
  unfolding Empty Bare
  Empty-is_empty_dir p ((slots, e), f) =
      let left : (a : Artifact) → p.staged a ≡ none =
        λ a. clear (orig a) (p.live a) (p.staged a) (slots a) in
      simp (left original, left thumbnail, left preview, e, f)

  pub remove_manifest_and_dir-Works :
      Works (Shape (all_at t) orig m) (Bare t orig) remove_manifest_and_dir
  unfolding remove_manifest_and_dir Empty
  remove_manifest_and_dir-Works =
      let S = Shape (all_at t) orig m in
      let B = Bare t orig in
      Works-in_order S B Empty (change without_manifest)
        (quiet ∷ change_if is_empty_dir without_dir ∷ quiet ∷ [])
        (Works-change S Empty without_manifest emptied)
        (Works-quiet Empty B (change_if is_empty_dir without_dir ∷ quiet ∷ []) (
          Works-in_order Empty B B (change_if is_empty_dir without_dir) (quiet ∷ [])
            (Works-change_if Empty B is_empty_dir without_dir Empty-is_empty_dir
              (λ p h. without_dir-Bare p h.0))
            (Works-quiet B B [] (Works-in_order_nil B B (λ p h. h)))))
