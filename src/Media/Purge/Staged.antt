-- ===== src/Media/Purge/Staged.antt =====
-- `StageForPurge` loses no file, whichever calls fail, and its success leaves every file in the stage.
use event_gallery.Base.{
  ◌≡◌, ◌⊎◌, inl, inr, refl, true, false, Option, none, some, String, List, [], ◌∷◌,
}
use event_gallery.Media.Staging.{
  Artifact, original, thumbnail, preview, Slots, Manifest, Place, Op, change, quiet, in_order,
  or_clean,
}
use event_gallery.Media.Staging.Triples.{
  Triple, Triple-change, Triple-quiet, Triple-in_order, Triple-in_order_nil, Triple-mono,
  Triple-or_clean,
}
use event_gallery.Media.Purge.{
  moved_out, move_if_exists, restore, write_purge_manifest, remove_all, stage_files,
}
use event_gallery.Media.Purge.Restoring.{restore-Triple}
use event_gallery.Media.Purge.Three.{Triple-three}
use event_gallery.Media.Purge.Changes.{moved_out-Shape}
use event_gallery.Media.Purge.Shapes.{
  Tag, home, gone, either, At, Marked, Shape, Bare, tag, all_at, Held, Under, Under-tag,
  Shape-Under,
}

home_either : (o l s : Option String) → At home o l s → At either o l s
home_either o l s h = inl h

gone_either : (o l s : Option String) → At gone o l s → At either o l s
gone_either o l s h = inr h

module _ (orig : Slots) (m : Manifest) where
  abbrev Live : Place → Type 0
  Live = Bare home orig

  abbrev Ready : Place → Type 0
  Ready p = Bare home orig p × (p.has_dir ≡ true)

  abbrev Whole : Place → Type 0
  Whole = Shape (all_at home) orig m

  abbrev Opened : Place → Type 0
  Opened = Shape (all_at either) orig m

  abbrev Gone : Place → Type 0
  Gone = Shape (all_at gone) orig m

  -- No file has moved yet.
  abbrev Untouched : Place → Type 0
  Untouched p = Live p ⊎ Whole p

  Live-Held : (p : Place) → Live p → Held orig m p
  unfolding Held
  Live-Held p h = inl h

  Opened-Held : (p : Place) → Opened p → Held orig m p
  unfolding Held
  Opened-Held p h = inr h

  Whole-Held : (p : Place) → Whole p → Held orig m p
  unfolding Under
  Whole-Held p h = Opened-Held p (Shape-Under either (all_at home) orig m p (λ b o l s k. inl k) h)

  Untouched-Held : (p : Place) → Untouched p → Held orig m p
  Untouched-Held p (inl h) = Live-Held p h
  Untouched-Held p (inr h) = Whole-Held p h

  with_dir : (p : Place) → Live p → Ready (record p { has_dir = true })
  unfolding Bare
  with_dir p h = (h, refl)

  with_temporary : (p : Place) → Ready p → Ready (record p { has_temporary = true })
  unfolding Bare
  with_temporary p h = h

  with_manifest :
      (p : Place) → Ready p → Whole (record p { has_temporary = false; manifest = some m })
  unfolding Bare Shape Marked
  with_manifest p ((slots, e), f) = (slots, (refl, refl, f))

  all_removed :
      (p : Place)
      → Untouched p
      → Live
          (record p { manifest = none; has_temporary = false; staged = λ a. none; has_dir = false })
  unfolding Bare Shape
  all_removed p (inl (slots, e)) = ((λ a. ((slots a).0, refl)), refl)
  all_removed p (inr (slots, e)) = ((λ a. ((slots a).0, refl)), refl)

  remove_all-Triple : Triple Untouched (Held orig m) (Held orig m) remove_all
  unfolding remove_all
  remove_all-Triple =
      Triple-change Untouched (Held orig m) (Held orig m)
        (λ p. record p {
          manifest = none;
          has_temporary = false;
          staged = λ a. none;
          has_dir = false;
        })
        Untouched-Held λ p h. Live-Held _ (all_removed p h)

  Ready-Untouched : (p : Place) → Ready p → Untouched p
  Ready-Untouched p h = inl h.0

  write_purge_manifest-Triple : Triple Ready Whole Untouched (write_purge_manifest m)
  unfolding write_purge_manifest
  write_purge_manifest-Triple =
      let put_in = change (λ p. record p { has_temporary = false; manifest = some m }) in
      let rest = put_in ∷ quiet ∷ [] in
      let stop = Ready-Untouched in
      Triple-in_order Ready Whole Untouched Ready (change (λ p. record p { has_temporary = true }))
        (quiet ∷ quiet ∷ quiet ∷ rest)
        (Triple-change Ready Ready Untouched (λ p. record p { has_temporary = true }) stop
          with_temporary)
        (Triple-quiet Ready Whole Untouched (quiet ∷ quiet ∷ rest) stop (
          Triple-quiet Ready Whole Untouched (quiet ∷ rest) stop (
            Triple-quiet Ready Whole Untouched rest stop (
              Triple-in_order Ready Whole Untouched Whole put_in (quiet ∷ [])
                (Triple-change Ready Whole Untouched
                  (λ p. record p { has_temporary = false; manifest = some m }) stop with_manifest)
                (Triple-quiet Whole Whole Untouched [] (λ p h. inr h)
                  (Triple-in_order_nil Whole Whole Untouched (λ p h. h)))))))

  opening-Triple :
      Triple Ready Whole
        (Held orig m)
        (or_clean (in_order (write_purge_manifest m ∷ quiet ∷ [])) remove_all)
  opening-Triple =
      Triple-or_clean Ready Whole Untouched (Held orig m)
        (in_order (write_purge_manifest m ∷ quiet ∷ [])) remove_all
        (Triple-in_order Ready Whole Untouched Whole (write_purge_manifest m) (quiet ∷ [])
          write_purge_manifest-Triple
          (Triple-quiet Whole Whole Untouched [] (λ p h. inr h)
            (Triple-in_order_nil Whole Whole Untouched (λ p h. h))))
        remove_all-Triple Untouched-Held

  one_out :
      (g : Artifact → Tag) (a : Artifact)
      → g a ≡ home
      → Under either g
      → Triple (Shape g orig m) (Shape (tag a gone g) orig m) Opened (move_if_exists a)
  unfolding move_if_exists
  one_out g a e under =
      let A = Shape (tag a gone g) orig m in
      let stop = λ (p : Place) (h : A p).
        Shape-Under either (tag a gone g) orig m p (Under-tag either gone a g gone_either under)
          h in
      Triple-in_order (Shape g orig m) A Opened A (change (moved_out a)) (quiet ∷ quiet ∷ [])
        (Triple-change (Shape g orig m) A Opened (moved_out a)
          (λ p h. Shape-Under either g orig m p under h) (λ p h. moved_out-Shape g orig m a p e h))
        (Triple-quiet A A Opened (quiet ∷ []) stop
          (Triple-quiet A A Opened [] stop (Triple-in_order_nil A A Opened (λ p h. h))))

  Gone-Opened : (p : Place) → Gone p → Opened p
  unfolding Under
  Gone-Opened p h = Shape-Under either (all_at gone) orig m p (λ b o l s k. inr k) h

  abbrev moves : List Op
  moves = move_if_exists original ∷ move_if_exists thumbnail ∷ move_if_exists preview ∷ quiet ∷ []

  moving-Triple : Triple Whole Gone (Held orig m) (or_clean (in_order moves) restore)
  moving-Triple =
      Triple-or_clean Whole Gone Opened (Held orig m) (in_order moves) restore
        (Triple-three home gone either home_either gone_either move_if_exists orig m Gone Opened
          (quiet ∷ []) one_out
          (Triple-quiet Gone Gone Opened [] Gone-Opened
            (Triple-in_order_nil Gone Gone Opened (λ p h. h))))
        (Triple-mono Opened Live (Held orig m) (Held orig m) (Held orig m) restore Live-Held
          (λ p h. h) (restore-Triple orig m))
        Opened-Held

  -- Staging loses no file, wherever it stops, and its success leaves every file in the stage.
  pub stage_files-Triple :
      Triple (Bare home orig) (Shape (all_at gone) orig m) (Held orig m) (stage_files m)
  unfolding stage_files
  stage_files-Triple =
      let H = Held orig m in
      let opens = or_clean (in_order (write_purge_manifest m ∷ quiet ∷ [])) remove_all in
      let move = or_clean (in_order moves) restore in
      Triple-quiet Live Gone H (change (λ p. record p { has_dir = true }) ∷ opens ∷ move ∷ [])
        Live-Held
        (Triple-in_order Live Gone H Ready (change (λ p. record p { has_dir = true }))
          (opens ∷ move ∷ [])
          (Triple-change Live Ready H (λ p. record p { has_dir = true }) Live-Held with_dir)
          (Triple-in_order Ready Gone H Whole opens (move ∷ []) opening-Triple (
            Triple-in_order Whole Gone H Gone move [] moving-Triple
              (Triple-in_order_nil Gone Gone H (λ p h. h)))))
