-- ===== src/Media/Purge/Calms.antt =====
-- `Restore` and `Finalize` end when every call works.
use event_gallery.Base.{refl, Bool, true, false, [], ◌∷◌, is_some}
use event_gallery.Media.Staging.{
  Artifact, original, thumbnail, preview, change, change_if, quiet, in_order,
}
use event_gallery.Media.Staging.Calm.{
  IsCalm, change-IsCalm, change_if-IsCalm, ask-IsCalm, in_order_nil-IsCalm, in_order-IsCalm,
  quiet-IsCalm,
}
use event_gallery.Media.Purge.{
  moved_back, restore_over, restore_found, restore_if_exists, without_manifest, is_empty_dir,
  without_dir, remove_manifest_and_dir, restore, erased, finalize,
}

restore_over-IsCalm : (a : Artifact) (b : Bool) → IsCalm (restore_over a b)
restore_over-IsCalm a true p = refl
restore_over-IsCalm a false p = change-IsCalm (moved_back a) p

restore_found-IsCalm : (a : Artifact) (b : Bool) → IsCalm (restore_found a b)
restore_found-IsCalm a true p =
    ask-IsCalm (λ p. is_some (p.live a)) (restore_over a) (restore_over-IsCalm a) p
restore_found-IsCalm a false p = refl

restore_if_exists-IsCalm : (a : Artifact) → IsCalm (restore_if_exists a)
unfolding restore_if_exists
restore_if_exists-IsCalm a =
    ask-IsCalm (λ p. is_some (p.staged a)) (restore_found a) (restore_found-IsCalm a)

remove_manifest_and_dir-IsCalm : IsCalm remove_manifest_and_dir
unfolding remove_manifest_and_dir
remove_manifest_and_dir-IsCalm =
    in_order-IsCalm (change without_manifest)
      (quiet ∷ change_if is_empty_dir without_dir ∷ quiet ∷ []) (change-IsCalm without_manifest)
      (quiet-IsCalm (change_if is_empty_dir without_dir ∷ quiet ∷ []) (
        in_order-IsCalm (change_if is_empty_dir without_dir) (quiet ∷ [])
          (change_if-IsCalm is_empty_dir without_dir) (quiet-IsCalm [] in_order_nil-IsCalm)))

end : IsCalm (in_order (remove_manifest_and_dir ∷ []))
end = in_order-IsCalm remove_manifest_and_dir [] remove_manifest_and_dir-IsCalm in_order_nil-IsCalm

pub restore-IsCalm : IsCalm restore
unfolding restore
restore-IsCalm =
    let tail = remove_manifest_and_dir ∷ [] in
    let closing = quiet ∷ quiet ∷ quiet ∷ tail in
    in_order-IsCalm (restore_if_exists original)
      (restore_if_exists thumbnail ∷ restore_if_exists preview ∷ closing)
      (restore_if_exists-IsCalm original)
      (in_order-IsCalm (restore_if_exists thumbnail) (restore_if_exists preview ∷ closing)
        (restore_if_exists-IsCalm thumbnail)
        (in_order-IsCalm (restore_if_exists preview) closing (restore_if_exists-IsCalm preview) (
          quiet-IsCalm (quiet ∷ quiet ∷ tail)
            (quiet-IsCalm (quiet ∷ tail) (quiet-IsCalm tail end)))))

pub finalize-IsCalm : IsCalm finalize
unfolding finalize
finalize-IsCalm =
    let tail = remove_manifest_and_dir ∷ [] in
    in_order-IsCalm (change (erased original))
      (change (erased thumbnail) ∷ change (erased preview) ∷ quiet ∷ tail)
      (change-IsCalm (erased original))
      (in_order-IsCalm (change (erased thumbnail)) (change (erased preview) ∷ quiet ∷ tail)
        (change-IsCalm (erased thumbnail))
        (in_order-IsCalm (change (erased preview)) (quiet ∷ tail) (change-IsCalm (erased preview))
          (quiet-IsCalm tail end)))
