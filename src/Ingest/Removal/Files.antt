-- ===== src/Ingest/Removal/Files.antt =====
-- Which files a removal for a job may touch, and single steps that leave the others.
use event_gallery.Base.{
  ℕ, ◌≡◌, inl, inr, refl, ap, Bool, true, false, not, ◌&&◌, [], ◌∷◌, arith, Bool-cases, str_eq,
  str_eq_iff,
}
use event_gallery.Store.Job.{Result, ok, err, UploadJob}
use event_gallery.Store.Sql.{Table}
use event_gallery.Store.Media.{MediaItem}
use event_gallery.Ingest.Removal.{
  File, data_file, info_file, original, thumbnail, preview, temporary, file_eq, Disk, holds,
  without, World, unlink, and_then, is_leftover, settle_removal,
}

unfoldable pub is_owned : Result MediaItem → Bool
is_owned (ok m) = true
is_owned (err e) = false

-- The files that a removal for this job may delete.
unfoldable pub may_go : Bool → UploadJob → File → Bool
may_go owned job (data_file id) = str_eq job.upload_id id
may_go owned job (info_file id) = str_eq job.upload_id id
may_go owned job (original n) = not owned && str_eq job.stored_filename n
may_go owned job (thumbnail m) = not owned && str_eq job.media_id m
may_go owned job (preview m) = not owned && str_eq job.media_id m
may_go owned job (temporary m token) = str_eq m job.media_id

pub file_eq-same : (f g : File) → file_eq f g ≡ true → f ≡ g
unfolding file_eq
file_eq-same (data_file a) (data_file b) e = ap data_file ((str_eq_iff a b).0 e)
file_eq-same (info_file a) (info_file b) e = ap info_file ((str_eq_iff a b).0 e)
file_eq-same (original a) (original b) e = ap original ((str_eq_iff a b).0 e)
file_eq-same (thumbnail a) (thumbnail b) e = ap thumbnail ((str_eq_iff a b).0 e)
file_eq-same (preview a) (preview b) e = ap preview ((str_eq_iff a b).0 e)
file_eq-same (temporary a s) (temporary b u) e =
    let first : a ≡ b = (str_eq_iff a b).0 (ground arith) in
    let second : s ≡ u = (str_eq_iff s u).0 (ground arith) in cc
file_eq-same _ _ e = absurd (cc)

pub holds-without :
    (p : File → Bool) (f : File) (d : Disk)
    → p f ≡ false
    → holds f d ≡ true
    → holds f (without p d) ≡ true
unfolding holds without
holds-without p f [] h k = k
holds-without p f (g ∷ d) h k = elim (Bool-cases (file_eq g f)) [
  | inl e ↦ let same : g ≡ f = file_eq-same g f e in ground (arith, same)
  | inr e ↦ ground (arith, holds-without p f d h)
]

module _ (f : File) where
  pub unlink-holds :
      (w : World) (g : File) (d : Disk)
      → file_eq g f ≡ false
      → holds f d ≡ true
      → holds f (unlink w g d).0 ≡ true
  unfolding unlink
  unlink-holds w g d e h = ground (arith, holds-without (file_eq g) f d e h)

  pub and_then-holds :
      (p : Disk × Bool) (k : Disk → Disk × Bool)
      → ((d : Disk) → holds f d ≡ true → holds f (k d).0 ≡ true)
      → holds f p.0 ≡ true
      → holds f (and_then p k).0 ≡ true
  and_then-holds (d, true) k step h = step d h
  and_then-holds (d, false) k step h = h

  pub settle_removal-holds :
      (w : World) (job : UploadJob) (now : ℕ) (t : Table) (p : Disk × Bool)
      → holds f p.0 ≡ true
      → holds f (settle_removal w job now t p).0 ≡ true
  settle_removal-holds w job now t (d, true) h = h
  settle_removal-holds w job now t (d, false) h = h

module _ (job : UploadJob) where
  pub leftover_goes :
      (w : World) (owned : Bool) (f : File)
      → may_go owned job f ≡ false
      → is_leftover w job.media_id f ≡ false
  unfolding may_go is_leftover
  leftover_goes w owned (temporary m token) e = ground arith
  leftover_goes w owned _ e = refl

  pub source_apart :
      (owned : Bool) (f : File)
      → may_go owned job f ≡ false
      → (file_eq (data_file job.upload_id) f ≡ false)
        × (file_eq (info_file job.upload_id) f ≡ false)
  unfolding may_go file_eq
  source_apart owned (data_file a) e = (e, refl)
  source_apart owned (info_file a) e = (refl, e)
  source_apart owned _ e = (refl, refl)

  pub artifacts_apart :
      (f : File)
      → may_go false job f ≡ false
      → (file_eq (original job.stored_filename) f ≡ false)
        × (file_eq (thumbnail job.media_id) f ≡ false)
        × (file_eq (preview job.media_id) f ≡ false)
  unfolding may_go file_eq
  artifacts_apart (original a) e = (e, refl, refl)
  artifacts_apart (thumbnail a) e = (refl, e, refl)
  artifacts_apart (preview a) e = (refl, refl, e)
  artifacts_apart _ e = (refl, refl, refl)
