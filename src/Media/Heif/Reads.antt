-- ===== src/Media/Heif/Reads.antt =====
-- What `heifEXIFTIFF` reads of a file, and that its walk over the file ends.
use event_gallery.Base.{
  ℕ, zero, suc, ◌+◌, ◌-◌, ◌≡◌, ◌≤◌, Bool, true, false, Bool-cases, ◌||◌, ◌&&◌, Option, none, some,
  List, length, drop, ltb, leb, ◌==◌, if◌then◌else◌, arith, inl, inr, refl, ap, ◌∙◌, runes,
}
use event_gallery.Base.Int.{ℤ, pos, negsuc}
use event_gallery.Media.Bytes.{slice, bytes_eq, big_endian, to_int64}
use event_gallery.Media.Boxes.{Search, found, missing, unfinished, find_box}
use event_gallery.Media.Heif.{
  Reader, max_meta_box_bytes, max_exif_item_bytes, found_bytes, at_box, at_large, at_head,
  walk_file, read_top_level_box, tiff_of, ends_after, read_extent, in_iloc, with_item, in_iinf,
  in_meta, heif_exif_tiff,
}
use event_gallery.Media.Heif.Items.{exif_item_id}
use event_gallery.Media.Heif.Extents.{item_extent}

-- A read of at most 4 MiB that ends at most eight bytes after the end of the file, or one of at most
-- 1 MiB that ends after every offset of 64 bits.
unfoldable pub is_bounded : ℕ → ℕ → ℕ → Bool
is_bounded file_size offset n =
    leb (offset + n) (file_size + 8) && leb n max_meta_box_bytes
    || leb 9223372036854775808 (offset + n) && leb n max_exif_item_bytes

-- A reader that refuses every other read.
unfoldable pub bounded : Reader → ℕ → Reader
bounded read_at file_size offset n =
    if is_bounded file_size offset n then read_at offset n else none

small_read :
    (file_size offset n : ℕ)
    → offset + n ≤ file_size + 8
    → n ≤ max_meta_box_bytes
    → is_bounded file_size offset n ≡ true
unfolding is_bounded
small_read file_size offset n h k = ground arith

module _ (read_at : Reader) (file_size : ℕ) where
  extent_allowed :
      (offset n : ℕ)
      → leb n 4 || ltb max_exif_item_bytes n || ends_after offset n file_size ≡ false
      → is_bounded file_size offset n ≡ true
  unfolding ends_after is_bounded
  extent_allowed offset n h = ground arith

  bounded-reads :
      (offset n : ℕ)
      → is_bounded file_size offset n ≡ true
      → bounded read_at file_size offset n ≡ read_at offset n
  unfolding bounded
  bounded-reads offset n h = simp h

  at_box-bounded :
      (want : List ℕ) (max_bytes : ℕ) (c c' : ℕ → Search) (at : ℕ) (kind : List ℕ) (size : ℤ)
      (header : ℕ)
      → max_bytes ≤ max_meta_box_bytes
      → ((next : ℕ) → c next ≡ c' next)
      → at_box (bounded read_at file_size) file_size want max_bytes c at kind size header
        ≡ at_box read_at file_size want max_bytes c' at kind size header
  unfolding at_box
  at_box-bounded want max_bytes c c' at kind (negsuc n) header small same = refl
  at_box-bounded want max_bytes c c' at kind (pos size) header small same =
      elim (Bool-cases (ltb size header || ltb file_size (at + size))) [
        | inl e ↦ simp e
        | inr e ↦ elim (Bool-cases (bytes_eq kind want)) [
          | inl f ↦ elim (Bool-cases (ltb max_bytes (size - header))) [
            | inl g ↦ simp (e, f, g)
            | inr g ↦
                let allowed =
                  small_read file_size (at + header) (size - header) (ground arith)
                    (ground arith) in
                simp (e, f, g)
                  (ap found_bytes (bounded-reads (at + header) (size - header) allowed))
          ]
          | inr f ↦ simp (e, f) (same (at + size))
        ]
      ]

  at_large-bounded :
      (want : List ℕ) (max_bytes : ℕ) (c c' : ℕ → Search) (at : ℕ) (kind : List ℕ)
      (more : Option (List ℕ))
      → max_bytes ≤ max_meta_box_bytes
      → ((next : ℕ) → c next ≡ c' next)
      → at_large (bounded read_at file_size) file_size want max_bytes c at kind more
        ≡ at_large read_at file_size want max_bytes c' at kind more
  at_large-bounded want max_bytes c c' at kind none small same = refl
  at_large-bounded want max_bytes c c' at kind (some more) small same =
      at_box-bounded want max_bytes c c' at kind (to_int64 (big_endian 8 more)) 16 small same

  at_head-bounded :
      (want : List ℕ) (max_bytes : ℕ) (c c' : ℕ → Search) (at : ℕ) (head : Option (List ℕ))
      → at + 8 ≤ file_size
      → max_bytes ≤ max_meta_box_bytes
      → ((next : ℕ) → c next ≡ c' next)
      → at_head (bounded read_at file_size) file_size want max_bytes c at head
        ≡ at_head read_at file_size want max_bytes c' at head
  unfolding at_head
  at_head-bounded want max_bytes c c' at none inside small same = refl
  at_head-bounded want max_bytes c c' at (some head) inside small same =
      elim (Bool-cases (big_endian 4 head == 1)) [
        | inl e ↦
            let allowed = small_read file_size (at + 8) 8 (omega arith) (omega arith) in
            let more = bounded-reads (at + 8) 8 allowed in
            simp (e, more)
              (at_large-bounded want max_bytes c c' at (slice 4 8 head) (read_at (at + 8) 8) small
                same)
        | inr e ↦ elim (Bool-cases (big_endian 4 head == 0)) [
          | inl f ↦
              simp (e, f)
                (at_box-bounded want max_bytes c c' at (slice 4 8 head) (pos (file_size - at)) 8
                  small same)
          | inr f ↦
              simp (e, f)
                (at_box-bounded want max_bytes c c' at (slice 4 8 head) (pos (big_endian 4 head)) 8
                  small same)
        ]
      ]

  walk_file-bounded :
      (fuel : ℕ) (want : List ℕ) (max_bytes at : ℕ)
      → max_bytes ≤ max_meta_box_bytes
      → walk_file fuel (bounded read_at file_size) file_size want max_bytes at
        ≡ walk_file fuel read_at file_size want max_bytes at
  unfolding walk_file
  walk_file-bounded zero want max_bytes at small = refl
  walk_file-bounded (suc fuel) want max_bytes at small =
      elim (Bool-cases (leb (at + 8) file_size)) [
        | inl e ↦
            let allowed = small_read file_size at 8 (ground arith) (omega arith) in
            let head = bounded-reads at 8 allowed in
            let rounds = λ (next : ℕ). walk_file-bounded fuel want max_bytes next small in
            simp (e, head)
              (at_head-bounded want max_bytes
                (λ next. walk_file fuel (bounded read_at file_size) file_size want max_bytes next)
                (λ next. walk_file fuel read_at file_size want max_bytes next) at (read_at at 8)
                (ground arith) small rounds)
        | inr e ↦ simp e
      ]

  read_extent-bounded :
      (place : Option (ℤ × ℕ))
      → read_extent (bounded read_at file_size) file_size place
        ≡ read_extent read_at file_size place
  unfolding read_extent
  read_extent-bounded none = refl
  read_extent-bounded (some (negsuc o, n)) = refl
  read_extent-bounded (some (pos offset, n)) =
      elim (Bool-cases (leb n 4 || ltb max_exif_item_bytes n || ends_after offset n file_size)) [
        | inl e ↦ simp e
        | inr e ↦ simp e (ap tiff_of (bounded-reads offset n (extent_allowed offset n e)))
      ]

  in_iloc-bounded :
      (id : ℕ) (s : Search)
      → in_iloc (bounded read_at file_size) file_size id s ≡ in_iloc read_at file_size id s
  in_iloc-bounded id missing = refl
  in_iloc-bounded id unfinished = refl
  in_iloc-bounded id (found iloc) = read_extent-bounded (item_extent iloc id)

  with_item-bounded :
      (children : List ℕ) (o : Option ℕ)
      → with_item (bounded read_at file_size) file_size children o
        ≡ with_item read_at file_size children o
  with_item-bounded children none = refl
  with_item-bounded children (some id) = in_iloc-bounded id (find_box children (runes "iloc"))

  in_iinf-bounded :
      (children : List ℕ) (s : Search)
      → in_iinf (bounded read_at file_size) file_size children s
        ≡ in_iinf read_at file_size children s
  in_iinf-bounded children missing = refl
  in_iinf-bounded children unfinished = refl
  in_iinf-bounded children (found iinf) = with_item-bounded children (exif_item_id iinf)

  in_meta-bounded :
      (s : Search) → in_meta (bounded read_at file_size) file_size s ≡ in_meta read_at file_size s
  unfolding in_meta
  in_meta-bounded missing = refl
  in_meta-bounded unfinished = refl
  in_meta-bounded (found meta) =
      let children = drop 4 meta in
      ap (λ r. if ltb (length meta) 4 then none else r)
        (in_iinf-bounded children (find_box children (runes "iinf")))

  -- No file, however malformed, makes the reader of EXIF read more than 4 MiB at once or more than
  -- eight bytes past the end of the file, but for one read of at most 1 MiB that ends past the last
  -- offset of 64 bits: refusing all other reads changes no answer.
  pub heif_exif_tiff-bounded :
      heif_exif_tiff (bounded read_at file_size) file_size ≡ heif_exif_tiff read_at file_size
  unfolding heif_exif_tiff read_top_level_box
  heif_exif_tiff-bounded =
      let walk = walk_file-bounded file_size (runes "meta") max_meta_box_bytes 0 (omega arith) in
      ap (λ s. in_meta (bounded read_at file_size) file_size s) walk
      ∙ in_meta-bounded (walk_file file_size read_at file_size (runes "meta") max_meta_box_bytes 0)
