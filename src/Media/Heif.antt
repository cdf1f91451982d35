-- ===== src/Media/Heif.antt =====
-- backend/internal/media/heif_exif.go: `heifEXIFTIFF` and `readTopLevelBox`, which read parts of a
-- file. `read_at offset n` is what `ReadAt` gives for the n bytes at the offset, none for an error.
pub mod Items
pub mod Extents
pub mod Reads
pub mod Walk
use event_gallery.Base.{
  ℕ, zero, suc, ◌+◌, ◌-◌, ◌%◌, Bool, ◌&&◌, ◌||◌, Option, none, some, List, [], ◌∷◌, ltb, leb, ◌==◌,
  if◌then◌else◌, length, drop, runes,
}
use event_gallery.Base.Int.{ℤ, pos, negsuc}
use event_gallery.Media.Bytes.{slice, bytes_eq, big_endian, to_int64}
use event_gallery.Media.Boxes.{Search, found, missing, unfinished, find_box}
use Items.{exif_item_id}
use Extents.{item_extent}

abbrev pub Reader : Type 0
Reader = ℕ → ℕ → Option (List ℕ)

abbrev pub max_meta_box_bytes : ℕ
max_meta_box_bytes = 4194304

abbrev pub max_exif_item_bytes : ℕ
max_exif_item_bytes = 1048576

abbrev pub found_bytes : Option (List ℕ) → Search
found_bytes none = missing
found_bytes (some b) = found b

-- A box of the wanted type is read when it is small enough, and any other is passed by its size.
unfoldable pub at_box : Reader → ℕ → List ℕ → ℕ → (ℕ → Search) → ℕ → List ℕ → ℤ → ℕ → Search
at_box read_at file_size want max_bytes continue at kind (negsuc n) header = missing
at_box read_at file_size want max_bytes continue at kind (pos size) header =
    if ltb size header || ltb file_size (at + size)
    then missing
    else if bytes_eq kind want
    then if ltb max_bytes (size - header)
      then missing
      else found_bytes (read_at (at + header) (size - header))
    else continue (at + size)

abbrev pub at_large : Reader → ℕ → List ℕ → ℕ → (ℕ → Search) → ℕ → List ℕ → Option (List ℕ) → Search
at_large read_at file_size want max_bytes continue at kind none = missing
at_large read_at file_size want max_bytes continue at kind (some more) =
    at_box read_at file_size want max_bytes continue at kind (to_int64 (big_endian 8 more)) 16

unfoldable pub at_head : Reader → ℕ → List ℕ → ℕ → (ℕ → Search) → ℕ → Option (List ℕ) → Search
at_head read_at file_size want max_bytes continue at none = missing
at_head read_at file_size want max_bytes continue at (some head) =
    let size = big_endian 4 head in
    let kind = slice 4 8 head in
    if size == 1
    then at_large read_at file_size want max_bytes continue at kind (read_at (at + 8) 8)
    else if size == 0
    then at_box read_at file_size want max_bytes continue at kind (pos (file_size - at)) 8
    else at_box read_at file_size want max_bytes continue at kind (pos size) 8

unfoldable pub walk_file : ℕ → Reader → ℕ → List ℕ → ℕ → ℕ → Search
walk_file zero read_at file_size want max_bytes at =
    if leb (at + 8) file_size then unfinished else missing
walk_file (suc fuel) read_at file_size want max_bytes at =
    if leb (at + 8) file_size
    then at_head read_at file_size want max_bytes
        (λ next. walk_file fuel read_at file_size want max_bytes next) at (read_at at 8)
    else missing

-- A round moves on by eight bytes or more, so that a round per byte of the file is enough.
unfoldable pub read_top_level_box : Reader → ℕ → List ℕ → ℕ → Search
read_top_level_box read_at file_size want max_bytes =
    walk_file file_size read_at file_size want max_bytes 0

-- The payload after the TIFF header's offset, which its first four bytes give.
unfoldable pub tiff_of : Option (List ℕ) → Option (List ℕ)
tiff_of none = none
tiff_of (some payload) =
    let skip = big_endian 4 payload + 4 in
    if ltb skip 4 || leb (length payload) skip then none else some (drop skip payload)

-- `offset < 0 || offset+length > fileSize` with the sum of two int64, which wraps around.
unfoldable pub ends_after : ℕ → ℕ → ℕ → Bool
ends_after offset n file_size = leb (offset + n) 9223372036854775807 && ltb file_size (offset + n)

unfoldable pub read_extent : Reader → ℕ → Option (ℤ × ℕ) → Option (List ℕ)
read_extent read_at file_size none = none
read_extent read_at file_size (some (negsuc o, n)) = none
read_extent read_at file_size (some (pos offset, n)) =
    if leb n 4 || ltb max_exif_item_bytes n || ends_after offset n file_size
    then none
    else tiff_of (read_at offset n)

abbrev in_iloc : Reader → ℕ → ℕ → Search → Option (List ℕ)
in_iloc read_at file_size id (found iloc) = read_extent read_at file_size (item_extent iloc id)
in_iloc read_at file_size id _ = none

abbrev with_item : Reader → ℕ → List ℕ → Option ℕ → Option (List ℕ)
with_item read_at file_size children none = none
with_item read_at file_size children (some id) =
    in_iloc read_at file_size id (find_box children (runes "iloc"))

abbrev in_iinf : Reader → ℕ → List ℕ → Search → Option (List ℕ)
in_iinf read_at file_size children (found iinf) =
    with_item read_at file_size children (exif_item_id iinf)
in_iinf read_at file_size children _ = none

-- meta is a FullBox: its children start after the version and the flags.
unfoldable pub in_meta : Reader → ℕ → Search → Option (List ℕ)
in_meta read_at file_size (found meta) =
    if ltb (length meta) 4
    then none
    else let children = drop 4 meta in
      in_iinf read_at file_size children (find_box children (runes "iinf"))
in_meta read_at file_size _ = none

-- The file is open, and `file_size` is what `Stat` says.
unfoldable pub heif_exif_tiff : Reader → ℕ → Option (List ℕ)
heif_exif_tiff read_at file_size =
    in_meta read_at file_size
      (read_top_level_box read_at file_size (runes "meta") max_meta_box_bytes)
