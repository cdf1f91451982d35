-- ===== src/Media/Heif/Extents.antt =====
-- backend/internal/media/heif_exif.go: `itemExtent`, the place in the file that an iloc box gives for
-- an item.
use event_gallery.Base.{
  ℕ, zero, suc, ◌+◌, ◌/◌, ◌%◌, Bool, false, not, ◌&&◌, ◌||◌, Option, none, some, List, ltb, ◌==◌,
  if◌then◌else◌, length, drop,
}
use event_gallery.Base.Int.{ℤ}
use event_gallery.Media.Bytes.{read_uint, to_int64, big_endian}
use event_gallery.Media.Heif.Items.{first_byte, read_number}

-- The version with the widths of the fields.
pub record Layout : Type 0 where
  pub version : ℕ
  pub offset_size : ℕ
  pub length_size : ℕ
  pub base_offset_size : ℕ
  pub index_size : ℕ

abbrev is_indexed : ℕ → Bool
is_indexed version = version == 1 || version == 2

-- The layout that the bytes at 0, 4 and 5 of the box give.
unfoldable pub layout_of : List ℕ → Layout
layout_of iloc =
    let version = first_byte iloc in
    let sizes = first_byte (drop 4 iloc) in
    let more = first_byte (drop 5 iloc) in
    record {
      version = version;
      offset_size = sizes / 16;
      length_size = sizes % 16;
      base_offset_size = more / 16;
      index_size = if is_indexed version then more % 16 else 0;
    }

-- What a part of the walk answers: the walk fails, it has the extent, or it goes on after the part.
pub data Scan : Type 0 where
  failed : Scan
  extent : ℤ → ℕ → Scan
  passed : List ℕ → Scan

abbrev large : ℕ → Bool
large v = ltb 4611686018427387904 v

-- The extent in the file, unless a part of it is larger than 2^62.
unfoldable pub located : ℕ → ℕ → ℕ → Scan
located base offset size =
    if large base || large offset || large size
    then failed
    else extent (to_int64 (base + offset)) size

abbrev after_length : (List ℕ → Scan) → Bool → ℕ → ℕ → Option (ℕ × List ℕ) → Scan
after_length continue wanted base offset none = failed
after_length continue wanted base offset (some (size, b)) =
    if wanted then located base offset size else continue b

abbrev after_offset : (List ℕ → Scan) → Layout → Bool → ℕ → Option (ℕ × List ℕ) → Scan
after_offset continue l wanted base none = failed
after_offset continue l wanted base (some (offset, b)) =
    after_length continue wanted base offset (read_uint b l.length_size)

unfoldable pub scan_extent : (List ℕ → Scan) → Layout → Bool → ℕ → List ℕ → Scan
scan_extent continue l wanted base b =
    if not (l.index_size == 0) && ltb (length b) l.index_size
    then failed
    else after_offset continue l wanted base (read_uint (drop l.index_size b) l.offset_size)

-- Only the first extent of the wanted item is an answer; the others are read to be passed.
unfoldable pub scan_extents : Layout → Bool → ℕ → ℕ → List ℕ → Scan
scan_extents l wanted base zero b = passed b
scan_extents l wanted base (suc n) b =
    scan_extent (λ r. scan_extents l false base n r) l wanted base b

abbrev after_base : Layout → Bool → Option (ℕ × List ℕ) → Scan
after_base l wanted none = failed
after_base l wanted (some (base, b)) =
    if ltb (length b) 2 then failed else scan_extents l wanted base (big_endian 2 b) (drop 2 b)

-- The data reference index is passed over.
abbrev after_construction : Layout → Bool → Option (ℕ × List ℕ) → Scan
after_construction l wanted none = failed
after_construction l wanted (some (construction, b)) =
    if ltb (length b) 2
    then failed
    else after_base l (wanted && construction == 0) (read_uint (drop 2 b) l.base_offset_size)

-- Construction method 0, which the versions without the field have, addresses the file itself.
unfoldable pub read_construction : Layout → List ℕ → Option (ℕ × List ℕ)
read_construction l b =
    if is_indexed l.version
    then if ltb (length b) 2 then none else some (big_endian 2 b % 16, drop 2 b)
    else some (0, b)

abbrev after_id : Layout → ℕ → Option (ℕ × List ℕ) → Scan
after_id l want none = failed
after_id l want (some (id, b)) = after_construction l (id == want) (read_construction l b)

unfoldable pub scan_location : Layout → ℕ → List ℕ → Scan
scan_location l want b = after_id l want (read_number (ltb l.version 2) b)

abbrev next_location : (List ℕ → Option (ℤ × ℕ)) → Scan → Option (ℤ × ℕ)
next_location continue failed = none
next_location continue (extent offset size) = some (offset, size)
next_location continue (passed b) = continue b

unfoldable pub scan_locations : Layout → ℕ → ℕ → List ℕ → Option (ℤ × ℕ)
scan_locations l want zero b = none
scan_locations l want (suc n) b =
    next_location (λ r. scan_locations l want n r) (scan_location l want b)

abbrev counted_locations : Layout → ℕ → Option (ℕ × List ℕ) → Option (ℤ × ℕ)
counted_locations l want none = none
counted_locations l want (some (count, b)) = scan_locations l want count b

unfoldable pub item_extent : List ℕ → ℕ → Option (ℤ × ℕ)
item_extent iloc want =
    if ltb (length iloc) 6
    then none
    else let l = layout_of iloc in
      counted_locations l want (read_number (ltb l.version 2) (drop 6 iloc))
