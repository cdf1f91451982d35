-- ===== src/Tests/Inspection.antt =====
-- The parser of ISOBMFF boxes at a small file with an Exif item.
use event_gallery.Base.{
  ℕ, ◌+◌, ◌≡◌, ◌≢◌, refl, none, some, List, [], ◌∷◌, ◌++◌, length, take, drop, leb, arith,
  if◌then◌else◌, runes,
}
use event_gallery.Media.Bytes.{read_uint, accumulate, big_endian, bytes_eq, to_int64}
use event_gallery.Media.Bytes.RoundTrip.{put_be, read_uint-put_be}
use event_gallery.Media.Boxes.{
  find_box, unfinished, find_from, match_box, next_box, split_box, box_head,
}
use event_gallery.Media.Boxes.Split.{IsPart, find_box-IsPart}
use event_gallery.Media.Boxes.Split.Print.{Part, print_boxes, first_of, find_box-print_boxes}
use event_gallery.Media.Heif.{
  Reader, heif_exif_tiff, read_top_level_box, max_meta_box_bytes, walk_file, at_head, at_box,
  in_meta, read_extent, ends_after, tiff_of,
}
use event_gallery.Media.Heif.Items.{exif_item_id, read_number, item_id, infe_item, scan_items}
use event_gallery.Media.Heif.Extents.{
  item_extent, layout_of, located, scan_extent, scan_extents, read_construction, scan_location,
  scan_locations,
}
use event_gallery.Media.Heif.Reads.{bounded, heif_exif_tiff-bounded}
use event_gallery.Media.Heif.Walk.{read_top_level_box-ends}

read_uint-put_be_example : read_uint (put_be 4 1000 ++ 7 ∷ []) 4 ≡ some (1000, 7 ∷ [])
read_uint-put_be_example = read_uint-put_be 4 1000 (7 ∷ []) (omega arith) (omega arith)

abbrev two_parts : List Part
two_parts = (runes "free", 1 ∷ []) ∷ (runes "iloc", 2 ∷ 3 ∷ []) ∷ []

find_box-print_boxes_example :
    find_box (print_boxes two_parts) (runes "iloc") ≡ first_of two_parts (runes "iloc")
find_box-print_boxes_example =
    find_box-print_boxes two_parts (runes "iloc") ((refl, omega arith), ((refl, omega arith), tt))

find_box-IsPart_example : IsPart (0 ∷ 0 ∷ 0 ∷ 1 ∷ []) (find_box (0 ∷ 0 ∷ 0 ∷ 1 ∷ []) (runes "iinf"))
find_box-IsPart_example = find_box-IsPart (0 ∷ 0 ∷ 0 ∷ 1 ∷ []) (runes "iinf")

-- An item of id 1 and type Exif, whose extent is the seven bytes after the meta box.
abbrev infe : List ℕ
infe = 2 ∷ 0 ∷ 0 ∷ 0 ∷ 0 ∷ 1 ∷ 0 ∷ 0 ∷ runes "Exif"

abbrev iinf : List ℕ
iinf = 0 ∷ 0 ∷ 0 ∷ 0 ∷ 0 ∷ 1 ∷ 0 ∷ 0 ∷ 0 ∷ 20 ∷ (runes "infe" ++ infe)

abbrev iloc : List ℕ
iloc = 0 ∷ 0 ∷ 0 ∷ 0 ∷ 68 ∷ 0 ∷ 0 ∷ 1 ∷ 0 ∷ 1 ∷ 0 ∷ 0 ∷ 0 ∷ 1 ∷ 0 ∷ 0 ∷ 0 ∷ 76 ∷ 0 ∷ 0 ∷ 0 ∷ 7 ∷ []

abbrev heif_file : List ℕ
heif_file =
    (0 ∷ 0 ∷ 0 ∷ 76 ∷ runes "meta")
    ++ (0 ∷ 0 ∷ 0 ∷ 0 ∷ 0 ∷ 0 ∷ 0 ∷ 34 ∷ runes "iinf")
    ++ iinf
    ++ (0 ∷ 0 ∷ 0 ∷ 30 ∷ runes "iloc")
    ++ iloc
    ++ (0 ∷ 0 ∷ 0 ∷ 0 ∷ 1 ∷ 2 ∷ 3 ∷ [])

-- A file of the bytes, all readable.
abbrev reads_of : List ℕ → Reader
reads_of b offset n = if leb (offset + n) (length b) then some (take n (drop offset b)) else none

exif_found : heif_exif_tiff (reads_of heif_file) 83 ≡ some (1 ∷ 2 ∷ 3 ∷ [])
unfolding heif_exif_tiff read_top_level_box walk_file at_head at_box in_meta read_extent ends_after
    tiff_of exif_item_id read_number item_id infe_item scan_items item_extent layout_of located
    scan_extent scan_extents read_construction scan_location scan_locations find_box find_from
    match_box next_box split_box box_head read_uint accumulate big_endian bytes_eq to_int64
exif_found = refl

heif_exif_tiff-bounded_example :
    heif_exif_tiff (bounded (reads_of heif_file) 83) 83 ≡ heif_exif_tiff (reads_of heif_file) 83
heif_exif_tiff-bounded_example = heif_exif_tiff-bounded (reads_of heif_file) 83

read_top_level_box-ends_example :
    read_top_level_box (reads_of heif_file) 83 (runes "mdat") max_meta_box_bytes ≢ unfinished
read_top_level_box-ends_example =
    read_top_level_box-ends (reads_of heif_file) 83 (runes "mdat") max_meta_box_bytes
