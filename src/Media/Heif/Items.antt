-- ===== src/Media/Heif/Items.antt =====
-- backend/internal/media/heif_exif.go: `exifItemID`, the item of an iinf box that carries EXIF.
use event_gallery.Base.{
  ℕ, zero, suc, Bool, not, ◌&&◌, Option, none, some, List, [], ◌∷◌, ltb, leb, ◌==◌, if◌then◌else◌,
  length, take, drop, runes,
}
use event_gallery.Media.Bytes.{bytes_eq, big_endian}
use event_gallery.Media.Boxes.{Box, next_box}

-- `b[0]` of a slice that is not empty.
abbrev pub first_byte : List ℕ → ℕ
first_byte [] = 0
first_byte (c ∷ cs) = c

-- A number of two bytes in the narrow versions of a box and of four in the others.
unfoldable pub read_number : Bool → List ℕ → Option (ℕ × List ℕ)
read_number narrow b =
    let width = if narrow then 2 else 4 in
    if ltb (length b) width then none else some (big_endian width b, drop width b)

abbrev exif_id : ℕ → List ℕ → Option ℕ
exif_id id entry = if bytes_eq (take 4 entry) (runes "Exif") then some id else none

-- The item of an infe box of version 2 or 3, where it is of type Exif.
unfoldable pub item_id : List ℕ → Option ℕ
item_id payload =
    let entry = drop 4 payload in
    if first_byte payload == 2
    then if ltb (length entry) 8 then none else exif_id (big_endian 2 entry) (drop 4 entry)
    else if leb 3 (first_byte payload)
    then if ltb (length entry) 10 then none else exif_id (big_endian 4 entry) (drop 6 entry)
    else none

unfoldable pub infe_item : Box → Option ℕ
infe_item box =
    if bytes_eq box.box_type (runes "infe") && not (ltb (length box.payload) 4)
    then item_id box.payload
    else none

abbrev answer_or : (List ℕ → Option ℕ) → List ℕ → Option ℕ → Option ℕ
answer_or continue rest none = continue rest
answer_or continue rest (some id) = some id

abbrev scan_item : (List ℕ → Option ℕ) → Option Box → Option ℕ
scan_item continue none = none
scan_item continue (some box) = answer_or continue box.rest (infe_item box)

unfoldable pub scan_items : ℕ → List ℕ → Option ℕ
scan_items zero b = none
scan_items (suc n) b = scan_item (λ r. scan_items n r) (next_box b)

abbrev counted_items : Option (ℕ × List ℕ) → Option ℕ
counted_items none = none
counted_items (some (count, b)) = scan_items count b

unfoldable pub exif_item_id : List ℕ → Option ℕ
exif_item_id iinf =
    if ltb (length iinf) 4
    then none
    else counted_items (read_number (first_byte iinf == 0) (drop 4 iinf))
