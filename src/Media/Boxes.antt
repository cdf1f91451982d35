-- ===== src/Media/Boxes.antt =====
-- backend/internal/media/heif_exif.go: `nextBox` and `findBox`, the boxes of an ISOBMFF container.
pub mod Split
use event_gallery.Base.{
  ℕ, zero, suc, Bool, true, false, ◌||◌, Option, none, some, List, [], ◌∷◌, ltb, ◌==◌,
  if◌then◌else◌, length, drop,
}
use event_gallery.Base.Int.{ℤ, pos, negsuc}
use event_gallery.Media.Bytes.{slice, bytes_eq, big_endian, to_int64}

pub record Box : Type 0 where
  pub box_type : List ℕ
  pub payload : List ℕ
  pub rest : List ℕ

-- The declared size with the length of the header: 1 says that a size of 64 bits follows, and 0
-- that the box reaches to the end.
unfoldable pub box_head : List ℕ → Option (ℤ × ℕ)
box_head b =
    let size = big_endian 4 b in
    if size == 1
    then if ltb (length b) 16 then none else some (to_int64 (big_endian 8 (drop 8 b)), 16)
    else if size == 0
    then some (pos (length b), 8)
    else some (pos size, 8)

unfoldable pub split_box : List ℕ → Option (ℤ × ℕ) → Option Box
split_box b none = none
split_box b (some (negsuc n, header)) = none
split_box b (some (pos size, header)) =
    if ltb size header || ltb (length b) size
    then none
    else some (record { box_type = slice 4 8 b; payload = slice header size b; rest = drop size b })

unfoldable pub next_box : List ℕ → Option Box
next_box b = if ltb (length b) 8 then none else split_box b (box_head b)

-- What a search among boxes answers; `unfinished` is a walk that ran out of fuel.
pub data Search : Type 0 where
  found : List ℕ → Search
  missing : Search
  unfinished : Search

unfoldable pub match_box : (List ℕ → Search) → List ℕ → Option Box → Search
match_box continue want none = missing
match_box continue want (some box) =
    if bytes_eq box.box_type want then found box.payload else continue box.rest

unfoldable pub find_from : ℕ → List ℕ → List ℕ → Search
find_from fuel want [] = missing
find_from zero want (c ∷ b) = unfinished
find_from (suc fuel) want (c ∷ b) = match_box (λ r. find_from fuel want r) want (next_box (c ∷ b))

-- A round takes a box of eight bytes or more, so that a fuel of one round per byte is enough.
unfoldable pub find_box : List ℕ → List ℕ → Search
find_box b want = find_from (length b) want b
