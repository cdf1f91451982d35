-- ===== src/Media/Boxes/Split/Print.antt =====
-- Boxes that are printed one after another are found again by their type.
use event_gallery.Base.{
  ℕ, zero, suc, ◌+◌, ◌-◌, ◌≡◌, ◌≤◌, ◌<◌, false, some, List, [], ◌∷◌, ◌++◌, length, take, drop, ltb,
  ◌==◌, if◌then◌else◌, length-append, take-append, drop-append, append_assoc, All, arith, refl, sym,
  ap, ◌∙◌,
}
use event_gallery.Base.Int.{pos}
use event_gallery.Media.Bytes.{slice, bytes_eq, big_endian}
use event_gallery.Media.Bytes.RoundTrip.{put_be, length-put_be, big_endian-put_be, drop-put_be}
use event_gallery.Media.Boxes.{
  box_head, split_box, next_box, Search, found, missing, match_box, find_from, find_box,
}

-- A box with its type of four bytes, before it has a header.
abbrev pub Part : Type 0
Part = List ℕ × List ℕ

abbrev pub Printable : Part → Type 0
Printable (kind, payload) = (length kind ≡ 4) × (length payload + 8 < 4294967296)

-- A box before the bytes after it.
abbrev pub print_box : Part → List ℕ → List ℕ
print_box (kind, payload) b = put_be 4 (length payload + 8) ++ (kind ++ (payload ++ b))

abbrev pub print_boxes : List Part → List ℕ
print_boxes [] = []
print_boxes (p ∷ ps) = print_box p (print_boxes ps)

-- The payload of the first box of a type.
abbrev pub first_of : List Part → List ℕ → Search
first_of [] want = missing
first_of ((kind, payload) ∷ ps) want =
    let rest = first_of ps want in if bytes_eq kind want then found payload else rest

module _ (kind payload b : List ℕ) (four : length kind ≡ 4)
    (small : length payload + 8 < 4294967296) where
  front : List ℕ
  front = put_be 4 (length payload + 8) ++ kind

  length-front : length front ≡ 8
  unfolding front
  length-front =
      let outer = length-append (put_be 4 (length payload + 8)) kind in
      let inner = length-put_be 4 (length payload + 8) in omega arith

  print_box-front : print_box (kind, payload) b ≡ front ++ payload ++ b
  unfolding front
  print_box-front = sym (
      append_assoc front payload b
      ∙ append_assoc (put_be 4 (length payload + 8)) kind (payload ++ b))

  length-print_box : length (print_box (kind, payload) b) ≡ length payload + 8 + length b
  length-print_box =
      let all = ap length print_box-front in
      let outer = length-append (front ++ payload) b in
      let inner = length-append front payload in omega (arith, length-front)

  print_box-size : big_endian 4 (print_box (kind, payload) b) ≡ length payload + 8
  print_box-size =
      big_endian-put_be 4 (length payload + 8) (kind ++ (payload ++ b)) (omega arith) (omega arith)

  box_head-print_box : box_head (print_box (kind, payload) b) ≡ some (pos (length payload + 8), 8)
  unfolding box_head
  box_head-print_box =
      let size = print_box-size in
      let not_one : (length payload + 8 == 1) ≡ false = ground arith in
      let not_zero : (length payload + 8 == 0) ≡ false = ground arith in
      simp (size, not_one, not_zero)

  print_box-kind : slice 4 8 (print_box (kind, payload) b) ≡ kind
  print_box-kind =
      let past = drop-put_be 4 (length payload + 8) (kind ++ (payload ++ b)) in
      let cut : take 4 (kind ++ (payload ++ b)) ≡ kind =
        rw four at (take-append kind (payload ++ b)) in
      ap (λ x. take 4 x) past ∙ cut

  print_box-payload : slice 8 (length payload + 8) (print_box (kind, payload) b) ≡ payload
  print_box-payload =
      let past : drop 8 (front ++ (payload ++ b)) ≡ payload ++ b =
        rw length-front at (drop-append front (payload ++ b)) in
      let size : length payload + 8 - 8 ≡ length payload = omega arith in
      let shifted : drop 8 (print_box (kind, payload) b) ≡ payload ++ b =
        ap (λ x. drop 8 x) (print_box-front ∙ append_assoc front payload b) ∙ past in
      ap (λ n. take n (drop 8 (print_box (kind, payload) b))) size
      ∙ ap (λ x. take (length payload) x) shifted
      ∙ take-append payload b

  print_box-rest : drop (length payload + 8) (print_box (kind, payload) b) ≡ b
  print_box-rest =
      let size : length (front ++ payload) ≡ length payload + 8 =
        omega (arith, length-append front payload, length-front) in
      let past : drop (length payload + 8) (front ++ payload ++ b) ≡ b =
        rw size at (drop-append (front ++ payload) b) in
      ap (λ x. drop (length payload + 8) x) print_box-front ∙ past

  next_box-print_box :
      next_box (print_box (kind, payload) b)
      ≡ some (record { box_type = kind; payload = payload; rest = b })
  unfolding next_box split_box
  next_box-print_box =
      let len = length-print_box in
      let long : ltb (length (print_box (kind, payload) b)) 8 ≡ false = ground arith in
      let low : ltb (length payload + 8) 8 ≡ false = ground arith in
      let high : ltb (length (print_box (kind, payload) b)) (length payload + 8) ≡ false =
        ground arith in
      simp (long, box_head-print_box, low, high, print_box-kind, print_box-payload, print_box-rest)

find_from-step :
    (fuel : ℕ) (want b : List ℕ)
    → 1 ≤ length b
    → find_from (suc fuel) want b ≡ match_box (λ r. find_from fuel want r) want (next_box b)
unfolding find_from
find_from-step fuel want [] h = absurd (omega arith)
find_from-step fuel want (c ∷ b) h = refl

-- Enough rounds for the bytes find the first box of the type.
find_from-print_boxes :
    (fuel : ℕ) (ps : List Part) (want : List ℕ)
    → All Printable ps
    → length (print_boxes ps) ≤ fuel
    → find_from fuel want (print_boxes ps) ≡ first_of ps want
unfolding find_from match_box
find_from-print_boxes fuel [] want fit h = refl
find_from-print_boxes zero ((kind, payload) ∷ ps) want fit h =
    let long = length-print_box kind payload (print_boxes ps) fit.0.0 fit.0.1 in
    absurd (omega arith)
find_from-print_boxes (suc fuel) ((kind, payload) ∷ ps) want fit h =
    let b = print_boxes ps in
    let long = length-print_box kind payload b fit.0.0 fit.0.1 in
    let split = next_box-print_box kind payload b fit.0.0 fit.0.1 in
    let step = find_from-step fuel want (print_box (kind, payload) b) (omega arith) in
    let rec = find_from-print_boxes fuel ps want fit.1 (omega arith) in step ∙ simp (split, rec)

-- Boxes of types of four bytes and of payloads that fit in a size of 32 bits, printed one after
-- another, are searched as they stood: the first box of the wanted type gives its payload, and where
-- none has the type, none is found.
pub find_box-print_boxes :
    (ps : List Part) (want : List ℕ)
    → All Printable ps
    → find_box (print_boxes ps) want ≡ first_of ps want
unfolding find_box
find_box-print_boxes ps want fit =
    find_from-print_boxes (length (print_boxes ps)) ps want fit (omega arith)
