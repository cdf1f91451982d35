-- ===== src/Media/Boxes/Split.antt =====
-- A box that is split off is a part of the bytes, so that a search among boxes ends.
pub mod Print
use event_gallery.Base.{
  ℕ, zero, suc, ◌+◌, ◌-◌, ◌≡◌, ◌≢◌, ◌≤◌, Bool, true, false, Bool-cases, ◌||◌, Option, none, some,
  List, [], ◌∷◌, ◌++◌, length, take, drop, ltb, ◌==◌, if◌then◌else◌, take-drop_between,
  length-append, length-take, append_assoc, arith, inl, inr, refl, sym, ap, ◌∙◌,
}
use mathlib.Core.Path.{subst}
use event_gallery.Base.Int.{ℤ, pos, negsuc}
use event_gallery.Media.Bytes.{slice, bytes_eq, big_endian}
use event_gallery.Media.Boxes.{
  Box, box_head, split_box, next_box, Search, found, missing, unfinished, match_box, find_from,
  find_box,
}

-- The header that `nextBox` passes has eight bytes or more.
HeadOk : Option (ℤ × ℕ) → Type 0
HeadOk none = Unit
HeadOk (some (size, header)) = 8 ≤ header

box_head-HeadOk : (b : List ℕ) → HeadOk (box_head b)
unfolding box_head HeadOk
box_head-HeadOk b = elim (Bool-cases (big_endian 4 b == 1)) [
  | inl e ↦ elim (Bool-cases (ltb (length b) 16)) [
    | inl f ↦ simp (e, f) tt
    | inr f ↦ simp (e, f) (ground arith)
  ]
  | inr e ↦ elim (Bool-cases (big_endian 4 b == 0)) [
    | inl f ↦ simp (e, f) (ground arith)
    | inr f ↦ simp (e, f) (ground arith)
  ]
]

-- The header, the payload and the rest are the bytes, in this order.
pub Splits : List ℕ → Box → Type 0
Splits b box = (h : List ℕ) × (b ≡ h ++ box.payload ++ box.rest) × (8 ≤ length h)

split_box-Splits :
    (b : List ℕ) (head : Option (ℤ × ℕ)) (box : Box)
    → HeadOk head
    → split_box b head ≡ some box
    → Splits b box
unfolding split_box HeadOk Splits
split_box-Splits b none box ok_head e = absurd (cc)
split_box-Splits b (some (negsuc n, header)) box ok_head e = absurd (cc)
split_box-Splits b (some (pos size, header)) box ok_head e = elim (Bool-cases (ltb size header)) [
  | inl f ↦ let wrong : none ≡ some box = simp f at e in absurd (cc)
  | inr f ↦ elim (Bool-cases (ltb (length b) size)) [
    | inl g ↦ let wrong : none ≡ some box = simp (f, g) at e in absurd (cc)
    | inr g ↦
        let made : Box = record {
          box_type = slice 4 8 b;
          payload = slice header size b;
          rest = drop size b;
        } in
        let whole : some made ≡ some box = simp (f, g) at e in
        let same : made ≡ box = cc in
        let parts = take-drop_between header size b (ground arith) in
        let len = length-take header b in
        subst (Splits b) same (take header b, sym parts, ground arith)
  ]
]

pub next_box-Splits : (b : List ℕ) (box : Box) → next_box b ≡ some box → Splits b box
unfolding next_box
next_box-Splits b box e = elim (Bool-cases (ltb (length b) 8)) [
  | inl f ↦ let wrong : none ≡ some box = simp f at e in absurd (cc)
  | inr f ↦ split_box-Splits b (box_head b) box (box_head-HeadOk b) (simp f at e)
]

-- The rest of a box is shorter than the box.
next_box-shorter : (b : List ℕ) (box : Box) → Splits b box → length box.rest + 8 ≤ length b
unfolding Splits
next_box-shorter b box (h, e, long) =
    let outer = length-append (h ++ box.payload) box.rest in
    let inner = length-append h box.payload in
    let all : length b ≡ length (h ++ box.payload ++ box.rest) = ap length e in omega arith

-- What a search in b may answer: nothing, or a part of b that follows eight bytes or more.
pub IsPart : List ℕ → Search → Type 0
IsPart b unfinished = ⊥
IsPart b missing = Unit
IsPart b (found p) =
    (before : List ℕ) × (after : List ℕ) × (b ≡ before ++ p ++ after) × (8 ≤ length before)

-- A part of the rest of a box is a part of the bytes.
IsPart-rest : (b : List ℕ) (box : Box) (s : Search) → Splits b box → IsPart box.rest s → IsPart b s
unfolding IsPart Splits
IsPart-rest b box unfinished k p = p
IsPart-rest b box missing k p = tt
IsPart-rest b box (found q) (h, e, long) (before, after, f, deep) =
    let front = append_assoc (h ++ box.payload) before q in
    let back = append_assoc (h ++ box.payload) (before ++ q) after in
    let shift : b ≡ (h ++ box.payload ++ before) ++ q ++ after =
      e ∙ ap (λ x. h ++ box.payload ++ x) f ∙ sym back ∙ ap (λ x. x ++ after) (sym front) in
    let outer = length-append (h ++ box.payload) before in
    let inner = length-append h box.payload in
    (h ++ box.payload ++ before, after, shift, omega arith)

-- A round answers a part when the rounds after it do.
match_box-IsPart :
    (continue : List ℕ → Search) (want b : List ℕ) (o : Option Box)
    → next_box b ≡ o
    → ((box : Box) → Splits b box → IsPart box.rest (continue box.rest))
    → IsPart b (match_box continue want o)
unfolding match_box IsPart Splits
match_box-IsPart continue want b none e rounds = tt
match_box-IsPart continue want b (some box) e rounds =
    let split = next_box-Splits b box e in
    elim (Bool-cases (bytes_eq box.box_type want)) [
      | inl f ↦ let (h, whole, long) = split in simp f (h, box.rest, whole, long)
      | inr f ↦ simp f (IsPart-rest b box (continue box.rest) split (rounds box split))
    ]

find_from-IsPart : (fuel : ℕ) (want b : List ℕ) → length b ≤ fuel → IsPart b (find_from fuel want b)
unfolding find_from IsPart
find_from-IsPart fuel want [] h = tt
find_from-IsPart zero want (c ∷ b) h = absurd (omega arith)
find_from-IsPart (suc fuel) want (c ∷ b) h =
    match_box-IsPart (λ r. find_from fuel want r) want (c ∷ b) (next_box (c ∷ b)) refl
      λ box split.
        let short = next_box-shorter (c ∷ b) box split in
        find_from-IsPart fuel want box.rest (omega arith)

-- A search for a box ends within its rounds, and what it finds is a part of the bytes, after a header
-- of eight bytes or more.
pub find_box-IsPart : (b want : List ℕ) → IsPart b (find_box b want)
unfolding find_box
find_box-IsPart b want = find_from-IsPart (length b) want b (omega arith)
