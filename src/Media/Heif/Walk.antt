-- ===== src/Media/Heif/Walk.antt =====
-- The walk over the outermost boxes of a file ends.
use event_gallery.Base.{
  ℕ, zero, suc, ◌+◌, ◌-◌, ◌≡◌, ◌≢◌, ◌≤◌, false, Bool-cases, ◌||◌, Option, none, some, List, ltb,
  leb, ◌==◌, arith, inl, inr,
}
use mathlib.Core.Path.{subst}
use event_gallery.Base.Int.{ℤ, pos, negsuc}
use event_gallery.Media.Bytes.{slice, bytes_eq, big_endian, to_int64}
use event_gallery.Media.Boxes.{Search, unfinished}
use event_gallery.Media.Heif.{
  Reader, found_bytes, at_box, at_large, at_head, walk_file, read_top_level_box,
}

Ended : Search → Type 0
Ended unfinished = ⊥
Ended s = Unit

found_bytes-Ended : (o : Option (List ℕ)) → Ended (found_bytes o)
unfolding Ended
found_bytes-Ended none = tt
found_bytes-Ended (some b) = tt

module _ (read_at : Reader) (file_size : ℕ) (want : List ℕ) (max_bytes : ℕ) (c : ℕ → Search)
    (at : ℕ) (rounds : (next : ℕ) → at + 8 ≤ next → Ended (c next)) where
  at_box-Ended :
      (kind : List ℕ) (size : ℤ) (header : ℕ)
      → 8 ≤ header
      → Ended (at_box read_at file_size want max_bytes c at kind size header)
  unfolding at_box Ended
  at_box-Ended kind (negsuc n) header h = tt
  at_box-Ended kind (pos size) header h =
      elim (Bool-cases (ltb size header || ltb file_size (at + size))) [
        | inl e ↦ simp e tt
        | inr e ↦ elim (Bool-cases (bytes_eq kind want)) [
          | inl f ↦ elim (Bool-cases (ltb max_bytes (size - header))) [
            | inl g ↦ simp (e, f, g) tt
            | inr g ↦ simp (e, f, g) (found_bytes-Ended (read_at (at + header) (size - header)))
          ]
          | inr f ↦ simp (e, f) (rounds (at + size) (ground arith))
        ]
      ]

  at_large-Ended :
      (kind : List ℕ) (more : Option (List ℕ))
      → Ended (at_large read_at file_size want max_bytes c at kind more)
  unfolding Ended
  at_large-Ended kind none = tt
  at_large-Ended kind (some more) =
      at_box-Ended kind (to_int64 (big_endian 8 more)) 16 (omega arith)

  at_head-Ended :
      (head : Option (List ℕ)) → Ended (at_head read_at file_size want max_bytes c at head)
  unfolding at_head Ended
  at_head-Ended none = tt
  at_head-Ended (some head) = elim (Bool-cases (big_endian 4 head == 1)) [
    | inl e ↦ simp e (at_large-Ended (slice 4 8 head) (read_at (at + 8) 8))
    | inr e ↦ elim (Bool-cases (big_endian 4 head == 0)) [
      | inl f ↦ simp (e, f) (at_box-Ended (slice 4 8 head) (pos (file_size - at)) 8 (omega arith))
      | inr f ↦
          simp (e, f) (at_box-Ended (slice 4 8 head) (pos (big_endian 4 head)) 8 (omega arith))
    ]
  ]

walk_file-Ended :
    (fuel : ℕ) (read_at : Reader) (file_size : ℕ) (want : List ℕ) (max_bytes at : ℕ)
    → file_size ≤ at + fuel
    → Ended (walk_file fuel read_at file_size want max_bytes at)
unfolding walk_file Ended
walk_file-Ended zero read_at file_size want max_bytes at h =
    let past : leb (at + 8) file_size ≡ false = ground arith in simp past tt
walk_file-Ended (suc fuel) read_at file_size want max_bytes at h =
    elim (Bool-cases (leb (at + 8) file_size)) [
      | inl e ↦ simp e (
          at_head-Ended read_at file_size want max_bytes
            (λ next. walk_file fuel read_at file_size want max_bytes next) at
            (λ next far. walk_file-Ended fuel read_at file_size want max_bytes next (omega arith))
            (read_at at 8))
      | inr e ↦ simp e tt
    ]

-- The walk over the outermost boxes of a file ends, whatever the file holds and whichever reads fail:
-- the rounds given to it, one for each byte of the file, never run out.
pub read_top_level_box-ends :
    (read_at : Reader) (file_size : ℕ) (want : List ℕ) (max_bytes : ℕ)
    → read_top_level_box read_at file_size want max_bytes ≢ unfinished
unfolding read_top_level_box Ended
read_top_level_box-ends read_at file_size want max_bytes e =
    subst Ended e (walk_file-Ended file_size read_at file_size want max_bytes 0 (omega arith))
