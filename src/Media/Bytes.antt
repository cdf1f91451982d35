-- ===== src/Media/Bytes.antt =====
-- Byte slices as lists of numbers below 256, and the big-endian integers that
-- backend/internal/media/heif_exif.go reads from them.
pub mod RoundTrip
use event_gallery.Base.{
  ℕ, zero, suc, ◌+◌, ◌-◌, ◌*◌, ◌%◌, ◌/◌, ◌^◌, ◌<◌, ◌≤◌, ◌≡◌, Bool, true, false, ◌&&◌, ◌||◌, Option,
  none, some, List, [], ◌∷◌, ◌++◌, ltb, ◌==◌, if◌then◌else◌, length, take, drop, All, arith,
}
use event_gallery.Base.Int.{ℤ, pos, negsuc}

-- `b[from:to]`.
abbrev pub slice : ℕ → ℕ → List ℕ → List ℕ
slice from to b = take (to - from) (drop from b)

-- `string(b) == want`.
unfoldable pub bytes_eq : List ℕ → List ℕ → Bool
bytes_eq [] [] = true
bytes_eq (a ∷ x) (b ∷ y) = a == b && bytes_eq x y
bytes_eq _ _ = false

-- `v = v<<8 | uint64(c)` for every byte, on 64 bits.
unfoldable pub accumulate : ℕ → List ℕ → ℕ
accumulate v [] = v
accumulate v (c ∷ cs) = accumulate ((v * 256 + c) % 18446744073709551616) cs

-- binary.BigEndian.Uint16, Uint32 and Uint64 of `b[:2]`, `b[:4]` and `b[:8]`.
unfoldable pub big_endian : ℕ → List ℕ → ℕ
big_endian n b = accumulate 0 (take n b)

-- The value with the bytes after it.
unfoldable pub read_uint : List ℕ → ℕ → Option (ℕ × List ℕ)
read_uint b width =
    if width == 0
    then some (0, b)
    else if ltb 8 width || ltb (length b) width
    then none
    else some (big_endian width b, drop width b)

-- `int64(v)` of a uint64.
unfoldable pub to_int64 : ℕ → ℤ
to_int64 v = if ltb v 9223372036854775808 then pos v else negsuc (18446744073709551615 - v)
