-- ===== src/Media/Bytes/RoundTrip.antt =====
-- Numbers that are printed big-endian read back as they were.
use event_gallery.Base.{
  ℕ, suc, ◌+◌, ◌*◌, ◌/◌, ◌%◌, ◌^◌, ◌≡◌, ◌≤◌, ◌<◌, some, List, [], ◌∷◌, ◌++◌, length, take, drop,
  length-append, take-append, drop-append, arith, refl, ap, ◌∙◌, zero, false, ltb, ◌==◌,
}
use event_gallery.Media.Bytes.{accumulate, big_endian, read_uint}

-- The last bytes of a number, the highest first: what a writer of such a file prints.
unfoldable pub put_be : ℕ → ℕ → List ℕ
put_be zero v = []
put_be (suc w) v = put_be w (v / 256) ++ v % 256 ∷ []

pub length-put_be : (w v : ℕ) → length (put_be w v) ≡ w
unfolding put_be
length-put_be zero v = refl
length-put_be (suc w) v =
    omega (arith, length-append (put_be w (v / 256)) (v % 256 ∷ []), length-put_be w (v / 256))

accumulate-append :
    (a c : ℕ) (xs : List ℕ)
    → accumulate a (xs ++ c ∷ []) ≡ (accumulate a xs * 256 + c) % 18446744073709551616
unfolding accumulate
accumulate-append a c [] = refl
accumulate-append a c (x ∷ xs) = accumulate-append ((a * 256 + x) % 18446744073709551616) c xs

accumulate-put_be :
    (w v : ℕ) → v < 256 ^ w → v < 18446744073709551616 → accumulate 0 (put_be w v) ≡ v
unfolding accumulate put_be
accumulate-put_be zero v h k = omega arith
accumulate-put_be (suc w) v h k =
    let step = accumulate-append 0 (v % 256) (put_be w (v / 256)) in
    let rec = accumulate-put_be w (v / 256) (omega arith) (omega arith) in omega arith

pow_mono : (n m : ℕ) → n ≤ m → 256 ^ n ≤ 256 ^ m
pow_mono zero zero h = omega arith
pow_mono zero (suc m) h = omega (arith, pow_mono zero m (omega arith))
pow_mono (suc n) zero h = absurd (omega arith)
pow_mono (suc n) (suc m) h = omega (arith, pow_mono n m (omega arith))

pub big_endian-put_be :
    (w v : ℕ) (b : List ℕ) → w ≤ 8 → v < 256 ^ w → big_endian w (put_be w v ++ b) ≡ v
unfolding big_endian
big_endian-put_be w v b h k =
    let top : 256 ^ w ≤ 18446744073709551616 = pow_mono w 8 h in
    let e : take w (put_be w v ++ b) ≡ put_be w v =
      rw (length-put_be w v) at (take-append (put_be w v) b) in
    ap (λ x. accumulate 0 x) e ∙ accumulate-put_be w v k (omega arith)

pub drop-put_be : (w v : ℕ) (b : List ℕ) → drop w (put_be w v ++ b) ≡ b
drop-put_be w v b = rw (length-put_be w v) at (drop-append (put_be w v) b)

-- Every number of at most eight bytes reads back from its big-endian bytes, and what follows them is
-- left for the next field.
pub read_uint-put_be :
    (w v : ℕ) (b : List ℕ) → w ≤ 8 → v < 256 ^ w → read_uint (put_be w v ++ b) w ≡ some (v, b)
unfolding read_uint put_be
read_uint-put_be zero v b h k = let e : v ≡ 0 = omega arith in rw e refl
read_uint-put_be (suc w) v b h k =
    let one : (suc w == 0) ≡ false = ground arith in
    let len : length (put_be (suc w) v ++ b) ≡ suc w + length b =
      omega (arith, length-append (put_be (suc w) v) b, length-put_be (suc w) v) in
    let three : ltb (length (put_be (suc w) v ++ b)) (suc w) ≡ false = ground arith in
    let value = big_endian-put_be (suc w) v b h k in
    let left = drop-put_be (suc w) v b in
    let four : ltb 8 (suc w) ≡ false = ground arith in simp (one, three, four, value, left)
