-- ===== src/Ingest/Backoff.antt =====
-- backend/internal/ingest/manager.go, `backoffFor`: the delay before a retry, as an int64 of nanoseconds.
use event_gallery.Base.{
  ℕ, zero, suc, ◌*◌, ◌%◌, ◌^◌, ◌≤◌, ◌<◌, ◌≡◌, ◌⊎◌, Bool, ◌||◌, if◌then◌else◌, ltb, leb, ◌==◌, arith,
  inl, inr, min,
}
use event_gallery.Base.Int.{ℤ, pos, clamp}

-- time.Duration(math.Pow(2, failures)) * time.Second, which wraps around at 64 bits.
unfoldable pub delay : ℕ → ℕ
delay n = (2 ^ n * 1000000000) % 18446744073709551616

-- delay <= 0 of an int64.
unfoldable pub is_not_positive : ℕ → Bool
is_not_positive n = n == 0 || leb 9223372036854775808 n

unfoldable pub backoff_for : ℕ → ℤ → ℕ
backoff_for max_backoff failures =
    let n = clamp failures in
    if ltb 30 n
    then max_backoff
    else if is_not_positive (delay n) || ltb max_backoff (delay n)
    then max_backoff
    else delay n

pow_positive : (n : ℕ) → 1 ≤ 2 ^ n
pow_positive zero = omega arith
pow_positive (suc n) = omega (arith, pow_positive n)

pow_mono : (n m : ℕ) → n ≤ m → 2 ^ n ≤ 2 ^ m
pow_mono zero m h = pow_positive m
pow_mono (suc n) zero h = absurd (omega arith)
pow_mono (suc n) (suc m) h = omega (arith, pow_mono n m (omega arith))

-- Up to 30 failures, nothing wraps around.
delay-exact :
    (n : ℕ)
    → n ≤ 30
    → (delay n ≡ 2 ^ n * 1000000000) × (1 ≤ delay n) × (delay n < 9223372036854775808)
unfolding delay
delay-exact n h =
    let low = pow_positive n in
    let high : 2 ^ n ≤ 1073741824 = pow_mono n 30 h in (omega arith, omega arith, omega arith)

delay_mono : (n m : ℕ) → n ≤ m → m ≤ 30 → delay n ≤ delay m
delay_mono n m h k =
    let (e, b, c) = delay-exact n (omega arith) in
    let (e', b', c') = delay-exact m k in let grow = pow_mono n m h in omega arith

backoff_for-late : (max_backoff n : ℕ) → 30 < n → backoff_for max_backoff (pos n) ≡ max_backoff
unfolding backoff_for
backoff_for-late max_backoff n h = ground arith

backoff_for-early :
    (max_backoff n : ℕ) → n ≤ 30 → backoff_for max_backoff (pos n) ≡ min (delay n) max_backoff
unfolding backoff_for is_not_positive
backoff_for-early max_backoff n h = let (e, b, c) = delay-exact n h in ground arith

split : (n : ℕ) → (n ≤ 30) ⊎ (30 < n)
split n = ground arith

-- A retry waits for a positive time, never longer than the configured maximum, and no shorter than
-- after fewer failures. The first 31 delays double as long as they stay under the maximum, without
-- overflow.
pub backoff_for-bounds :
    (max_backoff n m : ℕ)
    → 1 ≤ max_backoff
    → n ≤ m
    → (1 ≤ backoff_for max_backoff (pos n))
      × (backoff_for max_backoff (pos m) ≤ max_backoff)
      × (backoff_for max_backoff (pos n) ≤ backoff_for max_backoff (pos m))
      × ((30 < n) ⊎ (backoff_for max_backoff (pos n) ≡ min (2 ^ n * 1000000000) max_backoff))
backoff_for-bounds max_backoff n m h k = elim (split n) [
  | inl q ↦ elim (split m) [
    | inl q' ↦
        let at = backoff_for-early max_backoff n q in
        let at' = backoff_for-early max_backoff m q' in
        let (e, b, c) = delay-exact n q in
        let grow = delay_mono n m k q' in (omega arith, omega arith, omega arith, inr (omega arith))
    | inr q' ↦
        let at = backoff_for-early max_backoff n q in
        let at' = backoff_for-late max_backoff m q' in
        let (e, b, c) = delay-exact n q in
        (omega arith, omega arith, omega arith, inr (omega arith))
  ]
  | inr q ↦
      let at = backoff_for-late max_backoff n q in
      let at' = backoff_for-late max_backoff m (omega arith) in
      (omega arith, omega arith, omega arith, inl q)
]
