-- ===== src/Limits/Concurrency.antt =====
-- backend/internal/ratelimit/concurrency.go: the uploads in progress per client address, which bound
-- the PATCH requests that run at once. A request holds its slot until it calls its release function.
use event_gallery.Base.{
  ℕ, suc, ◌+◌, ◌-◌, ◌≤◌, ◌≡◌, refl, Bool, true, false, String, List, [], ◌∷◌, leb, str_eq,
  str_eq_iff, if◌then◌else◌, arith, Bool-cases, inl, inr,
}

abbrev pub Counts : Type 0
Counts = List (String × ℕ)

-- The entry of a key, where a missing one reads as 0.
unfoldable pub count : String → Counts → ℕ
count k [] = 0
count k ((j, n) ∷ m) = let rest = count k m in if str_eq j k then n else rest

unfoldable pub store : String → ℕ → Counts → Counts
store k n [] = (k, n) ∷ []
store k n ((j, i) ∷ m) = let rest = store k n m in if str_eq j k then (j, n) ∷ m else (j, i) ∷ rest

unfoldable pub remove : String → Counts → Counts
remove k [] = []
remove k ((j, n) ∷ m) = let rest = remove k m in if str_eq j k then rest else (j, n) ∷ rest

-- `TryAcquire`, with its Boolean.
unfoldable pub try_acquire : ℕ → String → Counts → Counts × Bool
try_acquire max k m = if leb max (count k m) then (m, false) else (store k (count k m + 1) m, true)

-- The function that `TryAcquire` returns.
unfoldable pub release : String → Counts → Counts
release k m = if leb (count k m) 1 then remove k m else store k (count k m - 1) m

-- A request asks for a slot, or one that holds a slot of this key returns it.
pub data Request : Type 0 where
  asks : String → Request
  returns : String → Request

-- The counts, and the key of each slot that is held.
pub record Slots : Type 0 where
  pub counts : Counts
  pub held : List String

unfoldable pub holders : String → List String → ℕ
holders k [] = 0
holders k (j ∷ js) = let rest = holders k js in if str_eq j k then suc rest else rest

unfoldable pub drop_holder : String → List String → List String
drop_holder k [] = []
drop_holder k (j ∷ js) = let rest = drop_holder k js in if str_eq j k then js else j ∷ rest

abbrev pub granted : String → Slots → Counts × Bool → Slots
granted k s (m, true) = record { counts = m; held = k ∷ s.held }
granted k s (m, false) = record { counts = m; held = s.held }

unfoldable pub serve : ℕ → Request → Slots → Slots
serve max (asks k) s = granted k s (try_acquire max k s.counts)
serve max (returns k) s =
    if leb 1 (holders k s.held)
    then record { counts = release k s.counts; held = drop_holder k s.held }
    else s

unfoldable pub serve_all : ℕ → List Request → Slots → Slots
serve_all max [] s = s
serve_all max (r ∷ rs) s = serve_all max rs (serve max r s)

unfoldable pub no_slots : Slots
no_slots = record { counts = []; held = [] }

count-store :
    (j k : String) (n : ℕ) (m : Counts)
    → count j (store k n m) ≡ (if str_eq k j then n else count j m)
unfolding count store
count-store j k n [] = refl
count-store j k n ((i, x) ∷ m) =
    ground (arith, str_eq_iff i k, str_eq_iff i j, str_eq_iff k j, count-store j k n m)

count-remove :
    (j k : String) (m : Counts) → count j (remove k m) ≡ (if str_eq k j then 0 else count j m)
unfolding count remove
count-remove j k [] = ground arith
count-remove j k ((i, x) ∷ m) =
    ground (arith, str_eq_iff i k, str_eq_iff i j, str_eq_iff k j, count-remove j k m)

holders-drop_holder :
    (j k : String) (js : List String)
    → holders j (drop_holder k js) ≡ (if str_eq k j then holders j js - 1 else holders j js)
unfolding holders drop_holder
holders-drop_holder j k [] = ground arith
holders-drop_holder j k (i ∷ js) =
    ground (arith, str_eq_iff i k, str_eq_iff i j, str_eq_iff k j, holders-drop_holder j k js)

-- The count of each key is the number of its holders, and within the limit.
abbrev pub Exact : ℕ → Slots → Type 0
Exact max s = (k : String) → (count k s.counts ≡ holders k s.held) × (holders k s.held ≤ max)

module _ (max : ℕ) where
  asks-Exact : (k : String) (s : Slots) → Exact max s → Exact max (serve max (asks k) s)
  unfolding serve try_acquire holders
  asks-Exact k s h = elim (Bool-cases (leb max (count k s.counts))) [
    | inl e ↦ simp e h
    | inr e ↦ simp e (λ j.
        let (same, low) = h j in
        let (same', low') = h k in
        ground (arith, count-store j k (count k s.counts + 1) s.counts, str_eq_iff k j))
  ]

  returns-Exact : (k : String) (s : Slots) → Exact max s → Exact max (serve max (returns k) s)
  unfolding serve release
  returns-Exact k s h = elim (Bool-cases (leb 1 (holders k s.held))) [
    | inr e ↦ simp e h
    | inl e ↦ simp e (λ j.
        let (same, low) = h j in
        let (same', low') = h k in
        ground (
          arith,
          count-store j k (count k s.counts - 1) s.counts,
          count-remove j k s.counts,
          holders-drop_holder j k s.held,
          str_eq_iff k j,
        ))
  ]

  serve-Exact : (r : Request) (s : Slots) → Exact max s → Exact max (serve max r s)
  serve-Exact (asks k) = asks-Exact k
  serve-Exact (returns k) = returns-Exact k

  serve_all-Exact_from :
      (rs : List Request) (s : Slots) → Exact max s → Exact max (serve_all max rs s)
  unfolding serve_all
  serve_all-Exact_from [] s h = h
  serve_all-Exact_from (r ∷ rs) s h = serve_all-Exact_from rs (serve max r s) (serve-Exact r s h)

  -- After any sequence of requests and returns, the limiter's count of each address is the number of
  -- slots that it holds, which is never above the maximum.
  pub serve_all-Exact : (rs : List Request) → Exact max (serve_all max rs no_slots)
  unfolding no_slots count holders
  serve_all-Exact rs = serve_all-Exact_from rs no_slots (λ k. (refl, omega arith))
