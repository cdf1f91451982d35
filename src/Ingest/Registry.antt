-- ===== src/Ingest/Registry.antt =====
-- backend/internal/ingest/durability.go, `durabilityRegistry`: the barriers in flight, one per upload
-- id, on a fixed number of slots. Each step is one critical section of its mutex.
use event_gallery.Base.{
  ℕ, suc, ◌+◌, ◌-◌, ◌≤◌, ◌≡◌, refl, Bool, true, false, not, ◌||◌, String, List, [], ◌∷◌, ltb,
  length, str_eq, str_eq_iff, if◌then◌else◌, arith, Bool-cases, inl, inr,
}

pub record Registry : Type 0 where
  pub in_flight : List String
  pub slots : ℕ
  pub is_closing : Bool

-- How a call of `ensure` goes on.
pub data Entrance : Type 0 where
  joins starts refused_busy refused_closing : Entrance

-- A call of `ensure`, the end of an operation's `run`, and `wait`.
pub data Event : Type 0 where
  ensures : String → Event
  completes : String → Event
  shuts_down : Event

unfoldable pub among_flights : String → List String → Bool
among_flights id [] = false
among_flights id (k ∷ ks) = let rest = among_flights id ks in str_eq k id || rest

unfoldable pub land : String → List String → List String
land id [] = []
land id (k ∷ ks) = let rest = land id ks in if str_eq k id then rest else k ∷ rest

unfoldable pub enter : ℕ → String → Registry → Registry × Entrance
enter workers id r =
    if among_flights id r.in_flight
    then (r, joins)
    else if r.is_closing
    then (r, refused_closing)
    else if not (ltb r.slots workers)
    then (r, refused_busy)
    else (record r { in_flight = id ∷ r.in_flight; slots = r.slots + 1 }, starts)

-- Only an operation that runs can end.
unfoldable pub leave : String → Registry → Registry
leave id r =
    if among_flights id r.in_flight
    then record r { in_flight = land id r.in_flight; slots = r.slots - 1 }
    else r

unfoldable pub happen : ℕ → Event → Registry → Registry
happen workers (ensures id) r = (enter workers id r).0
happen workers (completes id) r = leave id r
happen workers shuts_down r = record r { is_closing = true }

unfoldable pub happen_all : ℕ → List Event → Registry → Registry
happen_all workers [] r = r
happen_all workers (e ∷ es) r = happen_all workers es (happen workers e r)

unfoldable pub fresh_registry : Registry
fresh_registry = record { in_flight = []; slots = 0; is_closing = false }

-- No upload has two barriers.
abbrev pub Single : List String → Type 0
Single [] = Unit
Single (k ∷ ks) = (among_flights k ks ≡ false) × Single ks

abbrev pub Sound : ℕ → Registry → Type 0
Sound workers r = Single r.in_flight × (r.slots ≡ length r.in_flight) × (r.slots ≤ workers)

among-land :
    (id k : String) (ks : List String)
    → among_flights k ks ≡ false
    → among_flights k (land id ks) ≡ false
unfolding among_flights land
among-land id k [] h = refl
among-land id k (j ∷ ks) h = ground (arith, among-land id k ks)

land-Single : (id : String) (ks : List String) → Single ks → Single (land id ks)
unfolding land
land-Single id [] h = tt
land-Single id (k ∷ ks) h = elim (Bool-cases (str_eq k id)) [
  | inl e ↦ simp e (land-Single id ks h.1)
  | inr e ↦ simp e (among-land id k ks h.0, land-Single id ks h.1)
]

land-absent : (id : String) (ks : List String) → among_flights id ks ≡ false → land id ks ≡ ks
unfolding among_flights land
land-absent id [] h = refl
land-absent id (k ∷ ks) h = ground (arith, land-absent id ks)

length-land :
    (id : String) (ks : List String)
    → Single ks
    → among_flights id ks ≡ true
    → suc (length (land id ks)) ≡ length ks
unfolding among_flights land
length-land id [] s h = absurd (cc)
length-land id (k ∷ ks) s h = elim (Bool-cases (str_eq k id)) [
  | inl e ↦
      let same : k ≡ id = (str_eq_iff k id).0 e in
      let apart : among_flights id ks ≡ false = ground (arith, s.0, same) in
      let kept = land-absent id ks apart in simp (e, kept) refl
  | inr e ↦
      let deeper : among_flights id ks ≡ true = ground arith in
      let one = length-land id ks s.1 deeper in simp e (omega arith)
]

module _ (workers : ℕ) where
  enter-Sound :
      (id : String) (r : Registry) → Sound workers r → Sound workers (enter workers id r).0
  unfolding enter
  enter-Sound id r (single, filled, low) = elim (Bool-cases (among_flights id r.in_flight)) [
    | inl e ↦ simp e (single, filled, low)
    | inr e ↦ elim (Bool-cases r.is_closing) [
      | inl f ↦ simp (e, f) (single, filled, low)
      | inr f ↦ elim (Bool-cases (ltb r.slots workers)) [
        | inr g ↦ simp (e, f, g) (single, filled, low)
        | inl g ↦ simp (e, f, g) ((refl, single), omega arith, ground arith)
      ]
    ]
  ]

  leave-Sound : (id : String) (r : Registry) → Sound workers r → Sound workers (leave id r)
  unfolding leave
  leave-Sound id r (single, filled, low) = elim (Bool-cases (among_flights id r.in_flight)) [
    | inr e ↦ simp e (single, filled, low)
    | inl e ↦
        let one = length-land id r.in_flight single e in
        simp e (land-Single id r.in_flight single, omega arith, omega arith)
  ]

  happen-Sound : (e : Event) (r : Registry) → Sound workers r → Sound workers (happen workers e r)
  unfolding happen
  happen-Sound (ensures id) r h = enter-Sound id r h
  happen-Sound (completes id) r h = leave-Sound id r h
  happen-Sound shuts_down r h = h

  happen_all-Sound_from :
      (es : List Event) (r : Registry) → Sound workers r → Sound workers (happen_all workers es r)
  unfolding happen_all
  happen_all-Sound_from [] r h = h
  happen_all-Sound_from (e ∷ es) r h =
      happen_all-Sound_from es (happen workers e r) (happen-Sound e r h)

  -- After any sequence of calls, ends and shutdowns, no upload has two barriers in flight, each
  -- occupies one slot, and there are never more than the executor has workers.
  pub happen_all-Sound : (es : List Event) → Sound workers (happen_all workers es fresh_registry)
  unfolding fresh_registry
  happen_all-Sound es = happen_all-Sound_from es fresh_registry (tt, refl, omega arith)
