-- ===== src/Ingest/UploadId.antt =====
-- backend/internal/ingest/recover.go: `SafeUploadID`, and the paths that an id gives in the upload
-- directory.
use event_gallery.Base.{
  ℕ, ◌≡◌, ◌≢◌, ◌≤◌, Bool, true, not, ◌&&◌, ◌||◌, String, List, [], ◌∷◌, leb, ◌==◌, arith, length,
  runes, All,
}

abbrev is_alnum : ℕ → Bool
is_alnum c = leb b'0' c && leb c b'9' || leb b'a' c && leb c b'z' || leb b'A' c && leb c b'Z'

abbrev pub is_id_rune : ℕ → Bool
is_id_rune c = is_alnum c || c == b'-' || c == b'_'

unfoldable pub all_id_runes : List ℕ → Bool
all_id_runes [] = true
all_id_runes (c ∷ cs) = is_id_rune c && all_id_runes cs

-- A rune outside the alphabet is refused whatever the length, and within it runes are bytes, so the
-- length in runes decides as the length in bytes does.
unfoldable pub safe_runes : List ℕ → Bool
safe_runes cs = not (length cs == 0) && leb (length cs) 128 && all_id_runes cs

unfoldable pub safe_upload_id : String → Bool
unfolding safe_runes all_id_runes
safe_upload_id id = safe_runes (runes id)

-- A path element that stays in its directory: no separator, no dot and no NUL.
abbrev pub Contained : List ℕ → Type 0
Contained = All λ c. (c ≢ b'/') × (c ≢ b'\\') × (c ≢ b'.') × (c ≢ 0)

all_id_runes-Contained : (cs : List ℕ) → all_id_runes cs ≡ true → Contained cs
unfolding all_id_runes
all_id_runes-Contained [] e = tt
all_id_runes-Contained (c ∷ cs) e = (
  ((λ q. ground arith), (λ q. ground arith), (λ q. ground arith), (λ q. ground arith)),
  all_id_runes-Contained cs (ground arith),
)

-- An accepted id is not empty, at most 128 long, and has no separator, dot or NUL, so that it names
-- an entry of the upload directory itself, and no hidden file, lock file or sidecar.
pub safe_upload_id-Contained :
    (id : String)
    → safe_upload_id id ≡ true
    → (runes id ≢ []) × (length (runes id) ≤ 128) × Contained (runes id)
unfolding safe_runes safe_upload_id
safe_upload_id-Contained id e =
    ((λ q. ground arith), ground arith, all_id_runes-Contained (runes id) (ground arith))
