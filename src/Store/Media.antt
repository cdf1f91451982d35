-- ===== src/Store/Media.antt =====
-- backend/internal/store/media.go, moderation.go, purge.go and config.go: the tables media_items and
-- app_config, beside the queue in one database. Times are the texts that the columns hold, and a
-- duration is a count of milliseconds, as the program only copies it.
use event_gallery.Base.{
  ℕ, Bool, true, false, not, ◌&&◌, ◌||◌, Option, none, some, String, List, [], ◌∷◌, str_eq, is_some,
  if◌then◌else◌, ◌==◌, take, ◌++◌,
}
use event_gallery.Store.Job.{
  processing, cleanup, status_eq, StoreError, not_claimed, constraint_failed, no_rows, Result, ok,
  err, Row,
}
use event_gallery.Store.Sql.{Table, update_where, affected}
use event_gallery.Store.Queue.{owns}

pub data MediaKind : Type 0 where
  image video : MediaKind

pub data MediaStatus : Type 0 where
  active trashed : MediaStatus

unfoldable pub is_trashed : MediaStatus → Bool
is_trashed active = false
is_trashed trashed = true

pub record MediaItem : Type 0 where
  pub id : String
  pub original_filename : String
  pub stored_filename : String
  pub kind : MediaKind
  pub mime_type : String
  pub size_bytes : ℕ
  pub sha256 : String
  pub width : Option ℕ
  pub height : Option ℕ
  pub duration_ms : Option ℕ
  pub has_thumbnail : Bool
  pub has_preview : Bool
  pub captured_at : Option String
  pub uploaded_at : String
  pub approved_at : Option String
  pub uploader_name : String
  pub uploader_ip : String
  pub status : MediaStatus
  pub deleted_at : Option String

pub record AuditEntry : Type 0 where
  pub action : String
  pub actor : String
  pub media_id : String
  pub filename : String
  pub details : String

pub record Db : Type 0 where
  pub jobs : Table
  pub media : List MediaItem
  pub config : List (String × Option String)
  pub audit : List AuditEntry

abbrev pub approval_key : String
approval_key = "approval_required"

abbrev pub lookup_config : String → List (String × Option String) → Option (Option String)
lookup_config k [] = none
lookup_config k ((j, v) ∷ m) = let rest = lookup_config k m in if str_eq j k then some v else rest

-- COALESCE((SELECT value FROM app_config WHERE key = ?), 'false') = 'false'.
abbrev pub approves_inserts : Option (Option String) → Bool
approves_inserts none = true
approves_inserts (some none) = true
approves_inserts (some (some v)) = str_eq v "false"

unfoldable pub auto_approved : Db → Bool
auto_approved db = approves_inserts (lookup_config approval_key db.config)

abbrev pub find_sha : String → List MediaItem → Option MediaItem
find_sha h [] = none
find_sha h (m ∷ ms) = let rest = find_sha h ms in if str_eq m.sha256 h then some m else rest

abbrev pub find_media : String → List MediaItem → Option MediaItem
find_media i [] = none
find_media i (m ∷ ms) = let rest = find_media i ms in if str_eq m.id i then some m else rest

-- What a query for one row scans; `no_rows` is sql.ErrNoRows.
abbrev pub scan_one : Option MediaItem → Result MediaItem
scan_one none = err no_rows
scan_one (some m) = ok m

-- `GetByID` and `GetBySHA256`.
unfoldable pub get_by_id : String → Db → Result MediaItem
get_by_id i db = scan_one (find_media i db.media)

-- `GetVisibleByID`: active and approved only.
unfoldable pub is_visible : MediaItem → Bool
is_visible m = not (is_trashed m.status) && is_some m.approved_at

unfoldable pub get_visible_by_id : String → Db → Result MediaItem
get_visible_by_id i db = elim (find_media i db.media) [
  | none ↦ err no_rows
  | some m ↦ if is_visible m then ok m else err no_rows
]

unfoldable pub get_by_sha256 : String → Db → Result MediaItem
get_by_sha256 h db = scan_one (find_sha h db.media)

-- The row that an INSERT stores: active, and approved at its upload time unless moderation is on.
abbrev pub inserted : Db → MediaItem → MediaItem
inserted db m = record m {
  approved_at = if auto_approved db then some m.uploaded_at else none;
  status = active;
  deleted_at = none;
}

unfoldable pub insert_media : MediaItem → Db → Db × Option StoreError
insert_media m db =
    if is_some (find_media m.id db.media) || is_some (find_sha m.sha256 db.media)
    then (db, some constraint_failed)
    else (record db { media = inserted db m ∷ db.media }, none)

-- INSERT ... ON CONFLICT(sha256) DO NOTHING: a second row of one content is skipped, a second row of
-- one id is an error.
abbrev pub insert_or_skip : MediaItem → Db → Result Db
insert_or_skip m db =
    if is_some (find_sha m.sha256 db.media)
    then ok db
    else if is_some (find_media m.id db.media)
    then err constraint_failed
    else ok (record db { media = inserted db m ∷ db.media })

abbrev pub fence_row : String → String → Row → Bool
fence_row id token r = owns id token r && status_eq r.status processing

abbrev pub to_cleanup : String → ℕ → Row → Row
to_cleanup result now r = record r {
  status = cleanup;
  result_media_id = some result;
  lease_token = none;
  lease_until = none;
  updated_at = now;
}

-- The last part of the transaction: whoever holds the content's hash owns it, and the job moves on.
abbrev pub settle :
    String → String → MediaItem → ℕ → Db → Db → Option MediaItem → Db × Result (String × Bool)
settle id token item now before db none = (before, err no_rows)
settle id token item now before db (some m) = (
  record db { jobs = update_where (owns id token) (to_cleanup m.id now) db.jobs },
  ok (m.id, not (str_eq m.id item.id)),
)

-- After the INSERT; an error rolls the transaction back.
abbrev pub settle_insert :
    String → String → MediaItem → ℕ → Db → Result Db → Db × Result (String × Bool)
settle_insert id token item now before (err e) = (before, err e)
settle_insert id token item now before (ok db) =
    settle id token item now before db (find_sha item.sha256 db.media)

-- The fence: one UPDATE that both takes the write lock and checks the ownership.
abbrev pub fenced : String → String → ℕ → Db → Db
fenced id token now db = record db {
  jobs = update_where (fence_row id token) (λ r. record r { updated_at = now }) db.jobs;
}

-- `PublishMedia`: one transaction.
unfoldable pub publish_media : String → String → MediaItem → ℕ → Db → Db × Result (String × Bool)
publish_media id token item now db =
    if affected (fence_row id token) db.jobs == 0
    then (db, err not_claimed)
    else settle_insert id token item now db (insert_or_skip item (fenced id token now db))

-- SELECT stored_filename ... ORDER BY rowid LIMIT ?: new rows stand in front, so the oldest are last.
abbrev pub oldest_first : List MediaItem → List String
oldest_first [] = []
oldest_first (m ∷ ms) = oldest_first ms ++ m.stored_filename ∷ []

unfoldable pub sample_stored_filenames : ℕ → Db → List String
sample_stored_filenames limit db = take limit (oldest_first db.media)
