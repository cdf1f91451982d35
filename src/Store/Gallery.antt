-- ===== src/Store/Gallery.antt =====
-- backend/internal/store/media.go: `ListGallery`, with the cursors of cursor.go. Columns are compared by `less`, the order of texts in SQLite. No next page is an empty
-- cursor; the text that encodes a cursor is left out.
pub mod Sorting
pub mod Pages
pub mod Order
pub mod Positions
pub mod Listing
use event_gallery.Base.{
  ℕ, suc, Bool, true, false, not, ◌&&◌, ◌||◌, Option, none, some, String, List, [], ◌∷◌, ltb,
  str_eq, is_some, if◌then◌else◌, length, take, select,
}
use event_gallery.Store.Media.{MediaItem, MediaStatus, active, trashed, is_trashed, is_visible, Db}

pub data GallerySort : Type 0 where
  uploaded captured : GallerySort

pub data SortOrder : Type 0 where
  asc desc : SortOrder

pub record Cursor : Type 0 where
  pub sort_key : String
  pub id : String

abbrev or_else : Option String → String → String
or_else none s = s
or_else (some v) s = v

-- `m.uploaded_at`, or `COALESCE(m.captured_at, m.uploaded_at)`.
unfoldable pub key_of : GallerySort → MediaItem → String
key_of uploaded m = m.uploaded_at
key_of captured m = or_else m.captured_at m.uploaded_at

abbrev pub cursor_at : GallerySort → MediaItem → Cursor
cursor_at s m = record { sort_key = key_of s m; id = m.id }

-- Whether one position comes before another in the direction of the page: `(k, i) < (k', i')`, or `>`.
unfoldable pub precedes : (String → String → Bool) → Cursor → Cursor → Bool
precedes less c d = less c.sort_key d.sort_key || str_eq c.sort_key d.sort_key && less c.id d.id

unfoldable pub comes_before : (String → String → Bool) → SortOrder → Cursor → Cursor → Bool
comes_before less asc c d = precedes less c d
comes_before less desc c d = precedes less d c

-- ORDER BY.
unfoldable pub insert_by {ℓ} : {A : Type ℓ} → (A → A → Bool) → A → List A → List A
insert_by before x [] = x ∷ []
insert_by before x (y ∷ ys) =
    let rest = insert_by before x ys in if before x y then x ∷ y ∷ ys else y ∷ rest

unfoldable pub order_by {ℓ} : {A : Type ℓ} → (A → A → Bool) → List A → List A
order_by before [] = []
order_by before (x ∷ xs) = insert_by before x (order_by before xs)

abbrev pub last {ℓ} : {A : Type ℓ} → List A → Option A
last [] = none
last (x ∷ []) = some x
last (x ∷ y ∷ xs) = last (y ∷ xs)

-- One row more than the limit tells that there is a next page, which starts after the last row shown.
unfoldable pub cut {ℓ} : {A : Type ℓ} → ℕ → List A → List A × Option A
cut limit rows =
    if ltb limit (length rows) then (take limit rows, last (take limit rows)) else (rows, none)

-- The rows after a cursor, or all on the first page.
abbrev pub is_past :
    (Cursor → Cursor → Bool) → (MediaItem → Cursor) → Option Cursor → MediaItem → Bool
is_past before key none m = true
is_past before key (some c) m = before c (key m)

-- The last row of a page gives the cursor of the next.
abbrev pub with_cursor {ℓ κ} :
    {A : Type ℓ} {C : Type κ} → (A → C) → List A × Option A → List A × Option C
with_cursor key (items, none) = (items, none)
with_cursor key (items, some m) = (items, some (key m))

-- A page of the rows that a test admits, with the cursor of the next page.
unfoldable pub page :
    (Cursor → Cursor → Bool)
    → (MediaItem → Cursor)
    → (MediaItem → Bool)
    → ℕ
    → Option Cursor
    → List MediaItem
    → List MediaItem × Option Cursor
page before key admits limit c ms =
    let rows =
      order_by (λ x y. before (key x) (key y))
        (select (λ m. admits m && is_past before key c m) ms) in
    with_cursor key (cut limit (take (suc limit) rows))

unfoldable pub list_gallery :
    (String → String → Bool)
    → GallerySort
    → SortOrder
    → ℕ
    → Option Cursor
    → Db
    → List MediaItem × Option Cursor
list_gallery less sort order limit c db =
    page (comes_before less order) (cursor_at sort) is_visible limit c db.media
