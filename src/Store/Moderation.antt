-- ===== src/Store/Moderation.antt =====
-- backend/internal/store/moderation.go and config.go: the moderation mode and the approvals.
use event_gallery.Base.{
  ℕ, suc, leb, ◌≡◌, inl, inr, refl, Bool, true, false, not, ◌&&◌, ◌||◌, Option, none, some, String,
  List, [], ◌∷◌, arith, str_eq, str_eq_refl, is_some, All, if◌then◌else◌, Bool-cases, ◌==◌,
}
use event_gallery.Store.Media.{
  MediaItem, is_trashed, Db, find_media, find_sha, approval_key, lookup_config, auto_approved,
  insert_media, publish_media, fence_row, fenced, inserted, insert_or_skip, settle, settle_insert,
}
use event_gallery.Store.Job.{Result, ok, err}
use event_gallery.Store.Sql.{affected}
use mathlib.Core.Path.{subst}

abbrev pub Config : Type 0
Config = List (String × Option String)

-- `SetConfig` and `DeleteConfig`.
unfoldable pub set_config : String → String → Config → Config
set_config k v [] = (k, some v) ∷ []
set_config k v ((j, x) ∷ m) =
    let rest = set_config k v m in if str_eq j k then (j, some v) ∷ m else (j, x) ∷ rest

unfoldable pub delete_config : String → Config → Config
delete_config k [] = []
delete_config k ((j, x) ∷ m) =
    let rest = delete_config k m in if str_eq j k then rest else (j, x) ∷ rest

unfoldable pub update_media :
    (MediaItem → Bool) → (MediaItem → MediaItem) → List MediaItem → List MediaItem
update_media p f [] = []
update_media p f (m ∷ ms) = (if p m then f m else m) ∷ update_media p f ms

unfoldable pub count_media : (MediaItem → Bool) → List MediaItem → ℕ
count_media p [] = 0
count_media p (m ∷ ms) = let rest = count_media p ms in if p m then suc rest else rest

unfoldable pub approve_at : String → MediaItem → MediaItem
approve_at now m = record m { approved_at = some now }

unfoldable pub is_pending : MediaItem → Bool
is_pending m = not (is_some m.approved_at)

-- `ApprovalRequired`; `none` is an error, as a NULL value and an unknown text are.
abbrev pub read_approval : Option (Option String) → Option Bool
read_approval none = some false
read_approval (some none) = none
read_approval (some (some v)) =
    if str_eq v "false" || str_eq v ""
    then some false
    else if str_eq v "true"
    then some true
    else none

unfoldable pub approval_required : Db → Option Bool
approval_required db = read_approval (lookup_config approval_key db.config)

-- `SetApprovalRequired`: one transaction, rolled back on an error (`commits` is false), with the
-- number of media that it approved.
unfoldable pub set_approval_required : Bool → String → Bool → Db → Db × Option ℕ
set_approval_required false now required db = (db, none)
set_approval_required true now true db =
    (record db { config = set_config approval_key "true" db.config }, some 0)
set_approval_required true now false db = (
  record db {
    config = delete_config approval_key db.config;
    media = update_media is_pending (approve_at now) db.media;
  },
  some (count_media is_pending db.media),
)

-- One turn of the loop of `ApproveBulk`, with the ids that changed, in reverse.
unfoldable pub approve_one : String → String → Db × List String → Db × List String
approve_one now id (db, changed) =
    let p = λ (m : MediaItem). str_eq m.id id && not (is_trashed m.status) && is_pending m in
    if leb 1 (count_media p db.media)
    then (record db { media = update_media p (approve_at now) db.media }, id ∷ changed)
    else (db, changed)

unfoldable pub approve_loop : String → List String → Db × List String → Db × List String
approve_loop now [] p = p
approve_loop now (id ∷ ids) p = approve_loop now ids (approve_one now id p)

unfoldable pub approve_bulk : Bool → String → List String → Db → Db × List String
approve_bulk commits now ids db = if commits then approve_loop now ids (db, []) else (db, [])

-- No media waits for an approval.
abbrev pub NonePending : List MediaItem → Type 0
NonePending = All λ m. is_some m.approved_at ≡ true

lookup_config-set : (k v : String) (c : Config) → lookup_config k (set_config k v c) ≡ some (some v)
unfolding set_config
lookup_config-set k v [] = ground (arith, str_eq_refl k)
lookup_config-set k v ((j, x) ∷ c) = ground (arith, lookup_config-set k v c)

lookup_config-delete : (k : String) (c : Config) → lookup_config k (delete_config k c) ≡ none
unfolding delete_config
lookup_config-delete k [] = refl
lookup_config-delete k ((j, x) ∷ c) = ground (arith, lookup_config-delete k c)

approve_all-NonePending :
    (now : String) (ms : List MediaItem) → NonePending (update_media is_pending (approve_at now) ms)
unfolding update_media is_pending approve_at
approve_all-NonePending now [] = tt
approve_all-NonePending now (m ∷ ms) = elim (Bool-cases (is_some m.approved_at)) [
  | inl e ↦ (ground arith, approve_all-NonePending now ms)
  | inr e ↦ (ground arith, approve_all-NonePending now ms)
]

insert_media-NonePending :
    (m : MediaItem) (db : Db)
    → lookup_config approval_key db.config ≡ none
    → NonePending db.media
    → NonePending (insert_media m db).0.media
unfolding insert_media auto_approved
insert_media-NonePending m db c h =
    elim (Bool-cases (is_some (find_media m.id db.media) || is_some (find_sha m.sha256 db.media))) [
      | inl e ↦ simp e h
      | inr e ↦ simp (e, c) (refl, h)
    ]

settle_insert-NonePending :
    (id token : String) (item : MediaItem) (now : ℕ) (before : Db) (r : Result Db)
    → NonePending before.media
    → ((after : Db) → r ≡ ok after → NonePending after.media)
    → NonePending (settle_insert id token item now before r).0.media
settle_insert-NonePending id token item now before (err e) b h = b
settle_insert-NonePending id token item now before (ok after) b h =
    settled (find_sha item.sha256 after.media)
  where
    settled : (o : Option MediaItem) → NonePending (settle id token item now before after o).0.media
    settled none = b
    settled (some m) = h after refl

insert_or_skip-NonePending :
    (m : MediaItem) (db after : Db)
    → lookup_config approval_key db.config ≡ none
    → NonePending db.media
    → insert_or_skip m db ≡ ok after
    → NonePending after.media
unfolding auto_approved
insert_or_skip-NonePending m db after c h =
    elim (Bool-cases (is_some (find_sha m.sha256 db.media))) [
      | inl e ↦ simp e (λ k.
          let kept : db ≡ after = ground (arith, k) in
          subst (λ (y : Db). NonePending y.media) kept h)
      | inr e ↦ elim (Bool-cases (is_some (find_media m.id db.media))) [
        | inl f ↦ simp (e, f) (λ k. absurd (cc))
        | inr f ↦
            simp (e, f)
              (λ k.
                let grown : record db { media = inserted db m ∷ db.media } ≡ after =
                  ground (arith, k) in
                subst (λ (y : Db). NonePending y.media) grown (simp c refl, h))
      ]
    ]

publish_media-NonePending :
    (id token : String) (item : MediaItem) (now : ℕ) (db : Db)
    → lookup_config approval_key db.config ≡ none
    → NonePending db.media
    → NonePending (publish_media id token item now db).0.media
unfolding publish_media
publish_media-NonePending id token item now db c h =
    elim (Bool-cases (affected (fence_row id token) db.jobs == 0)) [
      | inl e ↦ simp e h
      | inr e ↦ simp e (
          settle_insert-NonePending id token item now db
            (insert_or_skip item (fenced id token now db)) h
            (λ after k. insert_or_skip-NonePending item (fenced id token now db) after c h k))
    ]

-- When moderation is turned off, no media waits for an approval, not even an item that `PublishMedia`
-- publishes or `InsertMedia` inserts next, and the mode reads back as off; when it is turned on, it
-- reads back as on.
pub set_approval_required-reads :
    (stamp : String) (db : Db) (m : MediaItem) (id token : String) (now : ℕ)
    → let off = (set_approval_required true stamp false db).0 in
      NonePending off.media
      × NonePending (publish_media id token m now off).0.media
      × NonePending (insert_media m off).0.media
      × (approval_required off ≡ some false)
      × (approval_required (set_approval_required true stamp true db).0 ≡ some true)
unfolding set_approval_required approval_required
set_approval_required-reads stamp db m id token now =
    let gone = lookup_config-delete approval_key db.config in
    let none_left = approve_all-NonePending stamp db.media in
    let off = (set_approval_required true stamp false db).0 in
    (
      none_left,
      publish_media-NonePending id token m now off gone none_left,
      insert_media-NonePending m off gone none_left,
      rw gone refl,
      rw (lookup_config-set approval_key "true" db.config) refl,
    )
