-- ===== src/Store/Purge.antt =====
-- backend/internal/store/purge.go: the permanent deletion of trashed media.
use mathlib.Core.Path.{subst}
use event_gallery.Base.{
  ◌≡◌, ◌⊎◌, inl, inr, refl, Bool, true, false, not, ◌&&◌, ◌||◌, some, String, List, [], ◌∷◌, arith,
  str_eq, null_eq, sym, if◌then◌else◌, Bool-cases,
}
use event_gallery.Store.Job.{is_terminal}
use event_gallery.Store.Sql.{Table}
use event_gallery.Store.Media.{MediaItem, is_trashed, Db, find_media}

-- EXISTS a job whose result is this media and that is not terminal.
unfoldable pub is_awaited : String → Table → Bool
is_awaited id [] = false
is_awaited id (r ∷ t) =
    let rest = is_awaited id t in
    (null_eq r.result_media_id id && not (is_terminal r.status)) || rest

unfoldable pub is_purgeable : String → String → Table → MediaItem → Bool
is_purgeable id stored jobs m =
    str_eq m.id id
    && str_eq m.stored_filename stored
    && is_trashed m.status
    && not (is_awaited m.id jobs)

unfoldable pub delete_media : (MediaItem → Bool) → List MediaItem → List MediaItem
delete_media p [] = []
delete_media p (m ∷ ms) = let rest = delete_media p ms in if p m then rest else m ∷ rest

unfoldable pub any_media : (MediaItem → Bool) → List MediaItem → Bool
any_media p [] = false
any_media p (m ∷ ms) = let rest = any_media p ms in p m || rest

-- One turn of the loop, with the ids that changed.
unfoldable pub purge_one : String → MediaItem → Db × List String → Db × List String
purge_one actor item (db, changed) =
    if any_media (is_purgeable item.id item.stored_filename db.jobs) db.media
    then (
      record db {
        media = delete_media (is_purgeable item.id item.stored_filename db.jobs) db.media;
        audit =
            record {
              action = "purge";
              actor = actor;
              media_id = item.id;
              filename = item.original_filename;
              details = "permanently deleted";
            }
            ∷ db.audit;
      },
      item.id ∷ changed,
    )
    else (db, changed)

unfoldable pub purge_loop : String → List MediaItem → Db × List String → Db × List String
purge_loop actor [] p = p
purge_loop actor (item ∷ items) p = purge_loop actor items (purge_one actor item p)

-- `PurgeTrashed`: one transaction, which an error (`commits` is false) rolls back. The ids stand in
-- reverse.
unfoldable pub purge_trashed : Bool → String → List MediaItem → Db → Db × List String
purge_trashed commits actor items db = if commits then purge_loop actor items (db, []) else (db, [])

-- Why a media row may not be purged: it is active, or a job that is not terminal resolved to it.
abbrev pub Kept : MediaItem → Table → Type 0
Kept m jobs = (is_trashed m.status ≡ false) ⊎ (is_awaited m.id jobs ≡ true)

Kept-unpurgeable :
    (m : MediaItem) (jobs : Table) (id stored : String)
    → Kept m jobs
    → is_purgeable id stored jobs m ≡ false
unfolding is_purgeable
Kept-unpurgeable m jobs id stored (inl e) = ground arith
Kept-unpurgeable m jobs id stored (inr e) = ground arith

find_media-delete :
    (p : MediaItem → Bool) (k : String) (m : MediaItem) (ms : List MediaItem)
    → p m ≡ false
    → find_media k ms ≡ some m
    → find_media k (delete_media p ms) ≡ some m
unfolding delete_media
find_media-delete p k m [] h e = e
find_media-delete p k m (x ∷ ms) h e = elim (Bool-cases (str_eq x.id k)) [
  | inl q ↦
      let same : x ≡ m = ground arith in
      let spared : p x ≡ false = ground (arith, same) in simp (spared, q) (ground (arith, same))
  | inr q ↦
      let deeper : find_media k (delete_media p ms) ≡ some m =
        find_media-delete p k m ms h (ground arith) in
      ground arith
]

-- A purge leaves the jobs alone, and the media row of this id where it finds it.
abbrev Spared : String → MediaItem → Table → Db × List String → Type 0
Spared k m jobs (db, changed) = (db.jobs ≡ jobs) × (find_media k db.media ≡ some m)

purge_one-Spared :
    (actor k : String) (m : MediaItem) (jobs : Table) (item : MediaItem) (p : Db × List String)
    → Kept m jobs
    → Spared k m jobs p
    → Spared k m jobs (purge_one actor item p)
unfolding purge_one
purge_one-Spared actor k m jobs item (db, changed) kept (same, at) =
    elim (Bool-cases (any_media (is_purgeable item.id item.stored_filename db.jobs) db.media)) [
      | inr e ↦ simp e (same, at)
      | inl e ↦
          let stays =
            Kept-unpurgeable m db.jobs item.id item.stored_filename
              (subst (Kept m) (sym same) kept) in
          simp e (
            same,
            find_media-delete (is_purgeable item.id item.stored_filename db.jobs) k m db.media stays
                at,
          )
    ]

purge_loop-Spared :
    (actor k : String) (m : MediaItem) (jobs : Table) (items : List MediaItem)
    (p : Db × List String)
    → Kept m jobs
    → Spared k m jobs p
    → Spared k m jobs (purge_loop actor items p)
unfolding purge_loop
purge_loop-Spared actor k m jobs [] p kept h = h
purge_loop-Spared actor k m jobs (item ∷ items) p kept h =
    purge_loop-Spared actor k m jobs items (purge_one actor item p) kept
      (purge_one-Spared actor k m jobs item p kept h)

-- A permanent deletion never removes a media row that is active, or that a job which is not terminal
-- has resolved to: a duplicate whose own copy is still to be deleted keeps the copy it relies on.
pub purge_trashed-Kept :
    (commits : Bool) (actor k : String) (items : List MediaItem) (m : MediaItem) (db : Db)
    → Kept m db.jobs
    → find_media k db.media ≡ some m
    → find_media k (purge_trashed commits actor items db).0.media ≡ some m
unfolding purge_trashed
purge_trashed-Kept true actor k items m db kept at =
    (purge_loop-Spared actor k m db.jobs items (db, []) kept (refl, at)).1
purge_trashed-Kept false actor k items m db kept at = at
