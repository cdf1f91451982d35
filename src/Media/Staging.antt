-- ===== src/Media/Staging.antt =====
-- backend/internal/media/purge.go: the files of one media item and of its stage directory, with the
-- system calls on them. An item has paths of its own, by its id and its stored name, and a stage
-- directory has a fresh name, so that the calls for one item touch no files of another.
pub mod Triples
pub mod Calm
use event_gallery.Base.{
  ℕ, Bool, true, false, not, ◌&&◌, Option, none, some, String, List, [], ◌∷◌, is_some,
  if◌then◌else◌,
}

pub data Artifact : Type 0 where
  original thumbnail preview : Artifact

abbrev pub same_artifact : Artifact → Artifact → Bool
same_artifact original original = true
same_artifact thumbnail thumbnail = true
same_artifact preview preview = true
same_artifact _ _ = false

-- The contents of the files that exist, under a text for each content.
abbrev pub Slots : Type 0
Slots = Artifact → Option String

unfoldable pub put : Artifact → Option String → Slots → Slots
put a v s b = if same_artifact a b then v else s b

pub record Manifest : Type 0 where
  pub version : ℕ
  pub media_id : String
  pub stored_filename : String

pub record Place : Type 0 where
  pub live : Slots
  pub staged : Slots
  pub has_dir : Bool
  pub has_temporary : Bool
  pub manifest : Option Manifest

-- What a system call does: it works, it fails without an effect, or the process ends before it.
-- After the listed answers, all calls work.
pub data Answer : Type 0 where
  works fails crashes : Answer

pub data Outcome : Type 0 where
  finished failed crashed : Outcome

-- How an operation ends, the files that it leaves, and the answers that are left.
abbrev pub Ran : Type 0
Ran = Outcome × Place × List Answer

abbrev pub Op : Type 0
Op = Place → List Answer → Ran

abbrev pub stops : Outcome → Op
stops o p ws = (o, p, ws)

-- One system call, with what the rest of the operation does where the call works.
unfoldable pub call : (Place → Op) → Op
call k p [] = k p p []
call k p (works ∷ ws) = k p p ws
call k p (fails ∷ ws) = stops failed p ws
call k p (crashes ∷ ws) = stops crashed p ws

-- A call that changes files, and one that fails unless the files allow it.
abbrev pub change : (Place → Place) → Op
change f = call λ p q ws. stops finished (f p) ws

abbrev pub change_if : (Place → Bool) → (Place → Place) → Op
change_if test f = call λ p q ws. if test p then stops finished (f p) ws else stops failed p ws

-- A call that asks about the files.
abbrev pub ask : (Place → Bool) → (Bool → Op) → Op
ask test k = call λ p. k (test p)

-- A call that changes none of these files: a sync, a write to the temporary file, its close.
abbrev pub quiet : Op
quiet = change λ p. p

abbrev pub after : Op → Ran → Ran
after b (finished, p, ws) = b p ws
after b (failed, p, ws) = (failed, p, ws)
after b (crashed, p, ws) = (crashed, p, ws)

-- The operations in order, up to the first that does not finish.
unfoldable pub in_order : List Op → Op
in_order [] p ws = stops finished p ws
in_order (a ∷ ops) p ws = after (in_order ops) (a p ws)

abbrev pub still_failed : Ran → Ran
still_failed (crashed, p, ws) = (crashed, p, ws)
still_failed (_, p, ws) = (failed, p, ws)

abbrev pub cleaned : Op → Ran → Ran
cleaned h (finished, p, ws) = (finished, p, ws)
cleaned h (failed, p, ws) = still_failed (h p ws)
cleaned h (crashed, p, ws) = (crashed, p, ws)

-- The operation, with another after its failure, whose own error is dropped.
unfoldable pub or_clean : Op → Op → Op
or_clean a h p ws = cleaned h (a p ws)
