-- ===== src/Tests/Services.antt =====
-- The limiters, the purge and the status endpoint at concrete inputs.
use event_gallery.Base.{◌≡◌, ◌⊎◌, inl, refl, true, false, some, String, List, [], ◌∷◌, All}
use event_gallery.Store.Job.{scan_upload_job, is_terminal, status_eq}
use event_gallery.Store.Sql.{find_row}
use event_gallery.Store.Queue.{get_upload_job, create_uploading_job}
use event_gallery.Store.Media.{Db, find_media, is_trashed, insert_media, publish_media}
use event_gallery.Store.Moderation.{
  NonePending, set_approval_required, approval_required, set_approval_required-reads,
}
use event_gallery.Store.Purge.{is_awaited, purge_trashed, purge_trashed-Kept}
use event_gallery.Ingest.Protocol.{admits, run, start, perform}
use event_gallery.Ingest.Registry.{
  ensures, completes, shuts_down, Sound, happen_all, fresh_registry, happen_all-Sound,
}
use event_gallery.Http.Status.{
  Reads, Entry, state_uploading, answers, handle_upload_status, answer_all, answer_next, answer_one,
  answered_already, store_answer, public_upload_state, status_entry, reply_of,
}
use event_gallery.Http.Status.Answers.{IsAnswer, handle_upload_status-IsAnswer}
use event_gallery.Limits.Concurrency.{asks, returns, Exact, serve_all, no_slots, serve_all-Exact}
use event_gallery.Tests.Protocol.{photo_job, photo}

serve_all-Exact_example :
    Exact 2 (serve_all 2 (asks "a" ∷ asks "a" ∷ asks "a" ∷ returns "a" ∷ asks "b" ∷ []) no_slots)
serve_all-Exact_example =
    serve_all-Exact 2 (asks "a" ∷ asks "a" ∷ asks "a" ∷ returns "a" ∷ asks "b" ∷ [])

happen_all-Sound_example : Sound 1 (
    happen_all 1
      (ensures "u" ∷ ensures "u" ∷ ensures "v" ∷ completes "u" ∷ shuts_down ∷ [])
      fresh_registry)
happen_all-Sound_example =
    happen_all-Sound 1 (ensures "u" ∷ ensures "u" ∷ ensures "v" ∷ completes "u" ∷ shuts_down ∷ [])

abbrev one_photo : Db
one_photo = record { jobs = []; media = photo ∷ []; config = []; audit = [] }

active_photo : (is_trashed photo.status ≡ false) ⊎ (is_awaited photo.id [] ≡ true)
unfolding is_trashed
active_photo = inl refl

purge_trashed-Kept_example :
    find_media "m1" (purge_trashed true "admin" (photo ∷ []) one_photo).0.media ≡ some photo
purge_trashed-Kept_example =
    purge_trashed-Kept true "admin" "m1" (photo ∷ []) photo one_photo active_photo refl

abbrev one_upload : Db
one_upload = (run start (admits photo_job 100 ∷ [])).db

abbrev readable : Reads
readable = record { jobs_readable = λ i. true; media_readable = λ i. true }

abbrev expected : List (String × Entry)
expected = ("u1", record { state = state_uploading; media_id = "" }) ∷ []

status_answers :
    handle_upload_status false readable one_upload ("u1" ∷ "u1" ∷ []) ≡ answers expected
unfolding handle_upload_status answer_all answer_next answer_one answered_already store_answer
    public_upload_state status_entry reply_of get_upload_job run start perform create_uploading_job
    find_row scan_upload_job status_eq is_terminal
status_answers = refl

handle_upload_status-IsAnswer_example :
    All (IsAnswer one_upload false readable) expected
    × All (λ id. answered_already id expected ≡ true) ("u1" ∷ "u1" ∷ [])
handle_upload_status-IsAnswer_example =
    handle_upload_status-IsAnswer one_upload false readable ("u1" ∷ "u1" ∷ []) status_answers

set_approval_required-reads_example :
    let off = (set_approval_required true "now" false one_photo).0 in
    NonePending off.media
    × NonePending (publish_media "u1" "t1" photo 200 off).0.media
    × NonePending (insert_media photo off).0.media
    × (approval_required off ≡ some false)
    × (approval_required (set_approval_required true "now" true one_photo).0 ≡ some true)
set_approval_required-reads_example =
    set_approval_required-reads "now" one_photo photo "u1" "t1" 200
