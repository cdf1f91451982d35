-- ===== src/Tests/Barrier.antt =====
-- The barrier, the hook and the proxy at concrete inputs.
use event_gallery.Base.{◌≡◌, inr, refl, ◌≢◌, ◌≤◌, length, runes, true, false, some, [], ◌∷◌}
use event_gallery.Base.Int.{pos}
use event_gallery.Store.Job.{status_eq, is_terminal, scan_upload_job}
use event_gallery.Store.Sql.{Table, find_row, update_where, affected, require_one_row}
use event_gallery.Store.Queue.{get_upload_job, create_uploading_job, promote_to_pending}
use event_gallery.Ingest.Protocol.{admits, run, start, perform}
use event_gallery.Ingest.Protocol.Runs.{run-start-SystemOk}
use event_gallery.Ingest.UploadId.{
  safe_upload_id, safe_runes, all_id_runes, Contained, safe_upload_id-Contained,
}
use event_gallery.Ingest.Durability.{
  Answers, found, missing, synced, durable, make_durable, promote_synced, sync_and_promote,
  sync_then,
}
use event_gallery.Ingest.Durability.Barrier.{Committed, make_durable-Committed}
use event_gallery.Http.Reply.{runs, forwarded, ensure_durable}
use event_gallery.Http.Hooks.{
  FinishRequest, handle_pre_finish_hook, handle_pre_finish_hook-Committed, pre_finish_reply,
}
use event_gallery.Http.Proxy.{
  Surroundings, TusRequest, patch, tus_upload_id, handle_tus_proxy, handle_tus_delete,
  fence_completed_upload, fence_job, fence_reply, is_whole, is_fenced, after_fence, route,
  patch_reply,
}
use event_gallery.Http.Proxy.Fence.{Passable, handle_tus_proxy-Passable}
use event_gallery.Http.Proxy.Cancel.{Deleted, handle_tus_delete-Deleted}
use event_gallery.Tests.Protocol.{photo_job}

-- One upload, admitted and not yet committed.
abbrev admitted : Table
admitted = (run start (admits photo_job 100 ∷ [])).db.jobs

-- Every call is answered, and the source has the admitted size.
abbrev all_well : Answers
all_well = record {
  contained = true;
  row_readable = true;
  stat = found true 10;
  data_synced = true;
  info_synced = synced;
  dir_synced = true;
  during = λ t. t;
  promotion_runs = true;
  after = λ t. t;
  row_readable_again = true;
}

abbrev lost_source : Answers
lost_source = record all_well { stat = missing }

make_durable_commits : (make_durable "u1" 110 all_well admitted).result ≡ durable
unfolding make_durable promote_synced sync_and_promote sync_then get_upload_job run start perform
    create_uploading_job promote_to_pending find_row update_where affected require_one_row
    scan_upload_job status_eq is_terminal
make_durable_commits = refl

make_durable-Committed_example : Committed "u1" (make_durable "u1" 110 all_well admitted).table
make_durable-Committed_example =
    make_durable-Committed "u1" 110 all_well admitted
      (run-start-SystemOk (admits photo_job 100 ∷ [])).keys make_durable_commits

-- The id is safe.
safe_u1 : safe_upload_id "u1" ≡ true
unfolding safe_upload_id safe_runes all_id_runes
safe_u1 = refl

safe_upload_id-Contained_example :
    (runes "u1" ≢ []) × (length (runes "u1") ≤ 128) × Contained (runes "u1")
safe_upload_id-Contained_example = safe_upload_id-Contained "u1" safe_u1

abbrev finish : FinishRequest
finish = record {
  upload_id = "u1";
  storage_type = "filestore";
  path_matches = true;
  size = pos 10;
  offset = pos 10;
}

hook_forwards : (handle_pre_finish_hook true finish (runs true) 110 all_well admitted).1 ≡ forwarded
unfolding handle_pre_finish_hook pre_finish_reply ensure_durable safe_upload_id safe_runes
    all_id_runes make_durable promote_synced sync_and_promote sync_then get_upload_job run start
    perform create_uploading_job promote_to_pending find_row update_where affected require_one_row
    scan_upload_job status_eq is_terminal
hook_forwards = refl

handle_pre_finish_hook-Committed_example :
    Committed "u1" (handle_pre_finish_hook true finish (runs true) 110 all_well admitted).0
handle_pre_finish_hook-Committed_example =
    handle_pre_finish_hook-Committed true finish (runs true) 110 all_well admitted
      (run-start-SystemOk (admits photo_job 100 ∷ [])).keys hook_forwards

abbrev around : Surroundings
around = record {
  attached = true;
  ready = true;
  fence_reads = true;
  fence_stat = found true 10;
  between = λ t. t;
  admission = runs true;
  barrier = all_well;
  delete_reads = true;
  before_write = λ t. t;
  delete_writes = true;
  closed = some false;
  slot_free = true;
}

abbrev chunk : TusRequest
chunk = record { allowed = true; overridden = false; method = patch; base = "u1" }

patch_forwards : (handle_tus_proxy around chunk 110 admitted).1 ≡ forwarded
unfolding handle_tus_proxy tus_upload_id fence_completed_upload fence_job fence_reply is_whole
    is_fenced after_fence route patch_reply ensure_durable safe_upload_id safe_runes all_id_runes
    make_durable promote_synced sync_and_promote sync_then get_upload_job run start perform
    create_uploading_job promote_to_pending find_row update_where affected require_one_row
    scan_upload_job status_eq is_terminal
patch_forwards = refl

handle_tus_proxy-Passable_example :
    Passable around (tus_upload_id "u1") admitted (handle_tus_proxy around chunk 110 admitted).0
handle_tus_proxy-Passable_example =
    handle_tus_proxy-Passable around chunk 110 admitted (inr refl) refl
      (run-start-SystemOk (admits photo_job 100 ∷ [])).keys patch_forwards

handle_tus_delete-Deleted_example :
    Deleted around "u1"
      (get_upload_job "u1" admitted)
      admitted
      (handle_tus_delete around "u1" 110 admitted)
handle_tus_delete-Deleted_example =
    handle_tus_delete-Deleted around "u1" 110 admitted
      (run-start-SystemOk (admits photo_job 100 ∷ [])).keys
