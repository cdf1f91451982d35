-- ===== src/Http/Reply.antt =====
-- backend/internal/httpapi/respond.go and tus_hooks.go: the answers that the handlers give, and
-- `EnsureDurable` as the handlers see it.
use event_gallery.Base.{ℕ, Bool, Option, String, if◌then◌else◌}
use event_gallery.Store.Sql.{Table}
use event_gallery.Ingest.Durability.{Answers, Durability, make_durable}

-- What the client gets: forwarded to tusd (or allowed to go on), or a status of this backend, with
-- the seconds of Retry-After if any.
pub data Reply : Type 0 where
  forwarded : Reply
  status : ℕ → Option ℕ → Reply

-- How the registry meets a call: it runs (or joins) the barrier and the caller may run out of its own
-- budget, or it refuses.
pub data Admission : Type 0 where
  runs : Bool → Admission
  saturated : Admission
  closing : Admission

pub data Ensured : Type 0 where
  answered : Durability → Ensured
  busy : Ensured
  shutting_down : Ensured
  out_of_time : Ensured

-- A caller out of budget gives up its own wait only: the barrier commits all the same.
unfoldable pub ensure_durable : Admission → String → ℕ → Answers → Table → Table × Ensured
ensure_durable saturated id now a t = (t, busy)
ensure_durable closing id now a t = (t, shutting_down)
ensure_durable (runs in_time) id now a t =
    let o = make_durable id now a t in (o.table, if in_time then answered o.result else out_of_time)
