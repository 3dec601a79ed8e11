-- ===== src/Server/Dispatch.antt =====
-- `handle_packet`, `handle_sync_call` and `on_call_done` of src/server.c.
pub mod Sync
use wirecall.Common.{
  ℕ, ◌+◌, Bool, true, false, not, ◌&&◌, List, [], ◌∷◌, ◌++◌, length, take, ltb, ◌==◌, if◌then◌else◌,
  Option, none, some,
}
use wirecall.Memory.{Run, Mem, M, ◌>>=◌, ◌>>◌, attempt, ret, crash, mem_alloc, mem_free}
use wirecall.Protocol.Op
use wirecall.Protocol.Header.{Header, flag_none}
use wirecall.Protocol.Buffer.{Buffer, present, absent, buffer_len}
use wirecall.Payload.Decode.{Array, no_array, payload_decode, values_free}
use wirecall.Payload.Writer.{Writer, writer_init, writer_free}
use wirecall.Routes.{Route, Routes}
use wirecall.Routes.Table.{routes_lookup}
use wirecall.Scheduler.Pool.{Pool}
use wirecall.Scheduler.Submit.{Submission, refused, answered, queued, scheduler_submit}
use wirecall.Server.{Connection, Worker, put_conn}
use wirecall.Server.Host.{Host, call_handler}
use wirecall.Server.Calls.{handle_deferred_call}
use wirecall.Server.Text
use wirecall.Server.Queue.{Env, writer_buffer, queue_packet, queue_string_error}

-- A worker, the table of its server, the calls that it has submitted to its scheduler, each with its
-- connection, and the arena of the scheduler.
pub record Site : Type 0 where
  pub worker : Worker
  pub routes : Routes
  pub submitted : List (ℕ × Submission)
  pub calls : Pool

-- The reply to a call that has ended.
unfoldable pub queue_reply : Env → ℕ → ℕ → ℕ → Bool → Writer → List ℕ → Worker → M (Bool × Worker)
queue_reply env c proc_id call_id true response message w =
    queue_packet env c Op.response flag_none proc_id call_id (writer_buffer response) w
queue_reply env c proc_id call_id false response message w =
    queue_string_error env c proc_id call_id message w

unfoldable pub sync_decoded : Env → Host → ℕ → Header → Route → Worker → Array → M (Bool × Worker)
unfolding call_handler queue_reply
sync_decoded env host c header route w args = do
  (result, response) ←
      call_handler host route.handler route.user_data header.call_id header.proc_id args
  rc ← queue_reply env c header.proc_id header.call_id result response Text.procedure_failed w
  writer_free response >>= λ _. values_free args >> ret rc

unfoldable pub handle_sync_call :
    Env → Host → ℕ → Header → Route → Buffer → Worker → M (Bool × Worker)
unfolding sync_decoded
handle_sync_call env host c header route payload w s =
    attempt (payload_decode env.grant payload s) (sync_decoded env host c header route w)
      (queue_string_error env c header.proc_id header.call_id Text.malformed_payload w)

-- `on_call_done`, whose status is ignored.
unfoldable pub on_call_done : Env → ℕ → ℕ → ℕ → Bool → Writer → List ℕ → Worker → M Worker
unfolding queue_reply
on_call_done env c proc_id call_id result response message w =
    queue_reply env c proc_id call_id result response message w >>= λ r. ret r.1

-- The code after `wirecall_scheduler_submit`, which calls `on_call_done` itself for a call that fails at
-- once.
unfoldable pub submitted : Env → Host → ℕ → Header → Site → Submission → M (Bool × Site)
unfolding on_call_done
submitted env host c header site refused = do
  (rc, w) ←
      queue_string_error env c header.proc_id header.call_id Text.scheduler_failure site.worker
  ret (rc, record site { worker = w })
submitted env host c header site (answered slot malformed) = do
  w ←
      on_call_done env c header.proc_id header.call_id false writer_init
        (if malformed then Text.malformed_payload else host.create_error) site.worker
  ret (true, record site { worker = w })
submitted env host c header site (queued slot co args payload) =
    ret (true, record site { submitted = (c, queued slot co args payload) ∷ site.submitted })

-- An operation of the worker alone.
abbrev pub at_worker : Site → M (Bool × Worker) → M (Bool × Site)
at_worker site m = m >>= λ r. ret (r.0, record site { worker = r.1 })

unfoldable pub routed : Env → Host → ℕ → Header → Buffer → Site → Option Route → M (Bool × Site)
unfolding handle_deferred_call handle_sync_call submitted
routed env host c header payload site none =
    at_worker site
      (queue_string_error env c header.proc_id header.call_id Text.unknown_procedure site.worker)
routed env host c header payload site (some route) =
    if route.is_deferred
    then at_worker site (handle_deferred_call env host c header route payload site.worker)
    else if not route.is_async
    then at_worker site (handle_sync_call env host c header route payload site.worker)
    else scheduler_submit env.grant (host.call_slot site.worker) host.created route.handler payload
        site.calls
      >>= λ r. submitted env host c header (record site { calls = r.1 }) r.0

unfoldable pub handle_packet : Env → Host → ℕ → Header → Buffer → Site → M (Bool × Site)
unfolding routed put_conn
handle_packet env host c header payload site =
    if header.op == Op.ping
    then at_worker site
        (queue_packet env c Op.response flag_none 0 header.call_id (absent 0) site.worker)
    else if header.op == Op.disconnect
    then ret (
      true,
      record site {
        worker = put_conn c (record (site.worker.conn_at c) { closing = true }) site.worker;
      },
    )
    else if header.op == Op.rpc
    then (routes_lookup site.routes header.proc_id >>= λ (r : Option Route × Routes).
        routed env host c header payload (record site { routes = r.1 }) r.0)
    else at_worker site (
        queue_string_error env c header.proc_id header.call_id Text.unsupported_operation
          site.worker)
