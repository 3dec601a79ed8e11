-- ===== src/Server/Calls.antt =====
-- Deferred calls of src/server.c: `handle_deferred_call`, `wirecall_deferred_complete`,
-- `wirecall_deferred_fail`, `worker_queue_completed` and `deferred_free`.
pub mod Once
use wirecall.Common.{
  ℕ, ◌+◌, Bool, true, false, not, ◌&&◌, List, [], ◌∷◌, ◌++◌, take, ltb, if◌then◌else◌, Option, none,
  some,
}
use wirecall.Memory.{M, ◌>>=◌, ◌>>◌, attempt, ret, mem_alloc, mem_free}
use wirecall.Protocol.Header.{Header}
use wirecall.Protocol.Buffer.{Buffer}
use wirecall.Payload.Decode.{Array, no_array, payload_decode, values_free}
use wirecall.Payload.Writer.{writer_init, writer_free}
use wirecall.Routes.{Route}
use wirecall.Server.{Connection, Deferred, Worker, put_conn, put_deferred, free_call}
use wirecall.Server.Text
use wirecall.Server.Host.{Host, Progress, open_call, completes, fails, call_deferred_handler}
use wirecall.Server.Queue.{Env, queue_string_error}

-- `worker_queue_completed`: the call goes to the end of the list.
unfoldable pub worker_queue_completed : ℕ → Worker → Worker
worker_queue_completed k w = record w { completed = w.completed ++ k ∷ [] }

unfoldable pub deferred_complete : ℕ → Worker → Bool × Worker
unfolding put_deferred worker_queue_completed
deferred_complete k w = if (w.call_at k).completed then (false, w) else (
  true,
  worker_queue_completed k
      (put_deferred k (record (w.call_at k) { completed = true; result = true }) w),
)

-- `snprintf` into 160 bytes.
unfoldable pub error_text : List ℕ → List ℕ
error_text [] = Text.deferred_failed
error_text (x ∷ message) = take 159 (x ∷ message)

unfoldable pub deferred_fail : ℕ → List ℕ → Worker → Bool × Worker
unfolding put_deferred worker_queue_completed error_text
deferred_fail k message w = if (w.call_at k).completed then (false, w) else (
  true,
  worker_queue_completed k (
      put_deferred k
        (record (w.call_at k) { completed = true; result = false; error = error_text message }) w),
)

unfoldable pub deferred_free : ℕ → Worker → M Worker
deferred_free k w = do
  let call = w.call_at k
  values_free call.args
  empty ← writer_free call.response
  mem_free call.payload
  free_call k w

-- The element that the arena gives, with the fields that are set first.
abbrev pub new_call : ℕ → Header → Deferred
new_call c header = record {
  conn = c;
  call_id = header.call_id;
  proc_id = header.proc_id;
  payload = false;
  args = no_array;
  response = writer_init;
  result = true;
  error = [];
  completed = false;
}

unfoldable pub take_call : ℕ → ℕ → Header → Worker → Worker
unfolding put_deferred
take_call k c header w = record (put_deferred k (new_call c header) w) {
  deferred_arena = k ∷ w.deferred_arena;
}

-- What the handler has done with the call when it returns.
unfoldable pub progress : ℕ → Progress → Worker → Worker
unfolding deferred_complete deferred_fail
progress k open_call w = w
progress k completes w = (deferred_complete k w).1
progress k (fails message) w = (deferred_fail k message w).1

-- The test of the result, after the handler.
unfoldable pub deferred_returned : ℕ → Bool → Worker → Worker
unfolding deferred_fail
deferred_returned k result w =
    if not result && not (w.call_at k).completed
    then (deferred_fail k Text.deferred_failed w).1
    else w

-- `conn->pending_deferred++`
unfoldable pub count_deferred : ℕ → Worker → Worker
unfolding put_conn
count_deferred c w =
    let conn = w.conn_at c in
    put_conn c (record conn { pending_deferred = conn.pending_deferred + 1 }) w

unfoldable pub deferred_decoded : Host → ℕ → Route → ℕ → Worker → Array → M (Bool × Worker)
unfolding count_deferred put_deferred progress deferred_returned
deferred_decoded host c route k w args = do
  let call = record (w.call_at k) { args = args }
  (result, response, done) ←
      call_deferred_handler host route.deferred_handler route.user_data call.call_id call.proc_id
        args
  let called = put_deferred k (record call { response = response }) (count_deferred c w)
  ret (true, deferred_returned k result (progress k done called))

unfoldable pub deferred_copied :
    Env → Host → ℕ → Header → Route → Buffer → ℕ → Worker → M (Bool × Worker)
unfolding deferred_decoded
deferred_copied env host c header route payload k w s =
    attempt (payload_decode env.grant payload s) (deferred_decoded host c route k w) (
      deferred_free k w >>= λ w'.
      queue_string_error env c header.proc_id header.call_id Text.malformed_payload w')

unfoldable pub deferred_taken :
    Env → Host → ℕ → Header → Route → Buffer → ℕ → Worker → M (Bool × Worker)
unfolding put_deferred
deferred_taken env host c header route payload k w =
    if ltb 0 header.size
    then (do
      granted ← mem_alloc env.grant header.size
      if granted
          then deferred_copied env host c header route payload k
              (put_deferred k (record (w.call_at k) { payload = true }) w)
          else (deferred_free k w >>= λ w'.
              queue_string_error env c header.proc_id header.call_id Text.no_deferred_payload w'))
    else deferred_copied env host c header route payload k w

unfoldable pub deferred_in :
    Env → Host → ℕ → Header → Route → Buffer → Worker → Option ℕ → M (Bool × Worker)
unfolding take_call
deferred_in env host c header route payload w none =
    queue_string_error env c header.proc_id header.call_id Text.no_deferred_call w
deferred_in env host c header route payload w (some k) =
    deferred_taken env host c header route payload k (take_call k c header w)

unfoldable pub handle_deferred_call :
    Env → Host → ℕ → Header → Route → Buffer → Worker → M (Bool × Worker)
unfolding deferred_in
handle_deferred_call env host c header route payload w =
    deferred_in env host c header route payload w (host.deferred_slot w)
