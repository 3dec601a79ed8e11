-- ===== src/Server/Lifetime.antt =====
-- How connections and deferred calls of src/server.c come and go: `worker_add_connection`,
-- `connection_destroy`, `maybe_close`, `worker_flush_writes` and `worker_drain_completed`.
pub mod Elements
pub mod Alive
pub mod Touch
pub mod Drop
pub mod Close
pub mod Drain
pub mod Ready
pub mod Enter
pub mod Finish
pub mod Entered
pub mod Defer
pub mod Serve
pub mod Packet
pub mod Available
use wirecall.Common.{
  ℕ, ◌-◌, Bool, true, false, not, ◌&&◌, List, [], ◌∷◌, length, ltb, ◌==◌, if◌then◌else◌, Option,
  none, some, ok,
}
use wirecall.Memory.{M, ◌>>=◌, ◌>>◌, lift, ret, mem_free}
use wirecall.Protocol.Op
use wirecall.Protocol.Header.{flag_none}
use wirecall.Stream.{no_buffer}
use wirecall.Server.{Connection, Deferred, Worker, put_conn, without, free_connection}
use wirecall.Server.Text
use wirecall.Server.Queue.{Env, writer_buffer, queue_packet, queue_string_error}
use wirecall.Server.Calls.{deferred_free}
use wirecall.Server.Io.{SendAnswer, read_interest, connection_write}

-- A connection whose socket and buffers are gone.
unfoldable pub forget : Connection → Connection
forget conn = record conn {
  has_fd = false;
  read_buf = no_buffer;
  write_buf = no_buffer;
  write_off = 0;
  write_queued = false;
  detached = true;
}

unfoldable pub detach : ℕ → Worker → M Worker
unfolding forget put_conn without
detach c w = do
  let conn = w.conn_at c
  mem_free conn.read_buf.block
  mem_free conn.write_buf.block
  ret (record (put_conn c (forget conn) w) {
    connections = without c w.connections;
    pending_writes = if conn.write_queued then without c w.pending_writes else w.pending_writes;
  })

-- The element goes back to the arena once no deferred call refers to it.
unfoldable pub release : ℕ → Worker → M Worker
release c w = if not ((w.conn_at c).pending_deferred == 0) then ret w else free_connection c w

unfoldable pub connection_destroy : ℕ → Worker → M Worker
unfolding detach release
connection_destroy c w = if (w.conn_at c).detached then release c w else detach c w >>= release c

unfoldable pub maybe_close : ℕ → Worker → M Worker
unfolding connection_destroy
maybe_close c w =
    if (w.conn_at c).closing && (length (w.conn_at c).write_buf.bytes == (w.conn_at c).write_off)
    then connection_destroy c w
    else ret w

abbrev pub new_connection : Connection
new_connection = record {
  has_fd = true;
  read_buf = no_buffer;
  write_buf = no_buffer;
  write_off = 0;
  interests = 0;
  closing = false;
  detached = false;
  write_queued = false;
  pending_deferred = 0;
}

unfoldable pub take_connection : ℕ → Worker → Worker
unfolding put_conn
take_connection c w = record (put_conn c new_connection w) {
  connections = c ∷ w.connections;
  connection_arena = c ∷ w.connection_arena;
}

-- The answers of the arena and of the backend are arguments.
unfoldable pub worker_add_connection : Option ℕ → Bool → Worker → M (Bool × Worker)
unfolding take_connection connection_destroy put_conn
worker_add_connection none registered w = ret (false, w)
worker_add_connection (some c) registered w =
    let w' = take_connection c w in
    if registered
    then ret (true, put_conn c (record new_connection { interests = read_interest }) w')
    else connection_destroy c w' >>= λ w''. ret (false, w'')

-- The loop of `worker_flush_writes`, with the answers of each socket.
unfoldable pub flush_loop : Bool → (ℕ → List SendAnswer) → List ℕ → Worker → M Worker
unfolding put_conn maybe_close
flush_loop modified socket [] w = ret w
flush_loop modified socket (c ∷ cs) w = do
  let conn = record (w.conn_at c) { write_queued = false }
  sent ← lift (
      if ltb conn.write_off (length conn.write_buf.bytes)
      then connection_write modified (socket c) conn
      else ok (conn, []))
  w' ← maybe_close c (put_conn c sent.0 w)
  flush_loop modified socket cs w'

unfoldable pub worker_flush_writes : Bool → (ℕ → List SendAnswer) → Worker → M Worker
unfolding flush_loop
worker_flush_writes modified socket w =
    flush_loop modified socket w.pending_writes (record w { pending_writes = [] })

-- The reply to a deferred call that has ended.
unfoldable pub deferred_reply : Env → ℕ → Deferred → Worker → M (Bool × Worker)
deferred_reply env c call w =
    if call.result
    then queue_packet env c Op.response flag_none call.proc_id call.call_id
        (writer_buffer call.response) w
    else queue_string_error env c call.proc_id call.call_id
        (if length call.error == 0 then Text.deferred_failed else call.error) w

unfoldable pub uncount_deferred : ℕ → Worker → Worker
unfolding put_conn
uncount_deferred c w =
    let conn = w.conn_at c in
    if ltb 0 conn.pending_deferred
    then put_conn c (record conn { pending_deferred = conn.pending_deferred - 1 }) w
    else w

-- The end of a round: the call is freed, and its connection if it was waiting for it alone.
unfoldable pub drain_end : ℕ → ℕ → Worker → M Worker
unfolding uncount_deferred connection_destroy
drain_end c k w = do
  w' ← deferred_free k (uncount_deferred c w)
  if (w'.conn_at c).detached && ((w'.conn_at c).pending_deferred == 0)
      then connection_destroy c w'
      else ret w'

unfoldable pub drain_one : Env → ℕ → Worker → M Worker
unfolding deferred_reply drain_end
drain_one env k w =
    let call = w.call_at k in
    let conn = w.conn_at call.conn in
    if not conn.detached && not conn.closing
    then (deferred_reply env call.conn call w >>= λ r. drain_end call.conn k r.1)
    else drain_end call.conn k w

unfoldable pub drain_loop : Env → List ℕ → Worker → M Worker
unfolding drain_one
drain_loop env [] w = ret w
drain_loop env (k ∷ ks) w = drain_one env k w >>= drain_loop env ks

unfoldable pub worker_drain_completed : Env → Worker → M Worker
unfolding drain_loop
worker_drain_completed env w = drain_loop env w.completed (record w { completed = [] })
