-- ===== src/Server/Queue.antt =====
-- `queue_packet`, `queue_string_error` and `worker_queue_write` of src/server.c.
pub mod Touched
pub mod Append
pub mod Laws
pub mod Error
use wirecall.Common.{
  ℕ, ◌+◌, Bool, true, false, not, ◌||◌, List, [], ◌∷◌, ltb, if◌then◌else◌, Outcome, ok, fail, fault,
  stuck,
}
use wirecall.Memory.{Grants, Run, returned, failed, crashed, unfinished, Mem, M, ◌>>=◌, ret, crash}
use wirecall.Protocol.Op
use wirecall.Protocol.Header.{flag_none, max_payload_size}
use wirecall.Protocol.Buffer.{Buffer, present, absent, buffer_len, contents}
use wirecall.Payload.Writer.{Writer, Status, writer_init, writer_string, writer_free}
use wirecall.Stream.{ByteBuffer, append_bytes}
use wirecall.Stream.Packet.{Settings, new_header, signed_header}
use wirecall.Server.{Connection, Worker, put_conn}

-- The host's allocator and the settings of the server.
pub record Env : Type 0 where
  pub grant : Grants
  pub settings : Settings

unfoldable pub worker_queue_write : ℕ → Worker → Worker
unfolding put_conn
worker_queue_write c w =
    if (w.conn_at c).write_queued
    then w
    else record (put_conn c (record (w.conn_at c) { write_queued = true }) w) {
      pending_writes = c ∷ w.pending_writes;
    }

-- The two calls of `append_bytes`.
unfoldable pub append_packet : Grants → List ℕ → List ℕ → ByteBuffer → M (Bool × ByteBuffer)
append_packet grant header payload b = do
  (first, b') ← append_bytes grant b header
  if first then append_bytes grant b' payload else ret (false, b')

-- The code after the header was signed and encoded.
unfoldable pub queue_signed : Env → ℕ → Buffer → Worker → Outcome (List ℕ) → M (Bool × Worker)
unfolding append_packet put_conn
queue_signed env c payload w (ok header) = do
  (appended, b) ← append_packet env.grant header (contents payload) (w.conn_at c).write_buf
  let w' = put_conn c (record (w.conn_at c) { write_buf = b }) w
  if appended then ret (true, worker_queue_write c w') else ret (false, w')
queue_signed env c payload w fail = ret (false, w)
queue_signed env c payload w fault = crash
queue_signed env c payload w stuck = λ s. unfinished

unfoldable pub queue_packet : Env → ℕ → ℕ → ℕ → ℕ → ℕ → Buffer → Worker → M (Bool × Worker)
unfolding queue_signed
queue_packet env c op flags proc_id call_id payload w =
    if (w.conn_at c).detached || not (w.conn_at c).has_fd
    then ret (false, w)
    else if ltb max_payload_size (buffer_len payload)
    then ret (false, w)
    else queue_signed env c payload w (
        signed_header env.settings (new_header op flags proc_id (buffer_len payload) call_id)
          payload)

-- `data` and `len` of a writer.
unfoldable pub writer_buffer : Writer → Buffer
writer_buffer w = if w.block then present w.written else absent 0

unfoldable pub queue_string_error : Env → ℕ → ℕ → ℕ → List ℕ → Worker → M (Bool × Worker)
unfolding writer_buffer
queue_string_error env c proc_id call_id message w = do
  (written, writer) ← writer_string env.grant writer_init (present message)
  (queued, w') ←
      if written
      then queue_packet env c Op.error flag_none proc_id call_id (writer_buffer writer) w
      else ret (false, w)
  writer_free writer >>= λ _. ret (queued, w')
