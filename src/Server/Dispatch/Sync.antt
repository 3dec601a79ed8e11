-- ===== src/Server/Dispatch/Sync.antt =====
-- `handle_sync_call` of src/server.c against what it may answer.
use wirecall.Common.{
  ℕ, ◌+◌, ◌-◌, ◌≤◌, Bool, true, false, List, All, some, ◌≡◌, refl, ap, ◌∙◌, arith, if◌then◌else◌,
}
use wirecall.Words.{IsByte}
use wirecall.Memory.{Mem, Run, failed, returned, ◌>>=◌, ◌>>◌, after, ret, count_block}
use wirecall.Memory.Ends.{IsHost, Ends, Ends-after, Ends-map, Ends-after_known, Ends-attempt_known}
use wirecall.Protocol.Op
use wirecall.Protocol.Header.{Header, flag_none}
use wirecall.Protocol.Buffer.{Buffer, buffer_len, contents}
use wirecall.Payload.Decode.{Array, payload_decode, values_free}
use wirecall.Payload.Decode.Blocks.{IsArray, blocks, values_free_lem}
use wirecall.Payload.Decode.Loop.{payload_decode-Ends}
use wirecall.Payload.Writer.{Writer, writer_init, writer_free}
use wirecall.Payload.Writer.Reserve.{IsWriter}
use wirecall.Routes.{Route}
use wirecall.Stream.Packet.{new_header}
use wirecall.Stream.Grow.{IsByteBuffer}
use wirecall.Server.{Worker}
use wirecall.Server.Text
use wirecall.Server.Queue.{Env, queue_string_error, writer_buffer}
use wirecall.Server.Queue.Laws.{Queued, queue_packet-Queued}
use wirecall.Server.Queue.Error.{
  error_header, error_payload, writer_free_lem, Queued-rebase, string_error-Queued,
}
use wirecall.Server.Host.{Host, call_handler}
use wirecall.Server.Dispatch.{queue_reply, sync_decoded, handle_sync_call}

-- What the documentation asks of a handler: it leaves the arguments alone, and its response is a writer
-- that the writer functions have built, whose block is all that it leaves behind.
abbrev pub AreHandlers : Host → Type 0
AreHandlers host =
    (base f user_data call_id proc_id : ℕ) (args : Array) (s : Mem)
    → IsArray args
    → Ends base (λ r s'. IsWriter r.1 × (s'.live ≡ s.live + count_block r.1.block))
        (host.handler f user_data call_id proc_id args s)

-- The kind of a reply and its payload: the response of a call that gave 0, else an error with its
-- message.
abbrev pub reply_op : Bool → ℕ
reply_op result = if result then Op.response else Op.error

abbrev pub reply_payload : Bool → Writer → List ℕ → Buffer
reply_payload result response message =
    if result then writer_buffer response else error_payload message

abbrev pub reply_header : ℕ → ℕ → Bool → Writer → List ℕ → Header
reply_header proc_id call_id result response message =
    new_header (reply_op result) flag_none proc_id
      (buffer_len (reply_payload result response message)) call_id

-- The reply with the ids of its call went to `queue_packet`.
abbrev pub Replied :
    Env → ℕ → ℕ → ℕ → Bool → Writer → List ℕ → Worker → Mem → Bool × Worker → Mem → Type 0
Replied env c proc_id call_id result response message w s r s' =
    Queued env c (reply_header proc_id call_id result response message)
      (reply_payload result response message) w s r s'

pub queue_reply-Replied :
    (base : ℕ) (env : Env) (c proc_id call_id : ℕ) (result : Bool) (response : Writer)
    (message : List ℕ) (w : Worker) (s : Mem)
    → IsHost env.grant
    → IsByteBuffer (w.conn_at c).write_buf
    → count_block (w.conn_at c).write_buf.block ≤ s.live
    → Ends base
        (λ r s'. Replied env c proc_id call_id result response message w s r s')
        (queue_reply env c proc_id call_id result response message w s)
unfolding queue_reply
queue_reply-Replied base env c proc_id call_id true response message w s host v owns =
    queue_packet-Queued base env c Op.response flag_none proc_id call_id (writer_buffer response) w
      s host v
queue_reply-Replied base env c proc_id call_id false response message w s host v owns =
    string_error-Queued base env c proc_id call_id message w s host v owns

-- Why a call is answered as it is: its payload is malformed, or its handler gave a result and a
-- response for the decoded arguments.
pub data Cause (env : Env) (host : Host) (header : Header) (f user_data : ℕ) (payload : Buffer)
    (s : Mem) : Bool → Writer → List ℕ → Type 0 where
  malformed :
      (s1 : Mem)
      → payload_decode env.grant payload s ≡ failed s1
      → Cause env host header f user_data payload s false writer_init Text.malformed_payload
  ran :
      (args : Array) (s1 : Mem) (result : Bool) (response : Writer) (s2 : Mem)
      → payload_decode env.grant payload s ≡ returned args s1
      → host.handler f user_data header.call_id header.proc_id args s1
        ≡ returned (result, response) s2
      → Cause env host header f user_data payload s result response Text.procedure_failed

-- The reply that the cause asks for.
pub record Synced (env : Env) (host : Host) (c : ℕ) (header : Header) (f user_data : ℕ)
    (payload : Buffer) (w : Worker) (s : Mem) (r : Bool × Worker) (s' : Mem) : Type 0 where
  pub result : Bool
  pub response : Writer
  pub message : List ℕ
  pub cause : Cause env host header f user_data payload s result response message
  pub replied : Replied env c header.proc_id header.call_id result response message w s r s'

-- The response and the arguments are freed at the end.
free_both :
    (base : ℕ) (response : Writer) (args : Array) (rc : Bool × Worker) (s : Mem)
    → IsArray args
    → s.live ≡ base + (blocks args + count_block response.block)
    → (writer_free response >>= λ _. values_free args >> ret rc) s
      ≡ returned rc (record s { live = base })
free_both base response args rc s v e =
    ap (λ q. after q (λ _. values_free args >> ret rc))
      (writer_free_lem response (base + blocks args) s (omega (arith, e)))
    ∙ ap (λ (q : Run (Unit {0})). after q (λ _. ret rc))
        (values_free_lem args base (record s { live = base + blocks args }) v refl)

module _ (base : ℕ) (env : Env) (host : Host) (c : ℕ) (header : Header) (route : Route) (f : ℕ)
    (payload : Buffer) (w : Worker) (s0 : Mem) (h : IsHost env.grant) (fs : AreHandlers host)
    (e : route.handler ≡ some f) (v : IsByteBuffer (w.conn_at c).write_buf)
    (owns : count_block (w.conn_at c).write_buf.block ≤ s0.live) where
  -- The code after the handler: the reply, and the frees.
  handler_ended :
      (args : Array) (s1 : Mem) (result : Bool) (response : Writer) (s2 : Mem)
      → IsArray args
      → payload_decode env.grant payload s0 ≡ returned args s1
      → host.handler f route.user_data header.call_id header.proc_id args s1
        ≡ returned (result, response) s2
      → s2.live ≡ s0.live + blocks args + count_block response.block
      → Ends base (Synced env host c header f route.user_data payload w s0) (
          after
            (queue_reply env c header.proc_id header.call_id result response Text.procedure_failed w
              s2)
            (λ rc. writer_free response >>= λ _. values_free args >> ret rc))
  handler_ended args s1 result response s2 ok_args decoded ended live2 =
      Ends-after base _ _
        (queue_reply env c header.proc_id header.call_id result response Text.procedure_failed w s2)
        _
        (queue_reply-Replied base env c header.proc_id header.call_id result response
          Text.procedure_failed w s2 h v (omega (arith, owns, live2)))
        (λ rc s3 q.
          (let live3 = q.live in
            let left = s3.live - (blocks args + count_block response.block) in
            rw (free_both left response args rc s3 ok_args (omega (arith, live3, live2, owns)))
              record {
                result = result;
                response = response;
                message = Text.procedure_failed;
                cause = ran args s1 result response s2 decoded ended;
                replied =
                    Queued-rebase env c
                      (reply_header header.proc_id header.call_id result response
                        Text.procedure_failed)
                      (reply_payload result response Text.procedure_failed) w s0 s2 rc s3
                      (record s3 { live = left }) (omega (arith, live3, live2, owns)) q;
              }))

  sync_decoded-Synced :
      (args : Array) (s1 : Mem)
      → IsArray args
      → payload_decode env.grant payload s0 ≡ returned args s1
      → s1.live ≡ s0.live + blocks args
      → Ends base
          (Synced env host c header f route.user_data payload w s0)
          (sync_decoded env host c header route w args s1)
  unfolding sync_decoded call_handler
  sync_decoded-Synced args s1 ok_args decoded live = rw e (
      Ends-after_known base _ _
        (host.handler f route.user_data header.call_id header.proc_id args s1) _
        (fs base f route.user_data header.call_id header.proc_id args s1 ok_args)
        (λ r s2 ended (writer, live2).
          handler_ended args s1 r.0 r.1 s2 ok_args decoded ended (omega (arith, live, live2))))

  malformed-Synced :
      (s1 : Mem)
      → payload_decode env.grant payload s0 ≡ failed s1
      → s1.live ≡ s0.live
      → Ends base
          (Synced env host c header f route.user_data payload w s0)
          (queue_string_error env c header.proc_id header.call_id Text.malformed_payload w s1)
  malformed-Synced s1 decoded live =
      Ends-map base _ _
        (queue_string_error env c header.proc_id header.call_id Text.malformed_payload w s1)
        (string_error-Queued base env c header.proc_id header.call_id Text.malformed_payload w s1 h
          v (omega (arith, live, owns)))
        (λ r s2 q. record {
          result = false;
          response = writer_init;
          message = Text.malformed_payload;
          cause = malformed s1 decoded;
          replied =
              Queued-rebase env c
                (error_header header.proc_id header.call_id Text.malformed_payload)
                (error_payload Text.malformed_payload) w s0 s1 r s2 s2 (omega (arith, live)) q;
        })

pub handle_sync_call-Replied :
    (base : ℕ) (env : Env) (host : Host) (c : ℕ) (header : Header) (route : Route) (f : ℕ)
    (payload : Buffer) (w : Worker) (s : Mem)
    → IsHost env.grant
    → AreHandlers host
    → route.handler ≡ some f
    → All IsByte (contents payload)
    → IsByteBuffer (w.conn_at c).write_buf
    → count_block (w.conn_at c).write_buf.block ≤ s.live
    → Ends base
        (Synced env host c header f route.user_data payload w s)
        (handle_sync_call env host c header route payload w s)
unfolding handle_sync_call
handle_sync_call-Replied base env host c header route f payload w s h fs e all v owns =
    Ends-attempt_known base s.live _ _ (payload_decode env.grant payload s) _ _
      (payload_decode-Ends env.grant payload s all)
      (λ args s1 decoded p.
        sync_decoded-Synced base env host c header route f payload w s h fs e v owns args s1 p.array
          decoded p.live)
      (λ s1 decoded live.
        malformed-Synced base env host c header route f payload w s h fs e v owns s1 decoded live)
