-- ===== src/Client/Call.antt =====
-- `send_packet`, `wirecall_client_ping`, `client_send_call_id`, `client_call_id`,
-- `wirecall_client_recv_response` and the small functions of src/client.c. A send is told what
-- its calls of `sendmsg` answer; it gives the bytes that went out.
pub mod Answered
use wirecall.Common
use wirecall.Common.{
  ◌&&◌, ℕ, ◌+◌, ◌%◌, ◌^◌, min, Bool, true, false, not, ◌||◌, List, [], ◌∷◌, take, length, ltb, ◌==◌,
  if◌then◌else◌, Option, none, some, Outcome, ok, fail, fault, stuck,
}
use wirecall.Memory.{
  Grants, Mem, Run, returned, M, ◌>>=◌, ◌>>◌, attempt, lift, ret, crash, unfinished, mem_free,
}
use wirecall.Protocol.Op
use wirecall.Protocol.Name.{proc_id}
use wirecall.Protocol.Header.{Header, flag_none}
use wirecall.Protocol.Buffer.{Buffer, present, absent, buffer_len, contents}
use wirecall.Payload.Value.{Value}
use wirecall.Payload.Decode.{Array, no_array, payload_decode, values_free}
use wirecall.Payload.Writer.{Writer}
use wirecall.Stream.Packet.{Settings, new_header, signed_header}
use wirecall.Client.{Client, Link, set_error, change_settings}
use wirecall.Client.Text
use wirecall.Client.Send.{Answer, send_iov_full}
use wirecall.Client.Receive.{recv_packet}

-- `payload->data` and `payload->len` of an argument that can be null.
unfoldable pub payload_of : Option Writer → Buffer
payload_of none = absent 0
payload_of (some w) = if w.block then present w.written else absent 0

abbrev pub Sending : Type 0
Sending = Option (List ℕ) × Client

abbrev pub send_error : Client → Sending
send_error client = (none, set_error Text.send_failed client)

unfoldable pub sent_iov : Client → Outcome (List ℕ) → Outcome Sending
unfolding set_error
sent_iov client (ok out) = ok (some out, client)
sent_iov client fail = ok (send_error client)
sent_iov client fault = fault
sent_iov client stuck = stuck

-- The one or two buffers.
unfoldable pub packet_iov : List ℕ → List ℕ → List (List ℕ)
packet_iov header payload = if ltb 0 (length payload) then header ∷ payload ∷ [] else header ∷ []

unfoldable pub send_signed : List Answer → Client → List ℕ → Outcome (List ℕ) → Outcome Sending
unfolding sent_iov packet_iov set_error
send_signed answers client payload (ok header) =
    sent_iov client (send_iov_full answers (packet_iov header payload))
send_signed answers client payload fail = ok (send_error client)
send_signed answers client payload fault = fault
send_signed answers client payload stuck = stuck

unfoldable pub send_packet : List Answer → Client → ℕ → ℕ → ℕ → Option Writer → Outcome Sending
unfolding send_signed payload_of
send_packet answers client op proc_id call_id payload =
    let buffer = payload_of payload in
    send_signed answers client (contents buffer) (
      signed_header client.settings (new_header op flag_none proc_id (buffer_len buffer) call_id)
        buffer)

-- `client->next_call_id++`
unfoldable pub next_call : Client → ℕ × Client
next_call client =
    (client.next_call_id, record client { next_call_id = (client.next_call_id + 1) % 2 ^ 64 })

-- What a call gives: is it 0, the call id, and the values.
pub record Response : Type 0 where
  pub success : Bool
  pub call_id : ℕ
  pub values : Array

abbrev pub no_response : Response
no_response = record { success = false; call_id = 0; values = no_array }

-- The one string of an error packet, cut to 159 bytes.
unfoldable pub error_message : List Value → Option (List ℕ)
error_message (Value.string (some chars) len ∷ []) = some (take (min len 159) chars)
error_message values = none

unfoldable pub store_message : Option (List ℕ) → Client → Client
unfolding set_error
store_message none client = set_error Text.server_error client
store_message (some message) client = record client { error = message }

abbrev pub with_error : List ℕ → Link → Link
with_error message link = record link { client = set_error message link.client }

unfoldable pub response_of : Grants → Header → List ℕ → Link → M (Response × Link)
unfolding set_error error_message store_message
response_of grant header body link s =
    if header.op == Op.response
    then attempt (payload_decode grant (present body) s)
        (λ values. ret (record { success = true; call_id = header.call_id; values = values }, link))
        (ret (
          record { success = false; call_id = header.call_id; values = no_array },
          with_error Text.malformed_response link,
        ))
    else if header.op == Op.error
    then attempt (payload_decode grant (present body) s)
        (λ values.
          values_free values
          >> ret (
            record { success = false; call_id = header.call_id; values = no_array },
            record link { client = store_message (error_message values.items) link.client },
          ))
        (ret (
          record { success = false; call_id = header.call_id; values = no_array },
          with_error Text.server_error link,
        ))
    else returned
        (
          record { success = false; call_id = header.call_id; values = no_array },
          with_error Text.unexpected_op link,
        )
        s

-- The body is freed at the end.
unfoldable pub after_packet : Grants → Option (Header × List ℕ) × Link → M (Response × Link)
unfolding response_of
after_packet grant (none, link) = ret (no_response, link)
after_packet grant (some (header, body), link) = do
  r ← response_of grant header body link
  mem_free true
  ret r

unfoldable pub recv_response : Grants → Link → M (Response × Link)
unfolding after_packet
recv_response grant link =
    if not link.client.has_fd
    then ret (no_response, link)
    else recv_packet grant link >>= after_packet grant

abbrev pub with_client : Link → Client → Link
with_client link client = record link { client = client }

-- The id of a call that was sent, the bytes that went out, and the client.
abbrev pub SentCall : Type 0
SentCall = Option ℕ × List ℕ × Client

unfoldable pub sent_call : ℕ → Sending → SentCall
sent_call call_id (some out, client) = (some call_id, out, client)
sent_call call_id (none, client) = (none, [], client)

-- `client_send_call_id`; `wirecall_client_send_call_name` hashes the name first.
unfoldable pub send_call_id : List Answer → Client → ℕ → Option Writer → Outcome SentCall
unfolding next_call send_packet sent_call
send_call_id answers client proc args =
    let (call_id, client') = next_call client in
    if not client.has_fd
    then ok (none, [], client)
    else Common.and_then (λ sending. ok (sent_call call_id sending))
        (send_packet answers client' Op.rpc proc call_id args)

unfoldable pub send_call_name :
    List Answer → Client → Option (List ℕ) → Option Writer → Outcome SentCall
unfolding send_call_id
send_call_name answers client name args = send_call_id answers client (proc_id name) args

-- The response must be that of the call.
unfoldable pub check_call : ℕ → Response × Link → M (Response × Link)
unfolding set_error
check_call call_id (r, link) =
    if r.success && not (r.call_id == call_id)
    then values_free r.values >> ret (no_response, with_error Text.unexpected_call_id link)
    else ret (r, link)

unfoldable pub await_call : Grants → Link → SentCall → M (Response × List ℕ × Link)
unfolding recv_response check_call
await_call grant link (none, out, client) = ret (no_response, out, with_client link client)
await_call grant link (some call_id, out, client) = do
  r ← recv_response grant (with_client link client)
  (response, link') ← check_call call_id r
  ret (response, out, link')

-- `client_call_id` and `wirecall_client_call_name`.
unfoldable pub client_call_id :
    Grants → List Answer → Link → ℕ → Option Writer → M (Response × List ℕ × Link)
unfolding send_call_id await_call
client_call_id grant answers link proc args =
    lift (send_call_id answers link.client proc args) >>= await_call grant link

unfoldable pub call_name :
    Grants → List Answer → Link → Option (List ℕ) → Option Writer → M (Response × List ℕ × Link)
unfolding client_call_id
call_name grant answers link name args = client_call_id grant answers link (proc_id name) args

-- The tests of a pong, whose body is freed first.
unfoldable pub check_pong : ℕ → Option (Header × List ℕ) × Link → M (Bool × Link)
unfolding set_error
check_pong call_id (none, link) = ret (false, link)
check_pong call_id (some (header, body), link) = mem_free true >>= λ freed.
    if not (header.op == Op.response) || (not (header.call_id == call_id) || not (header.size == 0))
    then ret (false, with_error Text.unexpected_ping link)
    else ret (true, link)

unfoldable pub await_pong : Grants → ℕ → Link → Sending → M (Bool × Link)
unfolding check_pong
await_pong grant call_id link (none, client) = ret (false, with_client link client)
await_pong grant call_id link (some out, client) =
    recv_packet grant (with_client link client) >>= check_pong call_id

unfoldable pub client_ping : Grants → List Answer → Link → M (Bool × Link)
unfolding next_call send_packet await_pong
client_ping grant answers link =
    let (call_id, client) = next_call link.client in
    if not link.client.has_fd
    then ret (false, link)
    else lift (send_packet answers client Op.ping 0 call_id none) >>= await_pong grant call_id link

-- `client_set_integrity`
unfoldable pub client_set_integrity : ℕ → Option (List ℕ) → Client → Outcome Client
unfolding change_settings
client_set_integrity integrity key client = elim (change_settings integrity key client.settings) [
  | ok set ↦ ok (record client { settings = set })
  | fail ↦ fail
  | fault ↦ fault
  | stuck ↦ stuck
]

unfoldable pub client_error : Client → List ℕ
client_error client = shown client.error
  where
    -- Is the first character the end of the string?
    shown : List ℕ → List ℕ
    shown [] = Text.client_failed
    shown (first ∷ rest) = if first == 0 then Text.client_failed else first ∷ rest
