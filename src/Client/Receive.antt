-- ===== src/Client/Receive.antt =====
-- `client_read_available`, `client_read_reserve`, `client_read_fill` and `recv_packet` of src/client.c.
pub mod Fill
pub mod Transfer
pub mod Loop
pub mod Facts
pub mod Consume
pub mod Packet
use wirecall.Common.{
  ℕ, ◌+◌, ◌-◌, Bool, true, false, List, [], ◌∷◌, ◌++◌, length, take, drop, ltb, leb, ◌==◌,
  if◌then◌else◌, Option, none, some, Outcome, ok, fail, fault, stuck,
}
use wirecall.Memory.{lift, Grants, M, ◌>>=◌, ret, crash, unfinished, mem_alloc}
use wirecall.Protocol.Header.{Header, header_size, header_decode, max_payload_size}
use wirecall.Stream.{ByteBuffer, grow_buffer}
use wirecall.Stream.Packet.{read_at, verify}
use wirecall.Stream.Socket.{
  Step, RecvAnswer, received, peer_closed, recv_interrupted, recv_blocks, recv_broken, recv,
}
use wirecall.Client.{Client, Link, set_error}
use wirecall.Client.Text

unfoldable pub read_available : Client → ℕ
read_available client = length client.read_buf.bytes - client.read_off

-- The unread bytes move to the front.
unfoldable pub compact : Client → Client
compact client =
    if ltb 0 client.read_off
    then record client {
      read_buf = record client.read_buf { bytes = drop client.read_off client.read_buf.bytes };
      read_off = 0;
    }
    else client

abbrev pub first_read_cap : ℕ
first_read_cap = 65536

unfoldable pub client_read_reserve : Grants → ℕ → Client → M (Bool × Client)
unfolding read_available compact
client_read_reserve grant need client =
    if leb need (read_available client)
    then ret (true, client)
    else if leb need (compact client).read_buf.cap
    then ret (true, compact client)
    else (do
      (grown, b) ← grow_buffer grant first_read_cap (compact client).read_buf need
      ret (grown, record (compact client) { read_buf = b }))

-- The room for the next call of `recv`.
unfoldable pub fill_room : Grants → ℕ → Client → M (Bool × Client)
unfolding client_read_reserve
fill_room grant need client = do
  (fits, client') ← client_read_reserve grant need client
  if fits
      then if length client'.read_buf.bytes == client'.read_buf.cap
        then client_read_reserve grant (client'.read_buf.cap + 1) client'
        else ret (true, client')
      else ret (false, client')

-- A round, with the rounds that may follow it. The copy must fit the buffer.
unfoldable pub fill_answer : (Link → M (Bool × Link)) → RecvAnswer → Link → M (Bool × Link)
fill_answer next (received bytes) link =
    let b = link.client.read_buf in
    if leb (length b.bytes + length bytes) b.cap
    then next (record link {
      client = record link.client { read_buf = record b { bytes = b.bytes ++ bytes } };
      arriving = drop (length bytes) link.arriving;
    })
    else crash
fill_answer next peer_closed link = ret (false, link)
fill_answer next recv_interrupted link = next link
fill_answer next recv_blocks link = ret (false, link)
fill_answer next recv_broken link = ret (false, link)

-- `while (client_read_available(client) < need)`, with the steps of the socket.
unfoldable pub fill_loop : List Step → Grants → ℕ → Link → M (Bool × Link)
unfolding read_available fill_room fill_answer
fill_loop [] grant need link =
    if ltb (read_available link.client) need then (λ s. unfinished) else ret (true, link)
fill_loop (step ∷ steps) grant need link =
    let next = fill_loop steps grant need in
    if ltb (read_available link.client) need
    then (do
      (fits, client) ← fill_room grant need link.client
      if fits
          then fill_answer next
              (recv step (client.read_buf.cap - length client.read_buf.bytes) link.arriving)
              (record link { client = client; steps = steps })
          else ret (false, record link { client = client; steps = steps }))
    else ret (true, link)

unfoldable pub client_read_fill : Grants → ℕ → Link → M (Bool × Link)
unfolding fill_loop
client_read_fill grant need link = fill_loop link.steps grant need link

-- -1, with a message.
unfoldable pub give_error : List ℕ → Link → M (Option (Header × List ℕ) × Link)
unfolding set_error
give_error message link = ret (none, record link { client = set_error message link.client })

unfoldable pub after_header :
    Outcome Header
    → (Header → M (Option (Header × List ℕ) × Link))
    → M (Option (Header × List ℕ) × Link)
    → M (Option (Header × List ℕ) × Link)
after_header (ok header) good bad = if ltb max_payload_size header.size then bad else good header
after_header fail good bad = bad
after_header fault good bad = crash
after_header stuck good bad = λ s. unfinished

unfoldable pub after_verify :
    Outcome (Unit {0})
    → M (Option (Header × List ℕ) × Link)
    → M (Option (Header × List ℕ) × Link)
    → M (Option (Header × List ℕ) × Link)
after_verify (ok done) good bad = good
after_verify fail good bad = bad
after_verify fault good bad = crash
after_verify stuck good bad = λ s. unfinished

-- The read offset behind a packet, which an empty buffer resets.
unfoldable pub consume : ℕ → Client → Client
consume size client =
    if client.read_off + size == length client.read_buf.bytes
    then record client { read_off = 0; read_buf = record client.read_buf { bytes = [] } }
    else record client { read_off = client.read_off + size }

-- The payload of a packet that is in the buffer.
abbrev pub payload_at : Client → Header → Outcome (List ℕ)
payload_at client header = read_at client.read_buf.bytes (client.read_off + header_size) header.size

-- The code after the whole packet was read; the body is a block of its own.
unfoldable pub take_body : Grants → Header → Link → M (Option (Header × List ℕ) × Link)
unfolding after_verify verify give_error consume read_at
take_body grant header link = lift (payload_at link.client header) >>= λ payload.
    after_verify (verify link.client.settings header payload)
      (do
        granted ← mem_alloc grant (if header.size == 0 then 1 else header.size)
        if granted
            then ret (
              some (header, payload),
              record link { client = consume (header_size + header.size) link.client },
            )
            else give_error Text.out_of_memory link)
      (give_error Text.integrity_failed link)

unfoldable pub recv_body : Grants → Link → Header → M (Option (Header × List ℕ) × Link)
unfolding take_body give_error client_read_fill
recv_body grant link header = do
  (filled, link') ← client_read_fill grant (header_size + header.size) link
  if filled then take_body grant header link' else give_error Text.read_failed link'

-- `recv_packet` gives the header and the body, or sets an error.
unfoldable pub recv_packet : Grants → Link → M (Option (Header × List ℕ) × Link)
unfolding client_read_fill after_header recv_body give_error
recv_packet grant link = do
  (filled, link') ← client_read_fill grant header_size link
  if filled
      then after_header (header_decode (drop link'.client.read_off link'.client.read_buf.bytes))
          (recv_body grant link') (give_error Text.read_failed link')
      else give_error Text.read_failed link'
