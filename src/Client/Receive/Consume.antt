-- ===== src/Client/Receive/Consume.antt =====
-- The end of `recv_packet` of src/client.c: the payload in the buffer, and the read offset.
use wirecall.Common.{
  take_left, drop_left, ℕ, ◌+◌, ◌≤◌, List, [], ◌++◌, length, take, drop, ◌==◌, ==→eq, ◌≡◌, inl, inr,
  refl, sym, ap, ap₂, ◌∙◌, arith, Bool-cases, length-drop, drop-drop, append-nil, ok, le→ltb,
  length-append,
}
use wirecall.Protocol.Header.{Header, header_size}
use wirecall.Stream.Packet.{read_at}
use wirecall.Client.{Client}
use wirecall.Client.Receive.{consume, payload_at}
use wirecall.Client.Receive.Fill.{IsClient, unread}

payload_bytes :
    (client : Client) (h : Header) (bytes payload u : List ℕ)
    → unread client ≡ bytes ++ (payload ++ u)
    → length bytes ≡ header_size
    → h.size ≡ length payload
    → take h.size (drop (client.read_off + header_size) client.read_buf.bytes) ≡ payload
payload_bytes client h bytes payload u e size len =
    ap₂ take len (
      sym (drop-drop client.read_off header_size client.read_buf.bytes)
      ∙ ap₂ drop (sym size) e
      ∙ drop_left bytes (payload ++ u))
    ∙ take_left payload u

pub payload_at_lem :
    (client : Client) (h : Header) (bytes payload u : List ℕ)
    → unread client ≡ bytes ++ (payload ++ u)
    → length bytes ≡ header_size
    → h.size ≡ length payload
    → payload_at client h ≡ ok payload
unfolding read_at
payload_at_lem client h bytes payload u e size len =
    let front = ap length e in
    let whole = length-append bytes (payload ++ u) in
    let inner = length-append payload u in
    let dropped = length-drop client.read_off client.read_buf.bytes in
    let room : client.read_off + header_size + h.size ≤ length client.read_buf.bytes =
      omega arith in
    rw (le→ltb (length client.read_buf.bytes) (client.read_off + header_size + h.size) room)
      (ap ok (payload_bytes client h bytes payload u e size len))

pub unread-consume : (n : ℕ) (client : Client) → unread (consume n client) ≡ drop n (unread client)
unfolding consume
unread-consume n client =
    let moved = sym (drop-drop client.read_off n client.read_buf.bytes) in
    elim (Bool-cases (client.read_off + n == length client.read_buf.bytes)) [
      | inr some_left ↦ rw some_left moved
      | inl all ↦ rw all (
          sym (
            drop_all_of (client.read_off + n) client.read_buf.bytes
              (==→eq (client.read_off + n) (length client.read_buf.bytes) all))
          ∙ moved)
    ]
  where
    drop_all_of : (n : ℕ) (bs : List ℕ) → n ≡ length bs → drop n bs ≡ []
    drop_all_of n bs e =
        ap (λ k. drop k bs) e ∙ ap (drop (length bs)) (sym (append-nil bs)) ∙ drop_left bs []

pub consume-IsClient :
    (n : ℕ) (client : Client)
    → IsClient client
    → n ≤ length (unread client)
    → IsClient (consume n client)
unfolding consume
consume-IsClient n client v h =
    let buf = v.buf in
    let limit = v.buf.limit in
    let empty = v.buf.empty in
    let off = v.off in
    let len = length-drop client.read_off client.read_buf.bytes in
    elim (Bool-cases (client.read_off + n == length client.read_buf.bytes)) [
      | inl all ↦ rw all record {
        buf = record { fits = omega arith; limit = limit; empty = empty };
        off = omega arith;
      }
      | inr some_left ↦ rw some_left record { buf = buf; off = omega arith }
    ]

pub consume_rest :
    (n : ℕ) (client : Client)
    → ((consume n client).settings ≡ client.settings)
      × ((consume n client).read_buf.block ≡ client.read_buf.block)
unfolding consume
consume_rest n client = elim (Bool-cases (client.read_off + n == length client.read_buf.bytes)) [
  | inl all ↦ rw all (refl, refl)
  | inr some_left ↦ rw some_left (refl, refl)
]
