-- ===== src/Client/Call/Answered.antt =====
-- `wirecall_client_recv_response` of src/client.c on the packet that a server sends.
use wirecall.Common.{
  ℕ, ◌+◌, ◌≤◌, true, false, not, List, ◌++◌, map, All, length, ◌==◌, ==→eq, if◌then◌else◌, Option,
  none, some, ◌≡◌, inl, inr, refl, sym, ap, ◌∙◌, subst, arith, Bool-cases,
}
use wirecall.Words.{IsByte}
use wirecall.Memory.{Grants, Mem, ◌>>=◌, ◌>>◌, after, ret, count_block, mem_free}
use wirecall.Memory.Ends.{IsHost, Ends, Ends-after, Ends-attempt, mem_free_lem}
use wirecall.Protocol.Op
use wirecall.Protocol.Header.{Header, header_size}
use wirecall.Protocol.Buffer.{present}
use wirecall.Protocol.Integrity.{set_integrity}
use wirecall.Payload.Value.{Datum, IsDatum, represent, encode_all}
use wirecall.Payload.Decode.{no_array, payload_decode}
use wirecall.Payload.Decode.Blocks.{IsArray, blocks, no_array-IsArray, values_free_lem}
use wirecall.Payload.Decode.Loop.{payload_decode-Ends}
use wirecall.Stream.Packet.{Settings}
use wirecall.Stream.Packet.RoundTrip.{Sent, IsSent, signed_fields}
use wirecall.Client.{Client, Link, set_error}
use wirecall.Client.Receive.{recv_packet}
use wirecall.Client.Receive.Fill.{IsClient}
use wirecall.Client.Receive.Transfer.{stream, Feeds}
use wirecall.Client.Receive.Packet.{Received, recv_packet-Received}
use wirecall.Client.Call.{
  Response, no_response, error_message, store_message, response_of, after_packet, recv_response,
}

-- The values of a success are what the payload encodes, under the id of the packet.
pub record Success (header : Header) (payload : List ℕ) (r : Response) : Type 0 where
  pub op : header.op ≡ Op.response
  pub call_id : r.call_id ≡ header.call_id
  pub data_of : List Datum
  pub valid : All IsDatum data_of
  pub wire : payload ≡ encode_all data_of
  pub items : r.values.items ≡ map represent data_of

-- What the code between the packet and the free of its body leaves.
pub record Responded (header : Header) (body : List ℕ) (link : Link) (s : Mem) (r : Response × Link)
    (s' : Mem) : Type 0 where
  pub array : IsArray r.0.values
  pub success : r.0.success ≡ true → Success header body r.0
  pub failure : r.0.success ≡ false → r.0.values ≡ no_array
  pub same : r.1 ≡ record link { client = record link.client { error = r.1.client.error } }
  pub live : s'.live ≡ s.live + blocks r.0.values

refused :
    (header : Header) (body : List ℕ) (link : Link) (s : Mem) (error : List ℕ) (s' : Mem)
    → s'.live ≡ s.live
    → Responded header body link s
        (
          record { success = false; call_id = header.call_id; values = no_array },
          record link { client = record link.client { error = error } },
        )
        s'
refused header body link s error s' live = record {
  array = no_array-IsArray;
  success = λ e. cc;
  failure = λ e. refl;
  same = refl;
  live = omega (arith, live);
}

store_message_lem :
    (message : Option (List ℕ)) (client : Client)
    → store_message message client ≡ record client { error = (store_message message client).error }
unfolding store_message set_error
store_message_lem none client = refl
store_message_lem (some message) client = refl

response_of-Responded :
    (base : ℕ) (grant : Grants) (header : Header) (body : List ℕ) (link : Link) (s : Mem)
    → All IsByte body
    → Ends base (Responded header body link s) (response_of grant header body link s)
unfolding response_of set_error
response_of-Responded base grant header body link s all =
    elim (Bool-cases (header.op == Op.response)) [
      | inl response ↦ rw response (
          Ends-attempt base s.live _ _ (payload_decode grant (present body) s) _ _
            (payload_decode-Ends grant (present body) s all)
            (λ values s' p.
              (let valid = p.valid in
                let items = p.items in
                let wire = p.wire in
                let array = p.array in
                let live = p.live in
                record {
                  array = array;
                  success = λ e. record {
                    op = ==→eq header.op Op.response response;
                    call_id = refl;
                    data_of = p.data_of;
                    valid = valid;
                    wire = wire;
                    items = items;
                  };
                  failure = λ e. cc;
                  same = refl;
                  live = live;
                }))
            (λ s' live. refused header body link s _ s' live))
      | inr other ↦ elim (Bool-cases (header.op == Op.error)) [
        | inr odd ↦ rw (other, odd) (refused header body link s _ s refl)
        | inl error ↦
            rw (other, error)
              (Ends-attempt base s.live _ _ (payload_decode grant (present body) s) _ _
                (payload_decode-Ends grant (present body) s all)
                (λ values s' p.
                  rw
                    (
                      values_free_lem values s.live s' p.array p.live,
                      store_message_lem (error_message values.items) link.client,
                    )
                    (refused header body link s _ (record s' { live = s.live }) refl))
                (λ s' live. refused header body link s _ s' live))
      ]
    ]

-- What `wirecall_client_recv_response` gives where the packet `x` is the next on the stream.
pub record Answered (grant : Grants) (x : Sent) (rest : List ℕ) (link : Link) (s : Mem)
    (r : Response × Link) (s' : Mem) : Type 0 where
  pub valid : IsClient r.1.client
  pub array : IsArray r.0.values
  pub success : r.0.success ≡ true → Success x.header x.payload r.0 × (stream r.1 ≡ rest)
  pub failure : r.0.success ≡ false → r.0.values ≡ no_array
  pub live :
      s'.live + count_block link.client.read_buf.block
      ≡ s.live + (count_block r.1.client.read_buf.block + blocks r.0.values)

-- Signing keeps the operation and the call id.
Success-signed :
    (set : Settings) (x : Sent) (r : Response)
    → Success (signed_fields set x.header (present x.payload)) x.payload r
    → Success x.header x.payload r
unfolding set_integrity
Success-signed set x r p =
    let op = p.op in
    let call_id = p.call_id in
    let valid = p.valid in
    let wire = p.wire in
    let items = p.items in
    record {
      op = op;
      call_id = call_id;
      data_of = p.data_of;
      valid = valid;
      wire = wire;
      items = items;
    }

module _ (base : ℕ) (grant : Grants) (x : Sent) (rest : List ℕ) (link : Link) (s : Mem)
    (owns : count_block link.client.read_buf.block ≤ s.live) where
  abbrev header : Header
  header = signed_fields link.client.settings x.header (present x.payload)

  -- The body is freed, whatever was in it.
  after_body :
      (link' : Link) (s' : Mem) (r : Response × Link) (s'' : Mem)
      → Received grant link.client.settings x rest link s (some (header, x.payload), link') s'
      → stream link' ≡ rest
      → Responded header x.payload link' s' r s''
      → Ends base (Answered grant x rest link s) ((mem_free true >> ret r) s'')
  after_body link' s' (r, link'') s'' q flow p =
      let live = q.live in
      let live' = p.live in
      let same = p.same in
      let failure = p.failure in
      let array = p.array in
      let buf = q.valid.buf in
      let off = q.valid.off in
      let block = ap (λ (l : Link). count_block l.client.read_buf.block) same in
      rw (mem_free_lem true s'' (omega arith)) record {
        valid =
            subst (λ (l : Link). IsClient l.client) (sym same) (record { buf = buf; off = off });
        array = array;
        success =
            λ e. (Success-signed link.client.settings x r (p.success e), ap stream same ∙ flow);
        failure = failure;
        live = omega (arith, block);
      }

  after_packet-Answered :
      (o : Option (Header × List ℕ)) (link' : Link) (s' : Mem)
      → All IsByte x.payload
      → Received grant link.client.settings x rest link s (o, link') s'
      → Ends base (Answered grant x rest link s) (after_packet grant (o, link') s')
  unfolding after_packet
  after_packet-Answered none link' s' all q =
      let live = q.live in
      let buf = q.valid.buf in
      let off = q.valid.off in
      record {
        valid = record { buf = buf; off = off };
        array = no_array-IsArray;
        success = λ e. cc;
        failure = λ e. refl;
        live = omega arith;
      }
  after_packet-Answered (some (h, body)) link' s' all q = elim q.either [
    | inl nothing ↦ cc
    | inr (e, flow) ↦
        subst
          (λ (o : Option (Header × List ℕ)).
            Received grant link.client.settings x rest link s (o, link') s'
            → Ends base (Answered grant x rest link s) (after_packet grant (o, link') s'))
          (sym e)
          (λ q'.
            Ends-after base _ _ (response_of grant header x.payload link' s') _
              (response_of-Responded base grant header x.payload link' s' all)
              (λ r s'' p. after_body link' s' r s'' q' flow p))
          q
  ]

recv_response_open :
    (grant : Grants) (link : Link) (s : Mem)
    → link.client.has_fd ≡ true
    → recv_response grant link s ≡ after (recv_packet grant link s) (after_packet grant)
unfolding recv_response
recv_response_open grant link s open_fd =
    ap
      (λ b.
        (if not b then ret (no_response, link) else (recv_packet grant link >>= after_packet grant))
          s)
      open_fd

-- Where the next packet on the stream was signed with the client's settings, whole or still to arrive in
-- pieces, `wirecall_client_recv_response` returns. A success is of a packet that is a response: it
-- gives the packet's call id and the values that its payload encodes, and leaves the stream
-- behind the packet. A failure gives no values. The body is freed: newly live are at most the
-- values and the block of the read buffer.
pub recv_response-Answered :
    (base : ℕ) (grant : Grants) (x : Sent) (rest : List ℕ) (link : Link) (counts : List ℕ) (s : Mem)
    → IsHost grant
    → IsClient link.client
    → link.client.has_fd ≡ true
    → count_block link.client.read_buf.block ≤ s.live
    → IsSent link.client.settings x
    → All IsByte x.payload
    → stream link ≡ x.bytes ++ (x.payload ++ rest)
    → Feeds link counts (header_size + length x.payload)
    → Ends base (Answered grant x rest link s) (recv_response grant link s)
recv_response-Answered base grant x rest link counts s host v open_fd owns sent all e feeds =
    subst (Ends base (Answered grant x rest link s)) (sym (recv_response_open grant link s open_fd))
      (Ends-after base _ _ (recv_packet grant link s) _
        (recv_packet-Received base grant x rest link counts s host v sent e feeds)
        (λ r s' q. after_packet-Answered base grant x rest link s owns r.0 r.1 s' all q))
