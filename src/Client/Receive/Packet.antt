-- ===== src/Client/Receive/Packet.antt =====
-- `recv_packet` of src/client.c on a stream of packets as src/server.c and src/client.c write them.
use wirecall.Common.{
  drop_left, ℕ, ◌+◌, ◌≤◌, Bool, true, false, List, ◌++◌, length, drop, le→ltb, ◌==◌, if◌then◌else◌,
  Option, none, some, ok, ◌≡◌, ◌⊎◌, inl, inr, refl, sym, ap, ap₂, ◌∙◌, arith, append_assoc,
  length-append, length-drop,
}
use wirecall.Memory.{Grants, Mem, count_block, mem_alloc}
use wirecall.Memory.Ends.{IsHost, Ample, Ends, Ends-after, mem_alloc-Ample}
use wirecall.Protocol.Header.{Header, header_size, header_decode, max_payload_size}
use wirecall.Protocol.Buffer.{present}
use wirecall.Stream.Packet.{Settings, verify}
use wirecall.Stream.Packet.RoundTrip.{Sent, IsSent, signed_fields}
use wirecall.Client.{Client, Link, set_error}
use wirecall.Client.Text
use wirecall.Client.Receive.{
  client_read_fill, give_error, after_header, after_verify, take_body, recv_body, recv_packet,
}
use wirecall.Client.Receive.Fill.{IsClient, unread}
use wirecall.Client.Receive.Transfer.{stream, Feeds, Filled}
use wirecall.Client.Receive.Loop.{client_read_fill-Filled}
use wirecall.Client.Receive.Facts.{cut, known_of}
use wirecall.Client.Receive.Consume.{payload_at_lem, unread-consume, consume-IsClient, consume_rest}

-- What `recv_packet` gives where the packet `x` is the next on the stream.
pub record Received (grant : Grants) (set : Settings) (x : Sent) (rest : List ℕ) (link : Link)
    (s : Mem) (r : Option (Header × List ℕ) × Link) (s' : Mem) : Type 0 where
  pub valid : IsClient r.1.client
  pub either :
      (r.0 ≡ none)
      ⊎ ((r.0 ≡ some (signed_fields set x.header (present x.payload), x.payload))
          × (stream r.1 ≡ rest))
  pub sure : Ample grant → r.0 ≡ some (signed_fields set x.header (present x.payload), x.payload)
  pub settings : r.1.client.settings ≡ link.client.settings
  pub live :
      s'.live + count_block link.client.read_buf.block
      ≡ s.live + (count_block r.1.client.read_buf.block + (elim r.0 [ none ↦ 0 | some body ↦ 1 ]))

-- A failure.
error-Received :
    (grant : Grants) (x : Sent) (rest message : List ℕ) (start link : Link) (s s' : Mem) (base : ℕ)
    → IsClient link.client
    → ¬ Ample grant
    → link.client.settings ≡ start.client.settings
    → s'.live + count_block start.client.read_buf.block
      ≡ s.live + count_block link.client.read_buf.block
    → Ends base (Received grant start.client.settings x rest start s) (give_error message link s')
unfolding give_error set_error
error-Received grant x rest message start link s s' base v poor same live =
    let buf = v.buf in
    let off = v.off in
    record {
      valid = record { buf = buf; off = off };
      either = inl refl;
      sure = λ a. absurd (poor a);
      settings = same;
      live = omega arith;
    }

module _ (base : ℕ) (grant : Grants) (x : Sent) (rest : List ℕ) (start : Link) (s : Mem)
    (v : IsSent start.client.settings x) where
  abbrev header : Header
  header = signed_fields start.client.settings x.header (present x.payload)

  take_body-Received :
      (link : Link) (u : List ℕ) (s' : Mem)
      → IsClient link.client
      → link.client.settings ≡ start.client.settings
      → unread link.client ≡ x.bytes ++ (x.payload ++ u)
      → u ++ link.arriving ≡ rest
      → s'.live + count_block start.client.read_buf.block
        ≡ s.live + count_block link.client.read_buf.block
      → Ends base
          (Received grant start.client.settings x rest start s)
          (take_body grant header link s')
  unfolding take_body after_verify
  take_body-Received link u s' ok_link same front back live =
      let facts = known_of start.client.settings x v in
      let size = facts.size in
      let len = facts.len in
      let small = facts.small in
      let n = header_size + header.size in
      let long = ap length front ∙ length-append x.bytes (x.payload ++ u) in
      let inner = length-append x.payload u in
      let behind : drop n (unread link.client) ≡ u =
        ap₂ drop (omega (arith, len, size, length-append x.bytes x.payload))
          (front ∙ sym (append_assoc x.bytes x.payload u))
        ∙ drop_left (x.bytes ++ x.payload) u in
      let payload = payload_at_lem link.client header x.bytes x.payload u front size len in
      let checks = ap (λ (set : Settings). verify set header x.payload) same ∙ facts.verifies in
      let (kept, block) = consume_rest n link.client in
      rw (payload, checks)
        (Ends-after base _ _ (mem_alloc grant (if header.size == 0 then 1 else header.size) s') _
          (mem_alloc-Ample base grant (if header.size == 0 then 1 else header.size) s')
          elim [
            | false ↦ λ s'' (sure, alive).
                error-Received grant x rest Text.out_of_memory start link s s'' base ok_link
                  (λ a. (let e = sure a (ground (arith, len, small)) in cc)) same
                  (omega (arith, live, alive))
            | true ↦ λ s'' (sure, alive). record {
              valid =
                  consume-IsClient n link.client ok_link (omega (arith, long, inner, len, size));
              either = inr (
                refl,
                ap (λ t. t ++ link.arriving) (unread-consume n link.client ∙ behind) ∙ back,
              );
              sure = λ a. refl;
              settings = kept ∙ same;
              live = omega (arith, live, alive, ap count_block block);
            }
          ])

  -- What is there once the whole packet is.
  whole_front :
      (link : Link)
      → stream link ≡ x.bytes ++ (x.payload ++ rest)
      → header_size + header.size ≤ length (unread link.client)
      → (u : List ℕ) × (unread link.client ≡ x.bytes ++ (x.payload ++ u))
        × (u ++ link.arriving ≡ rest)
  whole_front link e enough =
      let facts = known_of start.client.settings x v in
      let size = facts.size in
      let len = facts.len in
      let (front, back) =
        cut (unread link.client) link.arriving x.bytes (x.payload ++ rest) e
          (omega (arith, enough, size)) in
      let w = drop (length x.bytes) (unread link.client) in
      let (front', back') =
        cut w link.arriving x.payload rest back
          (omega (arith, enough, size, len, length-drop (length x.bytes) (unread link.client))) in
      (drop (length x.payload) w, front ∙ ap (◌++◌ x.bytes) front', back')

  recv_body-Received :
      (link : Link) (counts : List ℕ) (s' : Mem)
      → IsHost grant
      → IsClient link.client
      → link.client.settings ≡ start.client.settings
      → stream link ≡ x.bytes ++ (x.payload ++ rest)
      → Feeds link counts (header_size + header.size)
      → s'.live + count_block start.client.read_buf.block
        ≡ s.live + count_block link.client.read_buf.block
      → Ends base
          (Received grant start.client.settings x rest start s)
          (recv_body grant link header s')
  unfolding recv_body
  recv_body-Received link counts s' host ok_link same e feeds live =
      let facts = known_of start.client.settings x v in
      let len = facts.len in
      let small = facts.small in
      let n = header_size + header.size in
      Ends-after base _ _ (client_read_fill grant n link s') _
        (client_read_fill-Filled base counts grant n link s' host ok_link
          (omega (arith, len, small)) feeds)
        (λ r s'' q. go r.0 r.1 s'' q)
    where
      go :
          (b : Bool) (link' : Link) (s'' : Mem)
          → Filled grant (header_size + header.size) link counts s' (b, link') s''
          → Ends base
              (Received grant start.client.settings x rest start s)
              ((if b then take_body grant header link' else give_error Text.read_failed link') s'')
      go false link' s'' q =
          let facts = known_of start.client.settings x v in
          let len = facts.len in
          let small = facts.small in
          let live' = q.live in
          error-Received grant x rest Text.read_failed start link' s s'' base q.valid
            (λ a. (let e' = q.sure a (omega (arith, len, small)) in cc))
            (ap (λ (c : Client). c.settings) q.same ∙ same) (omega (arith, live, live'))
      go true link' s'' q =
          let live' = q.live in
          let (u, front, back) = whole_front link' (q.bytes ∙ e) (q.whole refl) in
          take_body-Received link' u s'' q.valid (ap (λ (c : Client). c.settings) q.same ∙ same)
            front back (omega (arith, live, live'))

-- Where the next packet on the stream is one that was signed and encoded with the client's settings,
-- whole or still to arrive in pieces of any size, `recv_packet` returns. It gives the header
-- and the payload that were signed and leaves the stream behind the packet; only for want of
-- memory it gives -1. Newly live are at most the body and the read buffer's block.
pub recv_packet-Received :
    (base : ℕ) (grant : Grants) (x : Sent) (rest : List ℕ) (link : Link) (counts : List ℕ) (s : Mem)
    → IsHost grant
    → IsClient link.client
    → IsSent link.client.settings x
    → stream link ≡ x.bytes ++ (x.payload ++ rest)
    → Feeds link counts (header_size + length x.payload)
    → Ends base (Received grant link.client.settings x rest link s) (recv_packet grant link s)
unfolding recv_packet after_header
recv_packet-Received base grant x rest link counts s host ok_link v e feeds =
    let enough = feeds.enough in
    let arrives = feeds.arrives in
    let steps = feeds.steps in
    let positive = feeds.positive in
    Ends-after base _ _ (client_read_fill grant header_size link s) _
      (client_read_fill-Filled base counts grant header_size link s host ok_link (omega arith)
        record {
          steps = steps;
          positive = positive;
          enough = omega (arith, enough);
          arrives = omega (arith, arrives);
        })
      (λ r s' q. go r.0 r.1 s' q)
  where
    go :
        (b : Bool) (link' : Link) (s' : Mem)
        → Filled grant header_size link counts s (b, link') s'
        → Ends base (Received grant link.client.settings x rest link s) (
            (if b
                then after_header
                    (header_decode (drop link'.client.read_off link'.client.read_buf.bytes))
                    (recv_body grant link')
                    (give_error Text.read_failed link')
                else give_error Text.read_failed link')
              s')
    go false link' s' q =
        let live = q.live in
        error-Received grant x rest Text.read_failed link link' s s' base q.valid
          (λ a. (let e' = q.sure a (omega arith) in cc)) (ap (λ (c : Client). c.settings) q.same)
          live
    go true link' s' q =
        let facts = known_of link.client.settings x v in
        let size = facts.size in
        let len = facts.len in
        let small = facts.small in
        let flow = q.bytes ∙ e in
        let h = signed_fields link.client.settings x.header (present x.payload) in
        let front =
          (cut (unread link'.client) link'.arriving x.bytes (x.payload ++ rest) flow
            (omega (arith, size, q.whole refl))).0 in
        let decoded : header_decode (unread link'.client) ≡ ok h =
          ap header_decode front ∙ facts.decodes _ in
        let live = q.live in
        let enough = feeds.enough in
        let arrives = feeds.arrives in
        rw (decoded, le→ltb max_payload_size h.size (omega (arith, len, small)))
          (recv_body-Received base grant x rest link s v link' q.counts s' host q.valid
            (ap (λ (c : Client). c.settings) q.same) flow
            record {
              steps = q.steps;
              positive = q.positive;
              enough = omega (arith, enough, len, q.left refl);
              arrives = omega (arith, ap length q.bytes, arrives, len);
            }
            live)
