-- ===== src/Server/Parse/Sent.antt =====
-- `parse_available` of src/server.c on packets as `queue_packet` and the client's `send_packet` write
-- them.
use wirecall.Common.{
  ℕ, zero, suc, ◌+◌, ◌<◌, Bool, false, List, [], ◌∷◌, ◌++◌, length, drop, ok, ◌≡◌, sym, ap, ◌∙◌,
  arith, length-append, All, append_assoc, drop_left,
}
use wirecall.Memory.{Mem, M, ◌>>=◌, after}
use wirecall.Protocol.Buffer.{present}
use wirecall.Protocol.Header.{header_size}
use wirecall.Stream.Packet.{Settings, partial, take_packet}
use wirecall.Stream.Packet.RoundTrip.{
  Sent, IsSent, wire, signed_fields, take_packet-signed_header, signed_header-IsSigned,
  set_integrity-size, bad_packet_size,
}
use wirecall.Server.Parse.{Handler, Parsed, stop, go_on, parse_loop, parse}
use wirecall.Server.Parse.Split.{after_same, whole_round, waiting_round, go_on_same}

-- The packets handled one after the other, up to the first that the handler refuses.
pub deliver :
    {State : Type 0} → Settings → Handler State → List Sent → List ℕ → State → M (Parsed State)
deliver set handle [] tail state = stop false tail state
deliver set handle (x ∷ xs) tail state =
    handle (signed_fields set x.header (present x.payload)) x.payload state >>= λ r.
    go_on (wire (x ∷ xs) tail) (deliver set handle xs tail r.1) r

-- Behind the first packet.
wire_rest :
    (set : Settings) (x : Sent) (rest : List ℕ)
    → IsSent set x
    → (drop
          (header_size + (signed_fields set x.header (present x.payload)).size)
          (x.bytes ++ (x.payload ++ rest))
        ≡ rest)
      × (length x.bytes ≡ header_size)
wire_rest set x rest v =
    let s = signed_header-IsSigned set x.header (present x.payload) x.bytes v.encoded in
    let size = s.size in
    let (small, same) = bad_packet_size x.header x.payload set.integrity set.mac_key s.good in
    let len = set_integrity-size set x.header (present x.payload) ∙ same in
    (
      ap (λ k. drop k (x.bytes ++ (x.payload ++ rest)))
            (omega (arith, len, size, length-append x.bytes x.payload))
          ∙ ap (drop (length (x.bytes ++ x.payload))) (sym (append_assoc x.bytes x.payload rest))
          ∙ drop_left (x.bytes ++ x.payload) rest,
      size,
    )

module _ {State : Type 0} (set : Settings) (handle : Handler State) (tail : List ℕ)
    (ends : take_packet set tail ≡ ok partial) where
  parse_loop-wire :
      (fuel : ℕ) (xs : List Sent) (state : State) (s : Mem)
      → All (IsSent set) xs
      → length (wire xs tail) < fuel
      → parse_loop fuel set handle (wire xs tail) state s ≡ deliver set handle xs tail state s
  unfolding deliver
  parse_loop-wire zero xs state s v h = absurd (omega (arith, h))
  parse_loop-wire (suc fuel) [] state s v h = waiting_round set handle fuel tail state s ends
  parse_loop-wire (suc fuel) (x ∷ xs) state s (v, vs) h =
      let rest = wire xs tail in
      let (left, size) = wire_rest set x rest v in
      let signed = signed_fields set x.header (present x.payload) in
      whole_round set handle fuel (wire (x ∷ xs) tail) state s signed x.payload
        (take_packet-signed_header set x.header x.payload x.bytes rest v.typed v.encoded)
      ∙ ap
          (λ t.
            after (handle signed x.payload state s) (λ (r : Bool × State).
              go_on (wire (x ∷ xs) tail) (parse_loop fuel set handle t r.1) r))
          left
      ∙ after_same (handle signed x.payload state s) _ _ (λ r s'.
        go_on_same set handle (wire (x ∷ xs) tail) (parse_loop fuel set handle rest)
          (deliver set handle xs tail) r s'
          (λ state' s''. parse_loop-wire fuel xs state' s'' vs (
            omega (
              arith,
              h,
              size,
              length-append x.bytes (x.payload ++ rest),
              length-append x.payload rest,
            ))))

  -- On a stream of signed packets that ends in an incomplete one, `parse_available` hands the
  -- handler each packet with the header and the payload that were signed, in order, up to the first
  -- that the handler refuses, and keeps the incomplete rest.
  pub parse-wire :
      (xs : List Sent) (state : State) (s : Mem)
      → All (IsSent set) xs
      → parse set handle (wire xs tail) state s ≡ deliver set handle xs tail state s
  unfolding parse
  parse-wire xs state s v = parse_loop-wire (suc (length (wire xs tail))) xs state s v (omega arith)
