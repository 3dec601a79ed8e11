-- ===== src/Server/Parse/More.antt =====
-- The front of a stream of src/server.c, and how it answers when more bytes arrive.
use wirecall.Common.{
  take_append, drop_append, ℕ, ◌+◌, ◌-◌, ◌≤◌, ◌<◌, List, ◌++◌, length, take, drop, ltb, le→ltb,
  ltb→le, ltb→lt, lt→ltb, ok, fail, ◌≡◌, refl, ap, ◌∙◌, sym, arith, length-append, All, All-append,
  Bool-cases, inl, inr, ◌⊎◌, take-append-drop, append_assoc, length-drop,
}
use wirecall.Words.{IsByte}
use wirecall.Protocol.Header.{Header, IsHeader, header_size, header_encode, header_decode}
use wirecall.Protocol.Header.RoundTrip.{header_decode-header_encode}
use wirecall.Protocol.Header.Decode.{header_decode_cases}
use wirecall.Protocol.Integrity.{packet_verify_ex}
use wirecall.Stream.Packet.{
  Settings, Front, partial, refused, packet, with_header, verified, verify, read_at, take_packet,
}

-- A decoded header is that of the first 34 bytes.
decode_more_ok :
    (a b : List ℕ) (h : Header)
    → IsHeader h
    → header_encode h ≡ ok (take header_size a)
    → header_decode (a ++ b) ≡ ok h
decode_more_ok a b h v e =
    ap (λ t. header_decode (t ++ b)) (sym (take-append-drop header_size a))
    ∙ ap header_decode (append_assoc (take header_size a) (drop header_size a) b)
    ∙ header_decode-header_encode h (take header_size a) (drop header_size a ++ b) v e

-- Bytes behind the first 34 do not change what `header_decode` gives.
decode_more :
    (a b : List ℕ)
    → header_size ≤ length a
    → All IsByte a
    → All IsByte b
    → header_decode (a ++ b) ≡ header_decode a
decode_more a b n pa pb = elim (header_decode_cases a n pa) [
  | inr (h, d, v, e) ↦ decode_more_ok a b h v e ∙ sym d
  | inl bad ↦
      elim (header_decode_cases (a ++ b) (omega (arith, length-append a b))
        (All-append IsByte a b pa pb)) [
          | inl worse ↦ worse ∙ sym bad
          | inr (h, d, v, e) ↦
              let same : header_encode h ≡ ok (take header_size a) =
                e ∙ ap ok (take_append header_size a b n) in
              let good =
                ap header_decode (sym (take-append-drop header_size a))
                ∙ header_decode-header_encode h (take header_size a) (drop header_size a) v same in
              cc
        ]
]

-- What `take_packet` answers on a buffer of bytes.
pub data Fronted (set : Settings) (buf : List ℕ) : Type 0 where
  waiting : take_packet set buf ≡ ok partial → Fronted set buf
  bad :
      ((more : List ℕ) → All IsByte more → take_packet set (buf ++ more) ≡ ok refused)
      → Fronted set buf
  whole :
      (h : Header) (payload : List ℕ)
      → ((more : List ℕ) → All IsByte more → take_packet set (buf ++ more) ≡ ok (packet h payload))
      → header_size + h.size ≤ length buf
      → payload ≡ take h.size (drop header_size buf)
      → Fronted set buf

verify_cases :
    (set : Settings) (h : Header) (payload : List ℕ)
    → (verify set h payload ≡ ok tt) ⊎ (verify set h payload ≡ fail)
unfolding verify packet_verify_ex
verify_cases set h payload = ground arith

-- The answers of the code after the header.
module _ (set : Settings) (buf : List ℕ) (h : Header) (n : header_size ≤ length buf)
    (d : header_decode buf ≡ ok h) where
  take_packet-short : length buf < header_size + h.size → take_packet set buf ≡ ok partial
  unfolding take_packet with_header
  take_packet-short short = rw (
    le→ltb (length buf) header_size n,
    d,
    lt→ltb (length buf - header_size) h.size (omega (arith, short, n)),
  )

  pub take_packet-verified :
      header_size + h.size ≤ length buf
      → take_packet set buf ≡ (
          let payload = take h.size (drop header_size buf) in
          verified (verify set h payload) (packet h payload))
  unfolding take_packet with_header read_at
  take_packet-verified room = rw (
    le→ltb (length buf) header_size n,
    d,
    le→ltb (length buf - header_size) h.size (omega (arith, room, n)),
    le→ltb (length buf) (header_size + h.size) room,
  )

-- A payload that is whole stays the same when more bytes arrive.
payload_more :
    (buf more : List ℕ) (size : ℕ)
    → header_size + size ≤ length buf
    → take size (drop header_size (buf ++ more)) ≡ take size (drop header_size buf)
payload_more buf more size room =
    ap (take size) (drop_append header_size buf more (omega (arith, room)))
    ∙ take_append size (drop header_size buf) more
        (omega (arith, room, length-drop header_size buf))

whole_more :
    (set : Settings) (buf : List ℕ) (h : Header) (front : Front)
    → header_size + h.size ≤ length buf
    → ((more : List ℕ) → All IsByte more → header_decode (buf ++ more) ≡ ok h)
    → (let payload = take h.size (drop header_size buf) in
        verified (verify set h payload) (packet h payload))
      ≡ ok front
    → (more : List ℕ) → All IsByte more
    → take_packet set (buf ++ more) ≡ ok front
whole_more set buf h front room d e more all =
    let len = length-append buf more in
    take_packet-verified set (buf ++ more) h (omega (arith, room, len)) (d more all)
      (omega (arith, room, len))
    ∙ ap (λ payload. verified (verify set h payload) (packet h payload))
        (payload_more buf more h.size room)
    ∙ e

front_of :
    (set : Settings) (buf : List ℕ) (h : Header)
    → header_size ≤ length buf
    → header_decode buf ≡ ok h
    → ((more : List ℕ) → All IsByte more → header_decode (buf ++ more) ≡ ok h)
    → Fronted set buf
unfolding verified
front_of set buf h n here d = elim (Bool-cases (ltb (length buf) (header_size + h.size))) [
  | inl short ↦ waiting (take_packet-short set buf h n here (ltb→lt _ _ short))
  | inr room ↦
      let payload = take h.size (drop header_size buf) in
      let enough = ltb→le (length buf) (header_size + h.size) room in
      elim (verify_cases set h payload) [
        | inl good ↦
            whole h payload (whole_more set buf h (packet h payload) enough d (rw good refl)) enough
              refl
        | inr worse ↦ bad (whole_more set buf h refused enough d (rw worse refl))
      ]
]

take_packet-none :
    (set : Settings) (buf : List ℕ) → length buf < header_size → take_packet set buf ≡ ok partial
unfolding take_packet
take_packet-none set buf short = rw (lt→ltb (length buf) header_size short)

take_packet-undecoded :
    (set : Settings) (buf : List ℕ)
    → header_size ≤ length buf
    → header_decode buf ≡ fail
    → take_packet set buf ≡ ok refused
unfolding take_packet with_header
take_packet-undecoded set buf n e = rw (le→ltb (length buf) header_size n, e)

-- A buffer of bytes has one of the three fronts; the last two do not depend on later bytes.
pub front_cases : (set : Settings) (buf : List ℕ) → All IsByte buf → Fronted set buf
front_cases set buf all = elim (Bool-cases (ltb (length buf) header_size)) [
  | inl short ↦ waiting (take_packet-none set buf (ltb→lt (length buf) header_size short))
  | inr room ↦
      let n = ltb→le (length buf) header_size room in
      elim (header_decode_cases buf n all) [
        | inl unknown ↦ bad (λ more p.
            take_packet-undecoded set (buf ++ more) (omega (arith, n, length-append buf more))
              (decode_more buf more n all p ∙ unknown))
        | inr (h, d, v, e) ↦ front_of set buf h n d (λ more p. decode_more buf more n all p ∙ d)
      ]
]
