-- ===== src/Stream/Packet/RoundTrip.antt =====
-- The bytes of a signed packet against the look for a packet, of src/server.c and src/client.c.
use wirecall.Common.{
  [], ◌∷◌, ℕ, ◌+◌, ◌-◌, ◌≤◌, false, List, ◌++◌, length, take, drop, le→ltb, some, ok, ◌≡◌, refl, ap,
  ap₂, ◌∙◌, sym, arith, length-append, take_left, drop_left, >>=-eq-ok,
}
use wirecall.Words.{put_u32, put_u64}
use wirecall.Protocol.Header.{
  Header, IsHeader, header_size, header_encode, header_bytes, header_decode, max_payload_size,
}
use wirecall.Protocol.Header.RoundTrip.{header_decode-header_encode, header_encode-eq-ok}
use wirecall.Protocol.Buffer.{Buffer, present}
use wirecall.Protocol.Integrity.{set_integrity, bad_packet}
use wirecall.Protocol.Integrity.Laws.{packet_sign_ex-eq-ok, packet_verify_ex-packet_sign_ex}
use wirecall.Stream.Packet.{
  Settings, sign, signed_header, packet, with_header, verified, verify, read_at, take_packet,
}

pub length-header_bytes : (h : Header) → length (header_bytes h) ≡ header_size
unfolding header_bytes put_u32 put_u64
length-header_bytes h = refl

-- The header with its integrity fields.
abbrev pub signed_fields : Settings → Header → Buffer → Header
signed_fields set h payload = set_integrity set.order h payload set.integrity (some set.mac_key)

-- What a success of `signed_header` says.
pub record IsSigned (set : Settings) (h : Header) (payload : Buffer) (bytes : List ℕ) : Type 0 where
  pub good : bad_packet h payload set.integrity (some set.mac_key) ≡ false
  pub signs : sign set h payload ≡ ok (signed_fields set h payload)
  pub encoded : header_encode (signed_fields set h payload) ≡ ok bytes
  pub size : length bytes ≡ header_size

pub signed_header-IsSigned :
    (set : Settings) (h : Header) (payload : Buffer) (bytes : List ℕ)
    → signed_header set h payload ≡ ok bytes
    → IsSigned set h payload bytes
unfolding signed_header sign
signed_header-IsSigned set h payload bytes e =
    let (signed, s, n) = >>=-eq-ok (sign set h payload) header_encode bytes e in
    let (good, same) =
      packet_sign_ex-eq-ok set.order h signed payload set.integrity (some set.mac_key) s in
    let encoded : header_encode (signed_fields set h payload) ≡ ok bytes = cc in
    let (known, fits, b) = header_encode-eq-ok (signed_fields set h payload) bytes encoded in
    record {
      good = good;
      signs = cc;
      encoded = encoded;
      size = ap length b ∙ length-header_bytes (signed_fields set h payload);
    }

pub bad_packet_size :
    (h : Header) (payload : List ℕ) (integrity : ℕ) (key : List ℕ)
    → bad_packet h (present payload) integrity (some key) ≡ false
    → (length payload ≤ max_payload_size) × (h.size ≡ length payload)
unfolding bad_packet
bad_packet_size h payload integrity key e = ground arith

-- A front whose tests all pass.
take_packet_lem :
    (set : Settings) (buf : List ℕ) (h : Header) (payload : List ℕ)
    → header_size + h.size ≤ length buf
    → header_decode buf ≡ ok h
    → take h.size (drop header_size buf) ≡ payload
    → verify set h payload ≡ ok tt
    → take_packet set buf ≡ ok (packet h payload)
unfolding take_packet with_header verified read_at
take_packet_lem set buf h payload room decoded same good = rw (
  le→ltb (length buf) header_size (omega (arith, room)),
  decoded,
  le→ltb (length buf - header_size) h.size (omega (arith, room)),
  le→ltb (length buf) (header_size + h.size) room,
  same,
  good,
)

pub set_integrity-size :
    (set : Settings) (h : Header) (payload : Buffer) → (signed_fields set h payload).size ≡ h.size
unfolding set_integrity
set_integrity-size set h payload = refl

-- The front of a stream that starts with a signed header and its payload.
pub take_packet-signed_header :
    (set : Settings) (h : Header) (payload bytes rest : List ℕ)
    → IsHeader (signed_fields set h (present payload))
    → signed_header set h (present payload) ≡ ok bytes
    → take_packet set (bytes ++ (payload ++ rest))
      ≡ ok (packet (signed_fields set h (present payload)) payload)
unfolding sign verify
take_packet-signed_header set h payload bytes rest typed e =
    let s = signed_header-IsSigned set h (present payload) bytes e in
    let size = s.size in
    let signed = signed_fields set h (present payload) in
    let (small, same) = bad_packet_size h payload set.integrity set.mac_key s.good in
    let len : signed.size ≡ length payload = set_integrity-size set h (present payload) ∙ same in
    let after_header : drop header_size (bytes ++ (payload ++ rest)) ≡ payload ++ rest =
      ap (λ k. drop k (bytes ++ (payload ++ rest))) (sym size)
      ∙ drop_left bytes (payload ++ rest) in
    take_packet_lem set (bytes ++ (payload ++ rest)) signed payload
      (omega (arith, length-append bytes (payload ++ rest), length-append payload rest))
      (header_decode-header_encode signed bytes (payload ++ rest) typed s.encoded)
      (ap₂ take len after_header ∙ take_left payload rest)
      (packet_verify_ex-packet_sign_ex set.order h signed (present payload) set.integrity
        (some set.mac_key) s.signs)

-- A header before it is signed, the payload, and the bytes of the signed header.
pub record Sent : Type 0 where
  pub header : Header
  pub payload : List ℕ
  pub bytes : List ℕ

pub record IsSent (set : Settings) (x : Sent) : Type 0 where
  pub typed : IsHeader (signed_fields set x.header (present x.payload))
  pub encoded : signed_header set x.header (present x.payload) ≡ ok x.bytes

abbrev pub wire : List Sent → List ℕ → List ℕ
wire [] tail = tail
wire (x ∷ xs) tail = x.bytes ++ (x.payload ++ wire xs tail)
