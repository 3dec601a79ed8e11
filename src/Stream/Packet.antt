-- ===== src/Stream/Packet.antt =====
-- One packet on a stream, as src/server.c and src/client.c write it and as they look for it.
pub mod RoundTrip
use wirecall.Common.{
  ℕ, ◌+◌, ◌-◌, ◌%◌, ◌^◌, Bool, List, length, take, drop, ltb, if◌then◌else◌, Option, some, Outcome,
  ok, fail, fault, stuck, ◌>>=◌,
}
use wirecall.Protocol.Header.{Header, header_size, header_encode, header_decode}
use wirecall.Protocol.Buffer.{Buffer, present}
use wirecall.Protocol.Checksum.{ByteOrder}
use wirecall.Protocol.Integrity.{packet_sign_ex, packet_verify_ex}

-- The settings that a server and a client keep, with the byte order of the host.
pub record Settings : Type 0 where
  pub order : ByteOrder
  pub integrity : ℕ
  pub mac_key : List ℕ

-- The initializer of a header, with the length cut to 32 bits.
unfoldable pub new_header : ℕ → ℕ → ℕ → ℕ → ℕ → Header
new_header op flags proc_id payload_len call_id = record {
  op = op;
  flags = flags;
  proc_id = proc_id;
  size = payload_len % 2 ^ 32;
  call_id = call_id;
  checksum = 0;
  mac = 0;
}

unfoldable pub sign : Settings → Header → Buffer → Outcome Header
sign set header payload = packet_sign_ex set.order header payload set.integrity (some set.mac_key)

-- The bytes of the signed header.
unfoldable pub signed_header : Settings → Header → Buffer → Outcome (List ℕ)
unfolding sign
signed_header set header payload = sign set header payload >>= header_encode

-- What the start of a stream holds: not a whole packet yet, no packet of ours, or a header with
-- its payload.
pub data Front : Type 0 where
  partial : Front
  refused : Front
  packet : Header → List ℕ → Front

unfoldable pub with_header : Outcome Header → (Header → Outcome Front) → Outcome Front
with_header (ok header) next = next header
with_header fail next = ok refused
with_header fault next = fault
with_header stuck next = stuck

unfoldable pub verified : Outcome (Unit {0}) → Front → Outcome Front
verified (ok done) front = ok front
verified fail front = ok refused
verified fault front = fault
verified stuck front = stuck

unfoldable pub verify : Settings → Header → List ℕ → Outcome (Unit {0})
verify set header payload =
    packet_verify_ex set.order header (present payload) set.integrity (some set.mac_key)

-- `n` bytes of what was read, from `off` on: a read past the end is a fault.
unfoldable pub read_at : List ℕ → ℕ → ℕ → Outcome (List ℕ)
read_at buf off n = if ltb (length buf) (off + n) then fault else ok (take n (drop off buf))

-- The tests of one round of `parse_available` on the bytes from `off` on.
unfoldable pub take_packet : Settings → List ℕ → Outcome Front
unfolding with_header verified verify read_at
take_packet set buf =
    if ltb (length buf) header_size
    then ok partial
    else with_header (header_decode buf) (λ header.
      if ltb (length buf - header_size) header.size
      then ok partial
      else (read_at buf header_size header.size >>= λ payload.
          verified (verify set header payload) (packet header payload)))
