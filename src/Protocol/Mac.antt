-- ===== src/Protocol/Mac.antt =====
-- The keyed MAC of src/protocol.c: `sip_round`, `sip_compress`, `sip_update` and
-- `wirecall_packet_mac`.
pub mod Stream
pub mod Reference
use wirecall.Common.{
  ℕ, suc, ◌+◌, ◌-◌, ◌*◌, ◌/◌, ◌%◌, ◌^◌, ◌<◌, bit_or, bit_xor, ◌≡◌, Bool, ◌||◌, List, [], ◌∷◌, ◌++◌,
  length, take, drop, ltb, ◌==◌, if◌then◌else◌, Option, none, some,
}
use wirecall.Words.{put_u32, put_u64, rotl64}
use wirecall.Protocol.Header.{Header, max_payload_size}
use wirecall.Protocol.Buffer.{Buffer, absent, present, buffer_len, contents, dangling}
use wirecall.Protocol.Checksum.{ByteOrder, get_u64_native}

-- The four words `v0`, …, `v3`.
pub record SipWords : Type 0 where
  pub v0 : ℕ
  pub v1 : ℕ
  pub v2 : ℕ
  pub v3 : ℕ

-- All that `sip_update` keeps between two calls.
pub record Sip : Type 0 where
  pub words : SipWords
  pub total_len : ℕ
  pub tail : ℕ
  pub tail_len : ℕ

unfoldable pub sip_round : SipWords → SipWords
sip_round v =
    let a0 = (v.v0 + v.v1) % 2 ^ 64 in
    let a1 = bit_xor (rotl64 v.v1 13) a0 in
    let b0 = rotl64 a0 32 in
    let a2 = (v.v2 + v.v3) % 2 ^ 64 in
    let a3 = bit_xor (rotl64 v.v3 16) a2 in
    let c0 = (b0 + a3) % 2 ^ 64 in
    let b3 = bit_xor (rotl64 a3 21) c0 in
    let b2 = (a2 + a1) % 2 ^ 64 in
    let b1 = bit_xor (rotl64 a1 17) b2 in record { v0 = c0; v1 = b1; v2 = rotl64 b2 32; v3 = b3 }

unfoldable pub sip_compress : SipWords → ℕ → SipWords
unfolding sip_round
sip_compress v m =
    let w = sip_round (sip_round (record v { v3 = bit_xor v.v3 m })) in
    record w { v0 = bit_xor w.v0 m }

-- `*tail |= (uint64_t)*data++ << (*tail_len * 8u); (*tail_len)++;`
unfoldable pub push_tail : Sip → ℕ → Sip
push_tail s b = record s {
  tail = bit_or s.tail (b * 2 ^ (s.tail_len * 8) % 2 ^ 64);
  tail_len = s.tail_len + 1;
}

-- `while (len > 0 && *tail_len < 8u)`, with the bytes that are left.
unfoldable pub sip_fill : Sip → List ℕ → Sip × List ℕ
unfolding push_tail
sip_fill s [] = (s, [])
sip_fill s (b ∷ bs) = if ltb s.tail_len 8 then sip_fill (push_tail s b) bs else (s, b ∷ bs)

unfoldable pub sip_flush : Sip → Sip
unfolding sip_compress
sip_flush s =
    if s.tail_len == 8
    then record s { words = sip_compress s.words s.tail; tail = 0; tail_len = 0 }
    else s

-- `while (len >= 8u)`
unfoldable pub sip_blocks : ByteOrder → SipWords → List ℕ → SipWords × List ℕ
unfolding sip_compress get_u64_native
sip_blocks o v (a ∷ b ∷ c ∷ d ∷ e ∷ f ∷ g ∷ h ∷ rest) =
    sip_blocks o (sip_compress v (get_u64_native o (a ∷ b ∷ c ∷ d ∷ e ∷ f ∷ g ∷ h ∷ []))) rest
sip_blocks o v rest = (v, rest)

-- `while (len > 0)`
unfoldable pub sip_rest : Sip → List ℕ → Sip
unfolding push_tail
sip_rest s [] = s
sip_rest s (b ∷ bs) = sip_rest (push_tail s b) bs

-- The two loops after the pending bytes of an earlier call.
unfoldable pub sip_bulk : ByteOrder → Sip → List ℕ → Sip
unfolding sip_blocks sip_rest
sip_bulk o s bytes =
    let (words, rest) = sip_blocks o s.words bytes in sip_rest (record s { words = words }) rest

unfoldable pub sip_update : ByteOrder → Sip → List ℕ → Sip
unfolding sip_fill sip_flush sip_bulk
sip_update o s bytes =
    let s' = record s { total_len = (s.total_len + length bytes) % 2 ^ 64 } in
    if s'.tail_len == 0
    then sip_bulk o s' bytes
    else (let (filled, rest) = sip_fill s' bytes in sip_bulk o (sip_flush filled) rest)

unfoldable pub sip_init : ByteOrder → List ℕ → Sip
unfolding get_u64_native
sip_init o key =
    let k0 = get_u64_native o (take 8 key) in
    let k1 = get_u64_native o (take 8 (drop 8 key)) in
    record {
      words = record {
        v0 = bit_xor 0x736f6d6570736575 k0;
        v1 = bit_xor 0x646f72616e646f6d k1;
        v2 = bit_xor 0x6c7967656e657261 k0;
        v3 = bit_xor 0x7465646279746573 k1;
      };
      total_len = 0;
      tail = 0;
      tail_len = 0;
    }

unfoldable pub sip_finish : Sip → ℕ
unfolding sip_compress sip_round
sip_finish s =
    let v = sip_compress s.words (bit_or s.tail (s.total_len * 2 ^ 56 % 2 ^ 64)) in
    let w = sip_round (sip_round (sip_round (sip_round (record v { v2 = bit_xor v.v2 0xff })))) in
    bit_xor (bit_xor (bit_xor w.v0 w.v1) w.v2) w.v3

-- The 26 bytes of the header that the MAC covers, and the four of the length of the payload.
unfoldable pub mac_meta : Header → ℕ → List ℕ
mac_meta h payload_len =
    (h.op % 2 ^ 8)
    ∷ h.flags
    ∷ (put_u64 h.proc_id
        ++ (put_u32 h.size
            ++ (put_u64 h.call_id ++ (put_u32 h.checksum ++ put_u32 (payload_len % 2 ^ 32)))))

unfoldable pub packet_mac : ByteOrder → Header → Buffer → Option (List ℕ) → ℕ
packet_mac o header payload none = 0
packet_mac o header payload (some key) =
    if dangling payload || ltb max_payload_size (buffer_len payload)
    then 0
    else (let meta = sip_update o (sip_init o key) (mac_meta header (buffer_len payload)) in
        sip_finish (sip_update o meta (contents payload)))
