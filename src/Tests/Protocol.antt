-- ===== src/Tests/Protocol.antt =====
-- Packets, headers and integrity at concrete inputs.
use wirecall.Common.{ℕ, ◌≡◌, ◌↔◌, refl, List, [], ◌∷◌, ◌++◌, some, All, take, arith, ok}
use wirecall.Words.{IsByte, rotl64, put_u64, put_u64_loop, put_u32}
use wirecall.Protocol.Op
use wirecall.Protocol.Header.{
  Header, IsHeader, header_size, header_encode, header_decode, header_bytes, valid_op,
}
use wirecall.Protocol.Header.RoundTrip.{header_decode-header_encode}
use wirecall.Protocol.Header.Decode.{header_decode_iff}
use wirecall.Protocol.Buffer.{present}
use wirecall.Protocol.Checksum.{little, little_value}
use wirecall.Protocol.Mac.{sip_init, sip_finish, sip_flush, push_tail}
use wirecall.Protocol.Mac.Stream.{absorb, absorb_all}
use wirecall.Protocol.Mac.Reference.{siphash}
use wirecall.Protocol.Integrity.{bad_packet, set_integrity, packet_sign_ex, packet_verify_ex}
use wirecall.Protocol.Integrity.Laws.{packet_verify_ex-packet_sign_ex}

abbrev key : List ℕ
key = 0 ∷ 1 ∷ 2 ∷ 3 ∷ 4 ∷ 5 ∷ 6 ∷ 7 ∷ 8 ∷ 9 ∷ 10 ∷ 11 ∷ 12 ∷ 13 ∷ 14 ∷ 15 ∷ []

-- The test vector of the SipHash paper.
siphash_vector :
    siphash key (0 ∷ 1 ∷ 2 ∷ 3 ∷ 4 ∷ 5 ∷ 6 ∷ 7 ∷ 8 ∷ 9 ∷ 10 ∷ 11 ∷ 12 ∷ 13 ∷ 14 ∷ [])
    ≡ 0xa129ca6149be45e5
unfolding siphash absorb absorb_all sip_init sip_finish little_value rotl64 sip_flush push_tail
siphash_vector = refl

abbrev greeting : List ℕ
greeting = 104 ∷ 101 ∷ 108 ∷ 108 ∷ 111 ∷ []

abbrev call : Header
call = record {
  op = Op.rpc;
  flags = 0;
  proc_id = 0x123456789abcdef0;
  size = 5;
  call_id = 7;
  checksum = 0;
  mac = 0;
}

call-IsHeader : IsHeader call
call-IsHeader = record {
  op_byte = omega arith;
  flags_byte = omega arith;
  proc_id_word = omega arith;
  size_word = omega arith;
  call_id_word = omega arith;
  checksum_word = omega arith;
  mac_word = omega arith;
}

abbrev wire : List ℕ
wire =
    1 ∷ 0 ∷ 0x12 ∷ 0x34 ∷ 0x56 ∷ 0x78 ∷ 0x9a ∷ 0xbc ∷ 0xde ∷ 0xf0 ∷ 0 ∷ 0 ∷ 0 ∷ 5 ∷ 0 ∷ 0 ∷ 0 ∷ 0
    ∷ 0 ∷ 0 ∷ 0 ∷ 7 ∷ 0 ∷ 0 ∷ 0 ∷ 0 ∷ 0 ∷ 0 ∷ 0 ∷ 0 ∷ 0 ∷ 0 ∷ 0 ∷ 0 ∷ []

wire-All : All IsByte wire
wire-All = ground arith

call_encoded : header_encode call ≡ ok wire
unfolding header_encode header_bytes valid_op put_u64 put_u64_loop put_u32
call_encoded = refl

header_decode-header_encode_example : header_decode (wire ++ greeting) ≡ ok call
header_decode-header_encode_example =
    header_decode-header_encode call wire greeting call-IsHeader call_encoded

header_decode_iff_example :
    (header_decode wire ≡ ok call) ↔ (header_encode call ≡ ok (take header_size wire))
header_decode_iff_example = header_decode_iff wire call (omega arith) wire-All call-IsHeader

abbrev signed : Header
signed = set_integrity little call (present greeting) 3 (some key)

call-signed : packet_sign_ex little call (present greeting) 3 (some key) ≡ ok signed
unfolding packet_sign_ex bad_packet
call-signed = refl

packet_verify_ex-packet_sign_ex_example :
    packet_verify_ex little signed (present greeting) 3 (some key) ≡ ok tt
packet_verify_ex-packet_sign_ex_example =
    packet_verify_ex-packet_sign_ex little call signed (present greeting) 3 (some key) call-signed
