-- ===== src/Tests/Stream.antt =====
-- Signed packets, a client's stream and the server's loop over packets at concrete inputs.
use wirecall.Common.{ℕ, ◌^◌, true, false, List, [], ◌∷◌, ◌++◌, map, leb, ok, ◌≡◌, refl, arith}
use wirecall.Words.{put_u32, put_u64, put_u64_loop, rotl64, mix64}
use wirecall.Memory.{Grants, Mem, ret}
use wirecall.Memory.Ends.{IsHost, Ends}
use wirecall.Protocol.Op
use wirecall.Protocol.Header.{Header, header_encode, header_bytes, valid_op}
use wirecall.Protocol.Buffer.{present}
use wirecall.Protocol.Checksum.{
  little, packet_checksum-IsU32, packet_checksum, packet_seed, cheap_hash_update, hash_tail,
  hash_block, get_u64_native, little_value, scramble,
}
use wirecall.Protocol.Integrity.{set_integrity, bad_packet, packet_sign_ex}
use wirecall.Stream.Packet.{Settings, new_header, sign, signed_header, take_packet}
use wirecall.Stream.Packet.RoundTrip.{Sent, IsSent, wire}
use wirecall.Stream.Socket.{gives}
use wirecall.Server.Parse.{Handler, Parsed, parse}
use wirecall.Server.Parse.Sent.{parse-wire, deliver}
use wirecall.Server.Parse.Safe.{parse-Consumed, Consumed}
use wirecall.Client.{Client, Link}
use wirecall.Client.Receive.{recv_packet}
use wirecall.Client.Receive.Fill.{IsClient}
use wirecall.Client.Receive.Transfer.{Feeds}
use wirecall.Client.Receive.Packet.{Received, recv_packet-Received}
use wirecall.Client.Call.{recv_response}
use wirecall.Client.Call.Answered.{Answered, recv_response-Answered}

-- An allocator that grants a megabyte.
abbrev megabyte : Grants
megabyte = λ n size. leb size (2 ^ 20)

megabyte-IsHost : IsHost megabyte
megabyte-IsHost n size h = ground (arith, h)

abbrev plain : Settings
plain = record { order = little; integrity = 1; mac_key = [] }

-- A response with a null value.
abbrev pong_header : Header
pong_header = new_header Op.response 0 7 1 5

abbrev pong_bytes : List ℕ
pong_bytes =
    4 ∷ 0 ∷ 0 ∷ 0 ∷ 0 ∷ 0 ∷ 0 ∷ 0 ∷ 0 ∷ 7 ∷ 0 ∷ 0 ∷ 0 ∷ 1 ∷ 0 ∷ 0 ∷ 0 ∷ 0 ∷ 0 ∷ 0 ∷ 0 ∷ 5 ∷ 26 ∷ 130
    ∷ 57 ∷ 184 ∷ 0 ∷ 0 ∷ 0 ∷ 0 ∷ 0 ∷ 0 ∷ 0 ∷ 0 ∷ []

abbrev pong : Sent
pong = record { header = pong_header; payload = 0 ∷ []; bytes = pong_bytes }

pong_signed : signed_header plain pong_header (present (0 ∷ [])) ≡ ok pong_bytes
unfolding new_header signed_header sign packet_sign_ex bad_packet header_encode valid_op
    header_bytes set_integrity packet_checksum packet_seed mix64 rotl64 cheap_hash_update hash_tail
    hash_block get_u64_native little_value scramble put_u32 put_u64 put_u64_loop
pong_signed = refl

pong-IsSent : IsSent plain pong
unfolding new_header set_integrity
pong-IsSent = record {
  typed = record {
    op_byte = omega arith;
    flags_byte = omega arith;
    proc_id_word = omega arith;
    size_word = omega arith;
    call_id_word = omega arith;
    checksum_word = packet_checksum-IsU32 little pong_header (present (0 ∷ []));
    mac_word = omega arith;
  };
  encoded = pong_signed;
}

-- A handler that keeps the call ids.
abbrev note_call : Handler (List ℕ)
note_call header payload ids = ret (true, header.call_id ∷ ids)

-- Half of the header, and the rest with the start of another packet.
abbrev first_half : List ℕ
first_half = 4 ∷ 0 ∷ 0 ∷ 0 ∷ 0 ∷ 0 ∷ 0 ∷ 0 ∷ 0 ∷ 7 ∷ 0 ∷ 0 ∷ 0 ∷ 1 ∷ 0 ∷ 0 ∷ 0 ∷ []

abbrev second_half : List ℕ
second_half = 0 ∷ 0 ∷ 0 ∷ 0 ∷ 5 ∷ 26 ∷ 130 ∷ 57 ∷ 184 ∷ 0 ∷ 0 ∷ 0 ∷ 0 ∷ 0 ∷ 0 ∷ 0 ∷ 0 ∷ 0 ∷ 4 ∷ []

abbrev start : Mem
start = record { requests = 0; live = 0 }

-- The rest of the half packet.
abbrev half_read : Parsed (List ℕ)
half_read = record { closing = false; left = first_half; state = [] }

parse-wire_example :
    parse plain note_call (wire (pong ∷ pong ∷ []) (4 ∷ [])) [] start
    ≡ deliver plain note_call (pong ∷ pong ∷ []) (4 ∷ []) [] start
parse-wire_example =
    parse-wire plain note_call (4 ∷ []) (unfold take_packet in refl) (pong ∷ pong ∷ []) [] start
      (pong-IsSent, (pong-IsSent, tt))

parse-Consumed_example :
    Ends 0
      (Consumed plain (λ ids s. s.live ≡ 0) (first_half ++ second_half))
      (parse plain note_call (first_half ++ second_half) [] start)
parse-Consumed_example =
    parse-Consumed plain note_call 0 (λ ids s. s.live ≡ 0) (λ h payload ids s e all. e)
      (first_half ++ second_half) [] start (omega arith) refl

-- A client that has half of the header and gets the rest by calls of at most 20 bytes.
abbrev waiting : Client
waiting = record {
  has_fd = true;
  next_call_id = 6;
  read_buf = record { bytes = 9 ∷ first_half; cap = 64; block = true };
  read_off = 1;
  settings = plain;
  error = [];
}

abbrev calls : List ℕ
calls = 20 ∷ 20 ∷ 20 ∷ 20 ∷ 20 ∷ 20 ∷ 20 ∷ 20 ∷ 20 ∷ 20 ∷ 20 ∷ 20 ∷ 20 ∷ 20 ∷ 20 ∷ 20 ∷ 20 ∷ 20 ∷ []

abbrev half_link : Link
half_link = record { client = waiting; arriving = second_half; steps = map gives calls }

link-IsClient : IsClient waiting
link-IsClient = record {
  buf = record { fits = omega arith; limit = omega arith; empty = λ e. cc };
  off = omega arith;
}

link-Feeds : Feeds half_link calls 35
link-Feeds = record {
  steps = refl;
  positive = omega arith;
  enough = omega arith;
  arrives = omega arith;
}

abbrev one_block : Mem
one_block = record { requests = 0; live = 1 }

recv_packet-Received_example :
    Ends 0
      (Received megabyte plain pong (4 ∷ []) half_link one_block)
      (recv_packet megabyte half_link one_block)
recv_packet-Received_example =
    recv_packet-Received 0 megabyte pong (4 ∷ []) half_link calls one_block megabyte-IsHost
      link-IsClient pong-IsSent refl link-Feeds

recv_response-Answered_example :
    Ends 0
      (Answered megabyte pong (4 ∷ []) half_link one_block)
      (recv_response megabyte half_link one_block)
recv_response-Answered_example =
    recv_response-Answered 0 megabyte pong (4 ∷ []) half_link calls one_block megabyte-IsHost
      link-IsClient refl (omega arith) pong-IsSent (omega arith) refl link-Feeds
