-- ===== src/Protocol/Integrity.antt =====
-- `wirecall_packet_sign_ex`, `wirecall_packet_verify_ex` and their defaults, of src/protocol.c.
pub mod Laws
use wirecall.Common.{
  ℕ, ◌+◌, ◌^◌, Bool, true, false, not, ◌&&◌, ◌||◌, List, ltb, ◌==◌, if◌then◌else◌, bit_and, Option,
  none, some, Outcome, ok, fail,
}
use wirecall.Protocol.Header.{Header, max_payload_size}
use wirecall.Protocol.Buffer.{Buffer, buffer_len, dangling}
use wirecall.Protocol.Checksum.{ByteOrder, packet_checksum}
use wirecall.Protocol.Mac.{packet_mac}

abbrev pub integrity_none : ℕ
integrity_none = 0

abbrev pub integrity_checksum : ℕ
integrity_checksum = 1

abbrev pub integrity_mac : ℕ
integrity_mac = 2

abbrev pub integrity_default : ℕ
integrity_default = integrity_checksum

-- `integrity & flag` as a C condition.
abbrev pub has_flag : ℕ → ℕ → Bool
has_flag integrity flag = not (bit_and integrity flag == 0)

abbrev pub is_null : Option (List ℕ) → Bool
is_null none = true
is_null (some key) = false

-- The arguments that both functions refuse.
unfoldable pub bad_packet : Header → Buffer → ℕ → Option (List ℕ) → Bool
bad_packet header payload integrity key =
    dangling payload
    || (ltb max_payload_size (buffer_len payload)
        || (not (header.size == buffer_len payload)
            || (has_flag integrity integrity_mac && is_null key)))

-- The two assignments: the MAC covers the checksum that has just been stored.
unfoldable pub set_integrity : ByteOrder → Header → Buffer → ℕ → Option (List ℕ) → Header
set_integrity o header payload integrity key =
    let sum =
      if has_flag integrity integrity_checksum then packet_checksum o header payload else 0 in
    let summed = record header { checksum = sum } in
    record summed {
      mac = if has_flag integrity integrity_mac then packet_mac o summed payload key else 0;
    }

unfoldable pub packet_sign_ex : ByteOrder → Header → Buffer → ℕ → Option (List ℕ) → Outcome Header
packet_sign_ex o header payload integrity key =
    if bad_packet header payload integrity key
    then fail
    else ok (set_integrity o header payload integrity key)

unfoldable pub packet_verify_ex :
    ByteOrder → Header → Buffer → ℕ → Option (List ℕ) → Outcome (Unit {0})
packet_verify_ex o header payload integrity key =
    if bad_packet header payload integrity key
    then fail
    else if has_flag integrity integrity_checksum
        && not (packet_checksum o header payload == header.checksum)
    then fail
    else if has_flag integrity integrity_mac && not (packet_mac o header payload key == header.mac)
    then fail
    else ok tt

unfoldable pub packet_sign : ByteOrder → Header → Buffer → Outcome Header
packet_sign o header payload = packet_sign_ex o header payload integrity_default none

unfoldable pub packet_verify : ByteOrder → Header → Buffer → Outcome (Unit {0})
packet_verify o header payload = packet_verify_ex o header payload integrity_default none
