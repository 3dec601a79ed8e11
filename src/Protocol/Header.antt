-- ===== src/Protocol/Header.antt =====
-- The packet header of include/wirecall/protocol.h and its codec in src/protocol.c.
pub mod RoundTrip
pub mod Decode
use wirecall.Common.{
  ℕ, ◌+◌, ◌*◌, ◌%◌, ◌^◌, ◌≤◌, ◌<◌, Bool, true, false, not, ◌||◌, List, [], ◌∷◌, ◌++◌, ltb, ◌==◌,
  if◌then◌else◌, Outcome, ok, fail, ◌>>=◌, ◌≡◌,
}
use wirecall.Protocol.Op
use wirecall.Words.{IsByte, IsU32, IsU64, byte_at, put_u32, put_u64, get_u32, get_u64}

abbrev pub header_size : ℕ
header_size = 34

abbrev pub max_payload_size : ℕ
max_payload_size = 1024 * 1024

abbrev pub flag_none : ℕ
flag_none = 0

pub record Header : Type 0 where
  pub op : ℕ
  pub flags : ℕ
  pub proc_id : ℕ
  pub size : ℕ
  pub call_id : ℕ
  pub checksum : ℕ
  pub mac : ℕ

unfoldable pub valid_op : ℕ → Bool
valid_op op =
    op == Op.rpc
    || (op == Op.ping || (op == Op.disconnect || (op == Op.response || op == Op.error)))

-- The fields hold values of their C types.
pub record IsHeader (h : Header) : Type 0 where
  pub op_byte : IsByte h.op
  pub flags_byte : IsByte h.flags
  pub proc_id_word : IsU64 h.proc_id
  pub size_word : IsU32 h.size
  pub call_id_word : IsU64 h.call_id
  pub checksum_word : IsU32 h.checksum
  pub mac_word : IsU64 h.mac

-- The 34 bytes that the stores of `header_encode` write.
unfoldable pub header_bytes : Header → List ℕ
header_bytes h =
    (h.op % 2 ^ 8)
    ∷ h.flags
    ∷ (put_u64 h.proc_id
        ++ (put_u32 h.size ++ (put_u64 h.call_id ++ (put_u32 h.checksum ++ put_u64 h.mac))))

unfoldable pub header_encode : Header → Outcome (List ℕ)
header_encode h =
    if not (valid_op (h.op % 2 ^ 8)) || ltb max_payload_size h.size
    then fail
    else ok (header_bytes h)

-- The reads of `header_decode` after its first test.
unfoldable pub header_fields : ℕ → List ℕ → Outcome Header
header_fields op buf = do
  flags ← byte_at buf 1
  proc_id ← get_u64 buf 2
  size ← get_u32 buf 10
  call_id ← get_u64 buf 14
  checksum ← get_u32 buf 22
  mac ← get_u64 buf 26
  if ltb max_payload_size size
      then fail
      else ok (record {
        op = op;
        flags = flags;
        proc_id = proc_id;
        size = size;
        call_id = call_id;
        checksum = checksum;
        mac = mac;
      })

unfoldable pub header_decode : List ℕ → Outcome Header
header_decode buf = do op ← byte_at buf 0; if not (valid_op op) then fail else header_fields op buf
