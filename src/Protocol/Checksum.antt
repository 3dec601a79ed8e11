-- ===== src/Protocol/Checksum.antt =====
-- The packet checksum of src/protocol.c: `packet_seed`, `cheap_hash_update` and
-- `wirecall_packet_checksum`. The code copies eight bytes into a word by `memcpy`, so the
-- checksum depends on the byte order of the host, which is an argument here.
use wirecall.Common.{
  ℕ, ◌+◌, ◌-◌, ◌*◌, ◌/◌, ◌%◌, ◌^◌, bit_or, bit_xor, ◌||◌, List, [], ◌∷◌, length, ltb, if◌then◌else◌,
  arith,
}
use wirecall.Words.{IsU32, rotl64, mix64}
use wirecall.Words.BigEndian.{value_from}
use wirecall.Protocol.Header.{Header, max_payload_size}
use wirecall.Protocol.Buffer.{Buffer, buffer_len, contents, dangling}

pub data ByteOrder : Type 0 where
  little big : ByteOrder

-- The number that bytes write, least significant first.
unfoldable pub little_value : List ℕ → ℕ
little_value [] = 0
little_value (b ∷ bs) = b + 2 ^ 8 * little_value bs

-- `get_u64_native` and `sip_load64`: at most eight bytes, copied to the front of a zeroed word.
unfoldable pub get_u64_native : ByteOrder → List ℕ → ℕ
get_u64_native little bs = little_value bs
get_u64_native big bs = value_from 0 bs * 2 ^ (8 * (8 - length bs))

unfoldable pub packet_seed : Header → ℕ
packet_seed h =
    let meta =
      bit_or (bit_or (h.op % 2 ^ 8 * 2 ^ 56 % 2 ^ 64) (h.flags * 2 ^ 48 % 2 ^ 64))
        (h.size * 2 ^ 16 % 2 ^ 64) in
    mix64 (
      bit_xor (bit_xor (bit_xor 0x9e3779b97f4a7c15 meta) (rotl64 h.proc_id 17))
        (rotl64 h.call_id 41))

-- `hash = rotl64(hash, 27) * 0x3c79ac492ba7b653 + 0x1c69b3f74ac4ae35`
unfoldable pub scramble : ℕ → ℕ
scramble hash = (rotl64 hash 27 * 0x3c79ac492ba7b653 + 0x1c69b3f74ac4ae35) % 2 ^ 64

unfoldable pub hash_block : ByteOrder → ℕ → List ℕ → ℕ
unfolding scramble
hash_block o hash block =
    scramble (bit_xor hash (mix64 ((get_u64_native o block + 0x9e3779b97f4a7c15) % 2 ^ 64)))

unfoldable pub hash_tail : ByteOrder → ℕ → List ℕ → ℕ
unfolding scramble
hash_tail o hash tail =
    if ltb 0 (length tail)
    then scramble
        (bit_xor hash (mix64 (bit_xor (get_u64_native o tail) (length tail * 2 ^ 56 % 2 ^ 64))))
    else hash

unfoldable pub cheap_hash_update : ByteOrder → ℕ → List ℕ → ℕ
unfolding hash_block hash_tail
cheap_hash_update o hash (a ∷ b ∷ c ∷ d ∷ e ∷ f ∷ g ∷ h ∷ rest) =
    cheap_hash_update o (hash_block o hash (a ∷ b ∷ c ∷ d ∷ e ∷ f ∷ g ∷ h ∷ [])) rest
cheap_hash_update o hash tail = mix64 (hash_tail o hash tail)

unfoldable pub packet_checksum : ByteOrder → Header → Buffer → ℕ
unfolding packet_seed cheap_hash_update
packet_checksum o header payload =
    if dangling payload || ltb max_payload_size (buffer_len payload)
    then 0
    else (let seed = bit_xor (packet_seed header) 0xa0761d6478bd642f in
        let hash = cheap_hash_update o seed (contents payload) in
        bit_xor hash (hash / 2 ^ 32) % 2 ^ 32)

pub packet_checksum-IsU32 :
    (o : ByteOrder) (h : Header) (p : Buffer) → IsU32 (packet_checksum o h p)
unfolding packet_checksum
packet_checksum-IsU32 o h p = ground arith
