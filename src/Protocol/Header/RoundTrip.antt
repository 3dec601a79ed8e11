-- ===== src/Protocol/Header/RoundTrip.antt =====
-- `header_encode` followed by `header_decode`, of src/protocol.c.
use wirecall.Common.{ℕ, ◌%◌, ◌^◌, ◌≤◌, true, List, ◌++◌, le→ltb, ok, ◌≡◌, arith, refl, ap, ◌∙◌}
use wirecall.Words.{put_u32, put_u64}
use wirecall.Words.BigEndian.{get_u64-put_u64, get_u32-put_u32}
use wirecall.Protocol.Header.{
  Header, IsHeader, header_bytes, header_encode, header_fields, header_decode, valid_op,
  max_payload_size,
}

header_fields-header_bytes :
    (h : Header) (rest : List ℕ) (op : ℕ)
    → IsHeader h
    → h.size ≤ max_payload_size
    → header_fields op (header_bytes h ++ rest) ≡ ok (record h { op = op })
unfolding header_fields header_bytes put_u64 put_u32
header_fields-header_bytes h rest op v fits =
    let buf = header_bytes h ++ rest in
    rw (
      get_u64-put_u64 buf 2 h.proc_id _ v.proc_id_word refl,
      get_u32-put_u32 buf 10 h.size _ v.size_word refl,
      get_u64-put_u64 buf 14 h.call_id _ v.call_id_word refl,
      get_u32-put_u32 buf 22 h.checksum _ v.checksum_word refl,
      get_u64-put_u64 buf 26 h.mac _ v.mac_word refl,
      le→ltb max_payload_size h.size fits,
    )

pub header_encode-eq-ok :
    (h : Header) (bytes : List ℕ)
    → header_encode h ≡ ok bytes
    → (valid_op (h.op % 2 ^ 8) ≡ true) × (h.size ≤ max_payload_size) × (bytes ≡ header_bytes h)
unfolding header_encode
header_encode-eq-ok h bytes e = ground arith

header_decode-header_bytes :
    (h : Header) (rest : List ℕ)
    → IsHeader h
    → valid_op (h.op % 2 ^ 8) ≡ true
    → h.size ≤ max_payload_size
    → header_decode (header_bytes h ++ rest) ≡ ok h
header_decode-header_bytes h rest v known fits =
    first_test
    ∙ header_fields-header_bytes h rest (h.op % 2 ^ 8) v fits
    ∙ ap (λ o. ok (record h { op = o })) (omega arith)
  where
    first_test :
        header_decode (header_bytes h ++ rest)
        ≡ header_fields (h.op % 2 ^ 8) (header_bytes h ++ rest)
    first_test = unfold header_decode header_bytes in rw known

-- `header_decode` reads back what `header_encode` wrote, whatever follows the 34 bytes.
pub header_decode-header_encode :
    (h : Header) (bytes rest : List ℕ)
    → IsHeader h
    → header_encode h ≡ ok bytes
    → header_decode (bytes ++ rest) ≡ ok h
header_decode-header_encode h bytes rest v e =
    let (known, fits, b) = header_encode-eq-ok h bytes e in
    rw b (header_decode-header_bytes h rest v known fits)
