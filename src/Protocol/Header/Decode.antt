-- ===== src/Protocol/Header/Decode.antt =====
-- `header_decode` on any buffer of bytes.
use wirecall.Common.{
  ℕ, ◌+◌, ◌%◌, ◌^◌, ◌≤◌, true, not, List, ◌∷◌, ◌++◌, ltb, le→ltb, if◌then◌else◌, ok, fail, ◌≡◌,
  arith, length, All, drop, take, refl, ◌↔◌, take-append-take, ◌⊎◌, inl, inr, Bool-cases, ap, ◌∙◌,
  take-append-drop, drop-drop, ltb→le,
}
use wirecall.Words.{IsByte}
use wirecall.Words.Window.{
  word, get_u64-word, get_u32-word, put_u64-word, put_u32-word, word-IsU64, word-IsU32,
}
use wirecall.Protocol.Header.RoundTrip.{header_decode-header_encode}
use wirecall.Protocol.Header.{
  Header, IsHeader, header_bytes, header_encode, header_fields, header_decode, valid_op,
  max_payload_size, header_size,
}

-- The header whose fields stand in the buffer behind its first byte.
read_header : ℕ → ℕ → List ℕ → Header
read_header op flags buf = record {
  op = op;
  flags = flags;
  proc_id = word 8 2 buf;
  size = word 4 10 buf;
  call_id = word 8 14 buf;
  checksum = word 4 22 buf;
  mac = word 8 26 buf;
}

header_fields_lem :
    (op x flags : ℕ) (body : List ℕ)
    → let buf = x ∷ flags ∷ body in
      All IsByte buf
      → 32 ≤ length body
      → header_fields op buf
        ≡ (if ltb max_payload_size (word 4 10 buf) then fail else ok (read_header op flags buf))
unfolding header_fields read_header
header_fields_lem op x flags body all h =
    let buf = x ∷ flags ∷ body in
    rw (
      get_u64-word buf all 2 (omega arith),
      get_u32-word buf all 10 (omega arith),
      get_u64-word buf all 14 (omega arith),
      get_u32-word buf all 22 (omega arith),
      get_u64-word buf all 26 (omega arith),
    )

rejoin :
    (n m at : ℕ) (body : List ℕ)
    → take n (drop at body) ++ take m (drop (at + n) body) ≡ take (n + m) (drop at body)
rejoin n m at body = rw (← drop-drop at n body) (take-append-take n m (drop at body))

rejoin_fields :
    (body : List ℕ)
    → take 8 body
        ++ (take 4 (drop 8 body)
            ++ (take 8 (drop 12 body) ++ (take 4 (drop 20 body) ++ take 8 (drop 24 body))))
      ≡ take 32 body
rejoin_fields body =
    rw (rejoin 4 8 20 body, rejoin 8 12 12 body, rejoin 4 20 8 body) (rejoin 8 24 0 body)

header_bytes-read_header :
    (x flags : ℕ) (body : List ℕ)
    → let buf = x ∷ flags ∷ body in
      All IsByte buf → 32 ≤ length body → header_bytes (read_header x flags buf) ≡ take 34 buf
unfolding header_bytes read_header
header_bytes-read_header x flags body all h =
    let buf = x ∷ flags ∷ body in
    rw
      (
        put_u64-word buf all 2 (omega arith),
        put_u32-word buf all 10 (omega arith),
        put_u64-word buf all 14 (omega arith),
        put_u32-word buf all 22 (omega arith),
        put_u64-word buf all 26 (omega arith),
      )
      (ground (arith, rejoin_fields body))

read_header-IsHeader :
    (x flags : ℕ) (body : List ℕ)
    → let buf = x ∷ flags ∷ body in
      All IsByte buf → 32 ≤ length body → IsHeader (read_header x flags buf)
unfolding read_header
read_header-IsHeader x flags body all h =
    let buf = x ∷ flags ∷ body in
    record {
      op_byte = all.0;
      flags_byte = all.1.0;
      proc_id_word = word-IsU64 buf all 2 (omega arith);
      size_word = word-IsU32 buf all 10 (omega arith);
      call_id_word = word-IsU64 buf all 14 (omega arith);
      checksum_word = word-IsU32 buf all 22 (omega arith);
      mac_word = word-IsU64 buf all 26 (omega arith);
    }

header_decode_lem :
    (x flags : ℕ) (body : List ℕ)
    → let buf = x ∷ flags ∷ body in
      All IsByte buf
      → 32 ≤ length body
      → header_decode buf ≡ (
          if not (valid_op x)
          then fail
          else if ltb max_payload_size (word 4 10 buf)
          then fail
          else ok (read_header x flags buf))
unfolding header_decode
header_decode_lem x flags body all h = rw (header_fields_lem x x flags body all h)

header_encode-read_header :
    (x flags : ℕ) (body : List ℕ)
    → let buf = x ∷ flags ∷ body in
      All IsByte buf
      → 32 ≤ length body
      → valid_op x ≡ true
      → word 4 10 buf ≤ max_payload_size
      → header_encode (read_header x flags buf) ≡ ok (take header_size buf)
unfolding header_encode
header_encode-read_header x flags body all h known fits =
    let p : x % 2 ^ 8 ≡ x = omega arith in
    let size = word 4 10 (x ∷ flags ∷ body) in
    unfold read_header in
    rw (p, known, le→ltb max_payload_size size fits)
      (ap ok (header_bytes-read_header x flags body all h))

-- On a buffer of at least 34 bytes `header_decode` reads nothing outside it and returns: with -1,
-- or with a header whose fields have their C types and from which `header_encode` writes the
-- first 34 bytes of the buffer again.
pub header_decode_cases :
    (buf : List ℕ)
    → header_size ≤ length buf
    → All IsByte buf
    → (header_decode buf ≡ fail)
      ⊎ ((h : Header) × (header_decode buf ≡ ok h)
          × IsHeader h
          × (header_encode h ≡ ok (take header_size buf)))
header_decode_cases (x ∷ flags ∷ body) n all =
    let buf = x ∷ flags ∷ body in
    let size = word 4 10 buf in
    let room : 32 ≤ length body = omega arith in
    elim (Bool-cases (valid_op x)) [
      | inr unknown ↦ inl (header_decode_lem x flags body all room ∙ rw unknown refl)
      | inl known ↦ elim (Bool-cases (ltb max_payload_size size)) [
        | inl big ↦ inl (header_decode_lem x flags body all room ∙ rw (known, big) refl)
        | inr fits ↦ inr (
          read_header x flags buf,
          header_decode_lem x flags body all room ∙ rw (known, fits) refl,
          read_header-IsHeader x flags body all room,
          header_encode-read_header x flags body all room known (ltb→le max_payload_size size fits),
        )
      ]
    ]
header_decode_cases _ n all = absurd (omega arith)

-- On a buffer of at least 34 bytes `header_decode` gives a header of the C types exactly when
-- `header_encode` writes the first 34 bytes of the buffer for that header.
pub header_decode_iff :
    (buf : List ℕ) (h : Header)
    → header_size ≤ length buf
    → All IsByte buf
    → IsHeader h
    → (header_decode buf ≡ ok h) ↔ (header_encode h ≡ ok (take header_size buf))
header_decode_iff buf h n all v = (
  λ d. elim (header_decode_cases buf n all) [ inl e ↦ cc | inr (h', d', v', e') ↦ cc ],
  λ e.
      rw (← take-append-drop header_size buf)
        (header_decode-header_encode h (take header_size buf) (drop header_size buf) v e),
)
