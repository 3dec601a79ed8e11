-- ===== src/Client/Receive/Facts.antt =====
-- What src/client.c can rely on of a packet that was signed, and of the stream that it is on.
use wirecall.Common.{
  drop_append, take_append, take_left, drop_left, ℕ, ◌≤◌, List, ◌++◌, length, take, drop, some, ok,
  ◌≡◌, sym, ap, ◌∙◌, take-append-drop,
}
use wirecall.Protocol.Header.{header_size, header_decode, max_payload_size}
use wirecall.Protocol.Header.RoundTrip.{header_decode-header_encode}
use wirecall.Protocol.Buffer.{present}
use wirecall.Protocol.Integrity.Laws.{packet_verify_ex-packet_sign_ex}
use wirecall.Stream.Packet.{Settings, sign, verify}
use wirecall.Stream.Packet.RoundTrip.{
  Sent, IsSent, signed_fields, signed_header-IsSigned, set_integrity-size, bad_packet_size,
}

-- Two ways to cut a list.
pub cut :
    {A : Type 0} (xs ys bs cs : List A)
    → xs ++ ys ≡ bs ++ cs
    → length bs ≤ length xs
    → (xs ≡ bs ++ drop (length bs) xs) × (drop (length bs) xs ++ ys ≡ cs)
cut xs ys bs cs e h = (
  sym (take-append-drop (length bs) xs)
      ∙ ap (λ t. t ++ drop (length bs) xs)
          (sym (take_append (length bs) xs ys h) ∙ ap (take (length bs)) e ∙ take_left bs cs),
  sym (drop_append (length bs) xs ys h) ∙ ap (drop (length bs)) e ∙ drop_left bs cs,
)

-- What is known of a packet that was sent.
pub record Facts (set : Settings) (x : Sent) : Type 0 where
  pub size : length x.bytes ≡ header_size
  pub len : (signed_fields set x.header (present x.payload)).size ≡ length x.payload
  pub small : length x.payload ≤ max_payload_size
  pub verifies : verify set (signed_fields set x.header (present x.payload)) x.payload ≡ ok tt
  pub decodes :
      (rest : List ℕ)
      → header_decode (x.bytes ++ rest) ≡ ok (signed_fields set x.header (present x.payload))

pub known_of : (set : Settings) (x : Sent) → IsSent set x → Facts set x
unfolding sign verify
known_of set x v =
    let s = signed_header-IsSigned set x.header (present x.payload) x.bytes v.encoded in
    let signed = signed_fields set x.header (present x.payload) in
    let (small, same) = bad_packet_size x.header x.payload set.integrity set.mac_key s.good in
    record {
      size = s.size;
      len = set_integrity-size set x.header (present x.payload) ∙ same;
      small = small;
      verifies =
          packet_verify_ex-packet_sign_ex set.order x.header signed (present x.payload)
            set.integrity (some set.mac_key) s.signs;
      decodes = λ rest. header_decode-header_encode signed x.bytes rest v.typed s.encoded;
    }
