-- ===== src/Protocol/Integrity/Laws.antt =====
-- Signing and verifying against one another.
use wirecall.Common.{
  ℕ, true, false, List, Option, none, some, ok, ◌≡◌, ◌↔◌, ◌⊎◌, inl, inr, Bool, ◌∙◌, arith, refl,
}
use wirecall.Protocol.Header.{Header}
use wirecall.Protocol.Buffer.{Buffer}
use wirecall.Protocol.Checksum.{ByteOrder, packet_checksum}
use wirecall.Protocol.Mac.{packet_mac, mac_meta}
use wirecall.Protocol.Integrity.{
  bad_packet, set_integrity, packet_sign_ex, packet_verify_ex, has_flag, integrity_checksum,
  integrity_mac,
}

-- The checksum covers neither of the two integrity fields.
packet_checksum_fields :
    (o : ByteOrder) (h : Header) (p : Buffer) (sum mac : ℕ)
    → packet_checksum o (record h { checksum = sum; mac = mac }) p ≡ packet_checksum o h p
unfolding packet_checksum
packet_checksum_fields o h p sum mac = refl

-- Nor does the MAC cover itself.
packet_mac_field :
    (o : ByteOrder) (h : Header) (p : Buffer) (mac : ℕ) (key : Option (List ℕ))
    → packet_mac o (record h { mac = mac }) p key ≡ packet_mac o h p key
unfolding packet_mac mac_meta
packet_mac_field o h p mac none = refl
packet_mac_field o h p mac (some key) = refl

pub packet_sign_ex-eq-ok :
    (o : ByteOrder) (h signed : Header) (p : Buffer) (integrity : ℕ) (key : Option (List ℕ))
    → packet_sign_ex o h p integrity key ≡ ok signed
    → (bad_packet h p integrity key ≡ false) × (signed ≡ set_integrity o h p integrity key)
unfolding packet_sign_ex
packet_sign_ex-eq-ok o h signed p integrity key e = ground arith

bad_packet-set_integrity :
    (o : ByteOrder) (h : Header) (p : Buffer) (integrity : ℕ) (key : Option (List ℕ))
    → bad_packet (set_integrity o h p integrity key) p integrity key ≡ bad_packet h p integrity key
unfolding bad_packet set_integrity
bad_packet-set_integrity o h p integrity key = refl

set_integrity-checksum :
    (o : ByteOrder) (h : Header) (p : Buffer) (integrity : ℕ) (key : Option (List ℕ))
    → has_flag integrity integrity_checksum ≡ true
    → packet_checksum o (set_integrity o h p integrity key) p
      ≡ (set_integrity o h p integrity key).checksum
unfolding set_integrity
set_integrity-checksum o h p integrity key f = rw f (packet_checksum_fields o h p _ _)

set_integrity-mac :
    (o : ByteOrder) (h : Header) (p : Buffer) (integrity : ℕ) (key : Option (List ℕ))
    → has_flag integrity integrity_mac ≡ true
    → packet_mac o (set_integrity o h p integrity key) p key
      ≡ (set_integrity o h p integrity key).mac
unfolding set_integrity
set_integrity-mac o h p integrity key f = rw f (packet_mac_field o _ p _ key)

-- A test that is made where a flag is set.
where_set {ℓ} : {P : Type ℓ} (b : Bool) → (b ≡ true → P) → (b ≡ false) ⊎ P
where_set true h = inr (h refl)
where_set false h = inl refl

-- `packet_verify_ex` accepts exactly the packets with good arguments whose enabled integrity
-- fields are those that the code computes.
pub packet_verify_ex_iff :
    (o : ByteOrder) (h : Header) (p : Buffer) (integrity : ℕ) (key : Option (List ℕ))
    → (packet_verify_ex o h p integrity key ≡ ok tt) ↔ (
        (bad_packet h p integrity key ≡ false)
        × ((has_flag integrity integrity_checksum ≡ false) ⊎ (packet_checksum o h p ≡ h.checksum))
        × ((has_flag integrity integrity_mac ≡ false) ⊎ (packet_mac o h p key ≡ h.mac)))
unfolding packet_verify_ex
packet_verify_ex_iff o h p integrity key = (
  λ e. (
    ground arith,
    where_set (has_flag integrity integrity_checksum) (λ f. ground arith),
    where_set (has_flag integrity integrity_mac) (λ f. ground arith),
  ),
  λ (b, c, m). grind (arith, c, m),
)

-- A packet that `packet_sign_ex` signed passes `packet_verify_ex` with the same settings.
pub packet_verify_ex-packet_sign_ex :
    (o : ByteOrder) (h signed : Header) (p : Buffer) (integrity : ℕ) (key : Option (List ℕ))
    → packet_sign_ex o h p integrity key ≡ ok signed
    → packet_verify_ex o signed p integrity key ≡ ok tt
packet_verify_ex-packet_sign_ex o h signed p integrity key e =
    let (good, s) = packet_sign_ex-eq-ok o h signed p integrity key e in
    rw s (
      (packet_verify_ex_iff o (set_integrity o h p integrity key) p integrity key).1 (
        bad_packet-set_integrity o h p integrity key ∙ good,
        where_set _ (set_integrity-checksum o h p integrity key),
        where_set _ (set_integrity-mac o h p integrity key),
      ))
