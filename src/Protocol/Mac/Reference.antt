-- ===== src/Protocol/Mac/Reference.antt =====
-- SipHash-2-4 of a list of bytes, for `sip_update` and `packet_mac` of src/protocol.c.
use wirecall.Common.{
  take, ℕ, ◌+◌, ◌%◌, ◌^◌, ◌≡◌, refl, sym, ap, ap₂, ◌∙◌, inl, inr, Bool-cases, true, false, List, [],
  ◌∷◌, ◌++◌, length, ◌==◌, All, arith, length-append, All-append, ==→eq,
}
use wirecall.Words.{IsByte, put_u32}
use wirecall.Protocol.Header.{Header, header_bytes}
use wirecall.Protocol.Buffer.{Buffer, buffer_len, contents}
use wirecall.Protocol.Checksum.{little}
use wirecall.Protocol.Mac.{
  Sip, push_tail, sip_fill, sip_flush, sip_bulk, sip_update, sip_compress, sip_init, sip_finish,
}
use wirecall.Protocol.Mac.Stream.{
  absorb, absorb_all, IsPending, Filled, fill-Filled, bulk_empty, bulk_nil, with_words,
}

flush_full :
    (s : Sip) → s.tail_len ≡ 8 → sip_flush s ≡ with_words (sip_compress s.words s.tail) s.total_len
unfolding sip_flush
flush_full s h = ground arith

bulk-Filled :
    (s : Sip) (bs : List ℕ) (r : Sip × List ℕ)
    → Filled s bs r
    → sip_bulk little (sip_flush r.0) r.1 ≡ absorb_all s bs
bulk-Filled s bs r f = elim f.ends [
  | inl none_left ↦ rw (f.same, none_left) (bulk_nil (sip_flush r.0) ∙ unfold absorb_all in refl)
  | inr full ↦ rw (f.same, flush_full r.0 full) (bulk_empty _ _ r.1 f.bytes)
]

-- The state once `sip_update` has counted the bytes that come.
abbrev counted : Sip → List ℕ → Sip
counted s bs = record s { total_len = (s.total_len + length bs) % 2 ^ 64 }

sip_update_empty :
    (s : Sip) (bs : List ℕ)
    → (s.tail_len == 0) ≡ true
    → sip_update little s bs ≡ sip_bulk little (counted s bs) bs
unfolding sip_update
sip_update_empty s bs h = rw h

sip_update_pending :
    (s : Sip) (bs : List ℕ)
    → (s.tail_len == 0) ≡ false
    → sip_update little s bs
      ≡ sip_bulk little (sip_flush (sip_fill (counted s bs) bs).0) (sip_fill (counted s bs) bs).1
unfolding sip_update
sip_update_pending s bs h = rw h

sip_update-absorb_all :
    (s : Sip) (bs : List ℕ)
    → IsPending s
    → All IsByte bs
    → sip_update little s bs ≡ absorb_all (counted s bs) bs
sip_update-absorb_all s bs v all = elim (Bool-cases (s.tail_len == 0)) [
  | inl empty ↦
      let e : counted s bs ≡ with_words s.words ((s.total_len + length bs) % 2 ^ 64) =
        ground (arith, v.clear (==→eq s.tail_len 0 empty)) in
      sip_update_empty s bs empty
      ∙ ap (λ t. sip_bulk little t bs) e
      ∙ bulk_empty s.words ((s.total_len + length bs) % 2 ^ 64) bs all
      ∙ ap (λ t. absorb_all t bs) (sym e)
  | inr pending ↦
      sip_update_pending s bs pending
      ∙ bulk-Filled (counted s bs) bs (sip_fill (counted s bs) bs)
          (fill-Filled (counted s bs) bs v.short all)
]

absorb-IsPending : (s : Sip) (b : ℕ) → IsPending s → IsPending (absorb s b)
unfolding absorb sip_flush push_tail
absorb-IsPending s b v = ground arith

absorb_all-IsPending : (s : Sip) (bs : List ℕ) → IsPending s → IsPending (absorb_all s bs)
unfolding absorb_all
absorb_all-IsPending s [] v = v
absorb_all-IsPending s (b ∷ bs) v = absorb_all-IsPending (absorb s b) bs (absorb-IsPending s b v)

absorb_all-append :
    (s : Sip) (xs ys : List ℕ) → absorb_all s (xs ++ ys) ≡ absorb_all (absorb_all s xs) ys
unfolding absorb_all
absorb_all-append s [] ys = refl
absorb_all-append s (x ∷ xs) ys = absorb_all-append (absorb s x) xs ys

absorb-total :
    (s : Sip) (t b : ℕ)
    → absorb (record s { total_len = t }) b ≡ record (absorb s b) { total_len = t }
unfolding absorb sip_flush push_tail
absorb-total s t b = ground arith

absorb_all-total :
    (s : Sip) (t : ℕ) (bs : List ℕ)
    → absorb_all (record s { total_len = t }) bs ≡ record (absorb_all s bs) { total_len = t }
unfolding absorb_all
absorb_all-total s t [] = refl
absorb_all-total s t (b ∷ bs) =
    ap (λ u. absorb_all u bs) (absorb-total s t b) ∙ absorb_all-total (absorb s b) t bs

sip_update_lem :
    (s : Sip) (bs : List ℕ)
    → IsPending s
    → All IsByte bs
    → sip_update little s bs
      ≡ record (absorb_all s bs) { total_len = (s.total_len + length bs) % 2 ^ 64 }
sip_update_lem s bs v all =
    sip_update-absorb_all s bs v all ∙ absorb_all-total s ((s.total_len + length bs) % 2 ^ 64) bs

abbrev with_total : ℕ → Sip → Sip
with_total t s = record s { total_len = t }

-- Feeding `sip_update` in two pieces is feeding it their concatenation.
pub sip_update-append :
    (s : Sip) (xs ys : List ℕ)
    → IsPending s
    → All IsByte xs
    → All IsByte ys
    → sip_update little (sip_update little s xs) ys ≡ sip_update little s (xs ++ ys)
sip_update-append s xs ys v hx hy =
    ap (λ t. sip_update little t ys) (sip_update_lem s xs v hx)
    ∙ sip_update_lem (record (absorb_all s xs) { total_len = total }) ys pending hy
    ∙ ap (with_total ((total + length ys) % 2 ^ 64)) (absorb_all-total (absorb_all s xs) total ys)
    ∙ ap₂ with_total (omega (arith, length-append xs ys)) (sym (absorb_all-append s xs ys))
    ∙ sym (sip_update_lem s (xs ++ ys) v (All-append IsByte xs ys hx hy))
  where
    total : ℕ
    total = (s.total_len + length xs) % 2 ^ 64

    pending : IsPending (record (absorb_all s xs) { total_len = total })
    pending = let p = absorb_all-IsPending s xs v in record { short = p.short; clear = p.clear }

-- SipHash-2-4 of a message under a 16-byte key, read byte by byte: the message is cut into words
-- of eight bytes, and the last word ends in the message's length.
unfoldable pub siphash : List ℕ → List ℕ → ℕ
siphash key message =
    sip_finish (with_total (length message % 2 ^ 64) (absorb_all (sip_init little key) message))

pub sip_init-IsPending : (key : List ℕ) → IsPending (sip_init little key)
unfolding sip_init
sip_init-IsPending key = record { short = omega arith; clear = λ _. refl }

-- What the MAC covers, by the layout of the encoded header: its first 26 bytes, which are all but the
-- MAC itself, the length of the payload, and the payload.
abbrev pub mac_message : Header → Buffer → List ℕ
mac_message h payload =
    take 26 (header_bytes h) ++ (put_u32 (buffer_len payload % 2 ^ 32) ++ contents payload)
