-- ===== src/Protocol/Mac/Stream.antt =====
-- `sip_update` against SipHash read byte by byte, on a little-endian host.
use wirecall.Common.{
  ℕ, ◌+◌, ◌*◌, ◌%◌, ◌^◌, ◌<◌, ◌≤◌, bit_or, ◌≡◌, refl, sym, ap, ◌∙◌, ◌⊎◌, inl, inr, Bool-cases, List,
  [], ◌∷◌, length, ltb, All, arith, All-drop, lt→ltb, le→ltb,
}
use wirecall.Common.Bits.{or_low_high}
use wirecall.Words.{IsByte}
use wirecall.Protocol.Checksum.{little, get_u64_native, little_value}
use wirecall.Protocol.Mac.{
  Sip, SipWords, push_tail, sip_fill, sip_flush, sip_blocks, sip_rest, sip_bulk, sip_compress,
}

-- One byte joins the pending word; the eighth byte completes the word, which is mixed in.
unfoldable pub absorb : Sip → ℕ → Sip
absorb s b = sip_flush (push_tail s b)

unfoldable pub absorb_all : Sip → List ℕ → Sip
absorb_all s [] = s
absorb_all s (b ∷ bs) = absorb_all (absorb s b) bs

-- Fewer than eight bytes are pending, and none stands in an empty word.
pub record IsPending (s : Sip) : Type 0 where
  pub short : s.tail_len < 8
  pub clear : s.tail_len ≡ 0 → s.tail ≡ 0

-- The word that eight shifted bytes build is the one that a little-endian load gives.
shifted_bytes :
    (a b c d e f g h : ℕ)
    → All IsByte (a ∷ b ∷ c ∷ d ∷ e ∷ f ∷ g ∷ h ∷ [])
    → bit_or
        (bit_or
          (bit_or
            (bit_or
              (bit_or
                (bit_or
                  (bit_or (bit_or 0 (a * 2 ^ 0 % 2 ^ 64)) (b * 2 ^ 8 % 2 ^ 64))
                  (c * 2 ^ 16 % 2 ^ 64))
                (d * 2 ^ 24 % 2 ^ 64))
              (e * 2 ^ 32 % 2 ^ 64))
            (f * 2 ^ 40 % 2 ^ 64))
          (g * 2 ^ 48 % 2 ^ 64))
        (h * 2 ^ 56 % 2 ^ 64)
      ≡ get_u64_native little (a ∷ b ∷ c ∷ d ∷ e ∷ f ∷ g ∷ h ∷ [])
unfolding get_u64_native little_value
shifted_bytes a b c d e f g h all = ground (
  arith,
  or_low_high 0 a 0,
  or_low_high 8 b a,
  or_low_high 16 c (a + b * 2 ^ 8),
  or_low_high 24 d (a + b * 2 ^ 8 + c * 2 ^ 16),
  or_low_high 32 e (a + b * 2 ^ 8 + c * 2 ^ 16 + d * 2 ^ 24),
  or_low_high 40 f (a + b * 2 ^ 8 + c * 2 ^ 16 + d * 2 ^ 24 + e * 2 ^ 32),
  or_low_high 48 g (a + b * 2 ^ 8 + c * 2 ^ 16 + d * 2 ^ 24 + e * 2 ^ 32 + f * 2 ^ 40),
  or_low_high 56 h (a + b * 2 ^ 8 + c * 2 ^ 16 + d * 2 ^ 24 + e * 2 ^ 32 + f * 2 ^ 40 + g * 2 ^ 48),
)

absorb_block :
    (w : SipWords) (total a b c d e f g h : ℕ) (rest : List ℕ)
    → All IsByte (a ∷ b ∷ c ∷ d ∷ e ∷ f ∷ g ∷ h ∷ [])
    → absorb_all
        (record { words = w; total_len = total; tail = 0; tail_len = 0 })
        (a ∷ b ∷ c ∷ d ∷ e ∷ f ∷ g ∷ h ∷ rest)
      ≡ absorb_all
          (record {
            words = sip_compress w (get_u64_native little (a ∷ b ∷ c ∷ d ∷ e ∷ f ∷ g ∷ h ∷ []));
            total_len = total;
            tail = 0;
            tail_len = 0;
          })
          rest
absorb_block w total a b c d e f g h rest all =
    rw (← shifted_bytes a b c d e f g h all) (unfold absorb absorb_all sip_flush push_tail in refl)

pub flush_short : (s : Sip) → s.tail_len < 8 → sip_flush s ≡ s
unfolding sip_flush
flush_short s h = ground arith

-- Fewer than eight bytes complete no word: `sip_rest` only pushes them.
absorb_all-sip_rest :
    (s : Sip) (bs : List ℕ) → s.tail_len + length bs < 8 → absorb_all s bs ≡ sip_rest s bs
unfolding absorb_all sip_rest
absorb_all-sip_rest s [] h = refl
absorb_all-sip_rest s (b ∷ bs) h =
    ap (λ t. absorb_all t bs) step
    ∙ absorb_all-sip_rest (push_tail s b) bs (unfold push_tail in omega arith)
  where
    step : absorb s b ≡ push_tail s b
    step = unfold absorb push_tail in flush_short (push_tail s b) (omega arith)

abbrev pub with_words : SipWords → ℕ → Sip
with_words w total = record { words = w; total_len = total; tail = 0; tail_len = 0 }

bulk_block :
    (w : SipWords) (total a b c d e f g h : ℕ) (rest : List ℕ)
    → sip_bulk little (with_words w total) (a ∷ b ∷ c ∷ d ∷ e ∷ f ∷ g ∷ h ∷ rest)
      ≡ sip_bulk little
          (with_words
            (sip_compress w (get_u64_native little (a ∷ b ∷ c ∷ d ∷ e ∷ f ∷ g ∷ h ∷ [])))
            total)
          rest
unfolding sip_bulk sip_blocks
bulk_block w total a b c d e f g h rest = refl

-- With no byte pending, the loops after the pending bytes absorb all that they are given.
pub bulk_empty :
    (w : SipWords) (total : ℕ) (bs : List ℕ)
    → All IsByte bs
    → sip_bulk little (with_words w total) bs ≡ absorb_all (with_words w total) bs
bulk_empty w total (a ∷ b ∷ c ∷ d ∷ e ∷ f ∷ g ∷ h ∷ rest) all =
    bulk_block w total a b c d e f g h rest
    ∙ bulk_empty (sip_compress w (get_u64_native little (a ∷ b ∷ c ∷ d ∷ e ∷ f ∷ g ∷ h ∷ []))) total
        rest (All-drop IsByte 8 (a ∷ b ∷ c ∷ d ∷ e ∷ f ∷ g ∷ h ∷ rest) all)
    ∙ sym (absorb_block w total a b c d e f g h rest (omega arith))
bulk_empty w total bs all =
    unfold sip_bulk sip_blocks in sym (absorb_all-sip_rest (with_words w total) _ (omega arith))

pub bulk_nil : (s : Sip) → sip_bulk little s [] ≡ s
unfolding sip_bulk sip_blocks sip_rest
bulk_nil s = refl

fill_step :
    (s : Sip) (b : ℕ) (bs : List ℕ)
    → s.tail_len < 8
    → sip_fill s (b ∷ bs) ≡ sip_fill (push_tail s b) bs
unfolding sip_fill
fill_step s b bs h = rw (lt→ltb s.tail_len 8 h)

fill_full : (s : Sip) (bs : List ℕ) → s.tail_len ≡ 8 → sip_fill s bs ≡ (s, bs)
unfolding sip_fill
fill_full s [] h = refl
fill_full s (b ∷ bs) h = rw (le→ltb s.tail_len 8 (omega arith))

pub push_tail_len : (s : Sip) (b : ℕ) → (push_tail s b).tail_len ≡ s.tail_len + 1
unfolding push_tail
push_tail_len s b = refl

-- What the first loop has done before `sip_flush` looks at the pending word.
pub record Filled (s : Sip) (bs : List ℕ) (r : Sip × List ℕ) : Type 0 where
  pub same : absorb_all s bs ≡ absorb_all (sip_flush r.0) r.1
  pub ends : (r.1 ≡ []) ⊎ (r.0.tail_len ≡ 8)
  pub short : r.0.tail_len ≤ 8
  pub bytes : All IsByte r.1

pub fill-Filled :
    (s : Sip) (bs : List ℕ) → s.tail_len < 8 → All IsByte bs → Filled s bs (sip_fill s bs)
fill-Filled s [] h all =
    unfold sip_fill in
    record {
      same = ap (λ t. absorb_all t []) (sym (flush_short s h));
      ends = inl refl;
      short = omega arith;
      bytes = tt;
    }
fill-Filled s (b ∷ bs) h all = elim (Bool-cases (ltb (s.tail_len + 1) 8)) [
  | inl more ↦
      let short : (push_tail s b).tail_len < 8 = ground (arith, push_tail_len s b) in
      let ih = fill-Filled (push_tail s b) bs short all.1 in
      rw (fill_step s b bs h) (record {
        same =
            absorb_all_step s b bs
            ∙ ap (λ t. absorb_all t bs) (flush_short (push_tail s b) short)
            ∙ ih.same;
        ends = ih.ends;
        short = ih.short;
        bytes = ih.bytes;
      })
  | inr full ↦
      rw (fill_step s b bs h, fill_full (push_tail s b) bs (ground (arith, push_tail_len s b)))
        (record {
          same = absorb_all_step s b bs;
          ends = inr (ground (arith, push_tail_len s b));
          short = ground (arith, push_tail_len s b);
          bytes = all.1;
        })
]
  where
    absorb_all_step :
        (s : Sip) (b : ℕ) (bs : List ℕ)
        → absorb_all s (b ∷ bs) ≡ absorb_all (sip_flush (push_tail s b)) bs
    absorb_all_step s b bs = unfold absorb absorb_all in refl
