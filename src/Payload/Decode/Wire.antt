-- ===== src/Payload/Decode/Wire.antt =====
-- One value that the decoder of src/payload.c reads, against the wire format.
use wirecall.Common.{
  ℕ, zero, suc, ◌+◌, ◌≤◌, ◌<◌, true, false, not, ◌||◌, List, ◌∷◌, ◌++◌, length, take, drop, ltb,
  ◌==◌, if◌then◌else◌, ◌≡◌, refl, sym, ap, ◌∙◌, All, arith, Bool-cases, inl, inr, ltb→le,
  append_assoc, ap₂, ==→eq, ne→==,
}
use wirecall.Words.{IsByte, IsU64, put_u64, put_u32}
use wirecall.Words.BigEndian.{byte_at-drop}
use wirecall.Words.Window.{
  word, get_u64-word, get_u32-word, word-IsU64, word-IsU32, drop-put_u64, drop-put_u32, length_word,
  word-All,
}
use wirecall.Memory.{Grants, Mem, ret, give_up}
use wirecall.Memory.Ends.{Ends, Ends-after}
use wirecall.Payload.Value.{
  Value, Datum, IsDatum, encode, represent, IsBlob, owns, type_null, type_bool, type_i64, type_u64,
  type_f64, type_bytes, type_string,
}
use wirecall.Payload.Decode.{decode_bool, decode_word, decode_blob, decode_value, copy_blob}
use wirecall.Payload.Decode.Copy.{
  first_byte, IsDecoded, copy_string-Ends, split_at, copy_bytes-Ends,
}

module _ (buf : List ℕ) (all : All IsByte buf) (at type : ℕ)
    (here : drop at buf ≡ type ∷ drop (at + 1) buf) where
  decode_word-Ends :
      (make : ℕ → Value) (datum : ℕ → Datum) (s : Mem)
      → ((w : ℕ) → make w ≡ represent (datum w))
      → ((w : ℕ) → IsU64 w → IsDatum (datum w))
      → ((w : ℕ) → type ∷ put_u64 w ≡ encode (datum w))
      → ((w : ℕ) → owns (make w) ≡ false)
      → Ends s.live (IsDecoded buf at s.live) (decode_word make buf (at + 1) s)
  unfolding decode_word
  decode_word-Ends make datum s mk valid enc own =
      elim (Bool-cases (ltb (length buf) (at + 1 + 8))) [
        | inl short ↦ rw short refl
        | inr room ↦
            let fits = ltb→le (length buf) (at + 1 + 8) room in
            rw (room, get_u64-word buf all (at + 1) fits)
              (record {
                datum = datum (word 8 (at + 1) buf);
                valid = valid _ (word-IsU64 buf all (at + 1) fits);
                value = mk _;
                wire =
                    here
                    ∙ ap (◌∷◌ type) (drop-put_u64 buf all (at + 1) fits)
                    ∙ ap (λ t. t ++ drop (at + 1 + 8) buf) (enc _);
                advances = omega arith;
                inside = fits;
                live = rw (own (word 8 (at + 1) buf)) (omega arith);
              })
      ]

  -- The bytes of a blob with the length that stands before them.
  IsBlob-wire :
      (bs : List ℕ)
      → at + 1 + 4 + word 4 (at + 1) buf ≤ length buf
      → bs ≡ take (word 4 (at + 1) buf) (drop (at + 1 + 4) buf)
      → (length bs ≡ word 4 (at + 1) buf)
        × IsBlob bs
        × (drop at buf
            ≡ (type ∷ (put_u32 (length bs) ++ bs)) ++ drop (at + 1 + 4 + word 4 (at + 1) buf) buf)
  IsBlob-wire bs h e =
      let n = word 4 (at + 1) buf in
      let off = at + 1 + 4 in
      let len : length bs ≡ n = ap length e ∙ length_word n off buf h in
      let small = word-IsU32 buf all (at + 1) (omega arith) in
      (
        len,
        (omega arith, rw e (word-All buf all n off)),
        here
            ∙ ap (◌∷◌ type) (
                drop-put_u32 buf all (at + 1) (omega arith)
                ∙ ap (◌++◌ (put_u32 n)) (split_at n off buf)
                ∙ sym (append_assoc (put_u32 n) (take n (drop off buf)) (drop (off + n) buf))
                ∙ ap₂ (λ k t. (put_u32 k ++ t) ++ drop (off + n) buf) (sym len) (sym e)),
      )

  decode_string-Ends :
      (grant : Grants) (s : Mem)
      → type ≡ type_string
      → Ends s.live (IsDecoded buf at s.live) (decode_blob grant true buf (at + 1) s)
  unfolding decode_blob
  decode_string-Ends grant s t =
      let n = word 4 (at + 1) buf in
      let off = at + 1 + 4 in
      elim (Bool-cases (ltb (length buf) off)) [
        | inl short ↦ rw short refl
        | inr room ↦
            let len = get_u32-word buf all (at + 1) (ltb→le (length buf) off room) in
            elim (Bool-cases (ltb (length buf) (off + n))) [
              | inl short ↦ rw (room, len, short) refl
              | inr inside ↦
                  let fits = ltb→le (length buf) (off + n) inside in
                  let (l, valid, wire) = IsBlob-wire (take n (drop off buf)) fits refl in
                  rw (room, len, inside)
                    (Ends-after s.live _ _ (copy_blob grant true buf off n s) _
                      (copy_string-Ends grant buf off n s fits)
                      λ copy s' (c, live). record {
                        datum = Datum.string (take n (drop off buf));
                        valid = valid;
                        value = rw (c, l) refl;
                        wire = rw t at wire;
                        advances = omega arith;
                        inside = fits;
                        live = rw c live;
                      })
            ]
      ]

  decode_bytes-Ends :
      (grant : Grants) (s : Mem)
      → type ≡ type_bytes
      → Ends s.live (IsDecoded buf at s.live) (decode_blob grant false buf (at + 1) s)
  unfolding decode_blob
  decode_bytes-Ends grant s t =
      let n = word 4 (at + 1) buf in
      let off = at + 1 + 4 in
      elim (Bool-cases (ltb (length buf) off)) [
        | inl short ↦ rw short refl
        | inr room ↦
            let len = get_u32-word buf all (at + 1) (ltb→le (length buf) off room) in
            elim (Bool-cases (ltb (length buf) (off + n))) [
              | inl short ↦ rw (room, len, short) refl
              | inr inside ↦
                  let fits = ltb→le (length buf) (off + n) inside in
                  let (l, valid, wire) = IsBlob-wire (take n (drop off buf)) fits refl in
                  rw (room, len, inside)
                    (Ends-after s.live _ _ (copy_blob grant false buf off n s) _
                      (copy_bytes-Ends grant buf off n s fits)
                      λ copy s' (c, live). record {
                        datum = Datum.bytes (take n (drop off buf));
                        valid = valid;
                        value = rw (c, l) refl;
                        wire = rw t at wire;
                        advances = omega arith;
                        inside = fits;
                        live = live;
                      })
            ]
      ]

  decode_bool-Ends :
      (s : Mem)
      → type ≡ type_bool
      → Ends s.live (IsDecoded buf at s.live) (decode_bool buf (at + 1) s)
  unfolding decode_bool
  decode_bool-Ends s t = elim (Bool-cases (ltb (length buf) (at + 1 + 1))) [
    | inl short ↦ rw short refl
    | inr room ↦
        let fits = ltb→le (length buf) (at + 1 + 1) room in
        let (b, next) = first_byte buf (at + 1) (omega arith) in
        rw (room, byte_at-drop buf (at + 1) b (drop (at + 1 + 1) buf) next) (bool_byte b next fits)
  ]
    where
      bool_byte :
          (b : ℕ)
          → drop (at + 1) buf ≡ b ∷ drop (at + 1 + 1) buf
          → at + 1 + 1 ≤ length buf
          → Ends s.live (IsDecoded buf at s.live) (
              (if b == 0 || b == 1 then ret (Value.boolean (not (b == 0)), at + 1 + 1) else give_up)
                s)
      bool_byte zero next room = record {
        datum = Datum.boolean false;
        valid = tt;
        value = refl;
        wire = here ∙ rw (t, next) refl;
        advances = omega arith;
        inside = room;
        live = omega arith;
      }
      bool_byte (suc zero) next room = record {
        datum = Datum.boolean true;
        valid = tt;
        value = refl;
        wire = here ∙ rw (t, next) refl;
        advances = omega arith;
        inside = room;
        live = omega arith;
      }
      bool_byte (suc (suc b)) next room =
          rw (ne→== (suc (suc b)) 0 (omega arith), ne→== (suc (suc b)) 1 (omega arith)) refl

  -- Whatever stands in the buffer, one value is decoded as the wire format says, or nothing stays
  -- allocated.
  pub decode_value-Ends :
      (grant : Grants) (s : Mem)
      → at < length buf
      → Ends s.live (IsDecoded buf at s.live) (decode_value grant type buf (at + 1) s)
  unfolding decode_value
  decode_value-Ends grant s h = elim (Bool-cases (type == type_null)) [
    | inl t0 ↦ rw t0 (record {
      datum = Datum.null;
      valid = tt;
      value = refl;
      wire = here ∙ rw (==→eq type type_null t0) refl;
      advances = omega arith;
      inside = omega arith;
      live = omega arith;
    })
    | inr f0 ↦ elim (Bool-cases (type == type_bool)) [
      | inl t1 ↦ rw (f0, t1) (decode_bool-Ends s (==→eq type type_bool t1))
      | inr f1 ↦ elim (Bool-cases (type == type_i64)) [
        | inl t2 ↦
            rw (f0, f1, t2)
              (decode_word-Ends Value.i64 Datum.i64 s (λ w. refl) (λ w v. v)
                (λ w. rw (==→eq type type_i64 t2) refl) (λ w. refl))
        | inr f2 ↦ elim (Bool-cases (type == type_u64)) [
          | inl t3 ↦
              rw (f0, f1, f2, t3)
                (decode_word-Ends Value.u64 Datum.u64 s (λ w. refl) (λ w v. v)
                  (λ w. rw (==→eq type type_u64 t3) refl) (λ w. refl))
          | inr f3 ↦ elim (Bool-cases (type == type_f64)) [
            | inl t4 ↦
                rw (f0, f1, f2, f3, t4)
                  (decode_word-Ends Value.f64 Datum.f64 s (λ w. refl) (λ w v. v)
                    (λ w. rw (==→eq type type_f64 t4) refl) (λ w. refl))
            | inr f4 ↦ elim (Bool-cases (type == type_bytes)) [
              | inl t5 ↦
                  rw (f0, f1, f2, f3, f4, t5) (decode_bytes-Ends grant s (==→eq type type_bytes t5))
              | inr f5 ↦ elim (Bool-cases (type == type_string)) [
                | inl t6 ↦
                    rw (f0, f1, f2, f3, f4, f5, t6)
                      (decode_string-Ends grant s (==→eq type type_string t6))
                | inr f6 ↦ rw (f0, f1, f2, f3, f4, f5, f6) refl
              ]
            ]
          ]
        ]
      ]
    ]
  ]
