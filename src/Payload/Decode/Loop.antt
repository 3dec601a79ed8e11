-- ===== src/Payload/Decode/Loop.antt =====
-- The whole of `wirecall_payload_decode` against the wire format, on any input and any allocator.
use wirecall.Common.{
  ℕ, zero, suc, ◌+◌, ◌≤◌, ◌<◌, List, [], ◌∷◌, ◌++◌, map, length, drop, ltb, ◌≡◌, refl, sym, ap, ap₂,
  ◌∙◌, arith, Bool-cases, inl, inr, ltb→le, ltb→lt, All, append-nil, append_assoc, le→ltb,
}
use wirecall.Words.{IsByte}
use wirecall.Words.BigEndian.{byte_at-drop}
use wirecall.Protocol.Buffer.{Buffer, contents, dangling}
use wirecall.Memory.{Grants, Mem, count_block}
use wirecall.Memory.Ends.{Ends, Ends-after, Ends-map}
use wirecall.Payload.Value.{Datum, IsDatum, owned, represent, encode, encode_all}
use wirecall.Payload.Decode.{
  Array, no_array, grow, or_cleanup, decode_value, decode_round, decode_loop, payload_decode,
}
use wirecall.Payload.Decode.Copy.{first_byte}
use wirecall.Payload.Decode.Wire.{decode_value-Ends}
use wirecall.Payload.Decode.Blocks.{
  IsArray, blocks, no_array-IsArray, or_cleanup-Ends, grow-Ends, store-Ends, owned-append,
}

-- From the array `a` and the offset `at` the decoder went on to an array with the items of `ds`
-- behind those of `a`; `ds` is what the buffer writes up to the new offset.
pub record IsExtended (buf : List ℕ) (a : Array) (at base : ℕ) (ds : List Datum) (a' : Array)
    (at' : ℕ) (s : Mem) : Type 0 where
  pub valid : All IsDatum ds
  pub items : a'.items ≡ a.items ++ map represent ds
  pub wire : drop at buf ≡ encode_all ds ++ drop at' buf
  pub array : IsArray a'
  pub inside : at' ≤ length buf
  pub live : s.live ≡ base + blocks a'

extend_trans :
    (buf : List ℕ) (a a1 a2 : Array) (at at1 at2 base : ℕ) (d : Datum) (ds : List Datum)
    (s1 s2 : Mem)
    → IsExtended buf a at base (d ∷ []) a1 at1 s1
    → IsExtended buf a1 at1 base ds a2 at2 s2
    → IsExtended buf a at base (d ∷ ds) a2 at2 s2
extend_trans buf a a1 a2 at at1 at2 base d ds s1 s2 x y = record {
  valid = (x.valid.0, y.valid);
  items =
      y.items
      ∙ ap (λ vs. vs ++ map represent ds) x.items
      ∙ append_assoc a.items (represent d ∷ []) (map represent ds);
  wire =
      x.wire
      ∙ ap (λ t. (encode d ++ []) ++ t) y.wire
      ∙ ap (λ t. t ++ (encode_all ds ++ drop at2 buf)) (append-nil (encode d))
      ∙ sym (append_assoc (encode d) (encode_all ds) (drop at2 buf));
  array = y.array;
  inside = y.inside;
  live = y.live;
}

extend_done :
    (buf : List ℕ) (a : Array) (at base : ℕ) (s : Mem)
    → IsArray a
    → at ≡ length buf
    → s.live ≡ base + blocks a
    → IsExtended buf a at base [] a (length buf) s
extend_done buf a at base s v h e = record {
  valid = tt;
  items = sym (append-nil a.items);
  wire = ap (λ k. drop k buf) h;
  array = v;
  inside = omega arith;
  live = e;
}

module _ (buf : List ℕ) (all : All IsByte buf) (grant : Grants) where
  round-Ends :
      (a : Array) (at base : ℕ) (s : Mem)
      → IsArray a
      → at < length buf
      → s.live ≡ base + blocks a
      → Ends base
          (λ r s'. (at < r.1) × ((d : Datum) × IsExtended buf a at base (d ∷ []) r.0 r.1 s'))
          (decode_round grant buf a at s)
  unfolding decode_round
  round-Ends a at base s v h e =
      let (type, here) = first_byte buf at h in
      Ends-after base _ _ (or_cleanup a (grow grant a) s) _
        (or_cleanup-Ends base s.live _ a (grow grant a) s v e (grow-Ends grant a s v))
        λ a' s1 (v1, items1, room, block1, live1).
          let full1 : s1.live ≡ base + blocks a' =
            omega (arith, ap owned items1, ap count_block block1) in
          rw (byte_at-drop buf at type (drop (at + 1) buf) here) (
            Ends-after base _ _ (or_cleanup a' (decode_value grant type buf (at + 1)) s1) _
              (or_cleanup-Ends base s1.live _ a' (decode_value grant type buf (at + 1)) s1 v1 full1
                (decode_value-Ends buf all at type here grant s1 h))
              λ r s2 dec.
                let (a2, stored, v2, items2, block2) = store-Ends a' r.0 s2 v1 room block1 in
                rw stored (
                  dec.advances,
                  (
                    dec.datum,
                    record {
                      valid = (dec.valid, tt);
                      items = items2 ∙ ap₂ (λ vs v. vs ++ v ∷ []) items1 dec.value;
                      wire =
                          dec.wire
                          ∙ ap (λ t. t ++ drop r.1 buf) (sym (append-nil (encode dec.datum)));
                      array = v2;
                      inside = dec.inside;
                      live = omega (
                        arith,
                        ap owned items2,
                        owned-append a'.items (r.0 ∷ []),
                        ap count_block block1,
                        ap count_block block2,
                        dec.live,
                      );
                    },
                  ),
                ))

  loop-Ends :
      (fuel : ℕ) (a : Array) (at base : ℕ) (s : Mem)
      → IsArray a
      → at ≤ length buf
      → length buf ≤ at + fuel
      → s.live ≡ base + blocks a
      → Ends base
          (λ a' s'. (ds : List Datum) × IsExtended buf a at base ds a' (length buf) s')
          (decode_loop fuel grant buf a at s)
  unfolding decode_loop
  loop-Ends zero a at base s v h f e =
      rw (le→ltb at (length buf) (omega arith)) ([], extend_done buf a at base s v (omega arith) e)
  loop-Ends (suc fuel) a at base s v h f e = elim (Bool-cases (ltb at (length buf))) [
    | inr done ↦
        let end : at ≡ length buf = omega (arith, ltb→le at (length buf) done) in
        rw done ([], extend_done buf a at base s v end e)
    | inl more ↦ rw more (
        Ends-after base _ _ (decode_round grant buf a at s) _
          (round-Ends a at base s v (ltb→lt at (length buf) more) e)
          λ r s1 (later, (d, x)).
            Ends-map base _ _ (decode_loop fuel grant buf r.0 r.1 s1)
              (loop-Ends fuel r.0 r.1 base s1 x.array x.inside (omega arith) x.live)
              λ a2 s2 (ds, y).
                (d ∷ ds, extend_trans buf a r.0 a2 at r.1 (length buf) base d ds s1 s2 x y))
  ]

-- What a successful decode means: the items stand for data of the wire format whose encoding is
-- the whole payload, and the new live blocks are those of the array.
pub record IsPayload (bytes : List ℕ) (base : ℕ) (a : Array) (s : Mem) : Type 0 where
  pub data_of : List Datum
  pub valid : All IsDatum data_of
  pub items : a.items ≡ map represent data_of
  pub wire : bytes ≡ encode_all data_of
  pub array : IsArray a
  pub live : s.live ≡ base + blocks a

drop_end : (buf : List ℕ) → drop (length buf) buf ≡ []
drop_end [] = refl
drop_end (b ∷ buf) = drop_end buf

-- On every payload of bytes and with every allocator, `payload_decode` reads and writes within
-- its buffers and ends: with -1 and no block more than before, or with an array whose items
-- stand for data that the payload encodes, and whose blocks are all that is newly live.
pub payload_decode-Ends :
    (grant : Grants) (payload : Buffer) (s : Mem)
    → All IsByte (contents payload)
    → Ends s.live (IsPayload (contents payload) s.live) (payload_decode grant payload s)
unfolding payload_decode
payload_decode-Ends grant payload s all = elim (Bool-cases (dangling payload)) [
  | inl bad ↦ rw bad refl
  | inr good ↦
      let buf = contents payload in
      rw good (
        Ends-map s.live _ _ (decode_loop (length buf) grant buf no_array 0 s)
          (loop-Ends buf all grant (length buf) no_array 0 s.live s no_array-IsArray (omega arith)
            (omega arith) (omega arith))
          λ a s' (ds, x). record {
            data_of = ds;
            valid = x.valid;
            items = x.items;
            wire = x.wire ∙ ap (◌++◌ (encode_all ds)) (drop_end buf) ∙ append-nil (encode_all ds);
            array = x.array;
            live = x.live;
          })
]
