-- ===== src/Payload/Decode/RoundTrip.antt =====
-- The decoder of src/payload.c on an encoded list of data.
use wirecall.Common.{
  ℕ, zero, suc, ◌+◌, ◌*◌, ◌≤◌, ◌<◌, true, List, [], ◌∷◌, ◌++◌, map, length, drop, ◌==◌,
  if◌then◌else◌, ◌≡◌, refl, sym, ap, ◌∙◌, arith, Bool-cases, inl, inr, All, length-append,
  append-nil, append_assoc, length-drop, lt→ltb, le→ltb, le→leb, subst,
}
use wirecall.Words.BigEndian.{byte_at-drop}
use wirecall.Protocol.Buffer.{present}
use wirecall.Memory.{Grants, Mem, Run, returned, M}
use wirecall.Memory.Ends.{Ends}
use wirecall.Payload.Value.{Datum, IsDatum, represent, encode, encode_all}
use wirecall.Payload.Decode.{
  Array, no_array, grow, store_slot, or_cleanup, decode_value, decode_round, decode_loop,
  payload_decode,
}
use wirecall.Payload.Decode.Blocks.{IsArray, no_array-IsArray, grow-Ends, store-Ends}
use wirecall.Payload.Decode.Complete.{Gives, decode_value-Gives, mem_realloc-Gives}

Ends-returned {ℓ} :
    {A : Type ℓ} (base : ℕ) (P : A → Mem → Type 0) (r : Run A) {a : A} {s : Mem}
    → r ≡ returned a s
    → Ends base P r
    → P a s
Ends-returned base P r e h = subst (Ends base P) e h

or_cleanup-returned {ℓ} :
    {A : Type ℓ} (a : Array) (m : M A) (s : Mem) {r : A} {s' : Mem}
    → m s ≡ returned r s'
    → or_cleanup a m s ≡ returned r s'
unfolding or_cleanup
or_cleanup-returned a m s e = rw e refl

encode_nonempty : (d : Datum) → 0 < length (encode d)
encode_nonempty Datum.null = omega arith
encode_nonempty (Datum.boolean b) = omega arith
encode_nonempty (Datum.i64 w) = omega arith
encode_nonempty (Datum.u64 w) = omega arith
encode_nonempty (Datum.f64 w) = omega arith
encode_nonempty (Datum.bytes bs) = omega arith
encode_nonempty (Datum.string bs) = omega arith

module _ (grant : Grants) (granted : (n size : ℕ) → grant n size ≡ true) where
  grow-Gives : (a : Array) (s : Mem) → IsArray a → (a' : Array) × Gives a' (grow grant a s)
  unfolding grow store_slot
  grow-Gives a s v = elim (Bool-cases (length a.items == a.cap)) [
    | inr room ↦ (a, (s, rw room refl))
    | inl full ↦
        let next = if a.cap == 0 then 4 else a.cap * 2 in
        let (s', g) = mem_realloc-Gives grant granted a.block ((next + 1) * 24) s in
        (
          record a { cap = next; block = true; ended = true },
          (s', rw (full, g, le→leb (length a.items) next (ground arith)) refl),
        )
  ]

  round-Gives :
      (d : Datum) (buf : List ℕ) (a : Array) (at : ℕ) (rest : List ℕ) (s : Mem)
      → IsArray a
      → IsDatum d
      → drop at buf ≡ encode d ++ rest
      → (a' : Array) × (off : ℕ) × Gives (a', off) (decode_round grant buf a at s)
        × IsArray a'
        × (a'.items ≡ a.items ++ represent d ∷ [])
        × (at < off)
        × (drop off buf ≡ rest)
  unfolding decode_round
  round-Gives d buf a at rest s v valid e =
      let (a1, (s1, g)) = grow-Gives a s v in
      let (v1, items1, room, block1, _) =
        Ends-returned s.live _ (grow grant a s) g (grow-Ends grant a s v) in
      let (type, off, here, later, behind, (s2, dec)) =
        decode_value-Gives grant granted d buf at rest s1 valid e in
      let (a2, stored, v2, items2, _) = store-Ends a1 (represent d) s2 v1 room block1 in
      (
        a2,
        off,
        (
          s2,
          rw
              (
                or_cleanup-returned a (grow grant a) s g,
                byte_at-drop buf at type _ here,
                or_cleanup-returned a1 (decode_value grant type buf (at + 1)) s1 dec,
                stored,
              )
              refl,
        ),
        v2,
        items2 ∙ ap (λ vs. vs ++ represent d ∷ []) items1,
        later,
        behind,
      )

  stops :
      (fuel : ℕ) (buf : List ℕ) (a : Array) (at : ℕ) (s : Mem)
      → drop at buf ≡ []
      → decode_loop fuel grant buf a at s ≡ returned a s
  unfolding decode_loop
  stops zero buf a at s e =
      rw (le→ltb at (length buf) (omega (arith, ap length e, length-drop at buf))) refl
  stops (suc fuel) buf a at s e =
      rw (le→ltb at (length buf) (omega (arith, ap length e, length-drop at buf))) refl

  loop-Gives :
      (ds : List Datum) (fuel : ℕ) (buf : List ℕ) (a : Array) (at : ℕ) (s : Mem)
      → IsArray a
      → All IsDatum ds
      → drop at buf ≡ encode_all ds
      → length buf ≤ at + fuel
      → (a' : Array) × Gives a' (decode_loop fuel grant buf a at s)
        × IsArray a'
        × (a'.items ≡ a.items ++ map represent ds)
  unfolding decode_loop
  loop-Gives [] fuel buf a at s v valid e f =
      (a, (s, stops fuel buf a at s e), v, sym (append-nil a.items))
  loop-Gives (d ∷ ds) zero buf a at s v valid e f = absurd (
      omega (
        arith,
        encode_nonempty d,
        ap length e,
        length-append (encode d) (encode_all ds),
        length-drop at buf,
      ))
  loop-Gives (d ∷ ds) (suc fuel) buf a at s v (hd, hds) e f =
      let more : at < length buf = omega (
        arith,
        encode_nonempty d,
        ap length e,
        length-append (encode d) (encode_all ds),
        length-drop at buf,
      ) in
      let (a1, off, (s1, ran), v1, items1, later, behind) =
        round-Gives d buf a at (encode_all ds) s v hd e in
      let (a2, (s2, rest), v2, items2) =
        loop-Gives ds fuel buf a1 off s1 v1 hds behind (omega arith) in
      (
        a2,
        (s2, rw (lt→ltb at (length buf) more, ran) rest),
        v2,
        items2
            ∙ ap (λ vs. vs ++ map represent ds) items1
            ∙ append_assoc a.items (represent d ∷ []) (map represent ds),
      )

  -- An allocator that grants every request lets `payload_decode` take every encoded list of data,
  -- and the items of the array stand for just these data, in order.
  pub payload_decode-encode_all :
      (ds : List Datum) (s : Mem)
      → All IsDatum ds
      → (a : Array) × Gives a (payload_decode grant (present (encode_all ds)) s)
        × IsArray a
        × (a.items ≡ map represent ds)
  unfolding payload_decode
  payload_decode-encode_all ds s valid =
      loop-Gives ds (length (encode_all ds)) (encode_all ds) no_array 0 s no_array-IsArray valid
        refl (omega arith)
