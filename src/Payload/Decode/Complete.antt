-- ===== src/Payload/Decode/Complete.antt =====
-- The decoder of src/payload.c on one value of the wire format, with an allocator that grants every
-- request.
use wirecall.Common.{
  ℕ, ◌+◌, ◌≤◌, ◌<◌, Bool, true, false, List, [], ◌∷◌, ◌++◌, length, drop, ◌==◌, if◌then◌else◌, ◌≡◌,
  refl, sym, ap, ◌∙◌, arith, length-append, append_assoc, length-drop, lt→ltb, le→ltb, le→leb,
  Option, some, drop-drop, drop_left, take_left,
}
use wirecall.Words.{IsU64, put_u64, put_u32}
use wirecall.Words.BigEndian.{
  byte_at-drop, drop_next, get_u64-put_u64, get_u32-put_u32, put_u64_shape, put_u32_shape,
}
use wirecall.Memory.{Grants, Mem, Run, returned, mem_alloc, mem_realloc}
use wirecall.Payload.Value.{Value, Datum, IsDatum, IsBlob, represent, encode, copy_of}
use wirecall.Payload.Decode.{
  decode_value, decode_bool, decode_word, decode_blob, copy_blob, copy_bytes,
}

-- The run ends with the result `a`.
abbrev pub Gives {ℓ} : {A : Type ℓ} → A → Run A → Type ℓ
Gives a r = (s : Mem) × (r ≡ returned a s)

inside_of :
    (buf : List ℕ) (at : ℕ) (xs rest : List ℕ)
    → drop at buf ≡ xs ++ rest
    → 0 < length xs
    → at + length xs ≤ length buf
inside_of buf at xs rest e h = omega (arith, ap length e, length-append xs rest, length-drop at buf)

drop_past :
    (buf : List ℕ) (at : ℕ) (xs rest : List ℕ)
    → drop at buf ≡ xs ++ rest
    → drop (at + length xs) buf ≡ rest
drop_past buf at xs rest e =
    sym (drop-drop at (length xs) buf) ∙ ap (drop (length xs)) e ∙ drop_left xs rest

module _ (grant : Grants) (granted : (n size : ℕ) → grant n size ≡ true) where
  mem_alloc-Gives : (size : ℕ) (s : Mem) → Gives true (mem_alloc grant size s)
  unfolding mem_alloc
  mem_alloc-Gives size s = (
    record { requests = s.requests + 1; live = s.live + 1 },
    rw (granted s.requests (if size == 0 then 1 else size)) refl,
  )

  pub mem_realloc-Gives :
      (block : Bool) (size : ℕ) (s : Mem) → Gives true (mem_realloc grant block size s)
  unfolding mem_realloc
  mem_realloc-Gives block size s = (
    record { requests = s.requests + 1; live = if block then s.live else s.live + 1 },
    rw (granted s.requests (if size == 0 then 1 else size)) refl,
  )

  decode_word-Gives :
      (make : ℕ → Value) (buf : List ℕ) (off w : ℕ) (rest : List ℕ) (s : Mem)
      → IsU64 w
      → drop off buf ≡ put_u64 w ++ rest
      → Gives (make w, off + 8) (decode_word make buf off s)
  unfolding decode_word
  decode_word-Gives make buf off w rest s h e =
      let n = put_u64_shape w in
      (
        s,
        rw
            (
              le→ltb (length buf) (off + 8)
                  (omega (arith, n.0, inside_of buf off (put_u64 w) rest e (omega arith))),
              get_u64-put_u64 buf off w rest h e,
            )
            refl,
      )

  copy_string-Gives :
      (buf : List ℕ) (off : ℕ) (bs rest : List ℕ) (s : Mem)
      → drop off buf ≡ bs ++ rest
      → off + length bs ≤ length buf
      → Gives (some (bs ++ 0 ∷ [])) (copy_blob grant true buf off (length bs) s)
  unfolding copy_blob copy_bytes
  copy_string-Gives buf off bs rest s e h =
      let (s', a) = mem_alloc-Gives (length bs + 1) s in
      (
        s',
        rw
            (
              lt→ltb 0 (length bs + 1) (omega arith),
              a,
              le→leb (off + length bs) (length buf) h,
              e,
              take_left bs rest,
            )
            refl,
      )

  copy_bytes-Gives :
      (buf : List ℕ) (off : ℕ) (bs rest : List ℕ) (s : Mem)
      → drop off buf ≡ bs ++ rest
      → off + length bs ≤ length buf
      → Gives (copy_of bs) (copy_blob grant false buf off (length bs) s)
  unfolding copy_blob copy_bytes
  copy_bytes-Gives buf off [] rest s e h = (s, refl)
  copy_bytes-Gives buf off (b ∷ bs) rest s e h =
      let n = length (b ∷ bs) in
      let (s', a) = mem_alloc-Gives n s in
      (
        s',
        rw
            (
              lt→ltb 0 n (omega arith),
              a,
              le→leb (off + n) (length buf) h,
              e,
              take_left (b ∷ bs) rest,
            )
            refl,
      )

  decode_blob-Gives :
      (is_string : Bool) (c : Option (List ℕ)) (buf : List ℕ) (off : ℕ) (bs rest : List ℕ) (s : Mem)
      → IsBlob bs
      → drop off buf ≡ (put_u32 (length bs) ++ bs) ++ rest
      → ((t : Mem)
          → drop (off + 4) buf ≡ bs ++ rest
          → off + 4 + length bs ≤ length buf
          → Gives c (copy_blob grant is_string buf (off + 4) (length bs) t))
      → Gives
          (
            if is_string then Value.string c (length bs) else Value.bytes c (length bs),
            off + 4 + length bs,
          )
          (decode_blob grant is_string buf off s)
  unfolding decode_blob
  decode_blob-Gives is_string c buf off bs rest s (h, all) e k =
      let n = length bs in
      let four = (put_u32_shape n).0 in
      let e' : drop off buf ≡ put_u32 n ++ (bs ++ rest) = e ∙ append_assoc (put_u32 n) bs rest in
      let room = inside_of buf off (put_u32 n) (bs ++ rest) e' (omega arith) in
      let next : drop (off + 4) buf ≡ bs ++ rest =
        rw four at (drop_past buf off (put_u32 n) (bs ++ rest) e') in
      let fits : off + 4 + n ≤ length buf =
        omega (arith, ap length next, length-append bs rest, length-drop (off + 4) buf) in
      let (s', copied) = k s next fits in
      (
        s',
        rw
            (
              le→ltb (length buf) (off + 4) (omega arith),
              get_u32-put_u32 buf off n (bs ++ rest) h e',
              le→ltb (length buf) (off + 4 + n) fits,
              copied,
            )
            refl,
      )

  decode_bool-Gives :
      (b : Bool) (buf : List ℕ) (off : ℕ) (rest : List ℕ) (s : Mem)
      → drop off buf ≡ (if b then 1 else 0) ∷ rest
      → Gives (Value.boolean b, off + 1) (decode_bool buf off s)
  unfolding decode_bool
  decode_bool-Gives true buf off rest s e =
      let room = inside_of buf off (1 ∷ []) rest e (omega arith) in
      (s, rw (le→ltb (length buf) (off + 1) room, byte_at-drop buf off 1 rest e) refl)
  decode_bool-Gives false buf off rest s e =
      let room = inside_of buf off (0 ∷ []) rest e (omega arith) in
      (s, rw (le→ltb (length buf) (off + 1) room, byte_at-drop buf off 0 rest e) refl)

  -- One datum is decoded, and `rest` is what lies behind it.
  abbrev pub Decodes : Datum → List ℕ → ℕ → List ℕ → Mem → Type 0
  Decodes d buf at rest s =
      (type : ℕ) × (off : ℕ) × (drop at buf ≡ type ∷ drop (at + 1) buf)
      × (at < off)
      × (drop off buf ≡ rest)
      × Gives (represent d, off) (decode_value grant type buf (at + 1) s)

  word_next :
      (buf : List ℕ) (off w : ℕ) (rest : List ℕ)
      → drop off buf ≡ put_u64 w ++ rest
      → drop (off + 8) buf ≡ rest
  word_next buf off w rest e = rw (put_u64_shape w).0 at (drop_past buf off (put_u64 w) rest e)

  blob_next :
      (buf : List ℕ) (off : ℕ) (bs rest : List ℕ)
      → drop off buf ≡ (put_u32 (length bs) ++ bs) ++ rest
      → drop (off + 4 + length bs) buf ≡ rest
  blob_next buf off bs rest e = drop_past buf (off + 4) bs rest (
      rw (put_u32_shape (length bs)).0 at (
        drop_past buf off (put_u32 (length bs)) (bs ++ rest)
          (e ∙ append_assoc (put_u32 (length bs)) bs rest)))

  pub decode_value-Gives :
      (d : Datum) (buf : List ℕ) (at : ℕ) (rest : List ℕ) (s : Mem)
      → IsDatum d
      → drop at buf ≡ encode d ++ rest
      → Decodes d buf at rest s
  unfolding decode_value
  decode_value-Gives Datum.null buf at rest s v e =
      let next = drop_next buf at 0 rest e in
      (0, at + 1, e ∙ ap (◌∷◌ 0) (sym next), omega arith, next, (s, refl))
  decode_value-Gives (Datum.boolean b) buf at rest s v e =
      let next = drop_next buf at 1 _ e in
      (
        1,
        at + 1 + 1,
        e ∙ ap (◌∷◌ 1) (sym next),
        omega arith,
        drop_next buf (at + 1) _ rest next,
        decode_bool-Gives b buf (at + 1) rest s next,
      )
  decode_value-Gives (Datum.i64 w) buf at rest s v e =
      let next = drop_next buf at 2 _ e in
      (
        2,
        at + 1 + 8,
        e ∙ ap (◌∷◌ 2) (sym next),
        omega arith,
        word_next buf (at + 1) w rest next,
        decode_word-Gives Value.i64 buf (at + 1) w rest s v next,
      )
  decode_value-Gives (Datum.u64 w) buf at rest s v e =
      let next = drop_next buf at 3 _ e in
      (
        3,
        at + 1 + 8,
        e ∙ ap (◌∷◌ 3) (sym next),
        omega arith,
        word_next buf (at + 1) w rest next,
        decode_word-Gives Value.u64 buf (at + 1) w rest s v next,
      )
  decode_value-Gives (Datum.f64 w) buf at rest s v e =
      let next = drop_next buf at 4 _ e in
      (
        4,
        at + 1 + 8,
        e ∙ ap (◌∷◌ 4) (sym next),
        omega arith,
        word_next buf (at + 1) w rest next,
        decode_word-Gives Value.f64 buf (at + 1) w rest s v next,
      )
  decode_value-Gives (Datum.bytes bs) buf at rest s v e =
      let next = drop_next buf at 5 _ e in
      (
        5,
        at + 1 + 4 + length bs,
        e ∙ ap (◌∷◌ 5) (sym next),
        omega arith,
        blob_next buf (at + 1) bs rest next,
        decode_blob-Gives false (copy_of bs) buf (at + 1) bs rest s v next
            (copy_bytes-Gives buf (at + 1 + 4) bs rest),
      )
  decode_value-Gives (Datum.string bs) buf at rest s v e =
      let next = drop_next buf at 6 _ e in
      (
        6,
        at + 1 + 4 + length bs,
        e ∙ ap (◌∷◌ 6) (sym next),
        omega arith,
        blob_next buf (at + 1) bs rest next,
        decode_blob-Gives true (some (bs ++ 0 ∷ [])) buf (at + 1) bs rest s v next
            (copy_string-Gives buf (at + 1 + 4) bs rest),
      )
