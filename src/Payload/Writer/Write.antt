-- ===== src/Payload/Writer/Write.antt =====
-- Writing data with the calls of src/payload.c.
use wirecall.Common.{
  ℕ, zero, suc, ◌+◌, ◌≤◌, Bool, true, false, List, [], ◌∷◌, ◌++◌, length, take, leb, ◌≡◌, refl, sym,
  ap, ◌∙◌, arith, append_assoc, append-nil, suc_add, length-append, le→leb, if◌then◌else◌,
}
use wirecall.Words.{put_u32}
use wirecall.Protocol.Header.{max_payload_size}
use wirecall.Protocol.Buffer.{present}
use wirecall.Memory.{Grants, Mem, M, ret, crash, ◌>>=◌, count_block}
use wirecall.Memory.Ends.{Ample, Ends, Ends-after, Ends-map}
use wirecall.Payload.Value.{Datum, encode, encode_all, type_bytes, type_string}
use wirecall.Payload.Writer.{
  Writer, Status, writer_reserve, writer_push, writer_null, writer_bool, writer_i64, writer_u64,
  writer_f64, push_blob, writer_bytes, writer_string, write, write_all,
}
use wirecall.Payload.Writer.Reserve.{IsWriter, Reserved, writer_reserve-Ends}

-- What is written after a call that writes `bytes`, by its status.
abbrev pub Wrote : Bool → List ℕ → List ℕ → List ℕ → Type 0
Wrote true before bytes now = now ≡ before ++ bytes
Wrote false before bytes now = (k : ℕ) × (now ≡ before ++ take k bytes)

pub record Pushed (grant : Grants) (w : Writer) (bytes : List ℕ) (s : Mem) (r : Status) (s' : Mem)
    : Type 0 where
  pub valid : IsWriter r.1
  pub wrote : Wrote r.0 w.written bytes r.1.written
  pub sure : Ample grant → length w.written + length bytes ≤ max_payload_size → r.0 ≡ true
  pub live : s'.live + count_block w.block ≡ s.live + count_block r.1.block

-- The code after the reservation.
push-Reserved :
    (base : ℕ) (grant : Grants) (w : Writer) (bytes : List ℕ) (s : Mem) (b : Bool) (w' : Writer)
    (s' : Mem)
    → Reserved grant w (length bytes) s (b, w') s'
    → Ends base (Pushed grant w bytes s) (
        (if b
            then if leb (length w'.written + length bytes) w'.cap
              then ret (true, record w' { written = w'.written ++ bytes })
              else crash
            else ret (false, w'))
          s')
push-Reserved base grant w bytes s false w' s' (valid, same, _, sure, live) = record {
  valid = valid;
  wrote = (0, same ∙ sym (append-nil w.written));
  sure = sure;
  live = live;
}
push-Reserved base grant w bytes s true w' s' (valid, same, room, sure, live) =
    let fits = room refl in
    rw (same, le→leb (length w.written + length bytes) w'.cap fits)
      record {
        valid = record {
          fits = omega (arith, length-append w.written bytes);
          limit = valid.limit;
          empty = valid.empty;
        };
        wrote = refl;
        sure = sure;
        live = live;
      }

pub writer_push-Pushed :
    (base : ℕ) (grant : Grants) (w : Writer) (bytes : List ℕ) (s : Mem)
    → IsWriter w
    → Ends base (Pushed grant w bytes s) (writer_push grant w bytes s)
unfolding writer_push
writer_push-Pushed base grant w bytes s v =
    Ends-after base _ _ (writer_reserve grant w (length bytes) s) _
      (writer_reserve-Ends base grant w (length bytes) s v)
      λ r s' h. push-Reserved base grant w bytes s r.0 r.1 s' h

take_front : (k : ℕ) (xs ys : List ℕ) → (j : ℕ) × (take k xs ≡ take j (xs ++ ys))
take_front zero xs ys = (0, refl)
take_front (suc k) [] ys = (0, refl)
take_front (suc k) (x ∷ xs) ys = let (j, e) = take_front k xs ys in (suc j, ap (◌∷◌ x) e)

take_back : (k : ℕ) (xs ys : List ℕ) → xs ++ take k ys ≡ take (length xs + k) (xs ++ ys)
take_back k [] ys = ap (λ n. take n ys) (omega arith)
take_back k (x ∷ xs) ys = rw (suc_add (length xs) k) (ap (◌∷◌ x) (take_back k xs ys))

-- What the second write adds.
Wrote-append :
    (b : Bool) (before xs ys middle now : List ℕ)
    → middle ≡ before ++ xs
    → Wrote b middle ys now
    → Wrote b before (xs ++ ys) now
Wrote-append true before xs ys middle now e h = rw (h, e) (append_assoc before xs ys)
Wrote-append false before xs ys middle now e (k, h) = (
  length xs + k,
  rw (h, e) (append_assoc before xs (take k ys) ∙ ap (◌++◌ before) (take_back k xs ys)),
)

-- Two writes in a row.
module _ (grant : Grants) (w : Writer) (xs ys : List ℕ) (s : Mem) (w' : Writer) (s' : Mem) where
  stopped : Pushed grant w xs s (false, w') s' → Pushed grant w (xs ++ ys) s (false, w') s'
  stopped h =
      let (k, e) = h.wrote in
      let (j, e') = take_front k xs ys in
      record {
        valid = h.valid;
        wrote = (j, e ∙ ap (◌++◌ w.written) e');
        sure = λ g l. h.sure g (omega (arith, length-append xs ys));
        live = h.live;
      }

  went_on :
      (b : Bool) (w'' : Writer) (s'' : Mem)
      → Pushed grant w xs s (true, w') s'
      → Pushed grant w' ys s' (b, w'') s''
      → Pushed grant w (xs ++ ys) s (b, w'') s''
  went_on b w'' s'' h h' = record {
    valid = h'.valid;
    wrote = Wrote-append b w.written xs ys w'.written w''.written h.wrote h'.wrote;
    sure = λ g l.
        h'.sure g (rw h.wrote omega (arith, length-append xs ys, length-append w.written xs));
    live = let p = h.live in let q = h'.live in omega arith;
  }

-- A write of the whole is one of its parts in turn.
pub after_write :
    (base : ℕ) (grant : Grants) (w : Writer) (xs ys : List ℕ) (s : Mem) (m : M Status)
    (next : Writer → M Status)
    → Ends base (Pushed grant w xs s) (m s)
    → ((w' : Writer) (s' : Mem) → IsWriter w' → Ends base (Pushed grant w' ys s') (next w' s'))
    → Ends base
        (Pushed grant w (xs ++ ys) s)
        ((m >>= λ r. if r.0 then next r.1 else ret (false, r.1)) s)
after_write base grant w xs ys s m next h k =
    Ends-after base _ _ (m s) _ h λ r s' p. go r.0 r.1 s' p
  where
    go :
        (b : Bool) (w' : Writer) (s' : Mem)
        → Pushed grant w xs s (b, w') s'
        → Ends base (Pushed grant w (xs ++ ys) s) ((if b then next w' else ret (false, w')) s')
    go false w' s' p = stopped grant w xs ys s w' s' p
    go true w' s' p =
        Ends-map base _ _ (next w' s') (k w' s' p.valid)
          λ r s'' q. went_on grant w xs ys s w' s' r.0 r.1 s'' p q

push_blob-Pushed :
    (base : ℕ) (grant : Grants) (type : ℕ) (w : Writer) (bs : List ℕ) (s : Mem)
    → IsWriter w
    → Ends base
        (Pushed grant w (type ∷ (put_u32 (length bs) ++ bs)) s)
        (push_blob grant type w (present bs) s)
unfolding push_blob
push_blob-Pushed base grant type w bs s v =
    after_write base grant w (type ∷ put_u32 (length bs)) bs s
      (writer_push grant w (type ∷ put_u32 (length bs))) _
      (writer_push-Pushed base grant w (type ∷ put_u32 (length bs)) s v)
      λ w' s' v'. writer_push-Pushed base grant w' bs s' v'

pub writer_string-Pushed :
    (base : ℕ) (grant : Grants) (w : Writer) (cs : List ℕ) (s : Mem)
    → IsWriter w
    → Ends base (Pushed grant w (encode (Datum.string cs)) s) (writer_string grant w (present cs) s)
unfolding writer_string
writer_string-Pushed base grant w cs s v = push_blob-Pushed base grant type_string w cs s v

pub write-Pushed :
    (base : ℕ) (grant : Grants) (w : Writer) (d : Datum) (s : Mem)
    → IsWriter w
    → Ends base (Pushed grant w (encode d) s) (write grant w d s)
unfolding write writer_null writer_bool writer_i64 writer_u64 writer_f64 writer_bytes
write-Pushed base grant w Datum.null s v = writer_push-Pushed base grant w _ s v
write-Pushed base grant w (Datum.boolean b) s v = writer_push-Pushed base grant w _ s v
write-Pushed base grant w (Datum.i64 x) s v = writer_push-Pushed base grant w _ s v
write-Pushed base grant w (Datum.u64 x) s v = writer_push-Pushed base grant w _ s v
write-Pushed base grant w (Datum.f64 x) s v = writer_push-Pushed base grant w _ s v
write-Pushed base grant w (Datum.bytes bs) s v = push_blob-Pushed base grant type_bytes w bs s v
write-Pushed base grant w (Datum.string cs) s v = writer_string-Pushed base grant w cs s v

pub write_all-Pushed :
    (base : ℕ) (grant : Grants) (w : Writer) (ds : List Datum) (s : Mem)
    → IsWriter w
    → Ends base (Pushed grant w (encode_all ds) s) (write_all grant w ds s)
unfolding write_all
write_all-Pushed base grant w [] s v = record {
  valid = v;
  wrote = sym (append-nil w.written);
  sure = λ g l. refl;
  live = refl;
}
write_all-Pushed base grant w (d ∷ ds) s v =
    after_write base grant w (encode d) (encode_all ds) s (write grant w d) _
      (write-Pushed base grant w d s v) λ w' s' v'. write_all-Pushed base grant w' ds s' v'

-- With any allocator, a list of data is written whole, or in part where a call fails; the writer
-- stays well formed, and newly live is at most its one block.
pub write_all-Ends :
    (grant : Grants) (w : Writer) (ds : List Datum) (s : Mem)
    → IsWriter w
    → Ends s.live
        (λ r s'.
          IsWriter r.1
          × Wrote r.0 w.written (encode_all ds) r.1.written
          × (s'.live + count_block w.block ≡ s.live + count_block r.1.block))
        (write_all grant w ds s)
write_all-Ends grant w ds s v =
    Ends-map s.live _ _ (write_all grant w ds s) (write_all-Pushed s.live grant w ds s v)
      λ r s' p. (p.valid, p.wrote, p.live)
