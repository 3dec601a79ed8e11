-- ===== src/Payload/RoundTrip.antt =====
-- The writer of src/payload.c followed by its decoder.
use wirecall.Common.{
  ℕ, ◌≤◌, Bool, true, List, [], ◌++◌, length, map, All, ◌≡◌, refl, ap, ◌∙◌, arith, subst,
}
use wirecall.Protocol.Header.{max_payload_size}
use wirecall.Protocol.Buffer.{present}
use wirecall.Memory.{Grants, Mem, Run, returned, failed, crashed, unfinished}
use wirecall.Memory.Ends.{Ends}
use wirecall.Payload.Value.{Datum, IsDatum, represent, encode_all}
use wirecall.Payload.Decode.{Array, payload_decode}
use wirecall.Payload.Decode.Complete.{Gives}
use wirecall.Payload.Decode.RoundTrip.{payload_decode-encode_all}
use wirecall.Payload.Writer.{Writer, writer_init, write_all}
use wirecall.Payload.Writer.Reserve.{writer_init-IsWriter}
use wirecall.Payload.Writer.Write.{Wrote, write_all-Pushed}

Ends-always {ℓ} :
    {A : Type ℓ} (P : A → Mem → Type 0) (r : Run A)
    → ((base : ℕ) → Ends base P r)
    → (a : A) × (s : Mem) × (r ≡ returned a s) × P a s
Ends-always P (returned a s) h = (a, s, refl, h 0)
Ends-always P (failed s) h =
    let a : s.live ≡ 0 = h 0 in let b : s.live ≡ 1 = h 1 in absurd (omega arith)
Ends-always P crashed h = absurd (h 0)
Ends-always P unfinished h = absurd (h 0)

Wrote-whole :
    (b : Bool) (before bytes now : List ℕ)
    → b ≡ true
    → Wrote b before bytes now
    → now ≡ before ++ bytes
Wrote-whole b before bytes now e h = subst (λ b. Wrote b before bytes now) e h

-- Where the allocator grants every request and the encoding is within the size limit, a fresh
-- writer takes the whole list of data, and `payload_decode` of the bytes it holds gives an array
-- whose items stand for just these data, in order.
pub payload_decode-write_all :
    (grant : Grants) (ds : List Datum) (s : Mem)
    → ((n size : ℕ) → grant n size ≡ true)
    → All IsDatum ds
    → length (encode_all ds) ≤ max_payload_size
    → (w : Writer) × (s' : Mem) × (write_all grant writer_init ds s ≡ returned (true, w) s')
      × (w.written ≡ encode_all ds)
      × (a : Array) × Gives a (payload_decode grant (present w.written) s')
      × (a.items ≡ map represent ds)
unfolding writer_init
payload_decode-write_all grant ds s granted valid fits =
    let ((b, w), s', ran, p) =
      Ends-always _ (write_all grant writer_init ds s)
        (λ base. write_all-Pushed base grant writer_init ds s writer_init-IsWriter) in
    let whole = p.sure (λ n size l. granted n size) (omega arith) in
    let e = Wrote-whole b [] (encode_all ds) w.written whole p.wrote in
    let (a, gives, _, items) = payload_decode-encode_all grant granted ds s' valid in
    (w, s', ran ∙ ap (λ b. returned (b, w) s') whole, e, a, rw e gives, items)
