-- ===== src/Server/Queue/Error.antt =====
-- `queue_string_error` of src/server.c.
use wirecall.Common.{
  ℕ, ◌+◌, ◌-◌, ◌≤◌, Bool, true, false, List, ◌∷◌, length, if◌then◌else◌, Bool-cases, ◌≡◌, inl, inr,
  refl, ap, ◌∙◌, arith, subst, sym,
}
use wirecall.Memory.{Mem, Run, returned, after, ◌>>=◌, count_block, ret}
use wirecall.Memory.Ends.{IsHost, Ends, Ends-after, Ends-map_known, mem_free_lem}
use wirecall.Protocol.Op
use wirecall.Protocol.Header.{flag_none, Header}
use wirecall.Protocol.Buffer.{Buffer, present, buffer_len}
use wirecall.Payload.Value.{Datum, encode}
use wirecall.Payload.Writer.{Writer, writer_init, writer_string, writer_free}
use wirecall.Payload.Writer.Reserve.{IsWriter, writer_init-IsWriter}
use wirecall.Payload.Writer.Write.{Pushed, writer_string-Pushed}
use wirecall.Stream.Packet.{new_header}
use wirecall.Stream.Grow.{IsByteBuffer}
use wirecall.Server.{Worker}
use wirecall.Server.Queue.{Env, queue_packet, queue_string_error, writer_buffer}
use wirecall.Server.Queue.Laws.{Queued, queue_nothing, queue_packet-Queued, signed_fits}

-- The header of an error reply with a message of so many bytes.
abbrev pub error_header : ℕ → ℕ → List ℕ → Header
error_header proc_id call_id message =
    new_header Op.error flag_none proc_id (length (encode (Datum.string message))) call_id

abbrev pub error_payload : List ℕ → Buffer
error_payload message = present (encode (Datum.string message))

-- A writer with bytes has a block.
writer_buffer-present :
    (w : Writer) (b : ℕ) (bs : List ℕ)
    → IsWriter w
    → w.written ≡ b ∷ bs
    → writer_buffer w ≡ present (b ∷ bs)
unfolding writer_buffer
writer_buffer-present w b bs v e = elim (Bool-cases w.block) [
  | inl block ↦ rw block (ap present e)
  | inr no_block ↦ let fits = v.fits in absurd (omega (arith, fits, v.empty no_block, ap length e))
]

pub writer_free_lem :
    (w : Writer) (base : ℕ) (s : Mem)
    → s.live ≡ base + count_block w.block
    → writer_free w s ≡ returned writer_init (record s { live = base })
unfolding writer_free
writer_free_lem w base s e =
    ap (λ (r : Run (Unit {0})). after r (λ _. ret writer_init))
      (mem_free_lem w.block s (omega (arith, e)))
    ∙ ap (λ k. returned writer_init (record s { live = k })) (omega (arith, e))

-- A writer that is freed at the end, after the code that used it has changed the write buffer.
pub freed :
    {A : Type 0} (base : ℕ) (w : Writer) (r : A) (s : Mem)
    → s.live ≡ base + count_block w.block
    → after (writer_free w s) (λ _. ret r) ≡ returned r (record s { live = base })
freed base w r s e = ap (λ q. after q (λ _. ret r)) (writer_free_lem w base s e)

-- The same write buffer, seen from before and after other blocks came and went.
pub Queued-rebase :
    (env : Env) (c : ℕ) (h : Header) (payload : Buffer) (w : Worker) (s0 s : Mem)
    (r : Bool × Worker) (s' s1 : Mem)
    → s0.live + s'.live ≡ s.live + s1.live
    → Queued env c h payload w s r s'
    → Queued env c h payload w s0 r s1
Queued-rebase env c h payload w s0 s r s' s1 e q =
    let touched = q.touched in
    let valid = q.valid in
    let whole = q.whole in
    let part = q.part in
    let listed = q.listed in
    let sure = q.sure in
    let live = q.live in
    record {
      b = q.b;
      queued = q.queued;
      touched = touched;
      valid = valid;
      whole = whole;
      part = part;
      listed = listed;
      sure = sure;
      live = omega arith;
    }

-- A packet whose payload is in a writer, which is freed when the packet is in the write buffer.
pub queue_and_free :
    (base : ℕ) (env : Env) (c op proc_id call_id : ℕ) (payload : Buffer) (writer : Writer)
    (w : Worker) (s0 s : Mem)
    → IsHost env.grant
    → IsByteBuffer (w.conn_at c).write_buf
    → count_block (w.conn_at c).write_buf.block ≤ s0.live
    → s.live ≡ s0.live + count_block writer.block
    → Ends base
        (Queued env c (new_header op flag_none proc_id (buffer_len payload) call_id) payload w s0)
        (after
          (queue_packet env c op flag_none proc_id call_id payload w s)
          (λ r. writer_free writer >>= λ _. ret r))
queue_and_free base env c op proc_id call_id payload writer w s0 s host v owns e =
    let h = new_header op flag_none proc_id (buffer_len payload) call_id in
    Ends-after base _ _ (queue_packet env c op flag_none proc_id call_id payload w s) _
      (queue_packet-Queued base env c op flag_none proc_id call_id payload w s host v)
      (λ r s' q.
        (let live = q.live in
          rw (freed (s'.live - count_block writer.block) writer r s' (omega (arith, live, owns, e)))
            (Queued-rebase env c h payload w s0 s r s'
              (record s' { live = s'.live - count_block writer.block })
              (omega (arith, live, owns, e)) q)))

-- What `queue_string_error` leaves, whether its writer has memory or not.
pub string_error-Queued :
    (base : ℕ) (env : Env) (c proc_id call_id : ℕ) (message : List ℕ) (w : Worker) (s : Mem)
    → IsHost env.grant
    → IsByteBuffer (w.conn_at c).write_buf
    → count_block (w.conn_at c).write_buf.block ≤ s.live
    → Ends base
        (Queued env c (error_header proc_id call_id message) (error_payload message) w s)
        (queue_string_error env c proc_id call_id message w s)
unfolding queue_string_error writer_init
string_error-Queued base env c proc_id call_id message w s host v owns =
    Ends-after base _ _ (writer_string env.grant writer_init (present message) s) _
      (writer_string-Pushed base env.grant writer_init message s writer_init-IsWriter)
      (λ r s' p. go r.0 r.1 s' p)
  where
    go :
        (b : Bool) (writer : Writer) (s' : Mem)
        → Pushed env.grant writer_init (encode (Datum.string message)) s (b, writer) s'
        → Ends base
            (Queued env c (error_header proc_id call_id message) (error_payload message) w s)
            (after
              ((if b
                  then queue_packet env c Op.error flag_none proc_id call_id
                      (writer_buffer writer)
                      w
                  else ret (false, w))
                s')
              (λ r. writer_free writer >>= λ _. ret r))
    go true writer s' p =
        let live = p.live in
        subst
          (λ buf.
            Ends base
              (Queued env c (error_header proc_id call_id message) (error_payload message) w s)
              (after (queue_packet env c Op.error flag_none proc_id call_id buf w s')
                (λ r. writer_free writer >>= λ _. ret r)))
          (sym (writer_buffer-present writer _ _ p.valid p.wrote))
          (queue_and_free base env c Op.error proc_id call_id (error_payload message) writer w s s'
            host v owns (omega (arith, live)))
    go false writer s' p =
        let live = p.live in
        let h = error_header proc_id call_id message in
        rw (freed {A = Bool × Worker} s.live writer (false, w) s' (omega (arith, live))) (
          Queued-rebase env c h (error_payload message) w s s (false, w) s
            (record s' { live = s.live }) refl
            (queue_nothing env c h (error_payload message) w s v (λ q.
              (let fits = signed_fits env.settings h (error_payload message) q.bytes q.signed in
                let e = p.sure q.ample (omega arith) in cc))))

-- A writer without memory.
queue_string_error_dry :
    (env : Env) (c proc_id call_id : ℕ) (message : List ℕ) (w : Worker) (s : Mem) (writer : Writer)
    (s' : Mem)
    → writer_string env.grant writer_init (present message) s ≡ returned (false, writer) s'
    → queue_string_error env c proc_id call_id message w s
      ≡ returned (false, w) (record s' { live = s.live })
unfolding queue_string_error writer_init
queue_string_error_dry env c proc_id call_id message w s writer s' e =
    let pushed : Ends s.live (Pushed env.grant writer_init (encode (Datum.string message)) s)
        (returned (false, writer) s') =
      subst (Ends s.live (Pushed env.grant writer_init (encode (Datum.string message)) s)) e
        (writer_string-Pushed s.live env.grant writer_init message s writer_init-IsWriter) in
    let live = pushed.live in
    rw e (freed {A = Bool × Worker} s.live writer (false, w) s' (omega (arith, live)))

-- With any allocator, `queue_string_error` queues the packet of an error with its message as the only
-- value, as `queue_packet` does with its result, and frees what it took for it; where the writer
-- has no memory for the message it gives -1 and leaves the worker as it was.
pub queue_string_error-Queued :
    (base : ℕ) (env : Env) (c proc_id call_id : ℕ) (message : List ℕ) (w : Worker) (s : Mem)
    → IsHost env.grant
    → IsByteBuffer (w.conn_at c).write_buf
    → count_block (w.conn_at c).write_buf.block ≤ s.live
    → Ends base
        (λ r s'.
          Queued env c (error_header proc_id call_id message) (error_payload message) w s r s'
          × ((writer : Writer) (s1 : Mem)
              → writer_string env.grant writer_init (present message) s
                ≡ returned (false, writer) s1
              → r ≡ (false, w)))
        (queue_string_error env c proc_id call_id message w s)
queue_string_error-Queued base env c proc_id call_id message w s host v owns =
    Ends-map_known base _ _ (queue_string_error env c proc_id call_id message w s)
      (string_error-Queued base env c proc_id call_id message w s host v owns)
      (λ r s' ended q. (
        q,
        λ writer s1 dry.
            (let ends = queue_string_error_dry env c proc_id call_id message w s writer s1 dry in
              cc),
      ))
