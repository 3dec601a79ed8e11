-- ===== src/Server/Queue/Laws.antt =====
-- What `queue_packet` of src/server.c leaves in the write buffer, and what it leaves alone.
use wirecall.Common.{
  ℕ, ◌+◌, ◌^◌, ◌≤◌, Bool, true, false, not, ◌||◌, List, ◌++◌, length, ltb, ltb→lt, if◌then◌else◌,
  ok, fail, ◌≡◌, ◌⊎◌, inl, inr, refl, arith, Bool-cases, subst, some, ◌%◌, sym,
}
use wirecall.Memory.{Mem, count_block, ret}
use wirecall.Memory.Ends.{IsHost, Ample, Ends, Ends-after}
use wirecall.Protocol.Header.{
  Header, header_size, max_payload_size, valid_op, header_bytes, header_encode,
}
use wirecall.Protocol.Integrity.{bad_packet, packet_sign_ex, set_integrity}
use wirecall.Protocol.Buffer.{Buffer, present, absent, buffer_len, contents}
use wirecall.Stream.{ByteBuffer}
use wirecall.Stream.Grow.{IsByteBuffer}
use wirecall.Stream.Packet.{Settings, new_header, sign, signed_header}
use wirecall.Stream.Packet.RoundTrip.{signed_header-IsSigned}
use wirecall.Server.{Connection, Worker, put_conn, in_use}
use wirecall.Server.Queue.{Env, worker_queue_write, append_packet, queue_signed, queue_packet}
use wirecall.Server.Queue.Touched.{
  listed-Touched, Touched, queue_after, queue_after-same, touch_nothing, touch_twice,
  conn_at-put_conn, put_conn-Touched, worker_queue_write-Touched,
}
use wirecall.Server.Queue.Append.{Packed, append_packet-Packed}

-- What `queue_packet` needs for a success.
pub record CanQueue (env : Env) (c : ℕ) (header : Header) (payload : Buffer) (w : Worker)
    : Type 0 where
  pub ample : Ample env.grant
  pub room : length (w.conn_at c).write_buf.bytes ≤ 2 ^ 60
  pub here : (w.conn_at c).detached ≡ false
  pub open_fd : (w.conn_at c).has_fd ≡ true
  pub bytes : List ℕ
  pub signed : signed_header env.settings header payload ≡ ok bytes

signed_header_cases :
    (set : Settings) (h : Header) (payload : Buffer)
    → (signed_header set h payload ≡ fail)
      ⊎ ((bytes : List ℕ) × (signed_header set h payload ≡ ok bytes))
unfolding signed_header sign packet_sign_ex header_encode
signed_header_cases set h payload =
    let signed = set_integrity set.order h payload set.integrity (some set.mac_key) in
    elim (Bool-cases (bad_packet h payload set.integrity (some set.mac_key))) [
      | inl wrong ↦ inl (rw wrong refl)
      | inr good ↦
          elim (Bool-cases
            (not (valid_op (signed.op % 2 ^ 8)) || ltb max_payload_size signed.size)) [
              | inl wrong ↦ inl (rw (good, wrong) refl)
              | inr fine ↦ inr (header_bytes signed, rw (good, fine) refl)
            ]
    ]

-- Only a payload within the limit can be signed.
pub signed_fits :
    (set : Settings) (h : Header) (payload : Buffer) (bytes : List ℕ)
    → signed_header set h payload ≡ ok bytes
    → buffer_len payload ≤ max_payload_size
unfolding bad_packet
signed_fits set h payload bytes signed =
    let good = (signed_header-IsSigned set h payload bytes signed).good in ground arith

-- What `queue_packet` leaves: the write buffer `b`, and the rest as it was. A success means that the
-- signed packet follows what was there, and that the connection waits for a write.
pub record Queued (env : Env) (c : ℕ) (header : Header) (payload : Buffer) (w : Worker) (s : Mem)
    (r : Bool × Worker) (s' : Mem) : Type 0 where
  pub b : ByteBuffer
  pub queued : Bool
  pub touched : Touched c b queued w r.1
  pub valid : IsByteBuffer b
  pub whole :
      r.0 ≡ true
      → (queued ≡ true)
        × (bytes : List ℕ) × (signed_header env.settings header payload ≡ ok bytes)
        × (b.bytes ≡ (w.conn_at c).write_buf.bytes ++ (bytes ++ contents payload))
  pub listed :
      r.0 ≡ true
      → ((w.conn_at c).write_queued ≡ true → in_use c w.pending_writes ≡ true)
      → in_use c r.1.pending_writes ≡ true
  pub part :
      r.0 ≡ false
      → (b.bytes ≡ (w.conn_at c).write_buf.bytes)
        ⊎ ((bytes : List ℕ) × (signed_header env.settings header payload ≡ ok bytes)
            × (b.bytes ≡ (w.conn_at c).write_buf.bytes ++ bytes))
  pub sure : CanQueue env c header payload w → r.0 ≡ true
  pub live : s'.live + count_block (w.conn_at c).write_buf.block ≡ s.live + count_block b.block

-- Nothing is queued, for a reason.
pub queue_nothing :
    (env : Env) (c : ℕ) (header : Header) (payload : Buffer) (w : Worker) (s : Mem)
    → IsByteBuffer (w.conn_at c).write_buf
    → ¬ CanQueue env c header payload w
    → Queued env c header payload w s (false, w) s
queue_nothing env c header payload w s v reason = record {
  b = (w.conn_at c).write_buf;
  queued = (w.conn_at c).write_queued;
  touched = touch_nothing c w;
  valid = v;
  whole = λ e. cc;
  listed = λ e m. cc;
  part = λ e. inl refl;
  sure = λ q. absurd (reason q);
  live = refl;
}

small_packet :
    (env : Env) (h : Header) (payload : Buffer) (bytes : List ℕ)
    → signed_header env.settings h payload ≡ ok bytes
    → (length bytes ≤ header_size) × (length (contents payload) ≤ max_payload_size)
small_packet env h payload bytes signed =
    let size = (signed_header-IsSigned env.settings h payload bytes signed).size in
    (omega arith, fits payload (signed_fits env.settings h payload bytes signed))
  where
    fits : (p : Buffer) → buffer_len p ≤ max_payload_size → length (contents p) ≤ max_payload_size
    fits (absent n) l = omega arith
    fits (present p) l = l

-- The code after the two appends.
module _ (base : ℕ) (env : Env) (c : ℕ) (h : Header) (payload : Buffer) (w : Worker) (s : Mem)
    (bytes : List ℕ) (signed : signed_header env.settings h payload ≡ ok bytes) where
  same_queue :
      w.pending_writes
      ≡ queue_after c (w.conn_at c).write_queued (w.conn_at c).write_queued w.pending_writes
  same_queue = sym (queue_after-same c (w.conn_at c).write_queued w.pending_writes)

  after_appends :
      (appended : Bool) (b : ByteBuffer) (s' : Mem)
      → Packed env.grant (w.conn_at c).write_buf bytes (contents payload) s (appended, b) s'
      → let w' = put_conn c (record (w.conn_at c) { write_buf = b }) w in
        Ends base
          (Queued env c h payload w s)
          ((if appended then ret (true, worker_queue_write c w') else ret (false, w')) s')
  unfolding put_conn
  after_appends false b s' p =
      let valid = p.valid in
      let live = p.live in
      let (m, n) = small_packet env h payload bytes signed in
      record {
        b = b;
        queued = (w.conn_at c).write_queued;
        touched =
            put_conn-Touched c b (w.conn_at c).write_queued w.pending_writes w same_queue (λ e. e);
        valid = valid;
        whole = λ e. cc;
        listed = λ e m. cc;
        part =
            λ e. elim (p.part refl) [ inl same ↦ inl same | inr head ↦ inr (bytes, signed, head) ];
        sure = λ q. (let room = q.room in p.sure q.ample (omega (arith, room, m, n)));
        live = live;
      }
  after_appends true b s' p =
      let valid = p.valid in
      let live = p.live in
      let w' = put_conn c (record (w.conn_at c) { write_buf = b }) w in
      let touched : Touched c b true w (worker_queue_write c w') =
        touch_twice c b b true w w' (worker_queue_write c w')
          (put_conn-Touched c b (w.conn_at c).write_queued w.pending_writes w same_queue (λ e. e))
          (subst (λ (conn : Connection). Touched c conn.write_buf true w' (worker_queue_write c w'))
            (conn_at-put_conn c _ w) (worker_queue_write-Touched c w')) in
      record {
        b = b;
        queued = true;
        touched = touched;
        valid = valid;
        whole = λ e. (refl, bytes, signed, p.whole refl);
        listed = λ e m. listed-Touched c b w (worker_queue_write c w') touched m;
        part = λ e. cc;
        sure = λ q. refl;
        live = live;
      }

queue_signed-Queued :
    (base : ℕ) (env : Env) (c : ℕ) (h : Header) (payload : Buffer) (w : Worker) (s : Mem)
    → IsHost env.grant
    → IsByteBuffer (w.conn_at c).write_buf
    → Ends base
        (Queued env c h payload w s)
        (queue_signed env c payload w (signed_header env.settings h payload) s)
unfolding queue_signed
queue_signed-Queued base env c h payload w s host v =
    elim (signed_header_cases env.settings h payload) [
      | inl e ↦ rw e (queue_nothing env c h payload w s v (λ q. (let signed = q.signed in cc)))
      | inr (bytes, e) ↦
          let (m, n) = small_packet env h payload bytes e in
          rw e (
            Ends-after base _ _
              (append_packet env.grant bytes (contents payload) (w.conn_at c).write_buf s) _
              (append_packet-Packed base env.grant bytes (contents payload) (w.conn_at c).write_buf
                s host v (omega (arith, m)) (omega (arith, n)))
              (λ r s' p. after_appends base env c h payload w s bytes e r.0 r.1 s' p))
    ]

-- With any allocator, `queue_packet` neither crashes nor leaks nor touches another connection. Where it
-- gives 0, the write buffer has the signed packet behind what was there, the connection is marked as
-- waiting for a write, and it is in the list of pending writes if a mark it had before was right;
-- where it gives -1, the buffer is as it was or, where memory ran out between the two appends, has the
-- header without its payload. With memory, it gives 0 for every packet that can be signed on a
-- connection that is open.
pub queue_packet-Queued :
    (base : ℕ) (env : Env) (c op flags proc_id call_id : ℕ) (payload : Buffer) (w : Worker)
    (s : Mem)
    → IsHost env.grant
    → IsByteBuffer (w.conn_at c).write_buf
    → Ends base
        (Queued env c (new_header op flags proc_id (buffer_len payload) call_id) payload w s)
        (queue_packet env c op flags proc_id call_id payload w s)
unfolding queue_packet
queue_packet-Queued base env c op flags proc_id call_id payload w s host v =
    let h = new_header op flags proc_id (buffer_len payload) call_id in
    elim (Bool-cases ((w.conn_at c).detached || not (w.conn_at c).has_fd)) [
      | inl gone ↦ rw gone (
          queue_nothing env c h payload w s v
            (λ q. (let a = q.here in let b = q.open_fd in ground arith)))
      | inr here ↦ elim (Bool-cases (ltb max_payload_size (buffer_len payload))) [
        | inl big ↦
            rw (here, big)
              (queue_nothing env c h payload w s v (λ q. omega (
                arith,
                signed_fits env.settings h payload q.bytes q.signed,
                ltb→lt max_payload_size (buffer_len payload) big,
              )))
        | inr fits ↦ rw (here, fits) (queue_signed-Queued base env c h payload w s host v)
      ]
    ]
