-- ===== src/Server/Queue/Touched.antt =====
-- What the operations on a write buffer in src/server.c leave alone.
use wirecall.Common.{
  ℕ, Bool, true, List, ◌∷◌, ==_self, ne→==, ◌≡◌, ◌≢◌, inl, inr, refl, ap, ◌∙◌, Bool-cases, subst,
  false, not, ◌&&◌, if◌then◌else◌, sym,
}
use wirecall.Stream.{ByteBuffer}
use wirecall.Server.{Connection, Worker, put, put_conn, in_use}
use wirecall.Server.Queue.{worker_queue_write}

-- A connection with another write buffer.
abbrev with_write : ByteBuffer → Bool → Connection → Connection
with_write b queued conn = record conn { write_buf = b; write_queued = queued }

-- The list of pending writes when the mark of `c` was `before` and is `after`.
abbrev pub queue_after : ℕ → Bool → Bool → List ℕ → List ℕ
queue_after c before after l = if after && not before then c ∷ l else l

pub queue_after-same : (c : ℕ) (b : Bool) (l : List ℕ) → queue_after c b b l ≡ l
queue_after-same c true l = refl
queue_after-same c false l = refl

-- The worker after an operation on the write buffer of `c`, which is `b` now, and on its place in
-- the list of pending writes: all else is as it was.
pub record Touched (c : ℕ) (b : ByteBuffer) (queued : Bool) (w w' : Worker) : Type 0 where
  pub conn : w'.conn_at c ≡ record (w.conn_at c) { write_buf = b; write_queued = queued }
  pub others : (d : ℕ) → d ≢ c → w'.conn_at d ≡ w.conn_at d
  pub calls : w'.call_at ≡ w.call_at
  pub completed : w'.completed ≡ w.completed
  pub pending_writes :
      w'.pending_writes ≡ queue_after c (w.conn_at c).write_queued queued w.pending_writes
  pub marked : (w.conn_at c).write_queued ≡ true → queued ≡ true
  pub connections : w'.connections ≡ w.connections
  pub connection_arena : w'.connection_arena ≡ w.connection_arena
  pub deferred_arena : w'.deferred_arena ≡ w.deferred_arena

pub touch_nothing :
    (c : ℕ) (w : Worker) → Touched c (w.conn_at c).write_buf (w.conn_at c).write_queued w w
touch_nothing c w = record {
  conn = refl;
  others = λ d e. refl;
  calls = refl;
  completed = refl;
  pending_writes = sym (queue_after-same c (w.conn_at c).write_queued w.pending_writes);
  marked = λ e. e;
  connections = refl;
  connection_arena = refl;
  deferred_arena = refl;
}

pub touch_twice :
    (c : ℕ) (b b' : ByteBuffer) (q' : Bool) (u v w : Worker)
    → Touched c b (u.conn_at c).write_queued u v
    → Touched c b' q' v w
    → Touched c b' q' u w
touch_twice c b b' q' u v w p t = record {
  conn = t.conn ∙ ap (with_write b' q') p.conn;
  others = λ d e. t.others d e ∙ p.others d e;
  calls = t.calls ∙ p.calls;
  completed = t.completed ∙ p.completed;
  pending_writes =
      t.pending_writes
      ∙ ap (λ before. queue_after c before q' v.pending_writes) (ap Connection.write_queued p.conn)
      ∙ ap (queue_after c (u.conn_at c).write_queued q')
          (p.pending_writes ∙ queue_after-same c (u.conn_at c).write_queued u.pending_writes);
  marked = λ e. t.marked (ap Connection.write_queued p.conn ∙ e);
  connections = t.connections ∙ p.connections;
  connection_arena = t.connection_arena ∙ p.connection_arena;
  deferred_arena = t.deferred_arena ∙ p.deferred_arena;
}

pub conn_at-put_conn :
    (c : ℕ) (conn : Connection) (w : Worker) → (put_conn c conn w).conn_at c ≡ conn
unfolding put_conn put
conn_at-put_conn c conn w = rw (==_self c) refl

pub conn_at-put_conn_other :
    (c d : ℕ) (conn : Connection) (w : Worker) → d ≢ c → (put_conn c conn w).conn_at d ≡ w.conn_at d
unfolding put_conn put
conn_at-put_conn_other c d conn w e = rw (ne→== d c e) refl

pub put_conn-Touched :
    (c : ℕ) (b : ByteBuffer) (queued : Bool) (pending : List ℕ) (w : Worker)
    → pending ≡ queue_after c (w.conn_at c).write_queued queued w.pending_writes
    → ((w.conn_at c).write_queued ≡ true → queued ≡ true)
    → Touched c b queued w
        (record (put_conn c (record (w.conn_at c) { write_buf = b; write_queued = queued }) w) {
          pending_writes = pending;
        })
unfolding put_conn
put_conn-Touched c b queued pending w e m = record {
  conn = conn_at-put_conn c _ w;
  others = λ d e. conn_at-put_conn_other c d _ w e;
  calls = refl;
  completed = refl;
  pending_writes = e;
  marked = m;
  connections = refl;
  connection_arena = refl;
  deferred_arena = refl;
}

-- After `worker_queue_write` the connection stands in the list, or it did already.
pub worker_queue_write-Touched :
    (c : ℕ) (w : Worker) → Touched c (w.conn_at c).write_buf true w (worker_queue_write c w)
unfolding worker_queue_write
worker_queue_write-Touched c w = elim (Bool-cases (w.conn_at c).write_queued) [
  | inl queued ↦
      rw queued (subst (λ q. Touched c (w.conn_at c).write_buf q w w) queued (touch_nothing c w))
  | inr out ↦ rw out (
      put_conn-Touched c (w.conn_at c).write_buf true (c ∷ w.pending_writes) w
        (ap (λ before. queue_after c before true w.pending_writes) (sym out)) (λ e. refl))
]

-- A marked connection is in the list, if the mark it had before was right.
pub listed-Touched :
    (c : ℕ) (b : ByteBuffer) (w w' : Worker)
    → Touched c b true w w'
    → ((w.conn_at c).write_queued ≡ true → in_use c w.pending_writes ≡ true)
    → in_use c w'.pending_writes ≡ true
unfolding in_use
listed-Touched c b w w' t h = rw t.pending_writes (elim (Bool-cases (w.conn_at c).write_queued) [
  | inl marked ↦ rw marked (h marked)
  | inr new ↦ rw (new, ==_self c) refl
])
