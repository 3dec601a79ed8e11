-- ===== src/Server/Lifetime/Serve.antt =====
-- `handle_packet` of src/server.c against the connections and calls of the worker.
use wirecall.Common.{
  ℕ, ◌+◌, ◌-◌, ◌≤◌, ◌<◌, ◌^◌, Bool, true, false, List, [], ◌∷◌, All, ◌==◌, some, ◌≡◌, ap, ◌∙◌,
  arith, Bool-cases, inl, inr, ==→eq, ==→ne, sym, subst,
}
use wirecall.Words.{IsByte}
use wirecall.Memory.{Mem, count_block}
use wirecall.Memory.Ends.{IsHost, Ends, Ends-after, Ends-map}
use wirecall.Protocol.Header.{Header, flag_none}
use wirecall.Protocol.Buffer.{Buffer, absent, contents}
use wirecall.Payload.Writer.{Writer}
use wirecall.Routes.{Route}
use wirecall.Routes.Chain.{node_blocks}
use wirecall.Routes.Lookup.{meaning}
use wirecall.Scheduler.Submit.{Submission, kept}
use wirecall.Stream.{ByteBuffer}
use wirecall.Server.{Connection, Worker, put_conn}
use wirecall.Server.Host.{Host}
use wirecall.Server.Queue.{Env, queue_packet}
use wirecall.Server.Queue.Laws.{queue_packet-Queued}
use wirecall.Server.Queue.Touched.{conn_at-put_conn, conn_at-put_conn_other}
use wirecall.Server.Dispatch.{Site, queue_reply, handle_sync_call, on_call_done}
use wirecall.Server.Dispatch.Sync.{AreHandlers, queue_reply-Replied, handle_sync_call-Replied}
use wirecall.Server.Lifetime.Elements.{total-without, total-same}
use wirecall.Server.Lifetime.Alive.{weight, owed, Sound}
use wirecall.Server.Lifetime.Ready.{Ready, Queued-Ready}
use wirecall.Server.Lifetime.Defer.{AreDeferred, HasSlots}

-- A route has the handler of its kind.
abbrev pub IsCallable : Route → Type 0
IsCallable route =
    (route.is_deferred ≡ true → (f : ℕ) × (route.deferred_handler ≡ some f))
    × (route.is_deferred ≡ false → route.is_async ≡ false → (f : ℕ) × (route.handler ≡ some f))

-- The blocks of the calls that the worker has submitted to its scheduler.
abbrev pub submitted_blocks : List (ℕ × Submission) → ℕ
submitted_blocks [] = 0
submitted_blocks ((c, call) ∷ more) = kept call + submitted_blocks more

-- The contract of what the host gives: the allocator, the handlers, and the arena's answers.
pub record IsServerHost (env : Env) (hosted : Host) : Type 0 where
  pub allocator : IsHost env.grant
  pub handlers : AreHandlers hosted
  pub deferred : AreDeferred hosted
  pub slots : HasSlots hosted

-- The worker is ready, its route table has room for a reader and routes that can be called, and the
-- blocks are those of the worker, of the submitted calls and of the retired routes, and `base`.
pub record Serving (base c : ℕ) (site : Site) (s : Mem) : Type 0 where
  pub ready :
      Ready
        (base + (submitted_blocks site.submitted + node_blocks site.routes.retired))
        c
        site.worker
        s
  pub readers : site.routes.active_readers < 2 ^ 32 - 1
  pub callable : (id : ℕ) (route : Route) → meaning site.routes id ≡ some route → IsCallable route

-- Other blocks may come and go.
pub Ready-rebase :
    (base base' c : ℕ) (w : Worker) (s s' : Mem)
    → s.live + base' ≡ s'.live + base
    → Ready base c w s
    → Ready base' c w s'
Ready-rebase base base' c w s s' e h =
    let live = h.alive.live in
    record {
      alive = record {
        conns = h.alive.conns;
        calls = h.alive.calls;
        owner = h.alive.owner;
        arrays = h.alive.arrays;
        sound = h.alive.sound;
        lists = h.alive.lists;
        listed = h.alive.listed;
        reached = h.alive.reached;
        queue = h.alive.queue;
        waiting = h.alive.waiting;
        live = omega arith;
      };
      here = h.here;
      attached = h.attached;
      ended = h.ended;
    }

write_live :
    (base c : ℕ) (w : Worker) (s : Mem)
    → Ready base c w s
    → count_block (w.conn_at c).write_buf.block ≤ s.live
write_live base c w s h =
    let live = h.alive.live in
    let part = total-without (λ d. weight (w.conn_at d)) c w.connection_arena h.here in omega arith

module _ (left base : ℕ) (env : Env) (c : ℕ) (w : Worker) (s : Mem) (host : IsHost env.grant)
    (h : Ready base c w s) where
  pub queue_packet-Ready :
      (op call_id : ℕ)
      → Ends left
          (λ r s'. Ready base c r.1 s')
          (queue_packet env c op flag_none 0 call_id (absent 0) w s)
  queue_packet-Ready op call_id =
      Ends-map left _ _ (queue_packet env c op flag_none 0 call_id (absent 0) w s)
        (queue_packet-Queued left env c op flag_none 0 call_id (absent 0) w s host
          (h.alive.sound c h.here).valid)
        (λ r s' q. Queued-Ready base c env _ (absent 0) w s r s' h q)

  pub handle_sync_call-Ready :
      (hosted : Host) (header : Header) (route : Route) (f : ℕ) (payload : Buffer)
      → AreHandlers hosted
      → route.handler ≡ some f
      → All IsByte (contents payload)
      → Ends left
          (λ r s'. Ready base c r.1 s')
          (handle_sync_call env hosted c header route payload w s)
  handle_sync_call-Ready hosted header route f payload fs found bytes =
      Ends-map left _ _ (handle_sync_call env hosted c header route payload w s)
        (handle_sync_call-Replied left env hosted c header route f payload w s host fs found bytes
          (h.alive.sound c h.here).valid (write_live base c w s h))
        (λ r s' p. Queued-Ready base c env _ _ w s r s' h p.replied)

  pub on_call_done-Ready :
      (proc_id call_id : ℕ) (result : Bool) (response : Writer) (message : List ℕ)
      → Ends left
          (λ w' s'. Ready base c w' s')
          (on_call_done env c proc_id call_id result response message w s)
  unfolding on_call_done
  on_call_done-Ready proc_id call_id result response message =
      Ends-after left _ _ (queue_reply env c proc_id call_id result response message w s) _
        (queue_reply-Replied left env c proc_id call_id result response message w s host
          (h.alive.sound c h.here).valid (write_live base c w s h))
        (λ r s' p. Queued-Ready base c env _ _ w s r s' h p)

  -- `conn->closing = 1`, and what else a connection may change on its own.
  pub put_conn-Ready :
      (conn : Connection)
      → conn.read_buf.block ≡ (w.conn_at c).read_buf.block
      → conn.write_buf ≡ (w.conn_at c).write_buf
      → conn.detached ≡ (w.conn_at c).detached
      → conn.write_queued ≡ (w.conn_at c).write_queued
      → conn.pending_deferred ≡ (w.conn_at c).pending_deferred
      → Ready base c (put_conn c conn w) s
  unfolding put_conn
  put_conn-Ready conn read write detached mark pending = record {
    alive = record {
      conns = h.alive.conns;
      calls = h.alive.calls;
      owner = h.alive.owner;
      arrays = h.alive.arrays;
      sound = λ d e. elim (Bool-cases (d == c)) [
        | inl same ↦
            subst (λ x. Sound ((put_conn c conn w).conn_at x) (owed w x)) (sym (==→eq d c same))
              (subst (λ x. Sound x (owed w c)) (sym (conn_at-put_conn c conn w))
                (let was = h.alive.sound c h.here in
                  record {
                    valid = rw write was.valid;
                    counted = pending ∙ was.counted;
                    gone = λ g. (let attached = h.attached in cc);
                  }))
        | inr other ↦
            subst (λ x. Sound x (owed w d))
              (sym (conn_at-put_conn_other c d conn w (==→ne d c other))) (h.alive.sound d e)
      ];
      lists = h.alive.lists;
      listed = λ d e.
          (let (used, open_conn) = h.alive.listed d e in
            (used, part Connection.detached detached d ∙ open_conn));
      reached = λ d e a. h.alive.reached d e (sym (part Connection.detached detached d) ∙ a);
      queue = h.alive.queue;
      waiting = λ d e.
          (let (used, open_conn, marked) = h.alive.waiting d e in
            (
              used,
              part Connection.detached detached d ∙ open_conn,
              part Connection.write_queued mark d ∙ marked,
            ));
      live =
          let live = h.alive.live in
          let same =
            total-same (λ d. weight ((put_conn c conn w).conn_at d)) (λ d. weight (w.conn_at d))
              w.connection_arena (λ d e. part weight weights d) in
          omega arith;
    };
    here = h.here;
    attached = part Connection.detached detached c ∙ h.attached;
    ended = record { once = h.ended.once; used = h.ended.used };
  }
    where
      part :
          {A : Type 0} (f : Connection → A)
          → f conn ≡ f (w.conn_at c)
          → (d : ℕ) → f ((put_conn c conn w).conn_at d) ≡ f (w.conn_at d)
      part f e d = elim (Bool-cases (d == c)) [
        | inl same ↦
            subst (λ x. f ((put_conn c conn w).conn_at x) ≡ f (w.conn_at x)) (sym (==→eq d c same))
              (ap f (conn_at-put_conn c conn w) ∙ e)
        | inr other ↦ ap f (conn_at-put_conn_other c d conn w (==→ne d c other))
      ]

      weights : weight conn ≡ weight (w.conn_at c)
      weights =
          let reads = ap count_block read in
          let writes = ap (λ (b : ByteBuffer). count_block b.block) write in omega arith
