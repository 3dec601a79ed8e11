-- ===== src/Server/Lifetime/Drain.antt =====
-- `worker_drain_completed` of src/server.c against the connections and calls that it may free.
use wirecall.Common.{
  ℕ, Bool, true, false, not, ◌&&◌, List, [], ◌∷◌, length, ◌==◌, if◌then◌else◌, ◌≡◌, ◌≢◌, refl, ap,
  ◌∙◌, arith, Bool-cases, inl, inr, ==_self, sym, subst,
}
use wirecall.Memory.{Mem}
use wirecall.Memory.Ends.{IsHost, Ends, Ends-after, Ends-map}
use wirecall.Server.{Deferred, Worker, without, in_use}
use wirecall.Server.Text
use wirecall.Protocol.Op
use wirecall.Protocol.Header.{flag_none}
use wirecall.Server.Queue.{Env, writer_buffer, queue_packet, queue_string_error}
use wirecall.Server.Dispatch.Sync.{Replied, queue_reply-Replied}
use wirecall.Server.Dispatch.{queue_reply}
use wirecall.Server.Lifetime.{
  deferred_reply, drain_end, drain_one, drain_loop, worker_drain_completed,
}
use wirecall.Server.Lifetime.Elements.{Distinct, total-without, in_use-without_other}
use wirecall.Server.Lifetime.Alive.{weight, Alive}
use wirecall.Server.Lifetime.Touch.{Touched-Alive}
use wirecall.Server.Lifetime.Drop.{Dropped, drain_end-Dropped}

abbrev reply_text : Deferred → List ℕ
reply_text call = if length call.error == 0 then Text.deferred_failed else call.error

-- The reply to a deferred call is that of `on_call_done`.
deferred_reply-Replied :
    (left : ℕ) (env : Env) (c : ℕ) (call : Deferred) (w : Worker) (s : Mem) (base : ℕ)
    → IsHost env.grant
    → Alive base w s
    → in_use c w.connection_arena ≡ true
    → Ends left
        (λ r s'.
          Replied env c call.proc_id call.call_id call.result call.response
            (reply_text call)
            w
            s
            r
            s')
        (deferred_reply env c call w s)
unfolding deferred_reply queue_reply
deferred_reply-Replied left env c call w s base host h here =
    let valid = (h.sound c here).valid in
    let live = h.live in
    let part = total-without (λ d. weight (w.conn_at d)) c w.connection_arena here in
    let replied =
      queue_reply-Replied left env c call.proc_id call.call_id call.result call.response
        (reply_text call) w s host valid (omega arith) in
    by_result call.result replied
  where
    by_result :
        (b : Bool)
        → Ends left
            (λ r s'.
              Replied env c call.proc_id call.call_id b call.response (reply_text call) w s r s')
            (queue_reply env c call.proc_id call.call_id b call.response (reply_text call) w s)
        → Ends left
            (λ r s'.
              Replied env c call.proc_id call.call_id b call.response (reply_text call) w s r s')
            ((if b
                then queue_packet env c Op.response flag_none call.proc_id call.call_id
                    (writer_buffer call.response)
                    w
                else queue_string_error env c call.proc_id call.call_id (reply_text call) w)
              s)
    by_result true e = e
    by_result false e = e

-- The rest of a round, after the reply.
after_reply :
    (left base : ℕ) (env : Env) (k : ℕ) (w w' : Worker) (s s' : Mem) (rc : Bool)
    → Alive base w s
    → in_use k w.deferred_arena ≡ true
    → (w.conn_at (w.call_at k).conn).detached ≡ false
    → (let call = w.call_at k in
        Replied env call.conn call.proc_id call.call_id call.result call.response
          (reply_text call)
          w
          s
          (rc, w')
          s')
    → Ends left (Dropped base k w) (drain_end (w.call_at k).conn k w' s')
after_reply left base env k w w' s s' rc h here open_conn p =
    let c = (w.call_at k).conn in
    let q = p in
    let t = q.touched in
    let alive =
      Touched-Alive base c q.b q.queued w w' s s' h (h.owner k here) open_conn t q.valid q.live in
    let here' = subst (λ l. in_use k l ≡ true) (sym t.deferred_arena) here in
    subst (λ d. Ends left (Dropped base k w) (drain_end d k w' s'))
      (ap (λ (f : ℕ → Deferred). (f k).conn) t.calls)
      (Ends-map left (Dropped base k w') (Dropped base k w) _
        (drain_end-Dropped base k w' s' alive here' left)
        (λ w'' s'' d. record {
          alive = d.alive;
          calls = d.calls ∙ ap (without k) t.deferred_arena;
          completed = d.completed ∙ t.completed;
        }))

drain_one-Dropped :
    (left base : ℕ) (env : Env) (k : ℕ) (w : Worker) (s : Mem)
    → IsHost env.grant
    → Alive base w s
    → in_use k w.deferred_arena ≡ true
    → Ends left (Dropped base k w) (drain_one env k w s)
unfolding drain_one
drain_one-Dropped left base env k w s host h here =
    let c = (w.call_at k).conn in
    elim (Bool-cases (not (w.conn_at c).detached && not (w.conn_at c).closing)) [
      | inl answers ↦
          let open_conn : (w.conn_at c).detached ≡ false = ground (arith, answers) in
          rw answers (
            Ends-after left _ _ (deferred_reply env c (w.call_at k) w s) _
              (deferred_reply-Replied left env c (w.call_at k) w s base host h (h.owner k here))
              (λ r s' p. after_reply left base env k w r.1 s s' r.0 h here open_conn p))
      | inr silent ↦ rw silent (drain_end-Dropped base k w s h here left)
    ]

-- A list without each of some elements.
abbrev pub all_gone : List ℕ → List ℕ → List ℕ
all_gone [] l = l
all_gone (k ∷ ks) l = all_gone ks (without k l)

-- What the loop leaves: a sound worker, with all deferred calls but those.
pub record Drained (base : ℕ) (ks : List ℕ) (w w' : Worker) (s' : Mem) : Type 0 where
  pub alive : Alive base w' s'
  pub calls : w'.deferred_arena ≡ all_gone ks w.deferred_arena
  pub completed : w'.completed ≡ w.completed

drain_loop-Drained :
    (left base : ℕ) (env : Env) (ks : List ℕ) (w : Worker) (s : Mem)
    → IsHost env.grant
    → Alive base w s
    → Distinct ks
    → ((k : ℕ) → in_use k ks ≡ true → in_use k w.deferred_arena ≡ true)
    → Ends left (Drained base ks w) (drain_loop env ks w s)
unfolding drain_loop in_use
drain_loop-Drained left base env [] w s host h distinct all = record {
  alive = h;
  calls = refl;
  completed = refl;
}
drain_loop-Drained left base env (k ∷ ks) w s host h (fresh, distinct) all =
    Ends-after left _ _ (drain_one env k w s) _
      (drain_one-Dropped left base env k w s host h (all k (rw (==_self k) refl)))
      (λ w' s' d.
        Ends-map left (Drained base ks w') (Drained base (k ∷ ks) w) (drain_loop env ks w' s')
          (drain_loop-Drained left base env ks w' s' host d.alive distinct (λ j e.
            subst (λ l. in_use j l ≡ true) (sym d.calls)
              (in_use-without_other j k w.deferred_arena (apart j e) (all j (later j e)))))
          (λ w'' s'' r. record {
            alive = r.alive;
            calls = r.calls ∙ ap (all_gone ks) d.calls;
            completed = r.completed ∙ d.completed;
          }))
  where
    apart : (j : ℕ) → in_use j ks ≡ true → j ≢ k
    apart j e same = let e' = subst (λ x. in_use x ks ≡ true) same e in cc

    later : (j : ℕ) → in_use j ks ≡ true → in_use j (k ∷ ks) ≡ true
    later j e = elim (Bool-cases (k == j)) [ inl t ↦ rw t refl | inr n ↦ rw n e ]

without_completed :
    (base : ℕ) (w : Worker) (s : Mem) → Alive base w s → Alive base (record w { completed = [] }) s
without_completed base w s h =
    let live = h.live in
    record {
      conns = h.conns;
      calls = h.calls;
      owner = h.owner;
      arrays = h.arrays;
      sound = h.sound;
      lists = h.lists;
      listed = h.listed;
      reached = h.reached;
      queue = h.queue;
      waiting = h.waiting;
      live = live;
    }

-- In a sound worker, `worker_drain_completed` ends for any completed calls in use, each of which is in
-- the list once: it frees each of these calls with its blocks, and a connection that is detached with the
-- last of its calls, and leaves a sound worker. What its lists and calls refer to is in use before and
-- after, nothing is freed twice, and every live block but the `base` of others is one of a connection or
-- a deferred call in use.
pub worker_drain_completed-Alive :
    (left base : ℕ) (env : Env) (w : Worker) (s : Mem)
    → IsHost env.grant
    → Alive base w s
    → Distinct w.completed
    → ((k : ℕ) → in_use k w.completed ≡ true → in_use k w.deferred_arena ≡ true)
    → Ends left
        (λ w' s'.
          Alive base w' s'
          × (w'.deferred_arena ≡ all_gone w.completed w.deferred_arena)
          × (w'.completed ≡ []))
        (worker_drain_completed env w s)
unfolding worker_drain_completed
worker_drain_completed-Alive left base env w s host h distinct all =
    Ends-map left (Drained base w.completed (record w { completed = [] })) _
      (drain_loop env w.completed (record w { completed = [] }) s)
      (drain_loop-Drained left base env w.completed (record w { completed = [] }) s host
        (without_completed base w s h) distinct all)
      (λ w' s' d. (d.alive, d.calls, d.completed))
