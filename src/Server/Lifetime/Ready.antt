-- ===== src/Server/Lifetime/Ready.antt =====
-- A worker of src/server.c between two packets of one of its connections.
use wirecall.Common.{
  ℕ, Bool, true, false, List, ◌==◌, if◌then◌else◌, ◌≡◌, ap, ◌∙◌, arith, sym, subst,
}
use wirecall.Memory.{Mem}
use wirecall.Memory.Ends.{IsHost, Ends, Ends-map}
use wirecall.Payload.Decode.Blocks.{IsArray}
use wirecall.Protocol.Header.{Header}
use wirecall.Protocol.Buffer.{Buffer}
use wirecall.Server.{Connection, Deferred, Worker, in_use}
use wirecall.Server.Queue.{Env, queue_string_error}
use wirecall.Server.Queue.Laws.{Queued}
use wirecall.Server.Queue.Error.{error_header, error_payload, string_error-Queued}
use wirecall.Server.Lifetime.Elements.{Distinct, total, total-same, total-without}
use wirecall.Server.Lifetime.Alive.{weight, call_weight, counts, owed, Alive}
use wirecall.Server.Lifetime.Touch.{Touched-Alive}

-- The list of completed calls: each is in use, is marked, and is there once.
pub record Ended (w : Worker) : Type 0 where
  pub once : Distinct w.completed
  pub used :
      (k : ℕ)
      → in_use k w.completed ≡ true
      → (in_use k w.deferred_arena ≡ true) × ((w.call_at k).completed ≡ true)

-- The worker when the connection `c` has a packet to handle.
pub record Ready (base c : ℕ) (w : Worker) (s : Mem) : Type 0 where
  pub alive : Alive base w s
  pub here : in_use c w.connection_arena ≡ true
  pub attached : (w.conn_at c).detached ≡ false
  pub ended : Ended w

-- A packet that is queued, or not.
pub Queued-Ready :
    (base c : ℕ) (env : Env) (header : Header) (payload : Buffer) (w : Worker) (s : Mem)
    (r : Bool × Worker) (s' : Mem)
    → Ready base c w s
    → Queued env c header payload w s r s'
    → Ready base c r.1 s'
Queued-Ready base c env header payload w s r s' h q =
    let t = q.touched in
    record {
      alive =
          Touched-Alive base c q.b q.queued w r.1 s s' h.alive h.here h.attached t q.valid q.live;
      here = subst (λ l. in_use c l ≡ true) (sym t.connection_arena) h.here;
      attached = ap Connection.detached t.conn ∙ h.attached;
      ended = record {
        once = subst Distinct (sym t.completed) h.ended.once;
        used = λ k e.
            (let (used, marked) = h.ended.used k (subst (λ l. in_use k l ≡ true) t.completed e) in
              (
                subst (λ l. in_use k l ≡ true) (sym t.deferred_arena) used,
                ap (λ (f : ℕ → Deferred). (f k).completed) t.calls ∙ marked,
              ));
      };
    }

pub queue_string_error-Ready :
    (left base : ℕ) (env : Env) (c proc_id call_id : ℕ) (message : List ℕ) (w : Worker) (s : Mem)
    → IsHost env.grant
    → Ready base c w s
    → Ends left (λ r s'. Ready base c r.1 s') (queue_string_error env c proc_id call_id message w s)
queue_string_error-Ready left base env c proc_id call_id message w s host h =
    let live = h.alive.live in
    let part = total-without (λ d. weight (w.conn_at d)) c w.connection_arena h.here in
    Ends-map left _ _ (queue_string_error env c proc_id call_id message w s)
      (string_error-Queued left env c proc_id call_id message w s host
        (h.alive.sound c h.here).valid (omega arith))
      (λ r s' q.
        Queued-Ready base c env (error_header proc_id call_id message) (error_payload message) w s r
          s' h q)

-- The same worker, but for what does not matter to the elements in use.
pub record Alike (w w' : Worker) : Type 0 where
  pub conns : w'.conn_at ≡ w.conn_at
  pub connections : w'.connections ≡ w.connections
  pub pending_writes : w'.pending_writes ≡ w.pending_writes
  pub connection_arena : w'.connection_arena ≡ w.connection_arena
  pub deferred_arena : w'.deferred_arena ≡ w.deferred_arena
  pub conn : (k : ℕ) → in_use k w.deferred_arena ≡ true → (w'.call_at k).conn ≡ (w.call_at k).conn
  pub args : (k : ℕ) → in_use k w.deferred_arena ≡ true → (w'.call_at k).args ≡ (w.call_at k).args
  pub held :
      (k : ℕ)
      → in_use k w.deferred_arena ≡ true
      → call_weight (w'.call_at k) ≡ call_weight (w.call_at k)

pub Alike-Alive :
    (base : ℕ) (w w' : Worker) (s : Mem) → Alive base w s → Alike w w' → Alive base w' s
Alike-Alive base w w' s h t = record {
  conns = subst Distinct (sym t.connection_arena) h.conns;
  calls = subst Distinct (sym t.deferred_arena) h.calls;
  owner = λ k e. rw t.connection_arena (
      subst (λ d. in_use d w.connection_arena ≡ true) (sym (t.conn k (at_call k e)))
        (h.owner k (at_call k e)));
  arrays = λ k e. subst IsArray (sym (t.args k (at_call k e))) (h.arrays k (at_call k e));
  sound = λ d e. rw (t.conns, owed_same d) (h.sound d (at_conn d e));
  lists = subst Distinct (sym t.connections) h.lists;
  listed = λ d e.
      rw (t.conns, t.connection_arena)
        (h.listed d (subst (λ l. in_use d l ≡ true) t.connections e));
  reached = λ d e a. rw t.connections (
      h.reached d (at_conn d e) (subst (λ (f : ℕ → Connection). (f d).detached ≡ false) t.conns a));
  queue = subst Distinct (sym t.pending_writes) h.queue;
  waiting = λ d e.
      rw (t.conns, t.connection_arena)
        (h.waiting d (subst (λ l. in_use d l ≡ true) t.pending_writes e));
  live =
      rw (t.conns, t.connection_arena, t.deferred_arena)
        (let live = h.live in
          let same =
            total-same (λ k. call_weight (w'.call_at k)) (λ k. call_weight (w.call_at k))
              w.deferred_arena t.held in
          omega arith);
}
  where
    at_call : (k : ℕ) → in_use k w'.deferred_arena ≡ true → in_use k w.deferred_arena ≡ true
    at_call k e = subst (λ l. in_use k l ≡ true) t.deferred_arena e

    at_conn : (d : ℕ) → in_use d w'.connection_arena ≡ true → in_use d w.connection_arena ≡ true
    at_conn d e = subst (λ l. in_use d l ≡ true) t.connection_arena e

    owed_same : (d : ℕ) → owed w' d ≡ owed w d
    owed_same d =
        ap (total (λ k. counts d (w'.call_at k))) t.deferred_arena
        ∙ total-same (λ k. counts d (w'.call_at k)) (λ k. counts d (w.call_at k)) w.deferred_arena
            (λ k e. ap (λ x. if x == d then 1 else 0) (t.conn k e))
