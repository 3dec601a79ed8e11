-- ===== src/Server/Lifetime/Entered.antt =====
-- The call that `handle_deferred_call` of src/server.c takes, up to its handler.
use wirecall.Common.{
  ℕ, ◌+◌, ◌-◌, Bool, true, false, List, ◌∷◌, ◌==◌, ◌≡◌, ◌≢◌, refl, ap, ◌∙◌, arith, Bool-cases, inl,
  inr, ==_self, sym, subst,
}
use wirecall.Memory.{Mem, ◌>>=◌, count_block}
use wirecall.Memory.Ends.{IsHost, Ends}
use wirecall.Protocol.Header.{Header}
use wirecall.Payload.Decode.Blocks.{IsArray, no_array-IsArray}
use wirecall.Payload.Writer.{writer_init}
use wirecall.Server.{Connection, Deferred, Worker, put_deferred, without, in_use}
use wirecall.Server.Queue.{Env, queue_string_error}
use wirecall.Server.Calls.{deferred_free, new_call, take_call}
use wirecall.Server.Lifetime.Alive.{call_weight, Alive, drop_call, deferred_free_lem}
use wirecall.Server.Lifetime.Ready.{Ready, Alike, Alike-Alive, queue_string_error-Ready}
use wirecall.Server.Lifetime.Finish.{call_at-put, call_at-put_other}

-- The call before its payload is decoded: it may have the copy of the payload.
abbrev pub entering : ℕ → Header → Bool → Deferred
entering c header copied = record (new_call c header) { payload = copied }

-- The worker with a new element that no connection counts yet.
pub record Entered (k : ℕ) (call : Deferred) (w w' : Worker) : Type 0 where
  pub conns : w'.conn_at ≡ w.conn_at
  pub connections : w'.connections ≡ w.connections
  pub pending_writes : w'.pending_writes ≡ w.pending_writes
  pub completed : w'.completed ≡ w.completed
  pub connection_arena : w'.connection_arena ≡ w.connection_arena
  pub deferred_arena : w'.deferred_arena ≡ k ∷ w.deferred_arena
  pub new : w'.call_at k ≡ call
  pub calls : (j : ℕ) → j ≢ k → w'.call_at j ≡ w.call_at j

pub take_call-Entered :
    (k c : ℕ) (header : Header) (w : Worker)
    → Entered k (entering c header false) w (take_call k c header w)
unfolding take_call put_deferred
take_call-Entered k c header w = record {
  conns = refl;
  connections = refl;
  pending_writes = refl;
  completed = refl;
  connection_arena = refl;
  deferred_arena = refl;
  new = call_at-put k (new_call c header) w;
  calls = λ j ne. call_at-put_other j k (new_call c header) w ne;
}

pub copied-Entered :
    (k c : ℕ) (header : Header) (w w' : Worker)
    → Entered k (entering c header false) w w'
    → Entered k
        (entering c header true)
        w
        (put_deferred k (record (w'.call_at k) { payload = true }) w')
unfolding put_deferred
copied-Entered k c header w w' t = record {
  conns = t.conns;
  connections = t.connections;
  pending_writes = t.pending_writes;
  completed = t.completed;
  connection_arena = t.connection_arena;
  deferred_arena = t.deferred_arena;
  new =
      call_at-put k (record (w'.call_at k) { payload = true }) w'
      ∙ ap (λ (x : Deferred). record x { payload = true }) t.new;
  calls =
      λ j ne. call_at-put_other j k (record (w'.call_at k) { payload = true }) w' ne ∙ t.calls j ne;
}

module _ (left base : ℕ) (env : Env) (c k : ℕ) (header : Header) (copied : Bool) (w w' : Worker)
    (s : Mem) (host : IsHost env.grant) (h : Ready base c w s)
    (unused : in_use k w.deferred_arena ≡ false)
    (t : Entered k (entering c header copied) w w') where
  pub apart : (j : ℕ) → in_use j w.deferred_arena ≡ true → j ≢ k
  apart j e same =
      let inside = subst (λ x. in_use x w.deferred_arena ≡ true) same e in let out = unused in cc

  pub entered : in_use k w'.deferred_arena ≡ true
  unfolding in_use
  entered = rw t.deferred_arena (rw (==_self k) refl)

  gone : (drop_call k w').deferred_arena ≡ w.deferred_arena
  unfolding without
  gone = ap (without k) t.deferred_arena ∙ rw (==_self k) refl

  Alike-dropped : Alike w (drop_call k w')
  Alike-dropped = record {
    conns = t.conns;
    connections = t.connections;
    pending_writes = t.pending_writes;
    connection_arena = t.connection_arena;
    deferred_arena = gone;
    conn = λ j e. ap Deferred.conn (t.calls j (apart j e));
    args = λ j e. ap Deferred.args (t.calls j (apart j e));
    held = λ j e. ap call_weight (t.calls j (apart j e));
  }

  -- The worker after `deferred_free`.
  Ready-dropped : (s' : Mem) → s'.live ≡ s.live → Ready base c (drop_call k w') s'
  Ready-dropped s' same = record {
    alive = Alike-Alive base w (drop_call k w') s' (alive_at s' same) Alike-dropped;
    here = subst (λ l. in_use c l ≡ true) (sym t.connection_arena) h.here;
    attached = ap (λ (f : ℕ → Connection). (f c).detached) t.conns ∙ h.attached;
    ended = record {
      once = rw t.completed h.ended.once;
      used = λ j e.
          (let (used, mark) = h.ended.used j (subst (λ l. in_use j l ≡ true) t.completed e) in
            (
              subst (λ l. in_use j l ≡ true) (sym gone) used,
              ap Deferred.completed (t.calls j (apart j used)) ∙ mark,
            ));
    };
  }
    where
      alive_at : (s' : Mem) → s'.live ≡ s.live → Alive base w s'
      alive_at s' same =
          let live = h.alive.live in
          record {
            conns = h.alive.conns;
            calls = h.alive.calls;
            owner = h.alive.owner;
            arrays = h.alive.arrays;
            sound = h.alive.sound;
            lists = h.alive.lists;
            listed = h.alive.listed;
            reached = h.alive.reached;
            queue = h.alive.queue;
            waiting = h.alive.waiting;
            live = same ∙ live;
          }

  -- A failure: the call is freed and an error is sent.
  pub refused :
      (message : List ℕ) (s' : Mem)
      → s'.live ≡ s.live + count_block copied
      → Ends left
          (λ r s''. Ready base c r.1 s'')
          ((deferred_free k w' >>= λ u.
              queue_string_error env c header.proc_id header.call_id message u)
            s')
  unfolding writer_init
  refused message s' live =
      let weight : call_weight (w'.call_at k) ≡ count_block copied =
        ap call_weight t.new ∙ omega arith in
      let array = subst (λ (x : Deferred). IsArray x.args) (sym t.new) no_array-IsArray in
      rw (deferred_free_lem k w' s' array entered (omega (arith, weight, live))) (
        queue_string_error-Ready left base env c header.proc_id header.call_id message
          (drop_call k w') (record s' { live = s'.live - call_weight (w'.call_at k) }) host
          (Ready-dropped (record s' { live = s'.live - call_weight (w'.call_at k) })
            (omega (arith, weight, live))))

  pub later : (j : ℕ) → in_use j w.deferred_arena ≡ true → in_use j (k ∷ w.deferred_arena) ≡ true
  unfolding in_use
  later j e = elim (Bool-cases (k == j)) [ inl same ↦ rw same refl | inr other ↦ rw other e ]
