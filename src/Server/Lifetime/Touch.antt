-- ===== src/Server/Lifetime/Touch.antt =====
-- The connections and deferred calls of a worker of src/server.c after `queue_packet`.
use wirecall.Common.{
  ℕ, ◌+◌, Bool, true, false, ◌==◌, if◌then◌else◌, ◌≡◌, ◌≢◌, ap, ◌∙◌, arith, not, ◌&&◌, ◌∷◌, ne→==,
  Bool-cases, inl, inr, ==→eq, ==→ne, sym, subst,
}
use wirecall.Memory.{Mem, count_block}
use wirecall.Stream.{ByteBuffer}
use wirecall.Stream.Grow.{IsByteBuffer}
use wirecall.Server.{Connection, Worker, in_use}
use wirecall.Server.Queue.Touched.{Touched, queue_after}
use wirecall.Server.Lifetime.Elements.{Distinct, total-put}
use wirecall.Server.Lifetime.Alive.{weight, owed, Sound, Alive}

-- A connection that is not detached may have its write buffer changed.
pub Touched-Alive :
    (base c : ℕ) (b : ByteBuffer) (queued : Bool) (w w' : Worker) (s s' : Mem)
    → Alive base w s
    → in_use c w.connection_arena ≡ true
    → (w.conn_at c).detached ≡ false
    → Touched c b queued w w'
    → IsByteBuffer b
    → s'.live + count_block (w.conn_at c).write_buf.block ≡ s.live + count_block b.block
    → Alive base w' s'
unfolding in_use
Touched-Alive base c b queued w w' s s' h here open_conn t v live = record {
  conns = subst Distinct (sym t.connection_arena) h.conns;
  calls = subst Distinct (sym t.deferred_arena) h.calls;
  owner = λ k e. rw (t.calls, t.connection_arena) (h.owner k (at_call k e));
  arrays = λ k e. rw t.calls (h.arrays k (at_call k e));
  sound = λ d e.
      rw (t.calls, t.deferred_arena)
        (sound_at d (subst (λ l. in_use d l ≡ true) t.connection_arena e));
  lists = subst Distinct (sym t.connections) h.lists;
  listed = λ d e. rw t.connection_arena (
      let (used, attached) = h.listed d (subst (λ l. in_use d l ≡ true) t.connections e) in
      (used, detached_same d ∙ attached));
  reached = λ d e a. rw t.connections (
      h.reached d (subst (λ l. in_use d l ≡ true) t.connection_arena e)
        (sym (detached_same d) ∙ a));
  queue = rw t.pending_writes queue_at;
  waiting = λ d e.
      rw t.connection_arena (waiting_at d (subst (λ l. in_use d l ≡ true) t.pending_writes e));
  live =
      rw (t.calls, t.connection_arena, t.deferred_arena)
        (let changed =
            total-put (λ d. weight (w.conn_at d)) (λ d. weight (w'.conn_at d)) c w.connection_arena
              h.conns here (λ d e. ap weight (t.others d e)) in
          let mine : weight (w'.conn_at c)
              ≡ count_block (w.conn_at c).read_buf.block + count_block b.block =
            ap weight t.conn in
          let before = h.live in omega arith);
}
  where
    at_call : (k : ℕ) → in_use k w'.deferred_arena ≡ true → in_use k w.deferred_arena ≡ true
    at_call k e = subst (λ l. in_use k l ≡ true) t.deferred_arena e

    sound_at : (d : ℕ) → in_use d w.connection_arena ≡ true → Sound (w'.conn_at d) (owed w d)
    sound_at d e = elim (Bool-cases (d == c)) [
      | inl same ↦
          subst (λ x. Sound (w'.conn_at x) (owed w x)) (sym (==→eq d c same))
            (let was = h.sound c here in
              subst (λ conn. Sound conn (owed w c)) (sym t.conn)
                (record { valid = v; counted = was.counted; gone = λ g. cc }))
      | inr other ↦
          subst (λ conn. Sound conn (owed w d)) (sym (t.others d (==→ne d c other))) (h.sound d e)
    ]

    detached_same : (d : ℕ) → (w'.conn_at d).detached ≡ (w.conn_at d).detached
    detached_same d = elim (Bool-cases (d == c)) [
      | inl same ↦
          subst (λ x. (w'.conn_at x).detached ≡ (w.conn_at x).detached) (sym (==→eq d c same))
            (ap Connection.detached t.conn)
      | inr other ↦ ap Connection.detached (t.others d (==→ne d c other))
    ]

    -- A connection that has no mark is not in the list.
    unmarked : (w.conn_at c).write_queued ≡ false → in_use c w.pending_writes ≡ false
    unmarked e = elim (Bool-cases (in_use c w.pending_writes)) [
      | inl inside ↦ let mark = (h.waiting c inside).2 in cc
      | inr out ↦ out
    ]

    queue_at : Distinct (queue_after c (w.conn_at c).write_queued queued w.pending_writes)
    queue_at = elim (Bool-cases (queued && not (w.conn_at c).write_queued)) [
      | inl new ↦ rw new (unmarked (ground (arith, new)), h.queue)
      | inr old ↦ rw old h.queue
    ]

    in_old :
        (d : ℕ)
        → d ≢ c
        → in_use d (queue_after c (w.conn_at c).write_queued queued w.pending_writes) ≡ true
        → in_use d w.pending_writes ≡ true
    in_old d ne e = elim (Bool-cases (queued && not (w.conn_at c).write_queued)) [
      | inl new ↦
          let e' =
            subst (λ b. in_use d (if b then c ∷ w.pending_writes else w.pending_writes) ≡ true) new
              e in
          subst (λ b. (if b then true else in_use d w.pending_writes) ≡ true)
            (ne→== c d (λ s. ne (sym s))) e'
      | inr old ↦
          subst (λ b. in_use d (if b then c ∷ w.pending_writes else w.pending_writes) ≡ true) old e
    ]

    marked_now :
        in_use c (queue_after c (w.conn_at c).write_queued queued w.pending_writes) ≡ true
        → queued ≡ true
    marked_now e = elim (Bool-cases queued) [
      | inl q ↦ q
      | inr none ↦
          let e' =
            subst
              (λ b.
                in_use c (
                  if b && not (w.conn_at c).write_queued
                  then c ∷ w.pending_writes
                  else w.pending_writes)
                ≡ true)
              none e in
          t.marked (h.waiting c e').2
    ]

    waiting_at :
        (d : ℕ)
        → in_use d (queue_after c (w.conn_at c).write_queued queued w.pending_writes) ≡ true
        → (in_use d w.connection_arena ≡ true)
          × ((w'.conn_at d).detached ≡ false)
          × ((w'.conn_at d).write_queued ≡ true)
    waiting_at d e = elim (Bool-cases (d == c)) [
      | inl same ↦
          let eq = ==→eq d c same in
          let e' =
            subst
              (λ x.
                in_use x (queue_after c (w.conn_at c).write_queued queued w.pending_writes) ≡ true)
              eq e in
          subst
            (λ x.
              (in_use x w.connection_arena ≡ true)
              × ((w'.conn_at x).detached ≡ false)
              × ((w'.conn_at x).write_queued ≡ true))
            (sym eq)
            (here, detached_same c ∙ open_conn, ap Connection.write_queued t.conn ∙ marked_now e')
      | inr other ↦
          let ne = ==→ne d c other in
          let (used, attached, mark) = h.waiting d (in_old d ne e) in
          (used, detached_same d ∙ attached, ap Connection.write_queued (t.others d ne) ∙ mark)
    ]
