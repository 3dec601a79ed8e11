-- ===== src/Server/Lifetime/Drop.antt =====
-- The end of a deferred call in `worker_drain_completed` of src/server.c.
use wirecall.Common.{
  ℕ, ◌+◌, ◌-◌, Bool, true, false, ◌&&◌, ltb, ◌==◌, if◌then◌else◌, ◌≡◌, ◌≢◌, refl, ap, ◌∙◌, arith,
  Bool-cases, inl, inr, ==→eq, ==→ne, ne→==, ==_self, sym, subst,
}
use wirecall.Memory.{Mem, returned, ret}
use wirecall.Memory.Ends.{Ends}
use wirecall.Server.{Connection, Worker, put_conn, without, in_use, free_connection}
use wirecall.Server.Queue.Touched.{conn_at-put_conn, conn_at-put_conn_other}
use wirecall.Server.Lifetime.{uncount_deferred, connection_destroy, release, drain_end}
use wirecall.Server.Lifetime.Elements.{
  total, total-without, total-same, total_zero, in_use-without_kept, in_use-without_other,
  in_use-without_self, without-Distinct,
}
use wirecall.Server.Lifetime.Alive.{
  weight, call_weight, counts, owed, Sound, Alive, drop_call, deferred_free_lem,
}

-- A connection that has a call less.
abbrev counted_down : Connection → Connection
counted_down conn = record conn { pending_deferred = conn.pending_deferred - 1 }

-- The worker whose call `k` is gone.
abbrev pub call_gone : ℕ → Worker → Worker
call_gone k w =
    let c = (w.call_at k).conn in drop_call k (put_conn c (counted_down (w.conn_at c)) w)

-- A connection that is detached and has no call left.
connection_destroy_gone :
    (c : ℕ) (w : Worker) (s : Mem)
    → (w.conn_at c).detached ≡ true
    → ((w.conn_at c).pending_deferred == 0) ≡ true
    → in_use c w.connection_arena ≡ true
    → connection_destroy c w s
      ≡ returned (record w { connection_arena = without c w.connection_arena }) s
unfolding connection_destroy release free_connection
connection_destroy_gone c w s gone last here = rw (gone, last, here) refl

-- What a round leaves: a sound worker that has all deferred calls but `k`.
pub record Dropped (base k : ℕ) (w w' : Worker) (s' : Mem) : Type 0 where
  pub alive : Alive base w' s'
  pub calls : w'.deferred_arena ≡ without k w.deferred_arena
  pub completed : w'.completed ≡ w.completed

module _ (base k : ℕ) (w : Worker) (s : Mem) (h : Alive base w s)
    (here : in_use k w.deferred_arena ≡ true) where
  abbrev c : ℕ
  c = (w.call_at k).conn

  abbrev v : Worker
  v = call_gone k w

  abbrev s1 : Mem
  s1 = record s { live = s.live - call_weight (w.call_at k) }

  owed_here : owed w c ≡ 1 + owed v c
  unfolding put_conn
  owed_here =
      total-without (λ j. counts c (w.call_at j)) k w.deferred_arena here
      ∙ ap (λ (b : Bool). (if b then 1 else 0) + owed v c) (==_self c)

  owed_other : (d : ℕ) → d ≢ c → owed w d ≡ owed v d
  unfolding put_conn
  owed_other d ne =
      let part : owed w d ≡ counts d (w.call_at k) + owed v d =
        total-without (λ j. counts d (w.call_at j)) k w.deferred_arena here in
      let none : counts d (w.call_at k) ≡ 0 =
        ap (λ (b : Bool). if b then 1 else 0) (ne→== c d (λ e. ne (sym e))) in
      omega (arith, part, none)

  conn_here : v.conn_at c ≡ counted_down (w.conn_at c)
  unfolding put_conn
  conn_here = conn_at-put_conn c (counted_down (w.conn_at c)) w

  conn_other : (d : ℕ) → d ≢ c → v.conn_at d ≡ w.conn_at d
  unfolding put_conn
  conn_other d ne = conn_at-put_conn_other c d (counted_down (w.conn_at c)) w ne

  -- What counting does not change.
  part_same :
      {A : Type 0} (f : Connection → A)
      → ((conn : Connection) → f (counted_down conn) ≡ f conn)
      → (d : ℕ) → f (v.conn_at d) ≡ f (w.conn_at d)
  part_same f same_part d = elim (Bool-cases (d == c)) [
    | inl same ↦
        subst (λ x. f (v.conn_at x) ≡ f (w.conn_at x)) (sym (==→eq d c same))
          (ap f conn_here ∙ same_part (w.conn_at c))
    | inr other ↦ ap f (conn_other d (==→ne d c other))
  ]

  weight_same : (d : ℕ) → weight (v.conn_at d) ≡ weight (w.conn_at d)
  weight_same = part_same weight (λ conn. refl)

  detached_same : (d : ℕ) → (v.conn_at d).detached ≡ (w.conn_at d).detached
  detached_same = part_same Connection.detached (λ conn. refl)

  mark_same : (d : ℕ) → (v.conn_at d).write_queued ≡ (w.conn_at d).write_queued
  mark_same = part_same Connection.write_queued (λ conn. refl)

  listed_left :
      (d : ℕ)
      → in_use d w.connections ≡ true
      → (in_use d w.connection_arena ≡ true) × ((v.conn_at d).detached ≡ false)
  listed_left d e = let (used, attached) = h.listed d e in (used, detached_same d ∙ attached)

  waiting_left :
      (d : ℕ)
      → in_use d w.pending_writes ≡ true
      → (in_use d w.connection_arena ≡ true)
        × ((v.conn_at d).detached ≡ false)
        × ((v.conn_at d).write_queued ≡ true)
  waiting_left d e =
      let (used, attached, mark) = h.waiting d e in
      (used, detached_same d ∙ attached, mark_same d ∙ mark)

  -- A connection that is not detached is not the one that goes.
  other_conn : (d : ℕ) → (w.conn_at c).detached ≡ true → (v.conn_at d).detached ≡ false → d ≢ c
  other_conn d gone attached same =
      let here' = subst (λ x. (v.conn_at x).detached ≡ false) same attached in
      let there = detached_same c in cc

  live_left :
      s1.live
      ≡ base
        + (total (λ d. weight (v.conn_at d)) w.connection_arena
            + total (λ j. call_weight (w.call_at j)) (without k w.deferred_arena))
  live_left =
      let live = h.live in
      let part = total-without (λ j. call_weight (w.call_at j)) k w.deferred_arena here in
      let same =
        total-same (λ d. weight (v.conn_at d)) (λ d. weight (w.conn_at d)) w.connection_arena
          (λ d e. weight_same d) in
      omega arith

  Sound-other :
      (d : ℕ) → d ≢ c → in_use d w.connection_arena ≡ true → Sound (v.conn_at d) (owed v d)
  Sound-other d ne e =
      subst (λ n. Sound (v.conn_at d) n) (owed_other d ne)
        (subst (λ conn. Sound conn (owed w d)) (sym (conn_other d ne)) (h.sound d e))

  was : Sound (w.conn_at c) (owed w c)
  was = h.sound c (h.owner k here)

  kept : (j : ℕ) → in_use j (without k w.deferred_arena) ≡ true → in_use j w.deferred_arena ≡ true
  kept j e = in_use-without_kept j k w.deferred_arena e

  pending_left : (w.conn_at c).pending_deferred - 1 ≡ owed v c
  pending_left = let counted = was.counted in omega (arith, owed_here)

  stays :
      ((w.conn_at c).detached && ((w.conn_at c).pending_deferred - 1 == 0)) ≡ false
      → Dropped base k w v s1
  unfolding put_conn
  stays waits = record {
    alive = record {
      conns = h.conns;
      calls = without-Distinct k w.deferred_arena h.calls;
      owner = λ j e. h.owner j (kept j e);
      arrays = λ j e. h.arrays j (kept j e);
      sound = λ d e. elim (Bool-cases (d == c)) [
        | inl same ↦
            subst (λ x. Sound (v.conn_at x) (owed v x)) (sym (==→eq d c same))
              (subst (λ conn. Sound conn (owed v c)) (sym conn_here)
                (let valid = was.valid in
                  record {
                    valid = valid;
                    counted = pending_left;
                    gone = λ g.
                        ((was.gone g).0, λ none_left. (let left = pending_left in ground arith));
                  }))
        | inr other ↦ Sound-other d (==→ne d c other) e
      ];
      lists = h.lists;
      listed = listed_left;
      reached = λ d e a. h.reached d e (sym (detached_same d) ∙ a);
      queue = h.queue;
      waiting = waiting_left;
      live = live_left;
    };
    calls = refl;
    completed = refl;
  }

  freed :
      (w.conn_at c).detached ≡ true
      → (w.conn_at c).pending_deferred - 1 ≡ 0
      → Dropped base k w (record v { connection_arena = without c w.connection_arena }) s1
  unfolding put_conn
  freed gone last =
      let none_left : owed v c ≡ 0 = sym pending_left ∙ last in
      record {
        alive = record {
          conns = without-Distinct c w.connection_arena h.conns;
          calls = without-Distinct k w.deferred_arena h.calls;
          owner = λ j e.
              in_use-without_other (w.call_at j).conn c w.connection_arena
                (λ same.
                  (let none =
                      total_zero (λ i. counts c (w.call_at i)) (without k w.deferred_arena) j
                        none_left e in
                    let one : counts c (w.call_at j) ≡ 1 =
                      ap (λ x. if x == c then 1 else 0) same
                      ∙ ap (λ (b : Bool). if b then 1 else 0) (==_self c) in
                    omega (arith, none, one)))
                (h.owner j (kept j e));
          arrays = λ j e. h.arrays j (kept j e);
          sound = λ d e.
              Sound-other d
                (λ same.
                  (let out = in_use-without_self c w.connection_arena h.conns in
                    let inside =
                      subst (λ x. in_use x (without c w.connection_arena) ≡ true) same e in
                    cc))
                (in_use-without_kept d c w.connection_arena e);
          lists = h.lists;
          listed = λ d e.
              (let (used, attached) = listed_left d e in
                (
                  in_use-without_other d c w.connection_arena (other_conn d gone attached) used,
                  attached,
                ));
          reached = λ d e a.
              h.reached d (in_use-without_kept d c w.connection_arena e)
                (sym (detached_same d) ∙ a);
          queue = h.queue;
          waiting = λ d e.
              (let (used, attached, mark) = waiting_left d e in
                (
                  in_use-without_other d c w.connection_arena (other_conn d gone attached) used,
                  attached,
                  mark,
                ));
          live =
              let part =
                total-without (λ d. weight (v.conn_at d)) c w.connection_arena (h.owner k here) in
              let bare : weight (v.conn_at c) ≡ 0 = weight_same c ∙ (was.gone gone).0 in
              let left = live_left in omega arith;
        };
        calls = refl;
        completed = refl;
      }

  -- The tests at the end of a round.
  round_end :
      (left : ℕ)
      → Ends left (Dropped base k w) (
          (if (v.conn_at c).detached && ((v.conn_at c).pending_deferred == 0)
              then connection_destroy c v
              else ret v)
            s1)
  unfolding put_conn
  round_end left =
      elim (Bool-cases ((w.conn_at c).detached && ((w.conn_at c).pending_deferred - 1 == 0))) [
        | inl last ↦
            let gone : (w.conn_at c).detached ≡ true = ground (arith, last) in
            let no_call : ((w.conn_at c).pending_deferred - 1 == 0) ≡ true = ground (arith, last) in
            rw
              (
                ap tests conn_here ∙ last,
                connection_destroy_gone c v s1
                    (ap (λ (conn : Connection). conn.detached) conn_here ∙ gone)
                    (ap (λ (conn : Connection). conn.pending_deferred == 0) conn_here ∙ no_call)
                    (h.owner k here),
              )
              (freed gone (==→eq ((w.conn_at c).pending_deferred - 1) 0 no_call))
        | inr waits ↦ rw (ap tests conn_here ∙ waits) (stays waits)
      ]
    where
      tests : Connection → Bool
      tests conn = conn.detached && (conn.pending_deferred == 0)

  pub drain_end-Dropped : (left : ℕ) → Ends left (Dropped base k w) (drain_end c k w s)
  unfolding drain_end uncount_deferred put_conn
  drain_end-Dropped left =
      let counted = was.counted in
      let some_left : ltb 0 (w.conn_at c).pending_deferred ≡ true =
        ground (arith, counted, owed_here) in
      let part = total-without (λ j. call_weight (w.call_at j)) k w.deferred_arena here in
      let live = h.live in
      rw
        (
          some_left,
          deferred_free_lem k (put_conn c (counted_down (w.conn_at c)) w) s (h.arrays k here) here
              (omega arith),
        )
        (round_end left)
