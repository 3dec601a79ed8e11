-- ===== src/Server/Lifetime/Enter.antt =====
-- A deferred call that comes into a worker of src/server.c.
use wirecall.Common.{
  ℕ, ◌+◌, Bool, true, false, ◌∷◌, ◌==◌, if◌then◌else◌, ◌≡◌, ◌≢◌, refl, ap, ◌∙◌, arith, Bool-cases,
  inl, inr, ==→eq, ==→ne, ne→==, ==_self, sym, subst,
}
use wirecall.Memory.{Mem}
use wirecall.Payload.Decode.Blocks.{IsArray}
use wirecall.Server.{Connection, Deferred, Worker, in_use}
use wirecall.Server.Lifetime.Elements.{Distinct, total, total-same}
use wirecall.Server.Lifetime.Alive.{weight, call_weight, counts, owed, Sound, Alive}

abbrev counted_up : Connection → Connection
counted_up conn = record conn { pending_deferred = conn.pending_deferred + 1 }

-- The worker with one more call, which its connection counts.
pub record Added (c k : ℕ) (call : Deferred) (w w' : Worker) : Type 0 where
  pub conn :
      w'.conn_at c ≡ record (w.conn_at c) { pending_deferred = (w.conn_at c).pending_deferred + 1 }
  pub others : (d : ℕ) → d ≢ c → w'.conn_at d ≡ w.conn_at d
  pub connections : w'.connections ≡ w.connections
  pub pending_writes : w'.pending_writes ≡ w.pending_writes
  pub connection_arena : w'.connection_arena ≡ w.connection_arena
  pub deferred_arena : w'.deferred_arena ≡ k ∷ w.deferred_arena
  pub new : w'.call_at k ≡ call
  pub calls : (j : ℕ) → j ≢ k → w'.call_at j ≡ w.call_at j

module _ (base c k : ℕ) (call : Deferred) (w w' : Worker) (s s' : Mem) (h : Alive base w s)
    (t : Added c k call w w') (here : in_use c w.connection_arena ≡ true)
    (attached : (w.conn_at c).detached ≡ false) (unused : in_use k w.deferred_arena ≡ false)
    (mine : call.conn ≡ c) (array : IsArray call.args)
    (live : s'.live ≡ s.live + call_weight call) where
  part_same :
      {A : Type 0} (f : Connection → A)
      → ((conn : Connection) → f (counted_up conn) ≡ f conn)
      → (d : ℕ) → f (w'.conn_at d) ≡ f (w.conn_at d)
  part_same f same_part d = elim (Bool-cases (d == c)) [
    | inl same ↦
        subst (λ x. f (w'.conn_at x) ≡ f (w.conn_at x)) (sym (==→eq d c same))
          (ap f t.conn ∙ same_part (w.conn_at c))
    | inr other ↦ ap f (t.others d (==→ne d c other))
  ]

  detached_same : (d : ℕ) → (w'.conn_at d).detached ≡ (w.conn_at d).detached
  detached_same = part_same Connection.detached (λ conn. refl)

  apart : (j : ℕ) → in_use j w.deferred_arena ≡ true → j ≢ k
  apart j e same =
      let inside = subst (λ x. in_use x w.deferred_arena ≡ true) same e in let out = unused in cc

  old_calls :
      (f : Deferred → ℕ)
      → total (λ j. f (w'.call_at j)) w.deferred_arena
        ≡ total (λ j. f (w.call_at j)) w.deferred_arena
  old_calls f =
      total-same (λ j. f (w'.call_at j)) (λ j. f (w.call_at j)) w.deferred_arena
        (λ j e. ap f (t.calls j (apart j e)))

  new_total :
      (f : Deferred → ℕ)
      → total (λ j. f (w'.call_at j)) w'.deferred_arena
        ≡ f call + total (λ j. f (w.call_at j)) w.deferred_arena
  new_total f =
      let first = ap f t.new in
      let rest = old_calls f in
      ap (total (λ j. f (w'.call_at j))) t.deferred_arena ∙ omega (arith, first, rest)

  -- What holds of the new call and of the old ones.
  each :
      (P : Deferred → Type 0)
      → P call
      → ((j : ℕ) → in_use j w.deferred_arena ≡ true → P (w.call_at j))
      → (j : ℕ) → in_use j w'.deferred_arena ≡ true
      → P (w'.call_at j)
  unfolding in_use
  each P fresh old j e = elim (Bool-cases (k == j)) [
    | inl same ↦ subst (λ x. P (w'.call_at x)) (==→eq k j same) (subst P (sym t.new) fresh)
    | inr other ↦
        let e' =
          subst (λ b. (if b then true else in_use j w.deferred_arena) ≡ true) other
            (subst (λ l. in_use j l ≡ true) t.deferred_arena e) in
        subst P (sym (t.calls j (λ same. ==→ne k j other (sym same)))) (old j e')
  ]

  Sound-new : (d : ℕ) → in_use d w.connection_arena ≡ true → Sound (w'.conn_at d) (owed w' d)
  Sound-new d e = rw (new_total (counts d)) (elim (Bool-cases (d == c)) [
    | inl same ↦
        subst (λ x. Sound (w'.conn_at x) (counts x call + owed w x)) (sym (==→eq d c same))
          (subst (λ conn. Sound conn (counts c call + owed w c)) (sym t.conn)
            (let was = h.sound c here in
              let valid = was.valid in
              let counted = was.counted in
              let one : counts c call ≡ 1 =
                ap (λ x. if x == c then 1 else 0) mine
                ∙ ap (λ (b : Bool). if b then 1 else 0) (==_self c) in
              record { valid = valid; counted = omega (arith, counted, one); gone = λ g. cc }))
    | inr other ↦
        let ne = ==→ne d c other in
        let none : counts d call ≡ 0 =
          ap (λ x. if x == d then 1 else 0) mine
          ∙ ap (λ (b : Bool). if b then 1 else 0) (ne→== c d (λ e. ne (sym e))) in
        let same : counts d call + owed w d ≡ owed w d = omega (arith, none) in
        subst (λ n. Sound (w'.conn_at d) n) (sym same)
          (subst (λ conn. Sound conn (owed w d)) (sym (t.others d ne)) (h.sound d e))
  ])

  pub Added-Alive : Alive base w' s'
  unfolding in_use
  Added-Alive = record {
    conns = subst Distinct (sym t.connection_arena) h.conns;
    calls = subst Distinct (sym t.deferred_arena) (unused, h.calls);
    owner = λ j e. rw t.connection_arena (
        each (λ x. in_use x.conn w.connection_arena ≡ true)
          (subst (λ d. in_use d w.connection_arena ≡ true) (sym mine) here) h.owner j e);
    arrays = each (λ x. IsArray x.args) array h.arrays;
    sound = λ d e. Sound-new d (subst (λ l. in_use d l ≡ true) t.connection_arena e);
    lists = subst Distinct (sym t.connections) h.lists;
    listed = λ d e. rw t.connection_arena (
        let (used, open_conn) = h.listed d (subst (λ l. in_use d l ≡ true) t.connections e) in
        (used, detached_same d ∙ open_conn));
    reached = λ d e a. rw t.connections (
        h.reached d (subst (λ l. in_use d l ≡ true) t.connection_arena e)
          (sym (detached_same d) ∙ a));
    queue = subst Distinct (sym t.pending_writes) h.queue;
    waiting = λ d e. rw t.connection_arena (
        let (used, open_conn, mark) =
          h.waiting d (subst (λ l. in_use d l ≡ true) t.pending_writes e) in
        (
          used,
          detached_same d ∙ open_conn,
          part_same Connection.write_queued (λ conn. refl) d ∙ mark,
        ));
    live = rw t.connection_arena (
        let before = h.live in
        let now = live in
        let weights =
          total-same (λ d. weight (w'.conn_at d)) (λ d. weight (w.conn_at d)) w.connection_arena
            (λ d e. part_same weight (λ conn. refl) d) in
        let calls = new_total call_weight in omega arith);
  }
