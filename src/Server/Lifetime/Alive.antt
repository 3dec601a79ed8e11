-- ===== src/Server/Lifetime/Alive.antt =====
-- The connections and deferred calls of a worker of src/server.c, with the blocks they hold.
use wirecall.Common.{
  ℕ, ◌+◌, ◌-◌, ◌≤◌, true, false, ◌==◌, if◌then◌else◌, ◌≡◌, ◌≢◌, ap, ◌∙◌, arith, ==_self,
}
use wirecall.Memory.{Mem, Run, returned, after, ◌>>=◌, mem_free, count_block}
use wirecall.Memory.Ends.{mem_free_lem}
use wirecall.Payload.Decode.Blocks.{IsArray, blocks, values_free_lem}
use wirecall.Payload.Writer.{writer_free}
use wirecall.Stream.Grow.{IsByteBuffer}
use wirecall.Server.{Connection, Deferred, Worker, without, in_use, free_call}
use wirecall.Server.Calls.{deferred_free}
use wirecall.Server.Queue.Error.{writer_free_lem}
use wirecall.Server.Lifetime.Elements.{Distinct, total}

-- The blocks of a connection and those of a deferred call.
abbrev pub weight : Connection → ℕ
weight conn = count_block conn.read_buf.block + count_block conn.write_buf.block

abbrev pub call_weight : Deferred → ℕ
call_weight call = blocks call.args + (count_block call.response.block + count_block call.payload)

-- 1 for a call of the connection.
abbrev pub counts : ℕ → Deferred → ℕ
counts c call = if call.conn == c then 1 else 0

pub counts_one : (c : ℕ) (call : Deferred) → call.conn ≡ c → counts c call ≢ 0
counts_one c call same = rw same (rw (==_self c) (λ e. omega (arith, e)))

-- The calls of a connection that are in use.
abbrev pub owed : Worker → ℕ → ℕ
owed w c = total (λ k. counts c (w.call_at k)) w.deferred_arena

-- A connection with `n` calls: it counts them, and once detached it has no blocks and waits for a
-- call.
pub record Sound (conn : Connection) (n : ℕ) : Type 0 where
  pub valid : IsByteBuffer conn.write_buf
  pub counted : conn.pending_deferred ≡ n
  pub gone : conn.detached ≡ true → (weight conn ≡ 0) × (n ≢ 0)

-- The worker: each call in use is of a connection in use, each connection is sound, the list of
-- connections has those that are not detached, and nothing else, the list of pending writes some of
-- them, which are marked, and of the live blocks, all but `base` are theirs.
pub record Alive (base : ℕ) (w : Worker) (s : Mem) : Type 0 where
  pub conns : Distinct w.connection_arena
  pub calls : Distinct w.deferred_arena
  pub owner :
      (k : ℕ)
      → in_use k w.deferred_arena ≡ true
      → in_use (w.call_at k).conn w.connection_arena ≡ true
  pub arrays : (k : ℕ) → in_use k w.deferred_arena ≡ true → IsArray (w.call_at k).args
  pub sound : (c : ℕ) → in_use c w.connection_arena ≡ true → Sound (w.conn_at c) (owed w c)
  pub lists : Distinct w.connections
  pub listed :
      (c : ℕ)
      → in_use c w.connections ≡ true
      → (in_use c w.connection_arena ≡ true) × ((w.conn_at c).detached ≡ false)
  pub reached :
      (c : ℕ)
      → in_use c w.connection_arena ≡ true
      → (w.conn_at c).detached ≡ false
      → in_use c w.connections ≡ true
  pub queue : Distinct w.pending_writes
  pub waiting :
      (c : ℕ)
      → in_use c w.pending_writes ≡ true
      → (in_use c w.connection_arena ≡ true)
        × ((w.conn_at c).detached ≡ false)
        × ((w.conn_at c).write_queued ≡ true)
  pub live :
      s.live
      ≡ base
        + (total (λ c. weight (w.conn_at c)) w.connection_arena
            + total (λ k. call_weight (w.call_at k)) w.deferred_arena)

-- The worker without a call.
abbrev pub drop_call : ℕ → Worker → Worker
drop_call k w = record w { deferred_arena = without k w.deferred_arena }

free_rest :
    (k : ℕ) (w : Worker) (s : Mem)
    → in_use k w.deferred_arena ≡ true
    → count_block (w.call_at k).response.block + count_block (w.call_at k).payload ≤ s.live
    → (writer_free (w.call_at k).response >>= λ _.
          mem_free (w.call_at k).payload >>= λ _. free_call k w)
        s
      ≡ returned (drop_call k w) (record s {
        live =
            s.live - (count_block (w.call_at k).response.block + count_block (w.call_at k).payload);
      })
unfolding free_call
free_rest k w s here l =
    let call = w.call_at k in
    let first = s.live - count_block call.response.block in
    ap (λ q. after q (λ _. mem_free call.payload >>= λ _. free_call k w))
      (writer_free_lem call.response first s (omega arith))
    ∙ ap (λ (q : Run (Unit {0})). after q (λ _. free_call k w))
        (mem_free_lem call.payload (record s { live = first }) (omega arith))
    ∙ rw here (ap (λ n. returned (drop_call k w) (record s { live = n })) (omega arith))

-- A call that is freed gives all its blocks back, and its element.
pub deferred_free_lem :
    (k : ℕ) (w : Worker) (s : Mem)
    → IsArray (w.call_at k).args
    → in_use k w.deferred_arena ≡ true
    → call_weight (w.call_at k) ≤ s.live
    → deferred_free k w s
      ≡ returned (drop_call k w) (record s { live = s.live - call_weight (w.call_at k) })
unfolding deferred_free
deferred_free_lem k w s v here l =
    let call = w.call_at k in
    let first = s.live - blocks call.args in
    ap
      (λ (q : Run (Unit {0})).
        after q
          (λ _. writer_free call.response >>= λ _. mem_free call.payload >>= λ _. free_call k w))
      (values_free_lem call.args first s v (omega arith))
    ∙ free_rest k w (record s { live = first }) here (omega arith)
    ∙ ap (λ n. returned (drop_call k w) (record s { live = n })) (omega arith)
