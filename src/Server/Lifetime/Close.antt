-- ===== src/Server/Lifetime/Close.antt =====
-- `connection_destroy` of src/server.c on a connection that is not detached yet.
use wirecall.Common.{ℕ, ◌-◌, true, false, ◌==◌, if◌then◌else◌, ◌≡◌, ◌≢◌}
use wirecall.Memory.{Mem}
use wirecall.Memory.Ends.{Ends}
use wirecall.Server.{Worker, put_conn, without, in_use}
use wirecall.Server.Lifetime.{forget}
use wirecall.Server.Lifetime.Alive.{weight, Alive}

-- The worker that has detached the connection `c`.
abbrev pub detached_one : ℕ → Worker → Worker
detached_one c w = record (put_conn c (forget (w.conn_at c)) w) {
  connections = without c w.connections;
  pending_writes =
      if (w.conn_at c).write_queued then without c w.pending_writes else w.pending_writes;
}

-- What a close leaves: the connection is in neither list, and its element is free unless deferred calls
-- refer to it; the other connections and the calls are as they were.
pub record Closed (base c : ℕ) (w w' : Worker) (s' : Mem) : Type 0 where
  pub alive : Alive base w' s'
  pub listed : in_use c w'.connections ≡ false
  pub waiting : in_use c w'.pending_writes ≡ false
  pub arena : w'.connection_arena ≡ (
      if (w.conn_at c).pending_deferred == 0
      then without c w.connection_arena
      else w.connection_arena)
  pub others : (d : ℕ) → d ≢ c → w'.conn_at d ≡ w.conn_at d
  pub calls : w'.deferred_arena ≡ w.deferred_arena

module _ (base c : ℕ) (w : Worker) (s : Mem) (h : Alive base w s)
    (here : in_use c w.connection_arena ≡ true) where
  abbrev v : Worker
  v = detached_one c w

  abbrev s1 : Mem
  s1 = record s { live = s.live - weight (w.conn_at c) }
