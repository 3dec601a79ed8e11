-- ===== src/Tests/Lifetime.antt =====
-- Connections and deferred calls that come and go, at concrete inputs.
use wirecall.Common.{
  ℕ, ◌^◌, none, some, ap, List, ◌≢◌, ◌==◌, Bool, true, false, [], ◌∷◌, leb, if◌then◌else◌, ◌≡◌,
  refl, arith, sym, subst,
}
use wirecall.Memory.{Grants, Mem}
use wirecall.Memory.Ends.{IsHost, Ends}
use wirecall.Protocol.Checksum.{little}
use wirecall.Payload.Decode.{no_array}
use wirecall.Payload.Decode.Blocks.{no_array-IsArray}
use wirecall.Payload.Writer.{writer_init}
use wirecall.Stream.{no_buffer}
use wirecall.Stream.Grow.{no_buffer-IsByteBuffer}
use wirecall.Memory.{ret}
use wirecall.Protocol.Op
use wirecall.Protocol.Buffer.{present}
use wirecall.Payload.Writer.Reserve.{writer_init-IsWriter}
use wirecall.Stream.{ByteBuffer}
use wirecall.Stream.Packet.{new_header}
use wirecall.Routes.{Route, chain_at}
use wirecall.Routes.Table.{find}
use wirecall.Routes.Chain.{node_blocks}
use wirecall.Routes.Lookup.{meaning}
use wirecall.Server.Host.{Host, completes}
use wirecall.Server.Calls.{handle_deferred_call}
use wirecall.Server.Dispatch.{Site}
use wirecall.Server.Io.{parse_available}
use wirecall.Server.Lifetime.Ready.{Ready}
use wirecall.Server.Lifetime.Defer.{handle_deferred_call-Ready}
use wirecall.Server.Lifetime.Serve.{IsCallable, IsServerHost, Serving}
use wirecall.Server.Lifetime.Available.{Parse, parse_available-Serving}
use wirecall.Server.{Connection, Deferred, Worker, in_use}
use wirecall.Server.Queue.{Env}
use wirecall.Server.Lifetime.{worker_drain_completed}
use wirecall.Server.Lifetime.Alive.{weight, Alive, Sound, owed}
use wirecall.Server.Lifetime.Drain.{all_gone, worker_drain_completed-Alive}

-- An allocator that grants a megabyte.
abbrev megabyte : Grants
megabyte = λ n size. leb size (2 ^ 20)

megabyte-IsHost : IsHost megabyte
megabyte-IsHost n size h = ground (arith, h)

abbrev env : Env
env = record { grant = megabyte; settings = record { order = little; integrity = 0; mac_key = [] } }

-- A call of the procedure 7 with an argument, and the start of another packet.
abbrev bytes : List ℕ
bytes =
    Op.rpc ∷ 0 ∷ 0 ∷ 0 ∷ 0 ∷ 0 ∷ 0 ∷ 0 ∷ 0 ∷ 7 ∷ 0 ∷ 0 ∷ 0 ∷ 1 ∷ 0 ∷ 0 ∷ 0 ∷ 0 ∷ 0 ∷ 0 ∷ 0 ∷ 5 ∷ 0
    ∷ 0 ∷ 0 ∷ 0 ∷ 0 ∷ 0 ∷ 0 ∷ 0 ∷ 0 ∷ 0 ∷ 0 ∷ 0 ∷ 0 ∷ Op.rpc ∷ []

abbrev inbox : ByteBuffer
inbox = record { bytes = bytes; cap = 4096; block = true }

-- A connection with two deferred calls, that was closed or that waits for a write.
abbrev conn : Bool → Connection
conn closed = record {
  has_fd = true;
  read_buf = if closed then no_buffer else inbox;
  write_buf = no_buffer;
  write_off = 0;
  interests = 1;
  closing = true;
  detached = closed;
  write_queued = true;
  pending_deferred = 2;
}

abbrev call : Deferred
call = record {
  conn = 8;
  call_id = 5;
  proc_id = 7;
  payload = true;
  args = no_array;
  response = writer_init;
  result = true;
  error = [];
  completed = true;
}

abbrev worker : Bool → Worker
worker closed = record {
  conn_at = λ c. conn closed;
  connections = if closed then [] else 8 ∷ [];
  pending_writes = if closed then [] else 8 ∷ [];
  call_at = λ k. call;
  completed = 3 ∷ 4 ∷ [];
  connection_arena = 8 ∷ [];
  deferred_arena = 4 ∷ 3 ∷ [];
}

-- Each call has the copy of its payload, and something else has a block.
abbrev start : Mem
start = record { requests = 0; live = 3 }

-- The read buffer too.
abbrev open_start : Mem
open_start = record { requests = 0; live = 4 }

only : (c : ℕ) → in_use c (8 ∷ []) ≡ true → c ≡ 8
unfolding in_use
only c e = ground (arith, e)

bare :
    (closed : Bool)
    → (conn closed).detached ≡ true
    → (weight (conn closed) ≡ 0) × ((conn closed).pending_deferred ≢ 0)
bare true g = (refl, λ none. omega (arith, none))
bare false g = cc

sound :
    (closed : Bool) (c : ℕ)
    → in_use c (8 ∷ []) ≡ true
    → Sound (conn closed) (owed (worker closed) c)
sound closed c e =
    subst (λ d. Sound (conn closed) (owed (worker closed) d)) (sym (only c e))
      (record { valid = no_buffer-IsByteBuffer; counted = refl; gone = bare closed })

closed-Alive : Alive 1 (worker true) start
unfolding in_use writer_init
closed-Alive = record {
  conns = (refl, tt);
  calls = (refl, (refl, tt));
  owner = λ k e. refl;
  arrays = λ k e. no_array-IsArray;
  sound = sound true;
  lists = tt;
  listed = λ c e. cc;
  reached = λ c e a. cc;
  queue = tt;
  waiting = λ c e. cc;
  live = omega arith;
}

open-Alive : Alive 1 (worker false) open_start
unfolding in_use writer_init
open-Alive = record {
  conns = (refl, tt);
  calls = (refl, (refl, tt));
  owner = λ k e. refl;
  arrays = λ k e. no_array-IsArray;
  sound = sound false;
  lists = (refl, tt);
  listed = λ c e. (e, refl);
  reached = λ c e a. e;
  queue = (refl, tt);
  waiting = λ c e. (e, refl, refl);
  live = omega arith;
}

completed-Used : (k : ℕ) → in_use k (3 ∷ 4 ∷ []) ≡ true → in_use k (4 ∷ 3 ∷ []) ≡ true
unfolding in_use
completed-Used k e = ground (arith, e)

worker_drain_completed-Alive_example :
    Ends 0
      (λ w' s'.
        Alive 1 w' s'
        × (w'.deferred_arena ≡ all_gone (3 ∷ 4 ∷ []) (4 ∷ 3 ∷ []))
        × (w'.completed ≡ []))
      (worker_drain_completed env (worker true) start)
unfolding in_use
worker_drain_completed-Alive_example =
    worker_drain_completed-Alive 0 1 env (worker true) start megabyte-IsHost closed-Alive
      (refl, (refl, tt)) completed-Used

-- Handlers that answer nothing, and complete a deferred call.
abbrev host : Host
host = record {
  handler = λ f user_data call_id proc_id args. ret (true, writer_init);
  deferred_handler = λ f user_data call_id proc_id args. ret (true, writer_init, completes);
  deferred_slot = λ w. if in_use 5 w.deferred_arena then none else some 5;
  call_slot = λ w. none;
  created = none;
  create_error = [];
}

some_inj {ℓ} : {A : Type ℓ} {x y : A} → some x ≡ some y → x ≡ y
some_inj {x} e = ap (λ o. elim o [ some n ↦ n | none ↦ x ]) e

free_slot : (b : Bool) (k : ℕ) → (if b then none else some 5) ≡ some k → (b ≡ false) × (5 ≡ k)
free_slot true k e = cc
free_slot false k e = (refl, some_inj e)

host-IsServerHost : IsServerHost env host
unfolding writer_init
host-IsServerHost = record {
  allocator = megabyte-IsHost;
  handlers = λ base f user_data call_id proc_id args s v. (writer_init-IsWriter, omega arith);
  deferred = λ left f user_data call_id proc_id args s v. omega arith;
  slots = λ w k given.
      (let (free, same) = free_slot (in_use 5 w.deferred_arena) k given in
        subst (λ n. in_use n w.deferred_arena ≡ false) same free);
}

abbrev route : Route
route = record {
  proc_id = 7;
  handler = none;
  deferred_handler = some 1;
  user_data = 0;
  finalizer = none;
  is_async = false;
  is_deferred = true;
}

-- The one route, in every slot.
abbrev site : Site
site = record {
  worker = worker false;
  routes = record {
    pages = λ i. some (λ slot. route ∷ []);
    active_readers = 0;
    retired = [];
    finalized = [];
  };
  submitted = [];
  calls = record { elements = []; destroyed = [] };
}

open-Ready : Ready 1 8 (worker false) open_start
unfolding in_use
open-Ready = record {
  alive = open-Alive;
  here = refl;
  attached = refl;
  ended = record { once = (refl, (refl, tt)); used = λ k e. (completed-Used k e, refl) };
}

route-IsCallable : IsCallable route
route-IsCallable = (λ d. (1, refl), λ d a. cc)

found_route : (b : Bool) (r : Route) → (if b then some route else none) ≡ some r → IsCallable r
found_route true r e = subst IsCallable (some_inj e) route-IsCallable
found_route false r e = cc

site-Serving : Serving 1 8 site open_start
unfolding meaning chain_at find node_blocks
site-Serving = record {
  ready = open-Ready;
  readers = omega arith;
  callable = λ id r found. found_route (7 == id) r found;
}

handle_deferred_call-Ready_example :
    Ends 0
      (λ r s'. Ready 1 8 r.1 s')
      (handle_deferred_call env host 8
        (new_header Op.rpc 0 7 1 5)
        route
        (present (0 ∷ []))
        (worker false)
        open_start)
handle_deferred_call-Ready_example =
    handle_deferred_call-Ready 0 1 env host 8 (new_header Op.rpc 0 7 1 5) route 1 (present (0 ∷ []))
      (worker false) open_start megabyte-IsHost host-IsServerHost.deferred host-IsServerHost.slots
      refl (omega arith) open-Ready

parse_available-Serving_example :
    Ends 0 (λ site' s'. Parse env 1 8 bytes site' s') (parse_available env host 8 site open_start)
parse_available-Serving_example =
    parse_available-Serving 0 1 env host 8 site open_start host-IsServerHost (omega arith)
      site-Serving
