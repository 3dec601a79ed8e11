-- ===== src/Server.antt =====
-- src/server.c: a worker with its connections and deferred calls. A connection and a deferred call
-- are addresses in the two arenas of the worker; a linked list is the list of its addresses.
pub mod Parse
pub mod Queue
pub mod Text
pub mod Host
pub mod Calls
pub mod Dispatch
pub mod Io
pub mod Lifetime
pub mod Config
use wirecall.Common.{ℕ, Bool, true, false, List, [], ◌∷◌, ◌==◌, if◌then◌else◌}
unfoldable pub use wirecall.Common.{without, in_use}
use wirecall.Memory.{M, ret, crash}
use wirecall.Stream.{ByteBuffer}
use wirecall.Payload.Decode.{Array}
use wirecall.Payload.Writer.{Writer}

-- `has_fd` says that `fd >= 0`. The length of a buffer is that of its bytes.
pub record Connection : Type 0 where
  pub has_fd : Bool
  pub read_buf : ByteBuffer
  pub write_buf : ByteBuffer
  pub write_off : ℕ
  pub interests : ℕ
  pub closing : Bool
  pub detached : Bool
  pub write_queued : Bool
  pub pending_deferred : ℕ

-- `result` is true for 0 and false for -1; `payload` says that the pointer is non-null.
pub record Deferred : Type 0 where
  pub conn : ℕ
  pub call_id : ℕ
  pub proc_id : ℕ
  pub payload : Bool
  pub args : Array
  pub response : Writer
  pub result : Bool
  pub error : List ℕ
  pub completed : Bool

-- `connection_arena` and `deferred_arena` list the elements that are in use.
pub record Worker : Type 0 where
  pub conn_at : ℕ → Connection
  pub connections : List ℕ
  pub pending_writes : List ℕ
  pub call_at : ℕ → Deferred
  pub completed : List ℕ
  pub connection_arena : List ℕ
  pub deferred_arena : List ℕ

-- The store of one element of a map from addresses.
unfoldable pub put {ℓ} : {A : Type ℓ} → ℕ → A → (ℕ → A) → ℕ → A
put at value store = λ d. if d == at then value else store d

unfoldable pub put_conn : ℕ → Connection → Worker → Worker
unfolding put
put_conn c conn w = record w { conn_at = put c conn w.conn_at }

unfoldable pub put_deferred : ℕ → Deferred → Worker → Worker
unfolding put
put_deferred k call w = record w { call_at = put k call w.call_at }

unfoldable pub free_call : ℕ → Worker → M Worker
unfolding without in_use
free_call k w =
    if in_use k w.deferred_arena
    then ret (record w { deferred_arena = without k w.deferred_arena })
    else crash

unfoldable pub free_connection : ℕ → Worker → M Worker
unfolding without in_use
free_connection c w =
    if in_use c w.connection_arena
    then ret (record w { connection_arena = without c w.connection_arena })
    else crash
