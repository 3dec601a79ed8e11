-- ===== src/Server/Host.antt =====
-- What the host gives to a server of src/server.c. The handlers are its functions: what one does with
-- its response, and how it ends, is an argument. So are the answers of the arenas, and of the
-- coroutine library.
use wirecall.Common.{ℕ, Bool, List, Option, none, some}
use wirecall.Memory.{M, crash}
use wirecall.Payload.Decode.{Array}
use wirecall.Payload.Writer.{Writer}
use wirecall.Server.{Worker}

-- How far a deferred call is when its handler returns.
pub data Progress : Type 0 where
  open_call : Progress
  completes : Progress
  fails : List ℕ → Progress

-- The host's functions, by address, each with the user data, the ids of the call and its arguments:
-- a handler gives its result (is it 0?) and the response; a deferred handler also says what became of
-- the call. `deferred_slot` is the arena's answer, `created` and `create_error` the coroutine
-- library's.
pub record Host : Type 0 where
  pub handler : ℕ → ℕ → ℕ → ℕ → Array → M (Bool × Writer)
  pub deferred_handler : ℕ → ℕ → ℕ → ℕ → Array → M (Bool × Writer × Progress)
  pub deferred_slot : Worker → Option ℕ
  pub call_slot : Worker → Option ℕ
  pub created : Option ℕ
  pub create_error : List ℕ

-- A call of a function pointer.
unfoldable pub call_handler : Host → Option ℕ → ℕ → ℕ → ℕ → Array → M (Bool × Writer)
call_handler host none user_data call_id proc_id args = crash
call_handler host (some f) user_data call_id proc_id args =
    host.handler f user_data call_id proc_id args

unfoldable pub call_deferred_handler :
    Host → Option ℕ → ℕ → ℕ → ℕ → Array → M (Bool × Writer × Progress)
call_deferred_handler host none user_data call_id proc_id args = crash
call_deferred_handler host (some f) user_data call_id proc_id args =
    host.deferred_handler f user_data call_id proc_id args
