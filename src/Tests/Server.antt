-- ===== src/Tests/Server.antt =====
-- The server at concrete inputs.
use wirecall.Common.{
  ℕ, ◌^◌, ◌≤◌, ◌<◌, true, false, List, [], ◌∷◌, leb, none, some, ok, ◌≡◌, refl, arith,
}
use wirecall.Memory.{Grants, Mem, returned, ret}
use wirecall.Memory.Ends.{IsHost, Ends}
use wirecall.Protocol.Op
use wirecall.Protocol.Buffer.{present}
use wirecall.Protocol.Checksum.{little}
use wirecall.Payload.Decode.{no_array}
use wirecall.Payload.Writer.{Writer, writer_init, writer_string}
use wirecall.Routes.{Route}
use wirecall.Stream.{no_buffer}
use wirecall.Stream.Grow.{no_buffer-IsByteBuffer}
use wirecall.Stream.Packet.{new_header}
use wirecall.Server.{Connection, Deferred, Worker}
use wirecall.Server.Host.{Host, open_call}
use wirecall.Server.Queue.{Env, queue_packet, queue_string_error}
use wirecall.Server.Queue.Laws.{Queued, queue_packet-Queued}
use wirecall.Server.Queue.Error.{error_header, error_payload, queue_string_error-Queued}
use wirecall.Server.Calls.Once.{complete, fail_with, make_all, make_all_once, ended, first_ended}
use wirecall.Server.Io.{sent, send_interrupted, send_blocks, connection_write}
use wirecall.Server.Io.Written.{Written, connection_write-Written}
use wirecall.Server.Config.{
  workers, accept, apply_all, init_config, choose_worker, max_workers, chosen_worker,
}

-- An allocator that grants a megabyte.
abbrev megabyte : Grants
megabyte = λ n size. leb size (2 ^ 20)

megabyte-IsHost : IsHost megabyte
megabyte-IsHost n size h = ground (arith, h)

abbrev env : Env
env = record { grant = megabyte; settings = record { order = little; integrity = 1; mac_key = [] } }

abbrev idle : Connection
idle = record {
  has_fd = true;
  read_buf = no_buffer;
  write_buf = no_buffer;
  write_off = 0;
  interests = 1;
  closing = false;
  detached = false;
  write_queued = false;
  pending_deferred = 0;
}

abbrev call : Deferred
call = record {
  conn = 8;
  call_id = 5;
  proc_id = 7;
  payload = false;
  args = no_array;
  response = writer_init;
  result = true;
  error = [];
  completed = false;
}

abbrev worker : Worker
worker = record {
  conn_at = λ c. idle;
  connections = 8 ∷ [];
  pending_writes = [];
  call_at = λ k. call;
  completed = 3 ∷ [];
  connection_arena = 8 ∷ [];
  deferred_arena = 3 ∷ 4 ∷ [];
}

abbrev start : Mem
start = record { requests = 0; live = 0 }

queue_packet-Queued_example :
    Ends 0
      (Queued env 8 (new_header Op.response 0 7 1 5) (present (0 ∷ [])) worker start)
      (queue_packet env 8 Op.response 0 7 5 (present (0 ∷ [])) worker start)
queue_packet-Queued_example =
    queue_packet-Queued 0 env 8 Op.response 0 7 5 (present (0 ∷ [])) worker start megabyte-IsHost
      no_buffer-IsByteBuffer

queue_string_error-Queued_example :
    Ends 0
      (λ r s'.
        Queued env 8
          (error_header 7 5 (b'n' ∷ b'o' ∷ []))
          (error_payload (b'n' ∷ b'o' ∷ []))
          worker
          start
          r
          s'
        × ((writer : Writer) (s1 : Mem)
            → writer_string env.grant writer_init (present (b'n' ∷ b'o' ∷ [])) start
              ≡ returned (false, writer) s1
            → r ≡ (false, worker)))
      (queue_string_error env 8 7 5 (b'n' ∷ b'o' ∷ []) worker start)
queue_string_error-Queued_example =
    queue_string_error-Queued 0 env 8 7 5 (b'n' ∷ b'o' ∷ []) worker start megabyte-IsHost
      no_buffer-IsByteBuffer (omega arith)

-- Handlers that answer nothing, with 0.
abbrev host : Host
host = record {
  handler = λ f user_data call_id proc_id args. ret (true, writer_init);
  deferred_handler = λ f user_data call_id proc_id args. ret (true, writer_init, open_call);
  deferred_slot = λ w. some 5;
  call_slot = λ w. none;
  created = none;
  create_error = [];
}

abbrev route : Route
route = record {
  proc_id = 7;
  handler = some 1;
  deferred_handler = none;
  user_data = 0;
  finalizer = none;
  is_async = false;
  is_deferred = false;
}

make_all_once_example :
    (make_all 4 (fail_with (b'n' ∷ []) ∷ complete ∷ complete ∷ []) worker
      ≡ (true ∷ false ∷ false ∷ [], first_ended 4 (fail_with (b'n' ∷ [])) worker))
    × ((first_ended 4 (fail_with (b'n' ∷ [])) worker).completed ≡ 3 ∷ 4 ∷ [])
    × ((first_ended 4 (fail_with (b'n' ∷ [])) worker).call_at 4
        ≡ ended (fail_with (b'n' ∷ [])) (worker.call_at 4))
make_all_once_example =
    make_all_once 4 (fail_with (b'n' ∷ [])) (complete ∷ complete ∷ []) worker refl

-- Four bytes wait: two go out, after an interruption.
abbrev full : Connection
full = record idle {
  write_buf = record { bytes = 1 ∷ 2 ∷ 3 ∷ 4 ∷ 5 ∷ []; cap = 64; block = true };
  write_off = 1;
}

connection_write-Written_example :
    (r : Connection × List ℕ) × (connection_write false
        (send_interrupted ∷ sent 2 ∷ send_blocks ∷ [])
        full
      ≡ ok r)
    × Written false full [] r
connection_write-Written_example =
    connection_write-Written false (send_interrupted ∷ sent 2 ∷ []) full refl

chosen_worker_example :
    (0
      < (apply_all
          (workers 3 ∷ workers 900 ∷ accept ∷ [])
          (init_config 0 env.settings)).worker_count)
    × ((apply_all (workers 3 ∷ workers 900 ∷ accept ∷ []) (init_config 0 env.settings)).worker_count
        ≤ max_workers)
    × ((choose_worker
          (apply_all (workers 3 ∷ workers 900 ∷ accept ∷ []) (init_config 0 env.settings))).0
        < (apply_all
            (workers 3 ∷ workers 900 ∷ accept ∷ [])
            (init_config 0 env.settings)).worker_count)
chosen_worker_example = chosen_worker 0 env.settings (workers 3 ∷ workers 900 ∷ accept ∷ [])
