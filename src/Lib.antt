-- ===== src/Lib.antt =====
-- wirecall: a model of the C library's wire protocol and memory discipline, with its theorems.
--
-- The program is a remote procedure call library. A client sends packets to a server over a
-- stream: a header of 34 bytes (src/protocol.c) and a payload of typed values (src/payload.c).
-- The header names the procedure by the hash of its name and can carry a checksum and a MAC.
-- Payload buffers and values come from the allocator that the host installs (src/memory.c).
-- The server finds a handler in its route table (src/routes.c), runs it, on a coroutine where it
-- asks for one (src/scheduler.c), and answers with a packet (src/server.c); the client waits for
-- the packet with its call id (src/client.c).
--
-- Which file models what:
--   Common      shared notation, lemmas on Boolean tests, lists, results and bits
--   Words       put_u32, put_u64, get_u32, get_u64, rotl64 and mix64 of src/protocol.c; the copies
--               of the first four in src/payload.c are the same functions
--   Protocol    src/protocol.c and include/wirecall/protocol.h: Name has wirecall_proc_id, Header
--               the header codec, Checksum wirecall_packet_checksum, Mac wirecall_packet_mac,
--               Integrity wirecall_packet_sign, _sign_ex, _verify and _verify_ex
--   Memory      src/memory.c: wirecall_mem_alloc, _calloc, _realloc and _free on a count of live blocks;
--               Hook has wirecall_set_allocator and the choice of the function that is called
--   Payload     src/payload.c: Decode has wirecall_payload_decode and wirecall_values_free, Writer
--               the wirecall_writer_* functions
--   Routes      src/routes.c and include/routes.h: Table has wirecall_routes_init, _add, _add_ex,
--               _add_deferred_ex, _remove and _lookup, Destroy wirecall_routes_destroy; Chain,
--               Lookup, Retire, Update, Status, Add, Remove and Readers are theorems
--   Arena       include/arena.h, the arena of calls and connections: wirecall_fixed_arena_init,
--               _alloc, _free and _destroy
--   Scheduler   src/scheduler.c: the ready queue (enqueue, dequeue) and its loop (call_entry,
--               call_resume, wirecall_scheduler_run_ready), Pool, call_free on the elements of the
--               arena, and Submit, wirecall_scheduler_submit; Queue, Fifo, Turns and Rounds are theorems
--   Stream      the growing buffers of src/server.c (append_bytes, reserve_bytes) and the packet at the
--               front of a stream; Grow, Socket, Packet/RoundTrip are theorems and their notions
--   Server      src/server.c: Server has the records of a worker, Queue queue_packet and
--               queue_string_error, Parse the loop of parse_available, Calls the deferred calls, Dispatch
--               handle_packet, handle_sync_call and on_call_done, Io connection_read and
--               connection_write, Lifetime worker_add_connection, connection_destroy,
--               worker_flush_writes and worker_drain_completed, Config the settings and the routes,
--               Host what the program that uses the server gives; Text has the messages. The modules
--               below Lifetime are theorems on which connections and calls are in use, from Elements
--               (lists of addresses) to Available (parse_available)
--   Client      src/client.c: Send has send_iov_full, Receive the read buffer and recv_packet, Call
--               send_packet, the calls, the ping, recv_response and the settings; Text has the messages
--   Tests       the code and the theorems at concrete inputs
--
-- How state and operations correspond: a buffer is the list of its bytes, a pointer with a length
-- is a Buffer, null or not. A function that returns 0 or -1 gives an Outcome, `ok` or `fail`; a read
-- outside a buffer is `fault`. A function that allocates passes a Mem along, the number of requests
-- so far and of live blocks, and ends as a Run; the parameter `grant` says which requests the host's
-- allocator grants. A store outside a block, the free of a block where none is live, and a copy from
-- outside a buffer are `crashed`. A word is a natural number below 2 ^ 8, 2 ^ 32 or 2 ^ 64, and an
-- int64_t or a double is its bit pattern. The eight-byte loads of the checksum and the MAC depend
-- on the byte order of the host, an argument of both.
--
-- The route table is a function from page numbers to pages, and a page one from slot numbers to
-- chains. An operation holds the mutex and is one step; how many readers are active at that time is
-- part of the state and may be any number. Finalizers are calls of the host, kept as a log of the
-- function and its argument. Whether the operating system grants a page is an argument.
--
-- The memory of an arena is a function from addresses to words, since its free list runs through
-- the free elements.
--
-- A socket is the list of what its next calls answer. A connection and a deferred call are addresses
-- of a worker, which maps them to their contents; its linked lists are lists of addresses. An arena of
-- a worker or of a scheduler is the list of the elements in use, and a free of another element is a
-- crash. pending_deferred is a number without bound: it counts elements of one arena, which cannot hold
-- 2 ^ 32. The field `closing` of a Parsed is what the loop of parse_available sets itself; what the handler
-- of a disconnect sets is in the connection.
--
-- The coroutine library, with the handlers that it runs, is a function from the state of a coroutine
-- to what comes of resuming it: a yield with a new state, a result, or a failure. The handlers of the
-- server, and what the arenas and the coroutine library answer a packet, are the record Host; a
-- handler may allocate. The route table goes with the worker in a Site.
--
-- A theorem on the server or the client takes an allocator that grants no request over 2 ^ 62 bytes
-- (IsHost); one that says what a sufficient memory gives takes one that grants all others (Ample).
--
-- Bounds and fuel: the loop of the decoder runs on fuel, one for each byte of the payload, as each
-- round takes a byte at least. The loop that doubles a writer's capacity has fuel for 21 rounds, and
-- 20 doublings pass the limit of 2 ^ 20 bytes from any capacity but 0.
--
-- The loop of the scheduler runs on fuel, one for each resumption. The loop of parse_available has one
-- for each byte of the buffer, as a packet has 34 at least. The loops that double the capacity of a
-- buffer have fuel for 63 rounds, after which any capacity but 0 is over 2 ^ 62. The loops on a
-- socket run on the list of its answers, and stop where the list ends as in a call that blocks.
--
-- Not modelled: wirecall_client_connect and wirecall_client_close; the event loop of a worker, its
-- list of pending sockets, accept_ready but the choice of the worker, the set-up, start and
-- destruction of a server and its workers, the threads and the mutexes of the server: an operation
-- that holds a mutex is one step; one state of the scheduler that joins its queue, its arena and the
-- blocks of its calls; the NULL arguments that each function refuses at once, the addresses of
-- blocks and what else they hold, the overflow of a size_t in a count of values (a payload in memory
-- has too few bytes for it), the trace counters (src/trace.c), the event backends and the platform
-- layer, which are calls of the operating system, the coroutine library, and the demos.

pub mod Common
pub mod Words
pub mod Protocol
pub mod Memory
pub mod Payload
pub mod Arena
pub mod Routes
pub mod Scheduler
pub mod Client
pub mod Server
pub mod Tests
pub mod Stream
