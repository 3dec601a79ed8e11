-- ===== src/Server/Lifetime/Defer.antt =====
-- `handle_deferred_call` of src/server.c against the connections and calls of the worker.
use wirecall.Common.{
  ℕ, ◌+◌, Bool, true, false, All, ltb, if◌then◌else◌, Option, none, some, ◌⊎◌, ◌≡◌, refl, ap, ◌∙◌,
  arith, Bool-cases, inl, inr, sym, subst,
}
use wirecall.Words.{IsByte}
use wirecall.Memory.{Mem, ◌>>=◌, mem_alloc, count_block}
use wirecall.Memory.Ends.{IsHost, Ends, Ends-after, Ends-attempt, mem_alloc-Ample}
use wirecall.Protocol.Header.{Header}
use wirecall.Protocol.Buffer.{Buffer, contents}
use wirecall.Payload.Decode.{Array, payload_decode}
use wirecall.Payload.Decode.Blocks.{IsArray, blocks}
use wirecall.Payload.Decode.Loop.{payload_decode-Ends}
use wirecall.Payload.Writer.{Writer}
use wirecall.Routes.{Route}
use wirecall.Server.{Connection, Deferred, Worker, put_conn, put_deferred, in_use}
use wirecall.Server.Text
use wirecall.Server.Host.{Host, call_deferred_handler}
use wirecall.Server.Queue.{Env, queue_string_error}
use wirecall.Server.Queue.Touched.{conn_at-put_conn, conn_at-put_conn_other}
use wirecall.Server.Calls.{
  deferred_free, take_call, count_deferred, deferred_decoded, deferred_copied, deferred_taken,
  deferred_in, handle_deferred_call,
}
use wirecall.Server.Lifetime.Ready.{Ready, queue_string_error-Ready}
use wirecall.Server.Lifetime.Enter.{Added, Added-Alive}
use wirecall.Server.Lifetime.Finish.{call_at-put, call_at-put_other, returned-Ready}
use wirecall.Server.Lifetime.Entered.{
  entering, Entered, take_call-Entered, copied-Entered, apart, entered, later, refused,
}

-- A deferred handler leaves its arguments alone and what it leaves behind is the block of the response.
abbrev pub AreDeferred : Host → Type 0
AreDeferred host =
    (left f user_data call_id proc_id : ℕ) (args : Array) (s : Mem)
    → IsArray args
    → Ends left (λ r s'. s'.live ≡ s.live + count_block r.1.block)
        (host.deferred_handler f user_data call_id proc_id args s)

-- The arena gives an element that is not in use.
abbrev pub HasSlots : Host → Type 0
HasSlots host =
    (w : Worker) (k : ℕ) → host.deferred_slot w ≡ some k → in_use k w.deferred_arena ≡ false

module _ (left base : ℕ) (env : Env) (c k : ℕ) (header : Header) (copied : Bool) (w w' : Worker)
    (s : Mem) (host : IsHost env.grant) (h : Ready base c w s)
    (unused : in_use k w.deferred_arena ≡ false)
    (t : Entered k (entering c header copied) w w') where
  -- The worker that the handler leaves.
  module _ (args : Array) (response : Writer) where
    abbrev final : Deferred
    final = record (w'.call_at k) { args = args; response = response }

    abbrev called : Worker
    called = put_deferred k final (count_deferred c w')

    Added-called : Added c k final w called
    unfolding put_deferred count_deferred put_conn
    Added-called = record {
      conn =
          conn_at-put_conn c
            (record (w'.conn_at c) { pending_deferred = (w'.conn_at c).pending_deferred + 1 }) w'
          ∙ ap
              (λ (f : ℕ → Connection). record (f c) {
                pending_deferred = (f c).pending_deferred + 1;
              })
              t.conns;
      others = λ d ne.
          conn_at-put_conn_other c d
            (record (w'.conn_at c) { pending_deferred = (w'.conn_at c).pending_deferred + 1 }) w' ne
          ∙ ap (λ (f : ℕ → Connection). f d) t.conns;
      connections = t.connections;
      pending_writes = t.pending_writes;
      connection_arena = t.connection_arena;
      deferred_arena = t.deferred_arena;
      new = call_at-put k final w';
      calls = λ j ne. call_at-put_other j k final w' ne ∙ t.calls j ne;
    }

    Ready-called :
        (s' : Mem)
        → IsArray args
        → s'.live ≡ s.live + (blocks args + (count_block response.block + count_block copied))
        → Ready base c called s' × (in_use k called.deferred_arena ≡ true)
    unfolding put_deferred count_deferred put_conn
    Ready-called s' array live =
        let new = Added-called in
        let held : count_block (w'.call_at k).payload ≡ count_block copied =
          ap (λ (x : Deferred). count_block x.payload) t.new in
        (
          record {
            alive =
                Added-Alive base c k final w called s s' h.alive new h.here h.attached unused
                  (ap Deferred.conn t.new) array (omega (arith, live, held));
            here = subst (λ l. in_use c l ≡ true) (sym t.connection_arena) h.here;
            attached = ap Connection.detached new.conn ∙ h.attached;
            ended = record {
              once = rw t.completed h.ended.once;
              used = λ j e.
                  (let (used, mark) =
                      h.ended.used j (subst (λ l. in_use j l ≡ true) t.completed e) in
                    (
                      subst (λ l. in_use j l ≡ true) (sym t.deferred_arena)
                          (later left base env c k header copied w w' s host h unused t j used),
                      ap Deferred.completed (
                            new.calls j
                              (apart left base env c k header copied w w' s host h unused t j used))
                          ∙ mark,
                    ));
            };
          },
          entered left base env c k header copied w w' s host h unused t,
        )

  decoded-Ready :
      (hosted : Host) (route : Route) (f : ℕ) (args : Array) (s' : Mem)
      → AreDeferred hosted
      → route.deferred_handler ≡ some f
      → IsArray args
      → s'.live ≡ s.live + (blocks args + count_block copied)
      → Ends left (λ r s''. Ready base c r.1 s'') (deferred_decoded hosted c route k w' args s')
  unfolding deferred_decoded call_deferred_handler
  decoded-Ready hosted route f args s' fs found array live = rw found (
      Ends-after left _ _
        (hosted.deferred_handler f route.user_data (w'.call_at k).call_id (w'.call_at k).proc_id
          args s')
        _ (fs left f route.user_data (w'.call_at k).call_id (w'.call_at k).proc_id args s' array)
        (λ r s'' live'.
          (let (ready, still) = Ready-called args r.1 s'' array (omega (arith, live, live')) in
            returned-Ready base c k r.0 r.2 (called args r.1) s'' ready still)))

  copied-Ready :
      (hosted : Host) (route : Route) (f : ℕ) (payload : Buffer) (s' : Mem)
      → AreDeferred hosted
      → route.deferred_handler ≡ some f
      → All IsByte (contents payload)
      → s'.live ≡ s.live + count_block copied
      → Ends left
          (λ r s''. Ready base c r.1 s'')
          (deferred_copied env hosted c header route payload k w' s')
  unfolding deferred_copied
  copied-Ready hosted route f payload s' fs found bytes live =
      Ends-attempt left s'.live _ _ (payload_decode env.grant payload s') _ _
        (payload_decode-Ends env.grant payload s' bytes)
        (λ args s'' p.
          (let more = p.live in
            decoded-Ready hosted route f args s'' fs found p.array (omega (arith, live, more))))
        (λ s'' same.
          refused left base env c k header copied w w' s host h unused t Text.malformed_payload s''
            (omega (arith, live, same)))

-- Between two packets of a connection that is not detached, `handle_deferred_call` keeps the worker
-- sound for any payload of bytes, whether memory or the arena runs out, the payload is malformed or the
-- handler leaves the call open, completes it, fails it or gives an error: the new call is counted by its
-- connection or gone with its blocks, and the list of completed calls has each of its calls once and only
-- such as are in use. The deferred handler keeps its contract and the arena gives unused elements.
pub handle_deferred_call-Ready :
    (left base : ℕ) (env : Env) (hosted : Host) (c : ℕ) (header : Header) (route : Route) (f : ℕ)
    (payload : Buffer) (w : Worker) (s : Mem)
    → IsHost env.grant
    → AreDeferred hosted
    → HasSlots hosted
    → route.deferred_handler ≡ some f
    → All IsByte (contents payload)
    → Ready base c w s
    → Ends left
        (λ r s'. Ready base c r.1 s')
        (handle_deferred_call env hosted c header route payload w s)
unfolding handle_deferred_call deferred_in deferred_taken
handle_deferred_call-Ready left base env hosted c header route f payload w s host fs slots found
      bytes h =
    elim (slot_cases (hosted.deferred_slot w)) [
      | inl none_left ↦ rw none_left (
          queue_string_error-Ready left base env c header.proc_id header.call_id
            Text.no_deferred_call w s host h)
      | inr (k, given) ↦ rw given (taken k (slots w k given))
    ]
  where
    slot_cases : (o : Option ℕ) → (o ≡ none) ⊎ ((k : ℕ) × (o ≡ some k))
    slot_cases none = inl refl
    slot_cases (some k) = inr (k, refl)

    copy_or_refuse :
        (k : ℕ)
        → in_use k w.deferred_arena ≡ false
        → (granted : Bool) (s' : Mem) → s'.live ≡ s.live + count_block granted
        → let w' = take_call k c header w in
          Ends left
            (λ r s''. Ready base c r.1 s'')
            ((if granted
                then deferred_copied env hosted c header route payload k
                    (put_deferred k (record (w'.call_at k) { payload = true }) w')
                else (deferred_free k w' >>= λ u.
                    queue_string_error env c header.proc_id header.call_id Text.no_deferred_payload
                      u))
              s')
    copy_or_refuse k unused true s' live =
        let w' = take_call k c header w in
        let t = copied-Entered k c header w w' (take_call-Entered k c header w) in
        copied-Ready left base env c k header true w
          (put_deferred k (record (w'.call_at k) { payload = true }) w') s host h unused t hosted
          route f payload s' fs found bytes live
    copy_or_refuse k unused false s' live =
        refused left base env c k header false w (take_call k c header w) s host h unused
          (take_call-Entered k c header w) Text.no_deferred_payload s' live

    taken :
        (k : ℕ)
        → in_use k w.deferred_arena ≡ false
        → Ends left
            (λ r s'. Ready base c r.1 s')
            (deferred_taken env hosted c header route payload k (take_call k c header w) s)
    taken k unused =
        let w' = take_call k c header w in
        let t = take_call-Entered k c header w in
        elim (Bool-cases (ltb 0 header.size)) [
          | inl copy ↦ rw copy (
              Ends-after left _ _ (mem_alloc env.grant header.size s) _
                (mem_alloc-Ample left env.grant header.size s)
                (λ granted s' (sure, live). copy_or_refuse k unused granted s' live))
          | inr empty ↦ rw empty (
              copied-Ready left base env c k header false w w' s host h unused t hosted route f
                payload s fs found bytes (omega arith))
        ]
