-- ===== src/Server/Lifetime/Packet.antt =====
-- `handle_packet` of src/server.c against the connections and calls of the worker.
use wirecall.Common.{
  ℕ, ◌+◌, Bool, true, false, List, All, ◌==◌, if◌then◌else◌, Option, none, some, ◌≡◌, refl, arith,
  ◌-◌, Bool-cases, inl, inr,
}
use wirecall.Words.{IsByte}
use wirecall.Memory.{Mem, M, ◌>>=◌}
use wirecall.Memory.Ends.{Ends, Ends-after}
use wirecall.Protocol.Op
use wirecall.Protocol.Header.{Header, flag_none}
use wirecall.Protocol.Buffer.{Buffer, absent, contents}
use wirecall.Payload.Writer.{writer_init}
use wirecall.Routes.{Route, Routes, chain_at}
use wirecall.Routes.Table.{routes_lookup}
use wirecall.Routes.Chain.{node_blocks}
use wirecall.Routes.Lookup.{meaning}
use wirecall.Routes.Readers.{settled, routes_lookup_lem}
use wirecall.Scheduler.Submit.{
  Submission, refused, answered, queued, kept, scheduler_submit, scheduler_submit-Ends,
}
use wirecall.Server.{Worker}
use wirecall.Server.Text
use wirecall.Server.Host.{Host}
use wirecall.Server.Queue.{Env, queue_packet, queue_string_error}
use wirecall.Server.Calls.{deferred_taken, deferred_copied, handle_deferred_call}
use wirecall.Server.Dispatch.{
  Site, handle_sync_call, on_call_done, submitted, at_worker, routed, handle_packet,
}
use wirecall.Server.Lifetime.Ready.{Ready, queue_string_error-Ready}
use wirecall.Server.Lifetime.Defer.{handle_deferred_call-Ready}
use wirecall.Server.Lifetime.Serve.{
  IsCallable, submitted_blocks, IsServerHost, Serving, Ready-rebase, queue_packet-Ready,
  handle_sync_call-Ready, on_call_done-Ready, put_conn-Ready,
}

-- The blocks that are not the worker's.
abbrev pub others : ℕ → Site → ℕ
others base site = base + (submitted_blocks site.submitted + node_blocks site.routes.retired)

module _ (left base : ℕ) (env : Env) (hosted : Host) (c : ℕ) (host : IsServerHost env hosted) where
  at_worker-Serving :
      (site : Site) (m : M (Bool × Worker)) (s0 s : Mem)
      → Serving base c site s0
      → Ends left (λ r s'. Ready (others base site) c r.1 s') (m s)
      → Ends left (λ r s'. Serving base c r.1 s') (at_worker site m s)
  at_worker-Serving site m s0 s h e =
      Ends-after left _ _ (m s) _ e
        (λ r s' ready. record { ready = ready; readers = h.readers; callable = h.callable })

  error-Serving :
      (header : Header) (message : List ℕ) (site : Site) (s : Mem)
      → Serving base c site s
      → Ends left
          (λ r s'. Serving base c r.1 s')
          (at_worker site
            (queue_string_error env c header.proc_id header.call_id message site.worker)
            s)
  error-Serving header message site s h =
      at_worker-Serving site
        (queue_string_error env c header.proc_id header.call_id message site.worker) s s h
        (queue_string_error-Ready left (others base site) env c header.proc_id header.call_id
          message site.worker s host.allocator h.ready)

  -- After the submission, whose blocks are live.
  submitted-Serving :
      (header : Header) (site : Site) (call : Submission) (s s' : Mem)
      → Serving base c site s
      → s'.live ≡ s.live + kept call
      → Ends left (λ r s''. Serving base c r.1 s'') (submitted env hosted c header site call s')
  unfolding submitted
  submitted-Serving header site refused s s' h live =
      error-Serving header Text.scheduler_failure site s' (record {
        ready = Ready-rebase _ _ c site.worker s s' (omega (arith, live)) h.ready;
        readers = h.readers;
        callable = h.callable;
      })
  submitted-Serving header site (answered slot malformed) s s' h live =
      Ends-after left _ _
        (on_call_done env c header.proc_id header.call_id false writer_init
          (if malformed then Text.malformed_payload else hosted.create_error) site.worker s')
        _
        (on_call_done-Ready left (others base site) env c site.worker s' host.allocator
          (Ready-rebase _ _ c site.worker s s' (omega (arith, live)) h.ready) header.proc_id
          header.call_id false writer_init
          (if malformed then Text.malformed_payload else hosted.create_error))
        (λ w s'' ready. record { ready = ready; readers = h.readers; callable = h.callable })
  submitted-Serving header site (queued slot co args payload) s s' h live = record {
    ready = Ready-rebase _ _ c site.worker s s' (omega (arith, live)) h.ready;
    readers = h.readers;
    callable = h.callable;
  }

  routed-Serving :
      (header : Header) (payload : Buffer) (site : Site) (route : Route) (s : Mem)
      → All IsByte (contents payload)
      → Serving base c site s
      → IsCallable route
      → Ends left
          (λ r s'. Serving base c r.1 s')
          (routed env hosted c header payload site (some route) s)
  unfolding routed deferred_taken deferred_copied
  routed-Serving header payload site route s bytes h (deferred, sync) =
      elim (Bool-cases route.is_deferred) [
        | inl later ↦
            let (f, found) = deferred later in
            rw later (
              at_worker-Serving site
                (handle_deferred_call env hosted c header route payload site.worker) s s h
                (handle_deferred_call-Ready left (others base site) env hosted c header route f
                  payload site.worker s host.allocator host.deferred host.slots found bytes
                  h.ready))
        | inr now ↦ elim (Bool-cases route.is_async) [
          | inr here ↦
              let (f, found) = sync now here in
              rw (now, here)
                (at_worker-Serving site
                  (handle_sync_call env hosted c header route payload site.worker) s s h
                  (handle_sync_call-Ready left (others base site) env c site.worker s host.allocator
                    h.ready hosted header route f payload host.handlers found bytes))
          | inl async ↦
              rw (now, async)
                (Ends-after left _ _
                  (scheduler_submit env.grant (hosted.call_slot site.worker) hosted.created
                    route.handler payload site.calls s)
                  _
                  (scheduler_submit-Ends left env.grant (hosted.call_slot site.worker)
                    hosted.created route.handler payload site.calls s bytes)
                  (λ r s' (live, pool).
                    submitted-Serving header (record site { calls = r.1 }) r.0 s s'
                      (record { ready = h.ready; readers = h.readers; callable = h.callable })
                      live))
        ]
      ]

  -- The state after the lookup, whose reader may have been the last.
  looked_up :
      (header : Header) (payload : Buffer) (site : Site) (s : Mem)
      → All IsByte (contents payload)
      → Serving base c site s
      → Ends left
          (λ r s'. Serving base c r.1 s')
          ((routes_lookup site.routes header.proc_id >>= λ (r : Option Route × Routes).
              routed env hosted c header payload (record site { routes = r.1 }) r.0)
            s)
  unfolding settled node_blocks meaning chain_at routed
  looked_up header payload site s bytes h =
      let rs = site.routes in
      let live = h.ready.alive.live in
      rw (routes_lookup_lem rs header.proc_id s h.readers (omega (arith, live)))
        (elim (Bool-cases (rs.active_readers == 0)) [
          | inl idle ↦
              let s' = record s { live = s.live - node_blocks rs.retired } in
              rw idle (
                found (meaning rs header.proc_id) refl (settled rs) s' (record {
                  ready =
                      Ready-rebase _ (base + (submitted_blocks site.submitted + 0)) c site.worker s
                        s' (omega (arith, live)) h.ready;
                  readers = h.readers;
                  callable = h.callable;
                }))
          | inr busy ↦ rw busy (found (meaning rs header.proc_id) refl rs s h)
        ])
    where
      found :
          (o : Option Route)
          → meaning site.routes header.proc_id ≡ o
          → (rs : Routes) (s' : Mem) → Serving base c (record site { routes = rs }) s'
          → Ends left
              (λ r s''. Serving base c r.1 s'')
              (routed env hosted c header payload (record site { routes = rs }) o s')
      found none e rs s' h' =
          error-Serving header Text.unknown_procedure (record site { routes = rs }) s' h'
      found (some route) e rs s' h' =
          routed-Serving header payload (record site { routes = rs }) route s' bytes h'
            (h.callable header.proc_id route e)

  -- The handler of a packet keeps all of this, whatever the packet.
  pub handle_packet-Serving :
      (header : Header) (payload : Buffer) (site : Site) (s : Mem)
      → All IsByte (contents payload)
      → Serving base c site s
      → Ends left (λ r s'. Serving base c r.1 s') (handle_packet env hosted c header payload site s)
  unfolding handle_packet
  handle_packet-Serving header payload site s bytes h =
      let conn = site.worker.conn_at c in
      elim (Bool-cases (header.op == Op.ping)) [
        | inl ping ↦ rw ping (
            at_worker-Serving site
              (queue_packet env c Op.response flag_none 0 header.call_id (absent 0) site.worker) s s
              h
              (queue_packet-Ready left (others base site) env c site.worker s host.allocator h.ready
                Op.response header.call_id))
        | inr not_ping ↦ elim (Bool-cases (header.op == Op.disconnect)) [
          | inl leaves ↦
              rw (not_ping, leaves)
                (record {
                  ready =
                      put_conn-Ready left (others base site) env c site.worker s host.allocator
                        h.ready (record conn { closing = true }) refl refl refl refl refl;
                  readers = h.readers;
                  callable = h.callable;
                })
          | inr stays ↦ elim (Bool-cases (header.op == Op.rpc)) [
            | inl call ↦ rw (not_ping, stays, call) (looked_up header payload site s bytes h)
            | inr other ↦
                rw (not_ping, stays, other)
                  (error-Serving header Text.unsupported_operation site s h)
          ]
        ]
      ]
