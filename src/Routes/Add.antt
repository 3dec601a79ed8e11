-- ===== src/Routes/Add.antt =====
-- `wirecall_routes_add_ex` and `_add_deferred_ex` of src/routes.c against the map from ids to routes.
use wirecall.Common.{
  ℕ, ◌+◌, ◌≤◌, Bool, true, false, Bool-cases, inl, inr, Option, none, some, List, [], ◌∷◌, length,
  ◌==◌, if◌then◌else◌, ◌≡◌, refl, ap, ◌∙◌, arith,
}
use wirecall.Memory.{Grants, Mem, ◌>>=◌, ret, mem_calloc}
use wirecall.Memory.Ends.{Ends, Ends-after, Ends-map, mem_free_lem}
use wirecall.Routes.{
  Route, Routes, Status, Copied, retire_route, chain_at, route_chain_free, store_chain, copy_chain,
  sizeof_route,
}
use wirecall.Routes.Table.{
  find, ensure_page, add_to_page, add_or_free, routes_add_route, add_new, routes_add_ex,
  routes_add_deferred_ex,
}
use wirecall.Routes.Chain.{
  others, meets, calls, calls_met, mem_calloc-Ends, CopyOf, CopyOf-done, copy_chain-Ends,
  find-others,
}
use wirecall.Routes.Lookup.{meaning, ensure_page-Paged}
use wirecall.Routes.Retire.{times}
use wirecall.Routes.Update.{held, ended, Changed, Replaced, swap-Ends, abandon-Ends, Replaced-Paged}

find_added :
    (route : Route) (j : ℕ) (old : List Route)
    → find j (route ∷ others route.proc_id old)
      ≡ (if j == route.proc_id then some route else find j old)
unfolding find
find_added route j old = grind (arith, find-others route.proc_id j old)

-- The code after the copy, from what the copy left.
add_copied :
    (base : ℕ) (grant : Grants) (rs : Routes) (route : Route) (live : ℕ) (c : Copied) (s : Mem)
    → length (chain_at rs route.proc_id) ≤ live
    → s.live ≡ live + length c.chain
    → CopyOf
        (route ∷ others route.proc_id (chain_at rs route.proc_id))
        (meets route.proc_id (chain_at rs route.proc_id))
        c
    → Ends base
        (λ (r : Status) s'. Replaced rs route.proc_id (some route) live r.0 r.1 s')
        ((if c.done
            then retire_route grant
                (store_chain rs route.proc_id c.chain)
                (chain_at rs route.proc_id)
                c.met
                route.proc_id
            else (route_chain_free false false 0 c.chain rs.finalized >>= λ log.
                ret (false, record rs { finalized = log })))
          s)
unfolding ended
add_copied base grant rs route live c s room grown copy = elim (Bool-cases c.done) [
  | inr stopped ↦ rw stopped (abandon-Ends base rs route.proc_id (some route) c.chain live s grown)
  | inl done ↦
      let old = chain_at rs route.proc_id in
      let (chain, met) = CopyOf-done c done copy in
      rw done (
        swap-Ends base grant rs route.proc_id (some route) c.chain c.met live s
          (λ j. ap (find j) chain ∙ find_added route j old)
          (ap (λ m. calls false m route.proc_id old) met ∙ calls_met route.proc_id old) grown room)
]

add_to_page-Ends :
    (base : ℕ) (grant : Grants) (rs : Routes) (route : Route) (live : ℕ) (s : Mem)
    → length (chain_at rs route.proc_id) ≤ live
    → s.live ≡ live + 1
    → Ends base
        (λ (r : Status) s'. Replaced rs route.proc_id (some route) live r.0 r.1 s')
        (add_to_page grant rs route s)
unfolding add_to_page
add_to_page-Ends base grant rs route live s room grown =
    Ends-after base _ _
      (copy_chain grant route.proc_id (chain_at rs route.proc_id) (route ∷ []) false s) _
      (copy_chain-Ends base grant route.proc_id (chain_at rs route.proc_id) (route ∷ []) false s)
      λ c s' (copy, blocks).
        add_copied base grant rs route live c s' room (omega (arith, blocks, grown)) copy

unchanged :
    (rs : Routes) (id : ℕ) (live : ℕ) (s : Mem)
    → s.live ≡ live
    → Changed rs id live (meaning rs) 0 [] rs s
unfolding times
unchanged rs id live s e = record {
  lookups = λ j. refl;
  blocks = omega arith;
  finalizers = λ c. omega arith;
}

add_route-Ends :
    (base : ℕ) (grant : Grants) (page : Bool) (rs : Routes) (route : Route) (live : ℕ) (s : Mem)
    → length (chain_at rs route.proc_id) ≤ live
    → s.live ≡ live + 1
    → Ends base
        (λ (r : Status) s'. Replaced rs route.proc_id (some route) live r.0 r.1 s')
        (routes_add_route grant page rs route s)
unfolding routes_add_route add_or_free
add_route-Ends base grant page rs route live s room grown =
    go (ensure_page page rs route.proc_id) refl
  where
    go :
        (q : Option Routes)
        → ensure_page page rs route.proc_id ≡ q
        → Ends base
            (λ (r : Status) s'. Replaced rs route.proc_id (some route) live r.0 r.1 s')
            (add_or_free grant q rs route s)
    go none e =
        rw (mem_free_lem true s (omega arith))
          (inl (unchanged rs route.proc_id live _ (omega arith)))
    go (some paged) e =
        let p = ensure_page-Paged page rs paged route.proc_id e in
        Ends-map base _ _ (add_to_page grant paged route s)
          (add_to_page-Ends base grant paged route live s (rw (p.chains route.proc_id) room) grown)
          λ r s' h. Replaced-Paged rs paged p route.proc_id (some route) live r.0 r.1 s' h

add_new-Ends :
    (grant : Grants) (page : Bool) (rs : Routes) (route : Route) (s : Mem)
    → held rs route.proc_id ≤ s.live
    → Ends s.live
        (λ (r : Status) s'. Replaced rs route.proc_id (some route) s.live r.0 r.1 s')
        (add_new grant page rs route s)
unfolding add_new held
add_new-Ends grant page rs route s room =
    Ends-after s.live _ _ (mem_calloc grant 1 sizeof_route s) _
      (mem_calloc-Ends s.live grant 1 sizeof_route s)
      elim [
        | false ↦ λ s' live. inl (unchanged rs route.proc_id s.live s' (omega (arith, live)))
        | true ↦ λ s' live. add_route-Ends s.live grant page rs route s.live s' (omega arith) live
      ]

-- Adding a handler, where the blocks of the table are live and the host's allocator answers
-- anything: with 0 the table maps the id to the new route and nothing else has changed, the blocks
-- of the routes before are freed or wait for the readers, and their finalizers are called or
-- wait, once each; where a reader is active they wait, all of them. With -1 the table and the live blocks are as before; or, where readers are
-- active, the new route is in place all the same, the old chain is leaked and its finalizers
-- are lost.
pub routes_add_ex-Ends :
    (grant : Grants) (page : Bool) (rs : Routes) (proc_id handler user_data : ℕ)
    (finalizer : Option ℕ) (is_async : Bool) (s : Mem)
    → held rs proc_id ≤ s.live
    → Ends s.live
        (λ (r : Status) s'.
          Replaced rs proc_id
            (some record {
              proc_id = proc_id;
              handler = some handler;
              deferred_handler = none;
              user_data = user_data;
              finalizer = finalizer;
              is_async = is_async;
              is_deferred = false;
            })
            s.live
            r.0
            r.1
            s')
        (routes_add_ex grant page rs proc_id (some handler) user_data finalizer is_async s)
unfolding routes_add_ex
routes_add_ex-Ends grant page rs proc_id handler user_data finalizer is_async s room =
    add_new-Ends grant page rs _ s room

-- Adding a deferred handler does the same with a route that holds it.
pub routes_add_deferred_ex-Ends :
    (grant : Grants) (page : Bool) (rs : Routes) (proc_id handler user_data : ℕ)
    (finalizer : Option ℕ) (s : Mem)
    → held rs proc_id ≤ s.live
    → Ends s.live
        (λ (r : Status) s'.
          Replaced rs proc_id
            (some record {
              proc_id = proc_id;
              handler = none;
              deferred_handler = some handler;
              user_data = user_data;
              finalizer = finalizer;
              is_async = false;
              is_deferred = true;
            })
            s.live
            r.0
            r.1
            s')
        (routes_add_deferred_ex grant page rs proc_id (some handler) user_data finalizer s)
unfolding routes_add_deferred_ex
routes_add_deferred_ex-Ends grant page rs proc_id handler user_data finalizer s room =
    add_new-Ends grant page rs _ s room
