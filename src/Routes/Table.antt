-- ===== src/Routes/Table.antt =====
-- The operations of src/routes.c on the whole table.
use wirecall.Common.{
  ℕ, ◌+◌, ◌-◌, ◌%◌, ◌^◌, Bool, true, false, not, ◌&&◌, Option, none, some, List, [], ◌∷◌, ◌==◌,
  if◌then◌else◌, Outcome, ok, fail,
}
use wirecall.Memory.{Grants, M, ◌>>=◌, ◌>>◌, ret, mem_calloc, mem_free}
use wirecall.Routes.{
  Route, Routes, Status, sizeof_route, route_chain_free, free_retired, retire_route, chain_at,
  page_index, is_page, store_page, store_chain, copy_chain,
}

-- `wirecall_routes_init`: the host grants the root of the pages and the mutex, or it does not.
unfoldable pub routes_init : Bool → Bool → Outcome Routes
routes_init root mutex =
    if root && mutex
    then ok (record { pages = λ i. none; active_readers = 0; retired = []; finalized = [] })
    else fail

-- The first page of `routes_add_route`: there, or granted by the host (`page`).
unfoldable pub ensure_page : Bool → Routes → ℕ → Option Routes
ensure_page page rs proc_id =
    if is_page (rs.pages (page_index proc_id))
    then some rs
    else if page
    then some (store_page rs (page_index proc_id) (λ slot. []))
    else none

-- The code of `routes_add_route` after the page is there.
unfoldable pub add_to_page : Grants → Routes → Route → M Status
add_to_page grant rs route = do
  let old = chain_at rs route.proc_id
  copied ← copy_chain grant route.proc_id old (route ∷ []) false
  if copied.done
      then retire_route grant (store_chain rs route.proc_id copied.chain) old copied.met
          route.proc_id
      else (do
        log ← route_chain_free false false 0 copied.chain rs.finalized
        ret (false, record rs { finalized = log }))

-- A route that finds no page is freed.
unfoldable pub add_or_free : Grants → Option Routes → Routes → Route → M Status
add_or_free grant none rs route = do mem_free true; ret (false, rs)
add_or_free grant (some paged) rs route = add_to_page grant paged route

unfoldable pub routes_add_route : Grants → Bool → Routes → Route → M Status
unfolding add_or_free
routes_add_route grant page rs route =
    add_or_free grant (ensure_page page rs route.proc_id) rs route

-- Both ways to add a route: the block is allocated, filled and put into the table.
unfoldable pub add_new : Grants → Bool → Routes → Route → M Status
add_new grant page rs route = do
  granted ← mem_calloc grant 1 sizeof_route
  if granted then routes_add_route grant page rs route else ret (false, rs)

unfoldable pub routes_add_ex :
    Grants → Bool → Routes → ℕ → Option ℕ → ℕ → Option ℕ → Bool → M Status
routes_add_ex grant page rs proc_id none user_data finalizer is_async = ret (false, rs)
routes_add_ex grant page rs proc_id (some handler) user_data finalizer is_async =
    add_new grant page rs (record {
      proc_id = proc_id;
      handler = some handler;
      deferred_handler = none;
      user_data = user_data;
      finalizer = finalizer;
      is_async = is_async;
      is_deferred = false;
    })

unfoldable pub routes_add : Grants → Bool → Routes → ℕ → Option ℕ → ℕ → M Status
routes_add grant page rs proc_id handler user_data =
    routes_add_ex grant page rs proc_id handler user_data none false

unfoldable pub routes_add_deferred_ex :
    Grants → Bool → Routes → ℕ → Option ℕ → ℕ → Option ℕ → M Status
routes_add_deferred_ex grant page rs proc_id none user_data finalizer = ret (false, rs)
routes_add_deferred_ex grant page rs proc_id (some handler) user_data finalizer =
    add_new grant page rs (record {
      proc_id = proc_id;
      handler = none;
      deferred_handler = some handler;
      user_data = user_data;
      finalizer = finalizer;
      is_async = false;
      is_deferred = true;
    })

unfoldable pub routes_remove : Grants → Routes → ℕ → M Status
routes_remove grant rs proc_id = do
  let old = chain_at rs proc_id
  copied ← copy_chain grant proc_id old [] false
  if not copied.done
      then (do
        log ← route_chain_free false false 0 copied.chain rs.finalized
        ret (false, record rs { finalized = log }))
      else if is_page (rs.pages (page_index proc_id)) && copied.met
      then retire_route grant (store_chain rs proc_id copied.chain) old true proc_id
      else (do
        log ← route_chain_free false false 0 copied.chain rs.finalized
        ret (false, record rs { finalized = log }))

-- `while (route && route->proc_id != proc_id)`
unfoldable pub find : ℕ → List Route → Option Route
find id [] = none
find id (r ∷ rest) = if r.proc_id == id then some r else find id rest

-- A lookup, in three steps: the reader is counted, it walks the chain, and it leaves; the last
-- one to leave frees what was retired.
unfoldable pub enter : Routes → Routes
enter rs = record rs { active_readers = (rs.active_readers + 1) % 2 ^ 32 }

unfoldable pub leave : Routes → M Routes
leave rs =
    let left = record rs { active_readers = (rs.active_readers + (2 ^ 32 - 1)) % 2 ^ 32 } in
    if rs.active_readers == 1 then free_retired left else ret left

unfoldable pub routes_lookup : Routes → ℕ → M (Option Route × Routes)
routes_lookup rs proc_id = do
  let entered = enter rs
  let found = find proc_id (chain_at entered proc_id)
  left ← leave entered
  ret (found, left)
