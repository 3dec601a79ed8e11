-- ===== src/Tests/Routes.antt =====
-- The route table at concrete inputs.
use wirecall.Common.{
  ℕ, zero, suc, ◌+◌, ◌-◌, ◌≤◌, ◌≡◌, refl, [], ◌∷◌, ◌++◌, true, false, none, some, arith, ltb,
}
use wirecall.Memory.{Grants, Mem, returned}
use wirecall.Memory.Ends.{Ends}
use wirecall.Routes.{Route, Routes, Status, chain_at, retired_node}
use wirecall.Routes.Table.{routes_add_ex, routes_add_deferred_ex, routes_remove, routes_lookup}
use wirecall.Routes.Chain.{node_blocks, node_calls}
use wirecall.Routes.Lookup.{meaning}
use wirecall.Routes.Update.{held, Replaced}
use wirecall.Routes.Add.{routes_add_ex-Ends, routes_add_deferred_ex-Ends}
use wirecall.Routes.Status.{Removed}
use wirecall.Routes.Remove.{routes_remove-Ends}
use wirecall.Routes.Readers.{settled, routes_lookup_lem}
use wirecall.Routes.Destroy.{
  root_size, pages_blocks, page_blocks, pages_calls, table_blocks, routes_destroy,
  routes_destroy_lem,
}

abbrev route : Route
route = record {
  proc_id = 5;
  handler = some 1;
  deferred_handler = none;
  user_data = 8;
  finalizer = some 9;
  is_async = false;
  is_deferred = false;
}

-- Every slot has the route, one reader is active, and a chain waits for it.
abbrev table : Routes
table = record {
  pages = λ i. some (λ slot. route ∷ []);
  active_readers = 1;
  retired = retired_node (route ∷ []) true 5 ∷ [];
  finalized = [];
}

abbrev memory : Mem
memory = record { requests = 0; live = 10 }

abbrev two_grants : Grants
two_grants n size = ltb n 2

held-table : held table 5 ≤ 10
unfolding held chain_at node_blocks
held-table = omega arith

routes_add_ex-Ends_example :
    Ends 10
      (λ (r : Status) s'.
        Replaced table 5
          (some record {
            proc_id = 5;
            handler = some 2;
            deferred_handler = none;
            user_data = 7;
            finalizer = none;
            is_async = true;
            is_deferred = false;
          })
          10
          r.0
          r.1
          s')
      (routes_add_ex two_grants true table 5 (some 2) 7 none true memory)
routes_add_ex-Ends_example =
    routes_add_ex-Ends two_grants true table 5 2 7 none true memory held-table

routes_add_deferred_ex-Ends_example :
    Ends 10
      (λ (r : Status) s'.
        Replaced table 5
          (some record {
            proc_id = 5;
            handler = none;
            deferred_handler = some 2;
            user_data = 7;
            finalizer = none;
            is_async = false;
            is_deferred = true;
          })
          10
          r.0
          r.1
          s')
      (routes_add_deferred_ex two_grants true table 5 (some 2) 7 none memory)
routes_add_deferred_ex-Ends_example =
    routes_add_deferred_ex-Ends two_grants true table 5 2 7 none memory held-table

routes_remove-Ends_example :
    Ends 10
      (λ (r : Status) s'. Replaced table 5 none 10 r.0 r.1 s' × Removed two_grants table 5 r.0)
      (routes_remove two_grants table 5 memory)
routes_remove-Ends_example = routes_remove-Ends two_grants table 5 memory held-table

abbrev idle_table : Routes
idle_table = record table { active_readers = 0 }

table_waits : node_blocks idle_table.retired ≤ 10
unfolding node_blocks
table_waits = omega arith

routes_lookup_lem_example :
    routes_lookup idle_table 5 memory
    ≡ returned (meaning idle_table 5, settled idle_table) (record { requests = 0; live = 8 })
unfolding node_blocks
routes_lookup_lem_example = routes_lookup_lem idle_table 5 memory (omega arith) table_waits

abbrev no_pages : Routes
no_pages = record table { pages = λ i. none }

pages_blocks-none : (n i : ℕ) → pages_blocks n i (λ j. none) ≡ 0
unfolding pages_blocks page_blocks
pages_blocks-none zero i = refl
pages_blocks-none (suc n) i = omega (arith, pages_blocks-none n (i + 1))

table_blocks-no_pages : table_blocks no_pages ≤ 10
unfolding table_blocks node_blocks
table_blocks-no_pages = omega (arith, pages_blocks-none root_size 0)

routes_destroy_lem_example :
    routes_destroy no_pages memory
    ≡ returned
        ([] ++ (pages_calls root_size 0 (λ i. none) ++ node_calls no_pages.retired))
        (record { requests = 0; live = 10 - table_blocks no_pages })
routes_destroy_lem_example = routes_destroy_lem no_pages memory table_blocks-no_pages
