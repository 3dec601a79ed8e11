-- ===== src/Server/Config.antt =====
-- The settings and the routes of a server in src/server.c: `wirecall_server_set_workers`,
-- `wirecall_server_set_integrity`, `cpu_count`, the choice of a worker in `accept_ready`, and the
-- functions that add and remove a route by its name.
use wirecall.Common.{
  ℕ, ◌+◌, ◌%◌, ◌^◌, ◌≤◌, ◌<◌, Bool, true, false, ◌||◌, ◌==◌, ltb, if◌then◌else◌, Option, List, [],
  ◌∷◌, Outcome, ok, fail, fault, stuck, arith,
}
use wirecall.Memory.{Grants, M}
use wirecall.Protocol.Name.{proc_id}
use wirecall.Protocol.Integrity.{integrity_default}
use wirecall.Stream.Packet.{Settings}
use wirecall.Client.{change_settings}
use wirecall.Routes.{Routes, Status}
use wirecall.Routes.Table.{routes_add_ex, routes_add_deferred_ex, routes_remove}

abbrev pub max_workers : ℕ
max_workers = 128

pub record Config : Type 0 where
  pub worker_count : ℕ
  pub next_worker : ℕ
  pub workers_ready : Bool
  pub listening : Bool
  pub settings : Settings

-- What `wirecall_cpu_count` answers, cut to the limits.
unfoldable pub cpu_count : ℕ → ℕ
cpu_count n = if n == 0 then 1 else if ltb max_workers n then max_workers else n

-- The fields that `wirecall_server_init` sets.
unfoldable pub init_config : ℕ → Settings → Config
unfolding cpu_count
init_config cpus zeroed = record {
  worker_count = cpu_count cpus;
  next_worker = 0;
  workers_ready = false;
  listening = false;
  settings = record zeroed { integrity = integrity_default };
}

unfoldable pub set_workers : ℕ → Config → Outcome Config
set_workers count config =
    if config.workers_ready || (config.listening || (count == 0 || ltb max_workers count))
    then fail
    else ok (record config { worker_count = count })

unfoldable pub server_set_integrity : ℕ → Option (List ℕ) → Config → Outcome Config
unfolding change_settings
server_set_integrity integrity key config =
    if config.workers_ready || config.listening
    then fail
    else elim (change_settings integrity key config.settings) [
      | ok set ↦ ok (record config { settings = set })
      | fail ↦ fail
      | fault ↦ fault
      | stuck ↦ stuck
    ]

-- The worker that takes the next connection.
unfoldable pub choose_worker : Config → ℕ × Config
choose_worker config = (
  config.next_worker % config.worker_count,
  record config { next_worker = (config.next_worker + 1) % 2 ^ 32 },
)

abbrev pub IsConfig : Config → Type 0
IsConfig config = (0 < config.worker_count) × (config.worker_count ≤ max_workers)

init_config-IsConfig : (cpus : ℕ) (zeroed : Settings) → IsConfig (init_config cpus zeroed)
unfolding init_config cpu_count
init_config-IsConfig cpus zeroed = ground arith

-- The ways to change the settings, up to the first connection.
pub data Setting : Type 0 where
  workers : ℕ → Setting
  integrity : ℕ → Option (List ℕ) → Setting
  accept : Setting

-- A refused change leaves the server as it was.
abbrev pub or_same : Config → Outcome Config → Config
or_same config (ok config') = config'
or_same config fail = config
or_same config fault = config
or_same config stuck = config

abbrev pub apply : Setting → Config → Config
apply (workers count) config = or_same config (set_workers count config)
apply (integrity bits key) config = or_same config (server_set_integrity bits key config)
apply accept config = (choose_worker config).1

abbrev pub apply_all : List Setting → Config → Config
apply_all [] config = config
apply_all (s ∷ ss) config = apply_all ss (apply s config)

apply-IsConfig : (s : Setting) (config : Config) → IsConfig config → IsConfig (apply s config)
unfolding set_workers server_set_integrity choose_worker change_settings
apply-IsConfig (workers count) config h = ground arith
apply-IsConfig (integrity bits key) config h = ground arith
apply-IsConfig accept config h = h

apply_all-IsConfig :
    (ss : List Setting) (config : Config) → IsConfig config → IsConfig (apply_all ss config)
apply_all-IsConfig [] config h = h
apply_all-IsConfig (s ∷ ss) config h =
    apply_all-IsConfig ss (apply s config) (apply-IsConfig s config h)

mod-lt : (a n : ℕ) → 0 < n → a % n < n
mod-lt a n h = grind arith

-- Whatever the host says of its processors and whatever changes are asked for, refused ones included,
-- a server keeps between 1 and 128 workers, and the worker chosen for the next connection is one
-- of them, also once the counter of connections has wrapped around.
pub chosen_worker :
    (cpus : ℕ) (zeroed : Settings) (ss : List Setting)
    → let config = apply_all ss (init_config cpus zeroed) in
      (0 < config.worker_count)
      × (config.worker_count ≤ max_workers)
      × ((choose_worker config).0 < config.worker_count)
unfolding choose_worker
chosen_worker cpus zeroed ss =
    let config = apply_all ss (init_config cpus zeroed) in
    let (some_worker, few) =
      apply_all-IsConfig ss (init_config cpus zeroed) (init_config-IsConfig cpus zeroed) in
    (some_worker, few, mod-lt config.next_worker config.worker_count some_worker)

-- `wirecall_server_add_route_name_ex`, `wirecall_server_add_async_route_name_ex` and
-- `wirecall_server_add_deferred_route_name_ex`, with the functions that they call.
unfoldable pub add_route_name :
    Grants → Bool → Routes → Option (List ℕ) → Option ℕ → ℕ → Option ℕ → M Status
add_route_name grant page rs name handler user_data finalizer =
    routes_add_ex grant page rs (proc_id name) handler user_data finalizer false

unfoldable pub add_async_route_name :
    Grants → Bool → Routes → Option (List ℕ) → Option ℕ → ℕ → Option ℕ → M Status
add_async_route_name grant page rs name handler user_data finalizer =
    routes_add_ex grant page rs (proc_id name) handler user_data finalizer true

unfoldable pub add_deferred_route_name :
    Grants → Bool → Routes → Option (List ℕ) → Option ℕ → ℕ → Option ℕ → M Status
add_deferred_route_name grant page rs name handler user_data finalizer =
    routes_add_deferred_ex grant page rs (proc_id name) handler user_data finalizer

unfoldable pub remove_route_name : Grants → Routes → Option (List ℕ) → M Status
remove_route_name grant rs name = routes_remove grant rs (proc_id name)
