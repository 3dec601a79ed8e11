-- ===== src/Routes.antt =====
-- The route table of src/routes.c and include/routes.h: two levels of pages, a chain of routes in
-- each slot, and the chains that wait until no reader is left. The mutex makes each operation one
-- step; the number of active readers is part of the state. Functions and data of the host are
-- numbers, and `finalized` logs the calls of finalizers.
pub mod Table
pub mod Chain
pub mod Lookup
pub mod Retire
pub mod Update
pub mod Add
pub mod Status
pub mod Remove
pub mod Readers
pub mod Destroy
use wirecall.Common.{
  ℕ, suc, ◌+◌, ◌-◌, ◌*◌, ◌/◌, ◌%◌, ◌^◌, bit_and, bit_xor, Bool, true, false, not, ◌&&◌, ◌||◌,
  Option, none, some, List, [], ◌∷◌, ◌++◌, ltb, ◌==◌, if◌then◌else◌, Outcome, ok, fail,
}
use wirecall.Memory.{Grants, M, ◌>>=◌, ◌>>◌, ret, mem_calloc, mem_free}

pub record Route : Type 0 where
  pub proc_id : ℕ
  pub handler : Option ℕ
  pub deferred_handler : Option ℕ
  pub user_data : ℕ
  pub finalizer : Option ℕ
  pub is_async : Bool
  pub is_deferred : Bool

pub record RetiredRoute : Type 0 where
  pub chain : List Route
  pub finalize_proc_id : ℕ
  pub finalize_all : Bool
  pub finalize_one : Bool

-- A call of a finalizer: the function and its argument.
abbrev pub Call : Type 0
Call = ℕ × ℕ

abbrev pub Page : Type 0
Page = ℕ → List Route

pub record Routes : Type 0 where
  pub pages : ℕ → Option Page
  pub active_readers : ℕ
  pub retired : List RetiredRoute
  pub finalized : List Call

abbrev pub sizeof_route : ℕ
sizeof_route = 56

abbrev pub sizeof_retired : ℕ
sizeof_retired = 32

abbrev pub call_finalizer : Option ℕ → ℕ → List Call
call_finalizer none arg = []
call_finalizer (some f) arg = (f, arg) ∷ []

abbrev pub route_finalize : Route → List Call
route_finalize r = call_finalizer r.finalizer r.user_data

-- Is the route one that `route_chain_free` finalizes?
abbrev pub is_due : Bool → Bool → ℕ → Route → Bool
is_due all one id r = all || (one && r.proc_id == id)

-- The log goes through, with the calls that are made added to it.
unfoldable pub route_chain_free : Bool → Bool → ℕ → List Route → List Call → M (List Call)
route_chain_free all one id [] log = ret log
route_chain_free all one id (r ∷ rest) log = do
  mem_free true
  route_chain_free all one id rest (log ++ (if is_due all one id r then route_finalize r else []))

unfoldable pub route_index : ℕ → ℕ
route_index proc_id =
    let a = bit_xor proc_id (proc_id / 2 ^ 33) in
    let b = a * 0xff51afd7ed558ccd % 2 ^ 64 in
    let c = bit_xor b (b / 2 ^ 33) in
    let d = c * 0xc4ceb9fe1a85ec53 % 2 ^ 64 in bit_xor d (d / 2 ^ 33) % 2 ^ 32

unfoldable pub page_index : ℕ → ℕ
unfolding route_index
page_index proc_id = route_index proc_id / 2 ^ 16

unfoldable pub slot_index : ℕ → ℕ
unfolding route_index
slot_index proc_id = bit_and (route_index proc_id) (2 ^ 16 - 1)

-- `page ? page[slot] : NULL`
abbrev pub slot_of : Option Page → ℕ → List Route
slot_of none slot = []
slot_of (some page) slot = page slot

unfoldable pub chain_at : Routes → ℕ → List Route
chain_at rs proc_id = slot_of (rs.pages (page_index proc_id)) (slot_index proc_id)

unfoldable pub free_nodes : List RetiredRoute → List Call → M (List Call)
free_nodes [] log = ret log
free_nodes (n ∷ rest) log = do
  log' ← route_chain_free n.finalize_all n.finalize_one n.finalize_proc_id n.chain log
  mem_free true
  free_nodes rest log'

unfoldable pub free_retired : Routes → M Routes
free_retired rs = if not (rs.active_readers == 0) then ret rs else (do
  log ← free_nodes rs.retired rs.finalized
  ret (record rs { retired = []; finalized = log }))

-- The node for a chain that readers may still walk.
abbrev pub retired_node : List Route → Bool → ℕ → RetiredRoute
retired_node chain one id = record {
  chain = chain;
  finalize_proc_id = id;
  finalize_all = false;
  finalize_one = one;
}

-- The status with the table: `true` for 0.
abbrev pub Status : Type 0
Status = Bool × Routes

unfoldable pub retire_route : Grants → Routes → List Route → Bool → ℕ → M Status
retire_route grant rs [] one id = ret (true, rs)
retire_route grant rs (r ∷ rest) one id =
    if rs.active_readers == 0
    then (do
      log ← route_chain_free false one id (r ∷ rest) rs.finalized
      ret (true, record rs { finalized = log }))
    else (do
      granted ← mem_calloc grant 1 sizeof_retired
      if granted
          then (do
            rs' ← free_retired (record rs { retired = retired_node (r ∷ rest) one id ∷ rs.retired })
            ret (true, rs'))
          else ret (false, rs))

-- A page from the operating system is all zeros.
abbrev pub page_or_new : Option Page → Page
page_or_new none = λ slot. []
page_or_new (some page) = page

abbrev pub is_page : Option Page → Bool
is_page none = false
is_page (some page) = true

unfoldable pub store_page : Routes → ℕ → Page → Routes
store_page rs index page = record rs { pages = λ i. if i == index then some page else rs.pages i }

unfoldable pub store_chain : Routes → ℕ → List Route → Routes
unfolding store_page
store_chain rs proc_id chain =
    let page = page_or_new (rs.pages (page_index proc_id)) in
    store_page rs (page_index proc_id)
      (λ slot. if slot == slot_index proc_id then chain else page slot)

-- What the loop over the old chain leaves: whether all copies were made, the new chain, and
-- whether a route with the id was met.
pub record Copied : Type 0 where
  pub done : Bool
  pub chain : List Route
  pub met : Bool

unfoldable pub copy_chain : Grants → ℕ → List Route → List Route → Bool → M Copied
copy_chain grant id [] chain met = ret (record { done = true; chain = chain; met = met })
copy_chain grant id (it ∷ rest) chain met =
    if it.proc_id == id then copy_chain grant id rest chain true else (do
      granted ← mem_calloc grant 1 sizeof_route
      if granted
          then copy_chain grant id rest (chain ++ it ∷ []) met
          else ret (record { done = false; chain = chain; met = met }))
