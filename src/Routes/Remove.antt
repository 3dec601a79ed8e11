-- ===== src/Routes/Remove.antt =====
-- `wirecall_routes_remove` of src/routes.c against the map from ids to routes.
use wirecall.Common.{
  ℕ, ◌+◌, ◌≤◌, true, false, not, ◌&&◌, Bool-cases, inl, inr, none, [], length, if◌then◌else◌, ◌≡◌,
  refl, ap, ◌∙◌, arith,
}
use wirecall.Memory.{Grants, Mem, ◌>>=◌, ret}
use wirecall.Memory.Ends.{Ends, Ends-after, Ends-Gives}
use wirecall.Routes.{
  Routes, Status, Copied, retire_route, chain_at, route_chain_free, store_chain, copy_chain,
  page_index, is_page,
}
use wirecall.Routes.Table.{find, routes_remove}
use wirecall.Routes.Chain.{others, meets, CopyOf, CopyOf-done, copy_chain-Ends, find-others}
use wirecall.Routes.Status.{Removed, routes_remove-Gives}
use wirecall.Routes.Update.{held, ended, Replaced, swap-Ends, abandon-Ends}

remove_copied :
    (base : ℕ) (grant : Grants) (rs : Routes) (id : ℕ) (live : ℕ) (c : Copied) (s : Mem)
    → length (chain_at rs id) ≤ live
    → s.live ≡ live + length c.chain
    → CopyOf (others id (chain_at rs id)) (meets id (chain_at rs id)) c
    → Ends base
        (λ (r : Status) s'. Replaced rs id none live r.0 r.1 s')
        ((if not c.done
            then (route_chain_free false false 0 c.chain rs.finalized >>= λ log.
                ret (false, record rs { finalized = log }))
            else if is_page (rs.pages (page_index id)) && c.met
            then retire_route grant (store_chain rs id c.chain) (chain_at rs id) true id
            else (route_chain_free false false 0 c.chain rs.finalized >>= λ log.
                ret (false, record rs { finalized = log })))
          s)
unfolding ended
remove_copied base grant rs id live c s room grown copy = elim (Bool-cases c.done) [
  | inr stopped ↦ rw stopped (abandon-Ends base rs id none c.chain live s grown)
  | inl done ↦ elim (Bool-cases (is_page (rs.pages (page_index id)) && c.met)) [
    | inr absent ↦ rw (done, absent) (abandon-Ends base rs id none c.chain live s grown)
    | inl there ↦
        let (chain, met) = CopyOf-done c done copy in
        rw (done, there)
          (swap-Ends base grant rs id none c.chain true live s
            (λ j. ap (find j) chain ∙ find-others id j (chain_at rs id)) refl grown room)
  ]
]

removal-Ends :
    (grant : Grants) (rs : Routes) (id : ℕ) (s : Mem)
    → held rs id ≤ s.live
    → Ends s.live
        (λ (r : Status) s'. Replaced rs id none s.live r.0 r.1 s')
        (routes_remove grant rs id s)
unfolding routes_remove held
removal-Ends grant rs id s room =
    Ends-after s.live _ _ (copy_chain grant id (chain_at rs id) [] false s) _
      (copy_chain-Ends s.live grant id (chain_at rs id) [] false s)
      λ c s' (copy, blocks).
        remove_copied s.live grant rs id s.live c s' (omega arith) (omega (arith, blocks)) copy

-- Removing an id, where the blocks of the table are live. With 0 the table had a route under the id
-- and maps it to nothing now, the blocks of the removed routes are freed or wait for the readers, and
-- their finalizers are called or wait, once each; where a reader is active they wait, all of them. With -1 the table and the live blocks are
-- as before, or, where readers are active, the id is gone all the same, the old chain is leaked and its
-- finalizers are lost. Where the table has a route under the id and the allocator refuses nothing, it
-- gives 0.
pub routes_remove-Ends :
    (grant : Grants) (rs : Routes) (id : ℕ) (s : Mem)
    → held rs id ≤ s.live
    → Ends s.live
        (λ (r : Status) s'. Replaced rs id none s.live r.0 r.1 s' × Removed grant rs id r.0)
        (routes_remove grant rs id s)
routes_remove-Ends grant rs id s room =
    Ends-Gives s.live _ _ (routes_remove grant rs id s) (removal-Ends grant rs id s room)
      (routes_remove-Gives grant rs id s)
