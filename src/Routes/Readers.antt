-- ===== src/Routes/Readers.antt =====
-- `wirecall_routes_lookup` of src/routes.c as its reader and the table see it.
use wirecall.Common.{
  ℕ, ◌+◌, ◌-◌, ◌%◌, ◌^◌, ◌≤◌, ◌<◌, true, Bool-cases, inl, inr, [], ◌++◌, ◌==◌, if◌then◌else◌, ◌≡◌,
  refl, ap, ◌∙◌, arith,
}
use wirecall.Memory.{Mem, returned, after, ret}
use wirecall.Routes.{Routes, chain_at, free_retired}
use wirecall.Routes.Table.{enter, leave, routes_lookup}
use wirecall.Routes.Chain.{node_blocks, node_calls, free_nodes_lem}
use wirecall.Routes.Lookup.{meaning}

-- The table after the last reader: nothing waits, and what waited is freed and finalized.
unfoldable pub settled : Routes → Routes
settled rs = record rs { retired = []; finalized = rs.finalized ++ node_calls rs.retired }

free_retired_lem :
    (rs : Routes) (s : Mem)
    → (rs.active_readers == 0) ≡ true
    → node_blocks rs.retired ≤ s.live
    → free_retired rs s
      ≡ returned (settled rs) (record s { live = s.live - node_blocks rs.retired })
unfolding free_retired settled
free_retired_lem rs s idle room = rw (idle, free_nodes_lem rs.retired rs.finalized s room) refl

only_reader : (n : ℕ) → (n + 1 == 1) ≡ (n == 0)
only_reader n = ground arith

-- The count goes up and down again.
leave-enter :
    (rs : Routes) (s : Mem)
    → rs.active_readers < 2 ^ 32 - 1
    → leave (enter rs) s ≡ (if rs.active_readers == 0 then free_retired rs else ret rs) s
unfolding leave enter
leave-enter rs s few =
    let n = rs.active_readers in
    let up : (n + 1) % 2 ^ 32 ≡ n + 1 = omega arith in
    let down : (n + 1 + (2 ^ 32 - 1)) % 2 ^ 32 ≡ n = omega arith in
    rw (up, down, only_reader n) refl

-- A lookup finds what the map of the table has under the id. Where another reader is active the table
-- stays as it was; the only reader leaves it with nothing retired, all retired blocks freed and
-- their finalizers called. The count of readers must not wrap around.
pub routes_lookup_lem :
    (rs : Routes) (id : ℕ) (s : Mem)
    → rs.active_readers < 2 ^ 32 - 1
    → node_blocks rs.retired ≤ s.live
    → routes_lookup rs id s ≡ (
        if rs.active_readers == 0
        then returned
            (meaning rs id, settled rs)
            (record s { live = s.live - node_blocks rs.retired })
        else returned (meaning rs id, rs) s)
unfolding routes_lookup enter meaning chain_at
routes_lookup_lem rs id s few room = elim (Bool-cases (rs.active_readers == 0)) [
  | inl idle ↦
      let left : leave (enter rs) s
          ≡ returned (settled rs) (record s { live = s.live - node_blocks rs.retired }) =
        leave-enter rs s few ∙ rw idle (free_retired_lem rs s idle room) in
      ap (λ m. after m (λ left. ret (meaning rs id, left))) left ∙ rw idle refl
  | inr busy ↦
      let left : leave (enter rs) s ≡ returned rs s = leave-enter rs s few ∙ rw busy refl in
      ap (λ m. after m (λ left. ret (meaning rs id, left))) left ∙ rw busy refl
]
