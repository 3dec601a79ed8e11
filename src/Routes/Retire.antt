-- ===== src/Routes/Retire.antt =====
-- `retire_route` of src/routes.c.
use wirecall.Common.{
  ℕ, ◌+◌, ◌≤◌, Bool, true, false, ◌&&◌, Bool-cases, inl, inr, List, [], ◌∷◌, ◌++◌, length, ◌==◌,
  ==→ne, ==→eq, if◌then◌else◌, ◌≡◌, ◌≢◌, refl, arith,
}
use wirecall.Memory.{Grants, Mem, returned, mem_calloc}
use wirecall.Memory.Ends.{Ends, Ends-after}
use wirecall.Routes.{Route, Routes, Call, retired_node, retire_route, free_retired, sizeof_retired}
use wirecall.Routes.Chain.{calls, node_blocks, node_calls, route_chain_free_lem, mem_calloc-Ends}

abbrev same_call : Call → Call → Bool
same_call (f, x) (g, y) = f == g && x == y

-- How often a call stands in a log.
unfoldable pub times : Call → List Call → ℕ
times c [] = 0
times c (d ∷ ds) = (if same_call c d then 1 else 0) + times c ds

pub times-append : (c : Call) (xs ys : List Call) → times c (xs ++ ys) ≡ times c xs + times c ys
unfolding times
times-append c [] ys = omega arith
times-append c (x ∷ xs) ys = ground (arith, times-append c xs ys)

-- The calls of a finalizer that were made or wait for the last reader.
unfoldable pub promised : Routes → Call → ℕ
promised rs c = times c rs.finalized + times c (node_calls rs.retired)

promised_log :
    (rs : Routes) (c : Call) (more : List Call)
    → promised (record rs { finalized = rs.finalized ++ more }) c ≡ promised rs c + times c more
unfolding promised
promised_log rs c more = omega (arith, times-append c rs.finalized more)

promised_node :
    (rs : Routes) (c : Call) (chain : List Route) (one : Bool) (id : ℕ)
    → promised (record rs { retired = retired_node chain one id ∷ rs.retired }) c
      ≡ promised rs c + times c (calls false one id chain)
unfolding promised node_calls
promised_node rs c chain one id =
    omega (arith, times-append c (calls false one id chain) (node_calls rs.retired))

free_retired_busy :
    (rs : Routes) (s : Mem) → (rs.active_readers == 0) ≡ false → free_retired rs s ≡ returned rs s
unfolding free_retired
free_retired_busy rs s h = rw h refl

promised_none :
    (rs : Routes) (c : Call) (one : Bool) (id : ℕ)
    → promised rs c ≡ promised rs c + times c (calls false one id [])
unfolding times calls
promised_none rs c one id = omega arith

-- Where a reader is active nothing is finalized and the chain waits.
abbrev pub Spared : Routes → List Route → Routes → Type 0
Spared rs chain rs' =
    rs.active_readers ≢ 0
    → (rs'.finalized ≡ rs.finalized)
      × (node_blocks rs.retired + length chain ≤ node_blocks rs'.retired)

-- A status of -1 leaves the chain to nobody.
abbrev pub Retired : Routes → List Route → Bool → ℕ → Mem → Bool → Routes → Mem → Type 0
Retired rs chain one id s true rs' s' =
    (s'.live + length chain + node_blocks rs.retired ≡ s.live + node_blocks rs'.retired)
    × ((c : Call) → promised rs' c ≡ promised rs c + times c (calls false one id chain))
    × Spared rs chain rs'
Retired rs chain one id s false rs' s' = (rs.active_readers ≢ 0) × (s'.live ≡ s.live) × (rs' ≡ rs)

pub retire_route-Ends :
    (base : ℕ) (grant : Grants) (rs : Routes) (chain : List Route) (one : Bool) (id : ℕ) (s : Mem)
    → length chain ≤ s.live
    → Ends base
        (λ r s'. (r.1.pages ≡ rs.pages) × Retired rs chain one id s r.0 r.1 s')
        (retire_route grant rs chain one id s)
unfolding retire_route node_blocks
retire_route-Ends base grant rs [] one id s h =
    (refl, (omega arith, (λ c. promised_none rs c one id), λ read. (refl, omega arith)))
retire_route-Ends base grant rs (r ∷ rest) one id s h = elim (Bool-cases (rs.active_readers == 0)) [
  | inl idle ↦
      rw (idle, route_chain_free_lem false one id (r ∷ rest) rs.finalized s h)
        (
          refl,
          (
            omega arith,
            (λ c. promised_log rs c (calls false one id (r ∷ rest))),
            λ read. elim (read (==→eq rs.active_readers 0 idle)) [ ],
          ),
        )
  | inr busy ↦ rw busy (
      Ends-after base _ _ (mem_calloc grant 1 sizeof_retired s) _
        (mem_calloc-Ends base grant 1 sizeof_retired s)
        elim [
          | false ↦ λ s' live. (refl, (==→ne rs.active_readers 0 busy, omega arith, refl))
          | true ↦ λ s' live.
              let queued = record rs { retired = retired_node (r ∷ rest) one id ∷ rs.retired } in
              rw (free_retired_busy queued s' busy) (
                refl,
                (
                  omega (arith, live),
                  (λ c. promised_node rs c (r ∷ rest) one id),
                  λ read. (refl, omega arith),
                ),
              )
        ])
]
