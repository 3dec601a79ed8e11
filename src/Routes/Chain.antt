-- ===== src/Routes/Chain.antt =====
-- One chain of routes: what copying it without an id keeps, and what freeing it calls.
use wirecall.Common.{
  ℕ, ◌+◌, ◌-◌, ◌≤◌, Bool, true, false, ◌||◌, Bool-cases, inl, inr, none, List, [], ◌∷◌, ◌++◌,
  length, ◌==◌, if◌then◌else◌, ◌≡◌, refl, sym, ap, ap₂, subst, ◌∙◌, arith, append_assoc, append-nil,
  length-append,
}
use wirecall.Memory.{
  Grants, Mem, returned, ◌>>◌, count_block, mem_alloc, after, mem_calloc, mem_free,
}
use wirecall.Memory.Ends.{Ends, Ends-after, Ends-map, mem_free_lem}
use wirecall.Routes.{
  Route, RetiredRoute, Call, Copied, route_finalize, is_due, route_chain_free, free_nodes,
  copy_chain, sizeof_route,
}
use wirecall.Routes.Table.{find}

-- The routes with another id, in order.
unfoldable pub others : ℕ → List Route → List Route
others id [] = []
others id (r ∷ rest) = if r.proc_id == id then others id rest else r ∷ others id rest

unfoldable pub meets : ℕ → List Route → Bool
meets id [] = false
meets id (r ∷ rest) = r.proc_id == id || meets id rest

-- The finalizers that freeing a chain calls, in order.
unfoldable pub calls : Bool → Bool → ℕ → List Route → List Call
calls all one id [] = []
calls all one id (r ∷ rest) =
    (if is_due all one id r then route_finalize r else []) ++ calls all one id rest

unfoldable pub node_blocks : List RetiredRoute → ℕ
node_blocks [] = 0
node_blocks (n ∷ rest) = length n.chain + 1 + node_blocks rest

unfoldable pub node_calls : List RetiredRoute → List Call
unfolding calls
node_calls [] = []
node_calls (n ∷ rest) =
    calls n.finalize_all n.finalize_one n.finalize_proc_id n.chain ++ node_calls rest

pub route_chain_free_lem :
    (all one : Bool) (id : ℕ) (chain : List Route) (log : List Call) (s : Mem)
    → length chain ≤ s.live
    → route_chain_free all one id chain log s
      ≡ returned (log ++ calls all one id chain) (record s { live = s.live - length chain })
unfolding route_chain_free calls
route_chain_free_lem all one id [] log s h = ground (arith, append-nil log)
route_chain_free_lem all one id (r ∷ rest) log s h =
    let now = if is_due all one id r then route_finalize r else [] in
    ap (λ m. after m (λ _. route_chain_free all one id rest (log ++ now)))
      (mem_free_lem true s (omega arith))
    ∙ route_chain_free_lem all one id rest (log ++ now) (record s { live = s.live - 1 })
        (omega arith)
    ∙ ap₂ (λ (l : List Call) (n : ℕ). returned l (record s { live = n }))
        (append_assoc log now (calls all one id rest)) (omega arith)

pub free_nodes_lem :
    (nodes : List RetiredRoute) (log : List Call) (s : Mem)
    → node_blocks nodes ≤ s.live
    → free_nodes nodes log s
      ≡ returned (log ++ node_calls nodes) (record s { live = s.live - node_blocks nodes })
unfolding free_nodes node_calls node_blocks
free_nodes_lem [] log s h = ground (arith, append-nil log)
free_nodes_lem (n ∷ rest) log s h =
    let now = calls n.finalize_all n.finalize_one n.finalize_proc_id n.chain in
    let s1 = record s { live = s.live - length n.chain } in
    let s2 = record s { live = s.live - length n.chain - 1 } in
    ap (λ m. after m (λ log'. mem_free true >> free_nodes rest log'))
      (route_chain_free_lem n.finalize_all n.finalize_one n.finalize_proc_id n.chain log s
        (omega arith))
    ∙ ap (λ m. after m (λ _. free_nodes rest (log ++ now))) (mem_free_lem true s1 (omega arith))
    ∙ free_nodes_lem rest (log ++ now) s2 (omega arith)
    ∙ ap₂ (λ (l : List Call) (n : ℕ). returned l (record s { live = n }))
        (append_assoc log now (node_calls rest)) (omega arith)

pub mem_calloc-Ends :
    (base : ℕ) (grant : Grants) (count size : ℕ) (s : Mem)
    → Ends base (λ b s'. s'.live ≡ s.live + count_block b) (mem_calloc grant count size s)
unfolding mem_calloc mem_alloc
mem_calloc-Ends base grant count size s = ground arith

-- What the loop over the old chain leaves.
abbrev pub CopyOf : List Route → Bool → Copied → Type 0
CopyOf chain met c = if c.done then (c.chain ≡ chain) × (c.met ≡ met) else Unit {0}

pub CopyOf-done :
    {chain : List Route} {met : Bool} (c : Copied)
    → c.done ≡ true
    → CopyOf chain met c
    → (c.chain ≡ chain) × (c.met ≡ met)
CopyOf-done {chain} {met} c e h =
    subst (λ b. if b then (c.chain ≡ chain) × (c.met ≡ met) else Unit {0}) e h

CopyOf-ext :
    {x y : List Route} {a b : Bool} (c : Copied) → x ≡ y → a ≡ b → CopyOf x a c → CopyOf y b c
CopyOf-ext {x} {y} {a} {b} c e f h = subst (λ t. CopyOf y t c) f (subst (λ t. CopyOf t a c) e h)

met_already : (met : Bool) → true ≡ (met || true)
met_already met = ground arith

pub copy_chain-Ends :
    (base : ℕ) (grant : Grants) (id : ℕ) (old built : List Route) (met : Bool) (s : Mem)
    → Ends base
        (λ c s'.
          CopyOf (built ++ others id old) (met || meets id old) c
          × (s'.live + length built ≡ s.live + length c.chain))
        (copy_chain grant id old built met s)
unfolding copy_chain others meets
copy_chain-Ends base grant id [] built met s = ((sym (append-nil built), ground arith), refl)
copy_chain-Ends base grant id (r ∷ rest) built met s = elim (Bool-cases (r.proc_id == id)) [
  | inl same ↦ rw same (
      Ends-map base _ _ (copy_chain grant id rest built true s)
        (copy_chain-Ends base grant id rest built true s)
        λ c s' (p, e). (CopyOf-ext c refl (met_already met) p, e))
  | inr other ↦ rw other (
      Ends-after base _ _ (mem_calloc grant 1 sizeof_route s) _
        (mem_calloc-Ends base grant 1 sizeof_route s)
        elim [
          | false ↦ λ s' live. (tt, omega arith)
          | true ↦ λ s' live.
              Ends-map base _ _ (copy_chain grant id rest (built ++ r ∷ []) met s')
                (copy_chain-Ends base grant id rest (built ++ r ∷ []) met s')
                λ c s'' (p, e). (
                  CopyOf-ext c (append_assoc built (r ∷ []) (others id rest)) refl p,
                  omega (arith, length-append built (r ∷ [])),
                )
        ])
]

-- Looking up in a chain without an id.
pub find-others :
    (id j : ℕ) (chain : List Route)
    → find j (others id chain) ≡ (if j == id then none else find j chain)
unfolding find others
find-others id j [] = ground arith
find-others id j (r ∷ rest) = grind (arith, find-others id j rest)

-- Without a flag nothing is finalized, and without a match the flag for one id changes nothing.
pub calls_none : (id : ℕ) (chain : List Route) → calls false false id chain ≡ []
unfolding calls
calls_none id [] = refl
calls_none id (r ∷ rest) = calls_none id rest

calls_unmet :
    (id : ℕ) (chain : List Route) → meets id chain ≡ false → calls false true id chain ≡ []
unfolding calls meets
calls_unmet id [] h = refl
calls_unmet id (r ∷ rest) h = elim (Bool-cases (r.proc_id == id)) [
  | inl same ↦ ground arith
  | inr other ↦ rw other (calls_unmet id rest (ground arith))
]

pub calls_met :
    (id : ℕ) (chain : List Route)
    → calls false (meets id chain) id chain ≡ calls false true id chain
calls_met id chain = elim (Bool-cases (meets id chain)) [
  | inl met ↦ rw met refl
  | inr unmet ↦ rw (unmet, calls_none id chain) (sym (calls_unmet id chain unmet))
]
