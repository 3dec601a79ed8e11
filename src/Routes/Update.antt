-- ===== src/Routes/Update.antt =====
-- Adding and removing a route, against a map from ids to routes, with the blocks that are live and
-- the finalizers that are called.
use wirecall.Common.{
  ℕ, ◌+◌, ◌≤◌, Bool, true, false, inl, inr, ◌⊎◌, Option, List, [], length, ◌==◌, if◌then◌else◌, ◌≡◌,
  ◌≢◌, refl, sym, ap, ◌∙◌, subst, arith, append-nil,
}
use wirecall.Memory.{Grants, Mem, ◌>>=◌, ret}
use wirecall.Memory.Ends.{Ends, Ends-map}
use wirecall.Routes.{
  Route, Routes, Call, Status, retire_route, chain_at, route_chain_free, store_page, store_chain,
}
use wirecall.Routes.Table.{find}
use wirecall.Routes.Chain.{calls, node_blocks, calls_none, route_chain_free_lem}
use wirecall.Routes.Lookup.{meaning, update, meaning-store_chain, chain_at-store_chain_here, Paged}
use wirecall.Routes.Retire.{times, promised, Spared, Retired, retire_route-Ends}

-- The blocks of the chain that an id falls into, and of all that waits.
unfoldable pub held : Routes → ℕ → ℕ
held rs id = length (chain_at rs id) + node_blocks rs.retired

-- The finalizers of the routes with an id.
unfoldable pub ended : Routes → ℕ → List Call
ended rs id = calls false true id (chain_at rs id)

-- What a step has done: lookups give `map` now, `leaked` blocks are live that the table does not
-- hold, and the finalizers `final` joined those that were called or wait.
pub record Changed (rs : Routes) (id : ℕ) (live : ℕ) (map : ℕ → Option Route) (leaked : ℕ)
    (final : List Call) (rs' : Routes) (s' : Mem) : Type 0 where
  pub lookups : (j : ℕ) → meaning rs' j ≡ map j
  pub blocks : s'.live + held rs id ≡ live + held rs' id + leaked
  pub finalizers : (c : Call) → promised rs' c ≡ promised rs c + times c final

-- Putting `new` under an id: done, with the old chain spared where a reader is active; or nothing
-- changed; or the new chain is in place and the node for the old one, which readers may walk, could
-- not be allocated.
abbrev pub Replaced : Routes → ℕ → Option Route → ℕ → Bool → Routes → Mem → Type 0
Replaced rs id new live true rs' s' =
    Changed rs id live (update id new (meaning rs)) 0 (ended rs id) rs' s'
    × Spared rs (chain_at rs id) rs'
Replaced rs id new live false rs' s' =
    Changed rs id live (meaning rs) 0 [] rs' s'
    ⊎ ((rs.active_readers ≢ 0)
        × Changed rs id live (update id new (meaning rs)) (length (chain_at rs id)) [] rs' s')

meaning_pages : (rs rs' : Routes) (j : ℕ) → rs'.pages ≡ rs.pages → meaning rs' j ≡ meaning rs j
unfolding meaning chain_at
meaning_pages rs rs' j e = rw e refl

chain_pages : (rs rs' : Routes) (j : ℕ) → rs'.pages ≡ rs.pages → chain_at rs' j ≡ chain_at rs j
unfolding chain_at
chain_pages rs rs' j e = rw e refl

-- After the copy: the new chain is stored and the old one retired.
pub swap-Ends :
    (base : ℕ) (grant : Grants) (rs : Routes) (id : ℕ) (new : Option Route) (chain : List Route)
    (one : Bool) (live : ℕ) (s : Mem)
    → ((j : ℕ) → find j chain ≡ (if j == id then new else find j (chain_at rs id)))
    → calls false one id (chain_at rs id) ≡ ended rs id
    → s.live ≡ live + length chain
    → length (chain_at rs id) ≤ live
    → Ends base
        (λ r s'. Replaced rs id new live r.0 r.1 s')
        (retire_route grant (store_chain rs id chain) (chain_at rs id) one id s)
unfolding store_chain store_page held promised times
swap-Ends base grant rs id new chain one live s finds ends grown room =
    Ends-map base _ _ (retire_route grant (store_chain rs id chain) (chain_at rs id) one id s)
      (retire_route-Ends base grant (store_chain rs id chain) (chain_at rs id) one id s
        (omega arith))
      λ r s' (pages, p). go r.0 r.1 s' pages p
  where
    go :
        (b : Bool) (rs' : Routes) (s' : Mem)
        → rs'.pages ≡ (store_chain rs id chain).pages
        → Retired (store_chain rs id chain) (chain_at rs id) one id s b rs' s'
        → Replaced rs id new live b rs' s'
    go true rs' s' pages (blocks, final, spared) = (
      record {
        lookups = λ j.
            meaning_pages (store_chain rs id chain) rs' j pages
            ∙ meaning-store_chain rs id new chain finds j;
        blocks = omega (
          arith,
          blocks,
          grown,
          ap length (
              chain_pages (store_chain rs id chain) rs' id pages
              ∙ chain_at-store_chain_here rs id chain),
        );
        finalizers = λ c. omega (arith, final c, ap (times c) ends);
      },
      spared,
    )
    go false rs' s' pages (busy, blocks, same) = inr (
      busy,
      record {
        lookups = λ j.
            meaning_pages (store_chain rs id chain) rs' j pages
            ∙ meaning-store_chain rs id new chain finds j;
        blocks = omega (
          arith,
          blocks,
          grown,
          ap (λ t. node_blocks t.retired) same,
          ap length (
              chain_pages (store_chain rs id chain) rs' id pages
              ∙ chain_at-store_chain_here rs id chain),
        );
        finalizers = λ c. omega (arith, ap (λ t. promised t c) same);
      },
    )

-- A copy that could not be finished is freed; the table stays.
pub abandon-Ends :
    (base : ℕ) (rs : Routes) (id : ℕ) (new : Option Route) (chain : List Route) (live : ℕ) (s : Mem)
    → s.live ≡ live + length chain
    → Ends base
        (λ (r : Status) s'. Replaced rs id new live r.0 r.1 s')
        ((route_chain_free false false 0 chain rs.finalized >>= λ log.
            ret (false, record rs { finalized = log }))
          s)
unfolding held promised times meaning chain_at
abandon-Ends base rs id new chain live s grown =
    rw
      (
        route_chain_free_lem false false 0 chain rs.finalized s (omega arith),
        calls_none 0 chain,
        append-nil rs.finalized,
      )
      (inl record { lookups = λ j. refl; blocks = omega arith; finalizers = λ c. omega arith })

-- A step from the table with a fresh page is a step from the table without it.
module _ (rs paged : Routes) (p : Paged rs paged) (id : ℕ) where
  meaning-Paged : (j : ℕ) → meaning paged j ≡ meaning rs j
  unfolding meaning
  meaning-Paged j = ap (find j) (p.chains j)

  Changed-Paged :
      (live : ℕ) (map map' : ℕ → Option Route) (leaked : ℕ) (final : List Call) (rs' : Routes)
      (s' : Mem)
      → ((j : ℕ) → map j ≡ map' j)
      → Changed paged id live map leaked final rs' s'
      → Changed rs id live map' leaked final rs' s'
  unfolding held promised
  Changed-Paged live map map' leaked final rs' s' e h = record {
    lookups = λ j. h.lookups j ∙ e j;
    blocks = rw (← p.chains id, ← p.retired) h.blocks;
    finalizers = λ c. h.finalizers c ∙ rw (p.finalized, p.retired) refl;
  }

  update-Paged :
      (new : Option Route) (j : ℕ) → update id new (meaning paged) j ≡ update id new (meaning rs) j
  unfolding update
  update-Paged new j = ap (λ t. if j == id then new else t) (meaning-Paged j)

  pub Replaced-Paged :
      (new : Option Route) (live : ℕ) (b : Bool) (rs' : Routes) (s' : Mem)
      → Replaced paged id new live b rs' s'
      → Replaced rs id new live b rs' s'
  unfolding ended
  Replaced-Paged new live true rs' s' (h, spared) = (
    subst
        (λ chain.
          Changed rs id live (update id new (meaning rs)) 0 (calls false true id chain) rs' s')
        (p.chains id) (Changed-Paged live _ _ 0 (ended paged id) rs' s' (update-Paged new) h),
    λ busy.
        let (log, waits) = spared (λ e. busy (sym p.readers ∙ e)) in
        (log ∙ p.finalized, rw (← p.chains id, ← p.retired) waits),
  )
  Replaced-Paged new live false rs' s' (inl h) =
      inl (Changed-Paged live (meaning paged) (meaning rs) 0 [] rs' s' meaning-Paged h)
  Replaced-Paged new live false rs' s' (inr (busy, h)) = inr (
    (λ e. busy (p.readers ∙ e)),
    subst (λ chain. Changed rs id live (update id new (meaning rs)) (length chain) [] rs' s')
        (p.chains id)
        (Changed-Paged live _ _ (length (chain_at paged id)) [] rs' s' (update-Paged new) h),
  )
