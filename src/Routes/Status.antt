-- ===== src/Routes/Status.antt =====
-- The status of `wirecall_routes_remove` of src/routes.c.
use wirecall.Common.{
  ℕ, Bool, true, false, not, ◌&&◌, ◌||◌, Bool-cases, inl, inr, Option, none, some, List, [], ◌∷◌,
  ◌++◌, ◌==◌, if◌then◌else◌, ◌≡◌, ◌⊎◌, refl, arith, subst,
}
use wirecall.Memory.{Grants, Mem, ◌>>=◌, ret, mem_calloc, mem_alloc}
use wirecall.Memory.Ends.{Gives, Gives-after, Gives-all, Gives-map}
use wirecall.Routes.{
  Route, Routes, Page, Status, Copied, retire_route, chain_at, slot_of, slot_index, page_index,
  is_page, copy_chain, route_chain_free, store_chain, free_retired, retired_node, sizeof_route,
  sizeof_retired,
}
use wirecall.Routes.Table.{find, routes_remove}
use wirecall.Routes.Chain.{meets}
use wirecall.Routes.Lookup.{meaning}

-- The allocator refuses nothing.
abbrev pub GrantsAll : Grants → Type 0
GrantsAll grant = (n size : ℕ) → grant n size ≡ true

route_calloc :
    (grant : Grants) (size : ℕ) (s : Mem)
    → (size ≡ sizeof_route) ⊎ (size ≡ sizeof_retired)
    → Gives (λ b. GrantsAll grant → b ≡ true) (mem_calloc grant 1 size s)
unfolding mem_calloc mem_alloc
route_calloc grant size s h = elim h [
  | inl e ↦ rw e (granted sizeof_route)
  | inr e ↦ rw e (granted sizeof_retired)
]
  where
    granted : (n : ℕ) → Gives (λ b. GrantsAll grant → b ≡ true) (mem_alloc grant n s)
    granted n = elim (Bool-cases (grant s.requests (if n == 0 then 1 else n))) [
      | inl yes_given ↦ rw yes_given (λ all. refl)
      | inr refused ↦ rw refused (λ all. let e = all s.requests (if n == 0 then 1 else n) in cc)
    ]

copy_chain-Gives :
    (grant : Grants) (id : ℕ) (old built : List Route) (met : Bool) (s : Mem)
    → Gives
        (λ c. (c.done ≡ true → c.met ≡ (met || meets id old)) × (GrantsAll grant → c.done ≡ true))
        (copy_chain grant id old built met s)
unfolding copy_chain meets
copy_chain-Gives grant id [] built met s = (λ d. ground arith, λ all. refl)
copy_chain-Gives grant id (r ∷ rest) built met s = elim (Bool-cases (r.proc_id == id)) [
  | inl same ↦ rw same (
      Gives-map _ _ (copy_chain grant id rest built true s)
        (copy_chain-Gives grant id rest built true s)
        (λ c (m, d). ((λ e. let now = m e in ground arith), d)))
  | inr other ↦ rw other (
      Gives-after _ _ (mem_calloc grant 1 sizeof_route s) _
        (route_calloc grant sizeof_route s (inl refl))
        elim [
          | false ↦ λ s' h. ((λ e. cc), λ all. let e = h all in cc)
          | true ↦ λ s' h. copy_chain-Gives grant id rest (built ++ r ∷ []) met s'
        ])
]

retire_route-Gives :
    (grant : Grants) (rs : Routes) (chain : List Route) (one : Bool) (id : ℕ) (s : Mem)
    → Gives (λ (r : Status). GrantsAll grant → r.0 ≡ true) (retire_route grant rs chain one id s)
unfolding retire_route
retire_route-Gives grant rs [] one id s = λ all. refl
retire_route-Gives grant rs (r ∷ rest) one id s = elim (Bool-cases (rs.active_readers == 0)) [
  | inl idle ↦ rw idle (
      Gives-after (λ log. Unit {0}) _ (route_chain_free false one id (r ∷ rest) rs.finalized s) _
        (Gives-all _ (route_chain_free false one id (r ∷ rest) rs.finalized s) (λ log. tt))
        (λ log s' h all. refl))
  | inr busy ↦ rw busy (
      Gives-after _ _ (mem_calloc grant 1 sizeof_retired s) _
        (route_calloc grant sizeof_retired s (inr refl))
        elim [
          | false ↦ λ s' h. h
          | true ↦ λ s' h.
              let queued = record rs { retired = retired_node (r ∷ rest) one id ∷ rs.retired } in
              Gives-after (λ rs'. Unit {0}) _ (free_retired queued s') _
                (Gives-all _ (free_retired queued s') (λ rs'. tt)) (λ rs' s'' g all. refl)
        ])
]

-- A route with the id is met just where a lookup finds one.
meets-find :
    (id : ℕ) (chain : List Route) → meets id chain ≡ true → (r : Route) × (find id chain ≡ some r)
unfolding meets find
meets-find id [] m = cc
meets-find id (r ∷ rest) m = elim (Bool-cases (r.proc_id == id)) [
  | inl same ↦ (r, rw same refl)
  | inr other ↦ let (q, e) = meets-find id rest (ground (arith, m, other)) in (q, rw other e)
]

find-meets :
    (id : ℕ) (chain : List Route) (r : Route) → find id chain ≡ some r → meets id chain ≡ true
unfolding meets find
find-meets id [] r e = cc
find-meets id (q ∷ rest) r e = elim (Bool-cases (q.proc_id == id)) [
  | inl same ↦ ground (arith, same)
  | inr other ↦
      let e' = subst (λ b. (if b then some q else find id rest) ≡ some r) other e in
      ground (arith, other, find-meets id rest r e')
]

slot-page :
    (id slot : ℕ) (page : Option Page) (r : Route)
    → find id (slot_of page slot) ≡ some r
    → is_page page ≡ true
unfolding find
slot-page id slot none r e = cc
slot-page id slot (some page) r e = refl

-- A route was there where the status is 0; and it is 0 where one was there and memory is.
abbrev pub Removed : Grants → Routes → ℕ → Bool → Type 0
Removed grant rs id done =
    (done ≡ true → (r : Route) × (meaning rs id ≡ some r))
    × (GrantsAll grant → (r : Route) → meaning rs id ≡ some r → done ≡ true)

pub routes_remove-Gives :
    (grant : Grants) (rs : Routes) (id : ℕ) (s : Mem)
    → Gives (λ (r : Status). Removed grant rs id r.0) (routes_remove grant rs id s)
unfolding routes_remove meaning chain_at
routes_remove-Gives grant rs id s =
    Gives-after _ _ (copy_chain grant id (chain_at rs id) [] false s) _
      (copy_chain-Gives grant id (chain_at rs id) [] false s)
      (λ c s' (met, done). from_copy c s' met done)
  where
    freed :
        (c : Copied) (s' : Mem)
        → (GrantsAll grant → (r : Route) → meaning rs id ≡ some r → false ≡ true)
        → Gives
            (λ (r : Status). Removed grant rs id r.0)
            ((route_chain_free false false 0 c.chain rs.finalized >>= λ log.
                ret (false, record rs { finalized = log }))
              s')
    freed c s' h =
        Gives-after (λ log. Unit {0}) _ (route_chain_free false false 0 c.chain rs.finalized s') _
          (Gives-all _ (route_chain_free false false 0 c.chain rs.finalized s') (λ log. tt))
          (λ log s'' g. ((λ e. cc), h))

    from_copy :
        (c : Copied) (s' : Mem)
        → (c.done ≡ true → c.met ≡ (false || meets id (chain_at rs id)))
        → (GrantsAll grant → c.done ≡ true)
        → Gives
            (λ (r : Status). Removed grant rs id r.0)
            ((if not c.done
                then (route_chain_free false false 0 c.chain rs.finalized >>= λ log.
                    ret (false, record rs { finalized = log }))
                else if is_page (rs.pages (page_index id)) && c.met
                then retire_route grant (store_chain rs id c.chain) (chain_at rs id) true id
                else (route_chain_free false false 0 c.chain rs.finalized >>= λ log.
                    ret (false, record rs { finalized = log })))
              s')
    from_copy c s' met done = elim (Bool-cases c.done) [
      | inr stopped ↦ rw stopped (freed c s' (λ all r m. let e = done all in cc))
      | inl copied ↦ elim (Bool-cases (is_page (rs.pages (page_index id)) && c.met)) [
        | inr absent ↦
            rw (copied, absent)
              (freed c s' (λ all r m.
                let found = find-meets id (chain_at rs id) r m in
                let page = slot-page id (slot_index id) (rs.pages (page_index id)) r m in
                let same = met copied in ground arith))
        | inl there ↦
            rw (copied, there)
              (Gives-map _ _
                (retire_route grant (store_chain rs id c.chain) (chain_at rs id) true id s')
                (retire_route-Gives grant (store_chain rs id c.chain) (chain_at rs id) true id s')
                (λ r h. (
                  (λ e. meets-find id (chain_at rs id) (let same = met copied in ground arith)),
                  λ all q m. h all,
                )))
      ]
    ]
