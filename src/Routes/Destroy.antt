-- ===== src/Routes/Destroy.antt =====
-- `wirecall_routes_destroy` of src/routes.c: the two loops over the pages, and the retired chains.
-- The pages themselves go back to the operating system.
use wirecall.Common.{
  ℕ, zero, suc, ◌+◌, ◌-◌, ◌^◌, ◌≤◌, true, false, Option, none, some, List, [], ◌++◌, length, ◌≡◌,
  ap, ap₂, ◌∙◌, arith, append_assoc, append-nil,
}
use wirecall.Memory.{Mem, M, returned, ◌>>=◌, after, ret}
use wirecall.Routes.{Routes, Page, Call, route_chain_free, free_nodes}
use wirecall.Routes.Chain.{calls, node_blocks, node_calls, route_chain_free_lem, free_nodes_lem}

abbrev pub page_size : ℕ
page_size = 2 ^ 16

abbrev pub root_size : ℕ
root_size = 2 ^ 16

-- The `n` slots from the `i`-th on.
unfoldable pub destroy_slots : ℕ → ℕ → Page → List Call → M (List Call)
destroy_slots zero i page log = ret log
destroy_slots (suc n) i page log = do
  log' ← route_chain_free true false 0 (page i) log
  destroy_slots n (i + 1) page log'

unfoldable pub destroy_page : Option Page → List Call → M (List Call)
unfolding destroy_slots
destroy_page none log = ret log
destroy_page (some page) log = destroy_slots page_size 0 page log

-- The `n` pages from the `i`-th on.
unfoldable pub destroy_pages : ℕ → ℕ → (ℕ → Option Page) → List Call → M (List Call)
destroy_pages zero i pages log = ret log
destroy_pages (suc n) i pages log = do
  log' ← destroy_page (pages i) log
  destroy_pages n (i + 1) pages log'

-- The log at the end.
unfoldable pub routes_destroy : Routes → M (List Call)
routes_destroy rs = do
  log ← destroy_pages root_size 0 rs.pages rs.finalized
  free_nodes rs.retired log

-- The blocks of a range of slots or pages, and the finalizers of its routes.
unfoldable pub slots_blocks : ℕ → ℕ → Page → ℕ
slots_blocks zero i page = 0
slots_blocks (suc n) i page = length (page i) + slots_blocks n (i + 1) page

unfoldable pub slots_calls : ℕ → ℕ → Page → List Call
slots_calls zero i page = []
slots_calls (suc n) i page = calls true false 0 (page i) ++ slots_calls n (i + 1) page

unfoldable pub page_blocks : Option Page → ℕ
page_blocks none = 0
page_blocks (some page) = slots_blocks page_size 0 page

unfoldable pub page_calls : Option Page → List Call
page_calls none = []
page_calls (some page) = slots_calls page_size 0 page

unfoldable pub pages_blocks : ℕ → ℕ → (ℕ → Option Page) → ℕ
pages_blocks zero i pages = 0
pages_blocks (suc n) i pages = page_blocks (pages i) + pages_blocks n (i + 1) pages

unfoldable pub pages_calls : ℕ → ℕ → (ℕ → Option Page) → List Call
pages_calls zero i pages = []
pages_calls (suc n) i pages = page_calls (pages i) ++ pages_calls n (i + 1) pages

-- A step that frees `n` blocks and makes the calls `xs`.
abbrev Frees : (List Call → M (List Call)) → ℕ → List Call → Type 0
Frees f n xs =
    (log : List Call) (s : Mem)
    → n ≤ s.live
    → f log s ≡ returned (log ++ xs) (record s { live = s.live - n })

Frees-none : Frees (λ log. ret log) 0 []
Frees-none log s h = ground (arith, append-nil log)

Frees-both :
    (f g : List Call → M (List Call)) (n m : ℕ) (xs ys : List Call)
    → Frees f n xs
    → Frees g m ys
    → Frees (λ log. f log >>= g) (n + m) (xs ++ ys)
Frees-both f g n m xs ys hf hg log s h =
    ap (λ t. after t g) (hf log s (omega arith))
    ∙ hg (log ++ xs) (record s { live = s.live - n }) (omega arith)
    ∙ ap₂ (λ (l : List Call) (k : ℕ). returned l (record s { live = k })) (append_assoc log xs ys)
        (omega arith)

slots-Frees :
    (n i : ℕ) (page : Page)
    → Frees (destroy_slots n i page) (slots_blocks n i page) (slots_calls n i page)
unfolding destroy_slots slots_blocks slots_calls
slots-Frees zero i page = Frees-none
slots-Frees (suc n) i page =
    Frees-both (route_chain_free true false 0 (page i)) (destroy_slots n (i + 1) page) _ _ _ _
      (λ log s h. route_chain_free_lem true false 0 (page i) log s h) (slots-Frees n (i + 1) page)

page-Frees : (p : Option Page) → Frees (destroy_page p) (page_blocks p) (page_calls p)
unfolding destroy_page page_blocks page_calls
page-Frees none = Frees-none
page-Frees (some page) = slots-Frees page_size 0 page

pages-Frees :
    (n i : ℕ) (pages : ℕ → Option Page)
    → Frees (destroy_pages n i pages) (pages_blocks n i pages) (pages_calls n i pages)
unfolding destroy_pages pages_blocks pages_calls
pages-Frees zero i pages = Frees-none
pages-Frees (suc n) i pages =
    Frees-both (destroy_page (pages i)) (destroy_pages n (i + 1) pages) _ _ _ _
      (page-Frees (pages i)) (pages-Frees n (i + 1) pages)

unfoldable pub table_blocks : Routes → ℕ
table_blocks rs = pages_blocks root_size 0 rs.pages + node_blocks rs.retired

-- Destroying a table frees every block of its slots and of what waits, and calls each finalizer of
-- a route in a slot and each that waits once, in this order.
pub routes_destroy_lem :
    (rs : Routes) (s : Mem)
    → table_blocks rs ≤ s.live
    → routes_destroy rs s
      ≡ returned
          (rs.finalized ++ (pages_calls root_size 0 rs.pages ++ node_calls rs.retired))
          (record s { live = s.live - table_blocks rs })
unfolding routes_destroy table_blocks
routes_destroy_lem rs s h =
    Frees-both (destroy_pages root_size 0 rs.pages) (free_nodes rs.retired) _ _ _ _
      (pages-Frees root_size 0 rs.pages) (λ log s h. free_nodes_lem rs.retired log s h) rs.finalized
      s h
