-- ===== src/Routes/Lookup.antt =====
-- The table as a map from ids to routes.
use wirecall.Common.{
  ℕ, Bool, true, false, ◌&&◌, Bool-cases, inl, inr, Option, none, some, List, [], ◌==◌, ==→eq,
  ==_self, if◌then◌else◌, ◌≡◌, refl, sym, ap, ap₂, ◌∙◌, subst, arith,
}
use wirecall.Routes.{
  Route, Routes, Page, chain_at, slot_of, page_or_new, store_page, store_chain, page_index,
  slot_index,
}
use wirecall.Routes.Table.{find, ensure_page}

-- What a lookup finds.
unfoldable pub meaning : Routes → ℕ → Option Route
meaning rs id = find id (chain_at rs id)

unfoldable pub update : ℕ → Option Route → (ℕ → Option Route) → ℕ → Option Route
update id new map j = if j == id then new else map j

slot_of-page_or_new : (page : Option Page) (slot : ℕ) → page_or_new page slot ≡ slot_of page slot
slot_of-page_or_new none slot = refl
slot_of-page_or_new (some page) slot = refl

-- Do two ids share a slot?
abbrev same_slot : ℕ → ℕ → Bool
same_slot j id = (page_index j == page_index id) && (slot_index j == slot_index id)

same_slot_self : (id : ℕ) → same_slot id id ≡ true
same_slot_self id = rw (==_self (page_index id), ==_self (slot_index id)) refl

chain_at-store_chain :
    (rs : Routes) (id j : ℕ) (chain : List Route)
    → chain_at (store_chain rs id chain) j ≡ (if same_slot j id then chain else chain_at rs j)
unfolding chain_at store_chain store_page
chain_at-store_chain rs id j chain = elim (Bool-cases (page_index j == page_index id)) [
  | inr other ↦ rw other refl
  | inl same ↦ elim (Bool-cases (slot_index j == slot_index id)) [
    | inl here ↦ rw (same, here) refl
    | inr there ↦
        rw (same, there)
          (slot_of-page_or_new (rs.pages (page_index id)) (slot_index j)
            ∙ ap (λ p. slot_of (rs.pages p) (slot_index j)) (sym (==→eq _ _ same)))
  ]
]

and_left : (a b : Bool) → (a && b) ≡ true → a ≡ true
and_left a b h = ground arith

and_right : (a b : Bool) → (a && b) ≡ true → b ≡ true
and_right a b h = ground arith

apart : (id j : ℕ) → same_slot j id ≡ false → (j == id) ≡ false
apart id j h = elim (Bool-cases (j == id)) [
  | inl eq ↦
      let e = sym (same_slot_self id) ∙ ap (λ k. same_slot k id) (sym (==→eq j id eq)) ∙ h in cc
  | inr ne ↦ ne
]

same_chain : (rs : Routes) (id j : ℕ) → same_slot j id ≡ true → chain_at rs j ≡ chain_at rs id
unfolding chain_at
same_chain rs id j h =
    ap₂ (λ p s. slot_of (rs.pages p) s) (==→eq (page_index j) (page_index id) (and_left _ _ h))
      (==→eq (slot_index j) (slot_index id) (and_right _ _ h))

pub chain_at-store_chain_here :
    (rs : Routes) (id : ℕ) (chain : List Route) → chain_at (store_chain rs id chain) id ≡ chain
chain_at-store_chain_here rs id chain =
    chain_at-store_chain rs id id chain ∙ rw (same_slot_self id) refl

-- A chain that finds `new` under the id, and what the old chain finds under another.
pub meaning-store_chain :
    (rs : Routes) (id : ℕ) (new : Option Route) (chain : List Route)
    → ((j : ℕ) → find j chain ≡ (if j == id then new else find j (chain_at rs id)))
    → (j : ℕ) → meaning (store_chain rs id chain) j ≡ update id new (meaning rs) j
unfolding meaning update
meaning-store_chain rs id new chain h j = elim (Bool-cases (same_slot j id)) [
  | inl same ↦
      ap (find j) (chain_at-store_chain rs id j chain)
      ∙ rw same (h j ∙ rw (same_chain rs id j same) refl)
  | inr other ↦
      ap (find j) (chain_at-store_chain rs id j chain) ∙ rw other (rw (apart id j other) refl)
]

some-eq : {x y : Routes} → some x ≡ some y → x ≡ y
some-eq e = cc

-- A fresh page changes no chain.
pub record Paged (rs paged : Routes) : Type 0 where
  pub chains : (j : ℕ) → chain_at paged j ≡ chain_at rs j
  pub readers : paged.active_readers ≡ rs.active_readers
  pub retired : paged.retired ≡ rs.retired
  pub finalized : paged.finalized ≡ rs.finalized

store_page-Paged :
    (rs : Routes) (index : ℕ) → rs.pages index ≡ none → Paged rs (store_page rs index (λ slot. []))
unfolding chain_at store_page
store_page-Paged rs index h = record {
  chains = λ j. elim (Bool-cases (page_index j == index)) [
    | inl same ↦ rw (same, ==→eq (page_index j) index same, h) refl
    | inr other ↦ rw other refl
  ];
  readers = refl;
  retired = refl;
  finalized = refl;
}

pub ensure_page-Paged :
    (page : Bool) (rs paged : Routes) (id : ℕ)
    → ensure_page page rs id ≡ some paged
    → Paged rs paged
unfolding ensure_page
ensure_page-Paged page rs paged id = go page (rs.pages (page_index id)) refl
  where
    go :
        (granted : Bool) (q : Option Page)
        → rs.pages (page_index id) ≡ q
        → ensure_page granted rs id ≡ some paged
        → Paged rs paged
    go granted (some q) h e =
        let kept : ensure_page granted rs id ≡ some rs = rw h refl in
        subst (Paged rs) (some-eq (sym kept ∙ e))
          (record { chains = λ j. refl; readers = refl; retired = refl; finalized = refl })
    go true none h e =
        let fresh : ensure_page true rs id ≡ some (store_page rs (page_index id) (λ slot. [])) =
          rw h refl in
        subst (Paged rs) (some-eq (sym fresh ∙ e)) (store_page-Paged rs (page_index id) h)
    go false none h e = let refused : ensure_page false rs id ≡ none = rw h refl in cc
