-- ===== src/Payload/Decode/Blocks.antt =====
-- The blocks of a decoded array: growing it, freeing it, and freeing it on a failure.
use wirecall.Common.{
  ℕ, ◌+◌, ◌*◌, ◌-◌, ◌≤◌, ◌<◌, Bool, true, false, List, [], ◌∷◌, ◌++◌, length, ◌==◌, if◌then◌else◌,
  ◌≡◌, refl, ap, ◌∙◌, arith, Bool-cases, inl, inr, le→leb, ==→eq, ==→ne, length-append,
}
use mathlib.Core.Bool.{false≢true}
use wirecall.Memory.{
  Grants, Mem, Run, returned, failed, crashed, unfinished, M, ◌>>=◌, ret, give_up, crash,
  mem_realloc, mem_free, count_block, after, recover,
}
use wirecall.Memory.Ends.{Ends, Ends-after, mem_realloc-Ends, mem_free_lem}
use wirecall.Payload.Value.{Value, owns, owned}
use wirecall.Payload.Decode.{
  Array, no_array, store_slot, free_items, values_cleanup, grow, store, or_cleanup, values_free,
}

-- The items fit the slots, a null array is empty, and a sentinel ends any other.
pub record IsArray (a : Array) : Type 0 where
  pub fits : length a.items ≤ a.cap
  pub empty : a.block ≡ false → a.cap ≡ 0
  pub ends : a.block ≡ true → a.ended ≡ true

-- The blocks that the array holds: its own and one for each value that has one.
abbrev pub blocks : Array → ℕ
blocks a = owned a.items + count_block a.block

pub no_array-IsArray : IsArray no_array
no_array-IsArray = record { fits = omega arith; empty = λ _. refl; ends = λ e. cc }

pub owned-append : (vs ws : List Value) → owned (vs ++ ws) ≡ owned vs + owned ws
owned-append [] ws = omega arith
owned-append (v ∷ vs) ws = omega (arith, owned-append vs ws)

owned_none : (vs : List Value) → length vs ≤ 0 → owned vs ≡ 0
owned_none [] h = refl
owned_none (v ∷ vs) h = absurd (omega arith)

free_items_lem :
    (vs : List Value) (s : Mem)
    → owned vs ≤ s.live
    → free_items vs s ≡ returned tt (record s { live = s.live - owned vs })
unfolding free_items
free_items_lem [] s h = ground arith
free_items_lem (v ∷ vs) s h = rw (mem_free_lem (owns v) s (omega arith)) (
    free_items_lem vs (record s { live = s.live - count_block (owns v) }) (omega arith)
    ∙ ap (λ k. returned tt (record s { live = k })) (omega arith))

values_cleanup_lem :
    (a : Array) (s : Mem)
    → IsArray a
    → owned a.items ≤ s.live
    → values_cleanup a s ≡ returned tt (record s { live = s.live - owned a.items })
unfolding values_cleanup
values_cleanup_lem a s v h = elim (Bool-cases a.block) [
  | inl t ↦ rw t (free_items_lem a.items s h)
  | inr f ↦ rw f (ground (arith, v.empty f, owned_none a.items))
]

-- A failure inside `or_cleanup` frees all that the array holds.
pub or_cleanup-Ends {ℓ} :
    {A : Type ℓ} (base live : ℕ) (P : A → Mem → Type 0) (a : Array) (m : M A) (s : Mem)
    → IsArray a
    → live ≡ base + blocks a
    → Ends live P (m s)
    → Ends base P (or_cleanup a m s)
unfolding or_cleanup
or_cleanup-Ends {A} base live P a m s v e h = go (m s) h
  where
    freed :
        (s' : Mem)
        → s'.live ≡ live
        → (values_cleanup a >>= λ _. mem_free a.block >>= λ _. give_up {A = A}) s'
          ≡ failed (record s' { live = base })
    freed s' l = rw (values_cleanup_lem a s' v (omega arith)) (
        rw (mem_free_lem a.block (record s' { live = s'.live - owned a.items }) (omega arith))
          (ap (λ k. failed (record s' { live = k })) (omega arith)))

    go :
        (r : Run A)
        → Ends live P r
        → Ends base P (recover r (values_cleanup a >>= λ _. mem_free a.block >>= λ _. give_up))
    go (returned x s') p = p
    go (failed s') l = rw (freed s' l) refl
    go crashed p = absurd p
    go unfinished p = absurd p

next_cap_room : (n : ℕ) → (0 < (if n == 0 then 4 else n * 2)) × (n < (if n == 0 then 4 else n * 2))
next_cap_room n = ground arith

-- `grow` makes room for one more item, and asks for a block only where the array has none.
pub grow-Ends :
    (grant : Grants) (a : Array) (s : Mem)
    → IsArray a
    → Ends s.live
        (λ a' s'.
          IsArray a'
          × (a'.items ≡ a.items)
          × (length a'.items < a'.cap)
          × (a'.block ≡ true)
          × (s'.live + count_block a.block ≡ s.live + 1))
        (grow grant a s)
unfolding grow store_slot
grow-Ends grant a s v = elim (Bool-cases (length a.items == a.cap)) [
  | inr room ↦
      let below : length a.items < a.cap = omega (arith, ==→ne (length a.items) a.cap room) in
      let has_block : a.block ≡ true = elim (Bool-cases a.block) [
        | inl t ↦ t
        | inr f ↦ absurd (omega (arith, v.empty f))
      ] in
      rw room (v, refl, below, has_block, ground arith)
  | inl full ↦
      let next = if a.cap == 0 then 4 else a.cap * 2 in
      let below : length a.items < next =
        omega (arith, ==→eq (length a.items) a.cap full, next_cap_room a.cap) in
      rw full (
        Ends-after s.live _ _ (mem_realloc grant a.block ((next + 1) * 24) s) _
          (mem_realloc-Ends grant a.block ((next + 1) * 24) s)
          elim [
            | false ↦ λ s' live. live
            | true ↦ λ s' live. rw (le→leb (length a.items) next (omega arith)) (
              record { fits = omega arith; empty = λ e. cc; ends = λ _. refl },
              refl,
              below,
              refl,
              ground arith,
            )
          ])
]

pub store-Ends :
    (a : Array) (v : Value) (s : Mem)
    → IsArray a
    → length a.items < a.cap
    → a.block ≡ true
    → (a' : Array) × (store a v s ≡ returned a' s)
      × IsArray a'
      × (a'.items ≡ a.items ++ v ∷ [])
      × (a'.block ≡ true)
unfolding store store_slot
store-Ends a v s w h b = (
  record a { items = a.items ++ v ∷ []; ended = true },
  rw
      (
        b,
        le→leb (length a.items) a.cap (omega arith),
        le→leb (length a.items + 1) a.cap (omega arith),
      )
      refl,
  record {
    fits = omega (arith, length-append a.items (v ∷ []));
    empty = w.empty;
    ends = λ _. refl;
  },
  refl,
  b,
)

scan :
    (b d : Bool) (m : M (Unit {0})) (s : Mem) {r : Run (Unit {0})}
    → (b ≡ true → d ≡ true)
    → (b ≡ true → m s ≡ r)
    → (b ≡ false → returned tt s ≡ r)
    → (if b then (if d then m else crash) else ret tt) s ≡ r
scan true true m s h p q = p refl
scan true false m s h p q = absurd (false≢true (h refl))
scan false d m s h p q = q refl

-- `values_free` takes an array apart to the last block.
pub values_free_lem :
    (a : Array) (base : ℕ) (s : Mem)
    → IsArray a
    → s.live ≡ base + blocks a
    → values_free a s ≡ returned tt (record s { live = base })
unfolding values_free
values_free_lem a base s v e =
    ap (λ r. after r (λ _. mem_free a.block))
      (scan a.block a.ended (values_cleanup a) s v.ends
        (λ _. values_cleanup_lem a s v (omega arith))
        (λ f. ground (arith, v.empty f, owned_none a.items)))
    ∙ mem_free_lem a.block (record s { live = s.live - owned a.items }) (omega arith)
    ∙ ap (λ k. returned tt (record s { live = k })) (omega arith)
