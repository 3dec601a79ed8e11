-- ===== src/Tests/Arena.antt =====
-- The arena at concrete inputs.
use wirecall.Common.{
  ℕ, ◌+◌, ◌%◌, ◌<◌, ◌≤◌, List, [], ◌∷◌, ltb, ◌≡◌, ◌⊎◌, refl, if◌then◌else◌, ok, arith,
}
use wirecall.Arena.{
  take_element, Store, FixedArena, clear, write_word, arena_align, arena_init, arena_alloc,
  arena_free,
}
use wirecall.Arena.Invariant.{occurs, element, IsArena}
use wirecall.Arena.Init.{arena_init-IsArena}
use wirecall.Arena.Handout.{arena_alloc_apart, arena_alloc-IsArena}
use wirecall.Arena.Return.{remove, arena_free-IsArena, arena_alloc-arena_free}

abbrev zeros : Store
zeros a = 0

-- Three of four elements have been handed out, and the first has come back.
abbrev arena : FixedArena
arena = record {
  base = 4096;
  elem_size = 24;
  capacity = 4;
  watermark = 3;
  bytes = 96;
  free_list = 4096;
}

arena-IsArena : IsArena arena zeros (0 ∷ []) (2 ∷ 1 ∷ [])
unfolding occurs element
arena-IsArena = record {
  mapped = omega arith;
  sized = omega arith;
  chain = (refl, refl);
  parts = λ i. ground arith;
  limit = omega arith;
  pages = omega arith;
}

abbrev new_arena : FixedArena
new_arena = record {
  base = 4096;
  elem_size = 24;
  capacity = 4;
  watermark = 0;
  bytes = 96;
  free_list = 0;
}

new_arena_made : arena_init (λ n. 4096) 20 4 ≡ ok new_arena
unfolding arena_init arena_align
new_arena_made = refl

arena_init-IsArena_example :
    IsArena new_arena zeros [] [] × (20 ≤ 24) × (8 ≤ 24) × (24 % 8 ≡ 0) × (new_arena.base ≡ 4096)
arena_init-IsArena_example =
    arena_init-IsArena (λ n. 4096) 20 4 new_arena zeros (omega arith) (omega arith) new_arena_made

arena_alloc-IsArena_example :
    ((i : ℕ) × (free' : List ℕ) × (arena' : FixedArena) × (arena_alloc arena zeros
        ≡ (element arena i, arena', clear (element arena i) 24 zeros))
      × (occurs i (2 ∷ 1 ∷ []) ≡ 0)
      × IsArena arena' (clear (element arena i) 24 zeros) free' (i ∷ 2 ∷ 1 ∷ []))
    ⊎ ((arena_alloc arena zeros ≡ (0, arena, zeros))
        × ((i : ℕ) → occurs i (2 ∷ 1 ∷ []) ≡ (if ltb i 4 then 1 else 0)))
arena_alloc-IsArena_example = arena_alloc-IsArena arena zeros (0 ∷ []) (2 ∷ 1 ∷ []) arena-IsArena

arena_free-IsArena_example :
    IsArena
      (arena_free arena zeros (element arena 1)).0
      (arena_free arena zeros (element arena 1)).1
      (1 ∷ 0 ∷ [])
      (remove 1 (2 ∷ 1 ∷ []))
unfolding occurs
arena_free-IsArena_example =
    arena_free-IsArena arena zeros (0 ∷ []) (2 ∷ 1 ∷ []) 1 arena-IsArena (omega arith)

arena_alloc-arena_free_example :
    arena_alloc (arena_free arena zeros 4120).0 (arena_free arena zeros 4120).1
    ≡ (4120, arena, clear 4120 24 (write_word 4120 4096 zeros))
arena_alloc-arena_free_example = arena_alloc-arena_free arena zeros 4120 (omega arith)

abbrev next : FixedArena × Store
next = ((arena_alloc arena zeros).1, (arena_alloc arena zeros).2)

next_given : arena_alloc arena zeros ≡ (4096, next.0, next.1)
unfolding arena_alloc take_element
next_given = refl

arena_alloc_apart_example :
    (4096 ≤ 4096)
    × (4096 + 24 ≤ 4096 + 96)
    × ((j : ℕ)
        → 0 < occurs j (2 ∷ 1 ∷ [])
        → (element arena j + 24 ≤ 4096) ⊎ (4096 + 24 ≤ element arena j))
arena_alloc_apart_example =
    arena_alloc_apart arena zeros (0 ∷ []) (2 ∷ 1 ∷ []) 4096 next.0 next.1 arena-IsArena next_given
      (λ e. omega (arith, e))
