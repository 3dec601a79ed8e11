-- ===== src/Arena/Init.antt =====
-- A fresh arena, from `wirecall_fixed_arena_init` of include/arena.h.
use wirecall.Common.{
  ℕ, ◌+◌, ◌-◌, ◌*◌, ◌/◌, ◌%◌, ◌^◌, ◌≤◌, ◌<◌, Bool-cases, inl, inr, [], ltb, ltb→lt, ltb→le, ◌==◌,
  ==→ne, if◌then◌else◌, ok, fail, ◌≡◌, refl, sym, ap, ◌∙◌, subst, arith,
}
use wirecall.Common.Bits.{and_eights}
use native.Mathlib.Nat.{mul-le-mul_right}
use wirecall.Arena.{Store, FixedArena, arena_align, arena_init}
use wirecall.Arena.Invariant.{occurs, IsArena}

arena_align_lem : (n : ℕ) → n ≤ 2 ^ 64 - 8 → arena_align n ≡ (n + 7) / 8 * 8
unfolding arena_align
arena_align_lem n h =
    let small : (n + 8 - 1) % 2 ^ 64 ≡ n + 7 = omega arith in
    rw small (and_eights (n + 7) (omega arith))

-- The size of an element of a fresh arena.
abbrev size_of : ℕ → ℕ
size_of elem_size = arena_align (if ltb elem_size 8 then 8 else elem_size)

aligned :
    (n : ℕ)
    → n ≤ 2 ^ 64 - 8
    → (n ≤ size_of n) × (8 ≤ size_of n) × (size_of n % 8 ≡ 0) × (size_of n ≤ n + 8)
aligned n h = elim (Bool-cases (ltb n 8)) [
  | inl small ↦
      rw (small, arena_align_lem 8 (omega arith))
        (omega (arith, ltb→lt n 8 small), omega arith, omega arith, omega arith)
  | inr large ↦
      rw (large, arena_align_lem n h)
        (omega arith, omega (arith, ltb→le n 8 large), omega arith, omega arith)
]

abbrev fresh : ℕ → ℕ → ℕ → ℕ → FixedArena
fresh base size capacity bytes = record {
  base = base;
  elem_size = size;
  capacity = capacity;
  watermark = 0;
  bytes = bytes;
  free_list = 0;
}

fresh-IsArena :
    (base size capacity bytes : ℕ) (st : Store)
    → 0 < base
    → 0 < size
    → capacity * size ≤ bytes
    → IsArena (fresh base size capacity bytes) st [] []
unfolding occurs
fresh-IsArena base size capacity bytes st mapped sized room = record {
  mapped = mapped;
  sized = sized;
  chain = refl;
  parts = λ i. ground arith;
  limit = omega arith;
  pages = room;
}

ok-eq : {a b : FixedArena} → ok a ≡ ok b → a ≡ b
ok-eq e = cc

-- Where the sizes do not overflow, an arena that was set up is well formed with no element in use;
-- its elements have room for those asked for, and for a pointer, and keep pointers aligned.
pub arena_init-IsArena :
    (pages_alloc : ℕ → ℕ) (elem_size capacity : ℕ) (arena : FixedArena) (st : Store)
    → elem_size ≤ 2 ^ 64 - 8
    → (elem_size + 8) * capacity < 2 ^ 64
    → arena_init pages_alloc elem_size capacity ≡ ok arena
    → IsArena arena st [] []
      × (elem_size ≤ arena.elem_size)
      × (8 ≤ arena.elem_size)
      × (arena.elem_size % 8 ≡ 0)
      × (arena.base ≡ pages_alloc (arena.elem_size * capacity))
unfolding arena_init
arena_init-IsArena pages_alloc elem_size capacity arena st h few e =
    let size = size_of elem_size in
    let (fits, pointer, round, bound) = aligned elem_size h in
    let m : size * capacity ≤ (elem_size + 8) * capacity =
      mul-le-mul_right {m = size} {n = elem_size + 8} capacity bound in
    let whole : size * capacity % 2 ^ 64 ≡ size * capacity = omega (arith, m) in
    elim (Bool-cases (pages_alloc (size * capacity % 2 ^ 64) == 0)) [
      | inl none ↦
          let failed : arena_init pages_alloc elem_size capacity ≡ fail = rw none refl in cc
      | inr mapped ↦
          let bytes = size * capacity % 2 ^ 64 in
          let made : arena_init pages_alloc elem_size capacity
              ≡ ok (fresh (pages_alloc bytes) size capacity bytes) =
            rw mapped refl in
          subst
            (λ a.
              IsArena a st [] []
              × (elem_size ≤ a.elem_size)
              × (8 ≤ a.elem_size)
              × (a.elem_size % 8 ≡ 0)
              × (a.base ≡ pages_alloc (a.elem_size * capacity)))
            (ok-eq (sym made ∙ e))
            (
              fresh-IsArena (pages_alloc bytes) size capacity bytes st
                  (let p = ==→ne (pages_alloc bytes) 0 mapped in omega (arith, p))
                  (omega (arith, pointer)) (omega (arith, whole)),
              fits,
              pointer,
              round,
              ap pages_alloc whole,
            )
    ]
