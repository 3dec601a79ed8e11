-- ===== src/Arena.antt =====
-- The fixed arena of include/arena.h: elements of one size from one run of pages, with the free
-- elements threaded through their own first words. An address is a number, 0 is NULL, and a store
-- gives the pointer-sized word at each address. `sizeof(void *)` is 8.
pub mod Invariant
pub mod Init
pub mod Handout
pub mod Return
use wirecall.Common.{
  ℕ, ◌+◌, ◌-◌, ◌*◌, ◌%◌, ◌^◌, bit_and, Bool, not, ◌&&◌, ltb, leb, ◌==◌, if◌then◌else◌, Outcome, ok,
  fail, Option, none, some,
}

abbrev pub Store : Type 0
Store = ℕ → ℕ

pub record FixedArena : Type 0 where
  pub base : ℕ
  pub elem_size : ℕ
  pub capacity : ℕ
  pub watermark : ℕ
  pub bytes : ℕ
  pub free_list : ℕ

-- `(n + a - 1u) & ~(a - 1u)`
unfoldable pub arena_align : ℕ → ℕ
arena_align n = bit_and ((n + 8 - 1) % 2 ^ 64) (2 ^ 64 - 1 - (8 - 1))

-- `pages_alloc` is the host's: it gives the address of so many bytes, or 0.
unfoldable pub arena_init : (ℕ → ℕ) → ℕ → ℕ → Outcome FixedArena
arena_init pages_alloc elem_size capacity =
    let size = arena_align (if ltb elem_size 8 then 8 else elem_size) in
    let bytes = size * capacity % 2 ^ 64 in
    let base = pages_alloc bytes in
    if base == 0
    then fail
    else ok (record {
      base = base;
      elem_size = size;
      capacity = capacity;
      watermark = 0;
      bytes = bytes;
      free_list = 0;
    })

-- `memset(p, 0, n)`
unfoldable pub clear : ℕ → ℕ → Store → Store
clear p n st = λ a. if leb p a && ltb a (p + n) then 0 else st a

-- `*(void **)p = word`
unfoldable pub write_word : ℕ → ℕ → Store → Store
write_word p word st = λ a. if a == p then word else st a

-- The element and the arena before it is cleared.
unfoldable pub take_element : FixedArena → Store → ℕ × FixedArena
take_element arena st =
    if not (arena.free_list == 0)
    then (arena.free_list, record arena { free_list = st arena.free_list })
    else if ltb arena.watermark arena.capacity
    then (
      arena.base + arena.watermark * arena.elem_size,
      record arena { watermark = arena.watermark + 1 },
    )
    else (0, arena)

unfoldable pub arena_alloc : FixedArena → Store → ℕ × FixedArena × Store
arena_alloc arena st =
    let (p, arena') = take_element arena st in
    (p, arena', if not (p == 0) then clear p arena'.elem_size st else st)

unfoldable pub arena_free : FixedArena → Store → ℕ → FixedArena × Store
arena_free arena st p =
    if p == 0
    then (arena, st)
    else (record arena { free_list = p }, write_word p arena.free_list st)

-- `wirecall_fixed_arena_destroy`: what it gives back to the host, an address and a size, where it had
-- any, and the zeroed arena.
unfoldable pub arena_destroy : FixedArena → Option (ℕ × ℕ) × FixedArena
arena_destroy arena = (
  if not (arena.base == 0) then some (arena.base, arena.bytes) else none,
  record { base = 0; elem_size = 0; capacity = 0; watermark = 0; bytes = 0; free_list = 0 },
)
