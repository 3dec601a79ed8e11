-- ===== src/Memory/Hook.antt =====
-- The allocator hook of src/memory.c. A function pointer is `none` for NULL or a number that
-- stands for the function; `ctx` is the host's pointer.
use wirecall.Common.{
  ℕ, Bool, true, false, ◌&&◌, Option, none, some, if◌then◌else◌, Outcome, ok, fail,
}

pub record Allocator : Type 0 where
  pub ctx : ℕ
  pub alloc : Option ℕ
  pub realloc : Option ℕ
  pub free : Option ℕ

abbrev is_set : Option ℕ → Bool
is_set none = false
is_set (some f) = true

pub allocator_valid : Allocator → Bool
allocator_valid a = is_set a.alloc && (is_set a.realloc && is_set a.free)

abbrev pub no_hook : Allocator
no_hook = record { ctx = 0; alloc = none; realloc = none; free = none }

-- `wirecall_set_allocator`: NULL removes the hook. The state is `g_allocator`.
unfoldable pub set_allocator : Option Allocator → Outcome Allocator
unfolding allocator_valid
set_allocator none = ok no_hook
set_allocator (some a) = if allocator_valid a then ok a else fail

-- Whom a call of `wirecall_mem_alloc`, `_realloc` or `_free` goes to: the C library, or a function
-- of the host with its context.
pub data Callee : Type 0 where
  libc : Callee
  host : ℕ → ℕ → Callee

abbrev dispatch : Option ℕ → ℕ → Callee
dispatch none ctx = libc
dispatch (some f) ctx = host f ctx

unfoldable pub alloc_callee : Allocator → Callee
alloc_callee g = dispatch g.alloc g.ctx

unfoldable pub realloc_callee : Allocator → Callee
realloc_callee g = dispatch g.realloc g.ctx

unfoldable pub free_callee : Allocator → Callee
free_callee g = dispatch g.free g.ctx
