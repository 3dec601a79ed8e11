-- ===== src/Memory.antt =====
-- src/memory.c: the process-wide allocator hook, and the blocks that code allocates and frees.
-- Whether a request is granted is for the host's allocator to say: `Grants` answers for the n-th
-- request and its size. The ledger counts requests and live blocks; a free with no block live
-- is a crash.
pub mod Hook
pub mod Ends
use wirecall.Common.{
  ℕ, suc, ◌+◌, ◌-◌, ◌*◌, ◌/◌, ◌^◌, not, ◌&&◌, ltb, Bool, true, false, ◌==◌, if◌then◌else◌, Outcome,
  ok, fail, fault, stuck,
}

abbrev pub Grants : Type 0
Grants = ℕ → ℕ → Bool

pub record Mem : Type 0 where
  pub requests : ℕ
  pub live : ℕ

-- How a C function with side effects on memory ends: it returns a result, it returns -1, it has
-- left what the C standard defines, or the model ran out of fuel.
pub data Run {ℓ} (A : Type ℓ) : Type ℓ where
  returned : A → Mem → Run A
  failed : Mem → Run A
  crashed : Run A
  unfinished : Run A

abbrev pub M {ℓ} : Type ℓ → Type ℓ
M A = Mem → Run A

-- The code that follows runs on a result, with the memory that is left.
abbrev pub after {ℓ κ} : {A : Type ℓ} {B : Type κ} → Run A → (A → Mem → Run B) → Run B
after (returned a s) f = f a s
after (failed s) f = failed s
after crashed f = crashed
after unfinished f = unfinished

infixl 5 ◌>>=◌ ◌>>◌
abbrev pub ◌>>=◌ {ℓ κ} : {A : Type ℓ} {B : Type κ} → M A → (A → M B) → M B
◌>>=◌ m f s = after (m s) f

abbrev pub ◌>>◌ {ℓ} : {B : Type ℓ} → M (Unit {0}) → M B → M B
m >> k = m >>= λ _. k

-- A failure goes on with `f`, as by a jump to an error label.
abbrev pub recover {ℓ} : {A : Type ℓ} → Run A → (Mem → Run A) → Run A
recover (returned a s) f = returned a s
recover (failed s) f = f s
recover crashed f = crashed
recover unfinished f = unfinished

-- `if (call != 0) { … }`: what follows a result, and what follows a failure.
abbrev pub attempt {ℓ κ} :
    {A : Type ℓ} {B : Type κ} → Run A → (A → Mem → Run B) → (Mem → Run B) → Run B
attempt (returned a s) good bad = good a s
attempt (failed s) good bad = bad s
attempt crashed good bad = crashed
attempt unfinished good bad = unfinished

abbrev pub ret {ℓ} : {A : Type ℓ} → A → M A
ret a s = returned a s

abbrev pub give_up {ℓ} : {A : Type ℓ} → M A
give_up s = failed s

abbrev pub crash {ℓ} : {A : Type ℓ} → M A
crash s = crashed

-- A read of a buffer inside such a function.
abbrev pub lift {ℓ} : {A : Type ℓ} → Outcome A → M A
lift (ok a) s = returned a s
lift fail s = failed s
lift fault s = crashed
lift stuck s = unfinished

-- `wirecall_mem_alloc`: is the result non-null?
unfoldable pub mem_alloc : Grants → ℕ → M Bool
mem_alloc grant size s =
    if grant s.requests (if size == 0 then 1 else size)
    then returned true (record { requests = s.requests + 1; live = s.live + 1 })
    else returned false (record s { requests = s.requests + 1 })

-- `wirecall_mem_realloc` of a null pointer (`false`) or of a block: a refused request leaves the
-- old block.
unfoldable pub mem_realloc : Grants → Bool → ℕ → M Bool
mem_realloc grant block size s =
    if grant s.requests (if size == 0 then 1 else size)
    then returned true
        (record { requests = s.requests + 1; live = if block then s.live else s.live + 1 })
    else returned false (record s { requests = s.requests + 1 })

-- `wirecall_mem_free` of a null pointer or of a block.
unfoldable pub mem_free : Bool → M (Unit {0})
mem_free false s = returned tt s
mem_free true s = if s.live == 0 then crashed else returned tt (record s { live = s.live - 1 })

abbrev pub count_block : Bool → ℕ
count_block true = 1
count_block false = 0

-- `wirecall_mem_calloc`, with the test that the product fits a size_t.
unfoldable pub mem_calloc : Grants → ℕ → ℕ → M Bool
unfolding mem_alloc
mem_calloc grant count size =
    if not (count == 0) && ltb ((2 ^ 64 - 1) / count) size
    then ret false
    else mem_alloc grant (count * size)
