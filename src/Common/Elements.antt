-- ===== src/Common/Elements.antt =====
-- The elements of an arena of src/memory.c that are in use, as the code that owns the arena sees them.
use Prim.Native.Nat.{ℕ}
use mathlib.Core.Bool.{Bool, true, false}
use mathlib.Core.List.{List, [], ◌∷◌}
use wirecall.Common.Tests.{◌==◌, if◌then◌else◌}

-- `wirecall_fixed_arena_free` of an element that is in use.
unfoldable pub without : ℕ → List ℕ → List ℕ
without d [] = []
without d (x ∷ xs) = let rest = without d xs in if x == d then xs else x ∷ rest

unfoldable pub in_use : ℕ → List ℕ → Bool
in_use d [] = false
in_use d (x ∷ xs) = let rest = in_use d xs in if x == d then true else rest
