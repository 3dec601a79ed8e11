-- ===== src/Memory/Ends.antt =====
-- Postconditions of code that allocates: it neither crashes nor runs out of fuel, a result meets
-- `P`, and a failure leaves `base` blocks live.
use wirecall.Common.{
  ℕ, ◌==◌, refl, Bool-cases, inl, inr, ◌<◌, ◌^◌, ◌+◌, ◌-◌, ◌≤◌, Bool, true, false, ◌≡◌, arith,
  if◌then◌else◌,
}
use wirecall.Memory.{
  Grants, Mem, Run, returned, failed, crashed, unfinished, mem_alloc, mem_realloc, mem_free,
  count_block, after, attempt,
}

abbrev pub Ends {ℓ} : {A : Type ℓ} → ℕ → (A → Mem → Type 0) → Run A → Type 0
Ends base P (returned a s) = P a s
Ends base P (failed s) = s.live ≡ base
Ends base P crashed = ⊥
Ends base P unfinished = ⊥

-- The rule for a sequence.
module _ {ℓ κ} {A : Type ℓ} {B : Type κ} (base : ℕ) (Q : A → Mem → Type 0)
    (P : B → Mem → Type 0) where
  pub Ends-after :
      (r : Run A) (f : A → Mem → Run B)
      → Ends base Q r
      → ((a : A) (s : Mem) → Q a s → Ends base P (f a s))
      → Ends base P (after r f)
  Ends-after (returned a s) f h k = k a s h
  Ends-after (failed s) f h k = h
  Ends-after crashed f h k = absurd h
  Ends-after unfinished f h k = absurd h

-- The rule for a call whose failure is handled.
pub Ends-attempt {ℓ κ} :
    {A : Type ℓ} {B : Type κ} (base here : ℕ) (P : A → Mem → Type 0) (Q : B → Mem → Type 0)
    (r : Run A) (good : A → Mem → Run B) (bad : Mem → Run B)
    → Ends here P r
    → ((a : A) (s : Mem) → P a s → Ends base Q (good a s))
    → ((s : Mem) → s.live ≡ here → Ends base Q (bad s))
    → Ends base Q (attempt r good bad)
Ends-attempt base here P Q (returned a s) good bad h g b = g a s h
Ends-attempt base here P Q (failed s) good bad h g b = b s h
Ends-attempt base here P Q crashed good bad h g b = absurd h
Ends-attempt base here P Q unfinished good bad h g b = absurd h

pub Ends-map {ℓ} :
    {A : Type ℓ} (base : ℕ) (P Q : A → Mem → Type 0) (r : Run A)
    → Ends base P r
    → ((a : A) (s : Mem) → P a s → Q a s)
    → Ends base Q r
Ends-map base P Q (returned a s) h k = k a s h
Ends-map base P Q (failed s) h k = h
Ends-map base P Q crashed h k = h
Ends-map base P Q unfinished h k = h

pub mem_alloc-Ends :
    (grant : Grants) (size : ℕ) (s : Mem)
    → Ends s.live (λ b s'. s'.live ≡ s.live + count_block b) (mem_alloc grant size s)
unfolding mem_alloc
mem_alloc-Ends grant size s = ground arith

pub mem_realloc-Ends :
    (grant : Grants) (block : Bool) (size : ℕ) (s : Mem)
    → Ends s.live
        (λ b s'. s'.live ≡ (if b then (if block then s.live else s.live + 1) else s.live))
        (mem_realloc grant block size s)
unfolding mem_realloc
mem_realloc-Ends grant block size s = ground arith

pub mem_free_lem :
    (b : Bool) (s : Mem)
    → count_block b ≤ s.live
    → mem_free b s ≡ returned tt (record s { live = s.live - count_block b })
unfolding mem_free
mem_free_lem true s h = ground arith
mem_free_lem false s h = ground arith

-- No object is larger than half of half the address space, and the allocator grants no request for
-- one.
abbrev pub host_limit : ℕ
host_limit = 2 ^ 62

abbrev pub IsHost : Grants → Type 0
IsHost grant = (n size : ℕ) → host_limit < size → grant n size ≡ false

-- Every request up to that limit is granted.
abbrev pub Ample : Grants → Type 0
Ample grant = (n size : ℕ) → size ≤ host_limit → grant n size ≡ true

pub mem_alloc-Ample :
    (base : ℕ) (grant : Grants) (size : ℕ) (s : Mem)
    → Ends base
        (λ b s'. (Ample grant → size ≤ host_limit → b ≡ true) × (s'.live ≡ s.live + count_block b))
        (mem_alloc grant size s)
unfolding mem_alloc
mem_alloc-Ample base grant size s =
    elim (Bool-cases (grant s.requests (if size == 0 then 1 else size))) [
      | inl given ↦ rw given ((λ a l. refl), refl)
      | inr refused ↦ rw refused (
        (λ a l. (let e = a s.requests (if size == 0 then 1 else size) (ground (arith, l)) in cc)),
        omega arith,
      )
    ]

-- The same rules, where what follows depends on how the first call ended.
pub Ends-after_known {ℓ κ} :
    {A : Type ℓ} {B : Type κ} (base : ℕ) (Q : A → Mem → Type 0) (P : B → Mem → Type 0) (r : Run A)
    (f : A → Mem → Run B)
    → Ends base Q r
    → ((a : A) (s : Mem) → r ≡ returned a s → Q a s → Ends base P (f a s))
    → Ends base P (after r f)
Ends-after_known base Q P (returned a s) f h k = k a s refl h
Ends-after_known base Q P (failed s) f h k = h
Ends-after_known base Q P crashed f h k = absurd h
Ends-after_known base Q P unfinished f h k = absurd h

pub Ends-attempt_known {ℓ κ} :
    {A : Type ℓ} {B : Type κ} (base here : ℕ) (P : A → Mem → Type 0) (Q : B → Mem → Type 0)
    (r : Run A) (good : A → Mem → Run B) (bad : Mem → Run B)
    → Ends here P r
    → ((a : A) (s : Mem) → r ≡ returned a s → P a s → Ends base Q (good a s))
    → ((s : Mem) → r ≡ failed s → s.live ≡ here → Ends base Q (bad s))
    → Ends base Q (attempt r good bad)
Ends-attempt_known base here P Q (returned a s) good bad h g b = g a s refl h
Ends-attempt_known base here P Q (failed s) good bad h g b = b s refl h
Ends-attempt_known base here P Q crashed good bad h g b = absurd h
Ends-attempt_known base here P Q unfinished good bad h g b = absurd h

pub Ends-map_known {ℓ} :
    {A : Type ℓ} (base : ℕ) (P Q : A → Mem → Type 0) (r : Run A)
    → Ends base P r
    → ((a : A) (s : Mem) → r ≡ returned a s → P a s → Q a s)
    → Ends base Q r
Ends-map_known base P Q (returned a s) h k = k a s refl h
Ends-map_known base P Q (failed s) h k = h
Ends-map_known base P Q crashed h k = h
Ends-map_known base P Q unfinished h k = h

-- What holds of a result, where there is one.
abbrev pub Gives {ℓ} : {A : Type ℓ} → (A → Type 0) → Run A → Type 0
Gives P (returned a s) = P a
Gives P (failed s) = Unit {0}
Gives P crashed = Unit {0}
Gives P unfinished = Unit {0}

pub Gives-after {ℓ κ} :
    {A : Type ℓ} {B : Type κ} (Q : A → Type 0) (P : B → Type 0) (r : Run A) (f : A → Mem → Run B)
    → Gives Q r
    → ((a : A) (s : Mem) → Q a → Gives P (f a s))
    → Gives P (after r f)
Gives-after Q P (returned a s) f h k = k a s h
Gives-after Q P (failed s) f h k = tt
Gives-after Q P crashed f h k = tt
Gives-after Q P unfinished f h k = tt

pub Gives-all {ℓ} : {A : Type ℓ} (P : A → Type 0) (r : Run A) → ((a : A) → P a) → Gives P r
Gives-all P (returned a s) k = k a
Gives-all P (failed s) k = tt
Gives-all P crashed k = tt
Gives-all P unfinished k = tt

pub Gives-map {ℓ} :
    {A : Type ℓ} (P Q : A → Type 0) (r : Run A) → Gives P r → ((a : A) → P a → Q a) → Gives Q r
Gives-map P Q (returned a s) h k = k a h
Gives-map P Q (failed s) h k = tt
Gives-map P Q crashed h k = tt
Gives-map P Q unfinished h k = tt

pub Ends-Gives {ℓ} :
    {A : Type ℓ} (base : ℕ) (P : A → Mem → Type 0) (Q : A → Type 0) (r : Run A)
    → Ends base P r
    → Gives Q r
    → Ends base (λ a s. P a s × Q a) r
Ends-Gives base P Q (returned a s) h g = (h, g)
Ends-Gives base P Q (failed s) h g = h
Ends-Gives base P Q crashed h g = h
Ends-Gives base P Q unfinished h g = h
