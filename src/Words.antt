-- ===== src/Words.antt =====
-- Machine words of src/protocol.c and src/payload.c: a uint8_t, uint32_t or uint64_t is a native
-- number below 2 ^ 8, 2 ^ 32 or 2 ^ 64, and a buffer is the list of its bytes. A read outside the
-- list is a `fault`.
pub mod BigEndian
pub mod Window
use wirecall.Common.{
  ℕ, zero, suc, ◌+◌, ◌-◌, ◌*◌, ◌/◌, ◌%◌, ◌^◌, ◌<◌, bit_or, bit_xor, Option, none, some, List, [],
  ◌∷◌, get_elem?, Outcome, ok, fault, ◌>>=◌,
}

abbrev pub IsByte : ℕ → Type 0
IsByte b = b < 2 ^ 8

abbrev pub IsU32 : ℕ → Type 0
IsU32 v = v < 2 ^ 32

abbrev pub IsU64 : ℕ → Type 0
IsU64 v = v < 2 ^ 64

abbrev pub or_fault : Option ℕ → Outcome ℕ
or_fault none = fault
or_fault (some b) = ok b

-- `in[i]`
abbrev pub byte_at : List ℕ → ℕ → Outcome ℕ
byte_at buf i = or_fault (get_elem? buf i)

-- The four and eight bytes that `put_u32` and `put_u64` store.
unfoldable pub put_u32 : ℕ → List ℕ
put_u32 v = (v / 2 ^ 24 % 2 ^ 8) ∷ (v / 2 ^ 16 % 2 ^ 8) ∷ (v / 2 ^ 8 % 2 ^ 8) ∷ (v % 2 ^ 8) ∷ []

-- The rounds `i = n - 1, …, 0` of the loop of `put_u64`.
unfoldable pub put_u64_loop : ℕ → ℕ → List ℕ
put_u64_loop zero v = []
put_u64_loop (suc i) v = (v / 2 ^ (i * 8) % 2 ^ 8) ∷ put_u64_loop i v

unfoldable pub put_u64 : ℕ → List ℕ
unfolding put_u64_loop
put_u64 v = put_u64_loop 8 v

unfoldable pub get_u32 : List ℕ → ℕ → Outcome ℕ
get_u32 buf at = do
  a ← byte_at buf at
  b ← byte_at buf (at + 1)
  c ← byte_at buf (at + 2)
  d ← byte_at buf (at + 3)
  ok (bit_or (bit_or (bit_or (a * 2 ^ 24 % 2 ^ 32) (b * 2 ^ 16 % 2 ^ 32)) (c * 2 ^ 8 % 2 ^ 32)) d)

-- `n` rounds of the loop of `get_u64`, from the byte at `at` on.
pub get_u64_loop : ℕ → List ℕ → ℕ → ℕ → Outcome ℕ
get_u64_loop zero buf at value = ok value
get_u64_loop (suc n) buf at value = do
  b ← byte_at buf at
  get_u64_loop n buf (at + 1) (bit_or (value * 2 ^ 8 % 2 ^ 64) b)

unfoldable pub get_u64 : List ℕ → ℕ → Outcome ℕ
unfolding get_u64_loop
get_u64 buf at = get_u64_loop 8 buf at 0

-- `(value << shift) | (value >> (64 - shift))` on 64 bits.
unfoldable pub rotl64 : ℕ → ℕ → ℕ
rotl64 value shift = bit_or (value * 2 ^ shift % 2 ^ 64) (value / 2 ^ (64 - shift))

unfoldable pub mix64 : ℕ → ℕ
mix64 value =
    let a = bit_xor value (value / 2 ^ 30) in
    let b = a * 0xbf58476d1ce4e5b9 % 2 ^ 64 in
    let c = bit_xor b (b / 2 ^ 27) in
    let d = c * 0x94d049bb133111eb % 2 ^ 64 in bit_xor d (d / 2 ^ 31)
