-- ===== src/Payload/Value.antt =====
-- `wirecall_value` of include/wirecall/protocol.h. An `int64_t` and a `double` are their bit
-- patterns. A pointer is `none` for NULL or the bytes that it points to.
use wirecall.Common.{
  ℕ, ◌+◌, ◌<◌, ◌^◌, Bool, true, false, Option, none, some, List, [], ◌∷◌, ◌++◌, length, All,
  if◌then◌else◌,
}
use wirecall.Words.{IsByte, IsU64, put_u32, put_u64}
use wirecall.Memory.{count_block}

-- `enum wirecall_type`
abbrev pub type_null : ℕ
type_null = 0

abbrev pub type_bool : ℕ
type_bool = 1

abbrev pub type_i64 : ℕ
type_i64 = 2

abbrev pub type_u64 : ℕ
type_u64 = 3

abbrev pub type_f64 : ℕ
type_f64 = 4

abbrev pub type_bytes : ℕ
type_bytes = 5

abbrev pub type_string : ℕ
type_string = 6

pub data Value : Type 0 where
  null : Value
  boolean : Bool → Value
  i64 : ℕ → Value
  u64 : ℕ → Value
  f64 : ℕ → Value
  bytes : Option (List ℕ) → ℕ → Value
  string : Option (List ℕ) → ℕ → Value

-- Does the value own a block of its own?
abbrev pub owns : Value → Bool
owns (bytes (some b) n) = true
owns (string (some b) n) = true
owns _ = false

abbrev pub owned : List Value → ℕ
owned [] = 0
owned (v ∷ vs) = count_block (owns v) + owned vs

-- What a value means to the two ends of a call.
pub data Datum : Type 0 where
  null : Datum
  boolean : Bool → Datum
  i64 : ℕ → Datum
  u64 : ℕ → Datum
  f64 : ℕ → Datum
  bytes : List ℕ → Datum
  string : List ℕ → Datum

abbrev pub copy_of : List ℕ → Option (List ℕ)
copy_of [] = none
copy_of (b ∷ bs) = some (b ∷ bs)

-- A decoded value: an empty byte string is a null pointer, a string ends in a zero byte.
abbrev pub represent : Datum → Value
represent null = Value.null
represent (boolean b) = Value.boolean b
represent (i64 w) = Value.i64 w
represent (u64 w) = Value.u64 w
represent (f64 w) = Value.f64 w
represent (bytes bs) = Value.bytes (copy_of bs) (length bs)
represent (string cs) = Value.string (some (cs ++ 0 ∷ [])) (length cs)

-- The wire format.
abbrev pub encode : Datum → List ℕ
encode null = type_null ∷ []
encode (boolean b) = type_bool ∷ (if b then 1 else 0) ∷ []
encode (i64 w) = type_i64 ∷ put_u64 w
encode (u64 w) = type_u64 ∷ put_u64 w
encode (f64 w) = type_f64 ∷ put_u64 w
encode (bytes bs) = type_bytes ∷ (put_u32 (length bs) ++ bs)
encode (string cs) = type_string ∷ (put_u32 (length cs) ++ cs)

abbrev pub encode_all : List Datum → List ℕ
encode_all [] = []
encode_all (d ∷ ds) = encode d ++ encode_all ds

abbrev pub IsBlob : List ℕ → Type 0
IsBlob bs = (length bs < 2 ^ 32) × All IsByte bs

abbrev pub IsDatum : Datum → Type 0
IsDatum null = Unit {0}
IsDatum (boolean b) = Unit {0}
IsDatum (i64 w) = IsU64 w
IsDatum (u64 w) = IsU64 w
IsDatum (f64 w) = IsU64 w
IsDatum (bytes bs) = IsBlob bs
IsDatum (string cs) = IsBlob cs
