-- ===== src/Protocol/Name.antt =====
-- `wirecall_proc_id` of src/protocol.c, the 64-bit FNV-1a hash of a procedure's name.
-- A `char` string is the list of its bytes before the terminating zero, or `none` for NULL.
use wirecall.Common.{
  ℕ, ◌*◌, ◌%◌, ◌^◌, bit_xor, ◌≢◌, Option, none, some, List, [], ◌∷◌, ◌==◌, if◌then◌else◌, arith,
}
use wirecall.Words.{IsU64}

unfoldable pub hash_name : ℕ → List ℕ → ℕ
hash_name hash [] = hash
hash_name hash (c ∷ cs) = hash_name (bit_xor hash (c % 2 ^ 8) * 1099511628211 % 2 ^ 64) cs

unfoldable pub proc_id : Option (List ℕ) → ℕ
unfolding hash_name
proc_id none = 0
proc_id (some name) =
    let hash = hash_name 14695981039346656037 name in if hash == 0 then 1 else hash

hash_name-IsU64 : (hash : ℕ) (cs : List ℕ) → IsU64 hash → IsU64 (hash_name hash cs)
unfolding hash_name
hash_name-IsU64 hash [] h = h
hash_name-IsU64 hash (c ∷ cs) h =
    hash_name-IsU64 (bit_xor hash (c % 2 ^ 8) * 1099511628211 % 2 ^ 64) cs (omega arith)

-- The id of a name fits 64 bits and is never 0, the id of the NULL name.
pub proc_id_range :
    (name : List ℕ) → IsU64 (proc_id (some name)) × (proc_id (some name) ≢ proc_id none)
unfolding proc_id
proc_id_range name = ground (arith, hash_name-IsU64 14695981039346656037 name)
