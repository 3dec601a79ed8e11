-- ===== src/Payload/Decode.antt =====
-- `wirecall_payload_decode`, `values_cleanup` and `wirecall_values_free` of src/payload.c. Tracing
-- is left out.
pub mod Copy
pub mod Wire
pub mod Blocks
pub mod Loop
pub mod Complete
pub mod RoundTrip
use wirecall.Common.{
  ℕ, zero, suc, ◌+◌, ◌*◌, ◌≤◌, ◌<◌, Bool, true, false, not, ◌||◌, ◌&&◌, Option, none, some, List,
  [], ◌∷◌, ◌++◌, length, take, drop, ltb, leb, ◌==◌, if◌then◌else◌, Outcome, ok, fault,
}
use wirecall.Words.{byte_at, get_u32, get_u64}
use wirecall.Protocol.Buffer.{Buffer, contents, dangling}
use wirecall.Memory.{
  Grants, Mem, Run, returned, failed, crashed, unfinished, M, ◌>>=◌, ◌>>◌, ret, give_up, crash,
  lift, recover, mem_alloc, mem_realloc, mem_free,
}
use wirecall.Payload.Value.{
  Value, owns, type_null, type_bool, type_i64, type_u64, type_f64, type_bytes, type_string,
}

-- The array `values` with `count = length items` and `cap`: whether the pointer is non-null, and
-- whether the slot at `count` holds the sentinel type.
pub record Array : Type 0 where
  pub items : List Value
  pub cap : ℕ
  pub block : Bool
  pub ended : Bool

abbrev pub no_array : Array
no_array = record { items = []; cap = 0; block = false; ended = false }

-- The array has `cap + 1` slots; a store outside them is a crash.
unfoldable pub store_slot : Array → ℕ → M (Unit {0})
store_slot a i = if a.block && leb i a.cap then ret tt else crash

unfoldable pub free_items : List Value → M (Unit {0})
free_items [] = ret tt
free_items (v ∷ vs) = do mem_free (owns v); free_items vs

unfoldable pub values_cleanup : Array → M (Unit {0})
values_cleanup a = if a.block then free_items a.items else ret tt

-- The room for one more value. `sizeof(wirecall_value)` is 24.
unfoldable pub grow : Grants → Array → M Array
grow grant a =
    if length a.items == a.cap
    then (do
      let next_cap = if a.cap == 0 then 4 else a.cap * 2
      granted ← mem_realloc grant a.block ((next_cap + 1) * 24)
      if granted
          then (do
            let a' = record a { cap = next_cap; block = true; ended = true }
            store_slot a' (length a.items)
            ret a')
          else give_up)
    else ret a

-- `values[count++] = value; values[count].type = WIRECALL_TYPE_SENTINEL;`
unfoldable pub store : Array → Value → M Array
store a v = do
  store_slot a (length a.items)
  store_slot a (length a.items + 1)
  ret (record a { items = a.items ++ v ∷ []; ended = true })

unfoldable pub decode_bool : List ℕ → ℕ → M (Value × ℕ)
decode_bool buf off = if ltb (length buf) (off + 1) then give_up else (do
  b ← lift (byte_at buf off)
  if b == 0 || b == 1 then ret (Value.boolean (not (b == 0)), off + 1) else give_up)

unfoldable pub decode_word : (ℕ → Value) → List ℕ → ℕ → M (Value × ℕ)
decode_word make buf off =
    if ltb (length buf) (off + 8)
    then give_up
    else (do w ← lift (get_u64 buf off); ret (make w, off + 8))

-- `memcpy(copy, data + off, n)`
unfoldable pub copy_bytes : List ℕ → ℕ → ℕ → Outcome (List ℕ)
copy_bytes buf off n = if leb (off + n) (length buf) then ok (take n (drop off buf)) else fault

-- The copy of `n` bytes that the value will own, with a zero byte behind a string; no bytes at
-- all leave the pointer null.
unfoldable pub copy_blob : Grants → Bool → List ℕ → ℕ → ℕ → M (Option (List ℕ))
copy_blob grant is_string buf off n =
    let copy_len = if is_string then n + 1 else n in
    if ltb 0 copy_len
    then (do
      granted ← mem_alloc grant copy_len
      if granted
          then (do
            chars ← lift (copy_bytes buf off n)
            ret (some (if is_string then chars ++ 0 ∷ [] else chars)))
          else give_up)
    else ret none

unfoldable pub decode_blob : Grants → Bool → List ℕ → ℕ → M (Value × ℕ)
decode_blob grant is_string buf off = if ltb (length buf) (off + 4) then give_up else (do
  n ← lift (get_u32 buf off)
  if ltb (length buf) (off + 4 + n) then give_up else (do
    copy ← copy_blob grant is_string buf (off + 4) n
    ret (if is_string then Value.string copy n else Value.bytes copy n, off + 4 + n)))

-- The jump on the type byte, with `off` behind it.
unfoldable pub decode_value : Grants → ℕ → List ℕ → ℕ → M (Value × ℕ)
decode_value grant type buf off =
    if type == type_null
    then ret (Value.null, off)
    else if type == type_bool
    then decode_bool buf off
    else if type == type_i64
    then decode_word Value.i64 buf off
    else if type == type_u64
    then decode_word Value.u64 buf off
    else if type == type_f64
    then decode_word Value.f64 buf off
    else if type == type_bytes
    then decode_blob grant false buf off
    else if type == type_string
    then decode_blob grant true buf off
    else give_up

-- `malformed:`, which frees what the round had built.
unfoldable pub or_cleanup {ℓ} : {A : Type ℓ} → Array → M A → M A
or_cleanup a m s = recover (m s) (values_cleanup a >>= λ _. mem_free a.block >>= λ _. give_up)

-- One round of `while (off < len)`.
unfoldable pub decode_round : Grants → List ℕ → Array → ℕ → M (Array × ℕ)
decode_round grant buf a off = do
  a' ← or_cleanup a (grow grant a)
  type ← lift (byte_at buf off)
  (v, off') ← or_cleanup a' (decode_value grant type buf (off + 1))
  a'' ← store a' v
  ret (a'', off')

unfoldable pub decode_loop : ℕ → Grants → List ℕ → Array → ℕ → M Array
decode_loop zero grant buf a off = if ltb off (length buf) then (λ s. unfinished) else ret a
decode_loop (suc fuel) grant buf a off =
    if ltb off (length buf)
    then (decode_round grant buf a off >>= λ (a', off'). decode_loop fuel grant buf a' off')
    else ret a

-- Each round takes a byte at least, so the length of the buffer is fuel enough.
unfoldable pub payload_decode : Grants → Buffer → M Array
payload_decode grant payload =
    if dangling payload
    then give_up
    else decode_loop (length (contents payload)) grant (contents payload) no_array 0

-- `wirecall_values_free`: the scan for the sentinel passes the items, and leaves the array where no
-- sentinel ends them.
unfoldable pub values_free : Array → M (Unit {0})
values_free a = (if a.block then (if a.ended then values_cleanup a else crash) else ret tt) >>= λ _.
    mem_free a.block
