-- ===== src/Payload/Writer.antt =====
-- `wirecall_writer` of src/payload.c. Each operation gives its status, `true` for 0 and `false`
-- for -1, with the writer as it left it.
pub mod Reserve
pub mod Write
use wirecall.Common.{
  ℕ, zero, suc, ◌+◌, ◌*◌, ◌-◌, ◌/◌, ◌^◌, Bool, true, false, ◌||◌, List, [], ◌∷◌, ◌++◌, length, ltb,
  leb, ◌==◌, if◌then◌else◌, Outcome, ok, stuck,
}
use wirecall.Words.{put_u32, put_u64}
use wirecall.Protocol.Header.{max_payload_size}
use wirecall.Protocol.Buffer.{Buffer, present, buffer_len, contents, dangling}
use wirecall.Memory.{Grants, M, ◌>>=◌, ret, crash, lift, mem_realloc, mem_free}
use wirecall.Payload.Value.{
  Datum, type_null, type_bool, type_i64, type_u64, type_f64, type_bytes, type_string,
}

-- The `len` bytes behind `data`, the capacity, and whether `data` is non-null.
pub record Writer : Type 0 where
  pub written : List ℕ
  pub cap : ℕ
  pub block : Bool

abbrev pub Status : Type 0
Status = Bool × Writer

unfoldable pub writer_init : Writer
writer_init = record { written = []; cap = 0; block = false }

unfoldable pub writer_reset : Writer → Writer
writer_reset w = record w { written = [] }

unfoldable pub writer_free : Writer → M Writer
unfolding writer_init
writer_free w = mem_free w.block >>= λ _. ret writer_init

-- `while (cap < need)`, which doubles the capacity and stops at the size limit.
unfoldable pub grow_cap : ℕ → ℕ → ℕ → Outcome ℕ
grow_cap zero need cap = if ltb cap need then stuck else ok cap
grow_cap (suc fuel) need cap =
    let more = grow_cap fuel need (cap * 2) in
    if ltb cap need
    then if ltb (max_payload_size / 2) cap then ok max_payload_size else more
    else ok cap

-- From any capacity but 0, 20 doublings pass the limit of 2 ^ 20.
abbrev pub grow_fuel : ℕ
grow_fuel = 21

unfoldable pub writer_reserve : Grants → Writer → ℕ → M Status
writer_reserve grant w extra =
    if ltb max_payload_size extra || ltb (max_payload_size - extra) (length w.written)
    then ret (false, w)
    else if leb (length w.written + extra) w.cap
    then ret (true, w)
    else (do
      cap ← lift (grow_cap grow_fuel (length w.written + extra) (if w.cap == 0 then 64 else w.cap))
      granted ← mem_realloc grant w.block cap
      if granted then ret (true, record w { cap = cap; block = true }) else ret (false, w))

-- The copy must fit the capacity.
unfoldable pub writer_push : Grants → Writer → List ℕ → M Status
writer_push grant w bytes = do
  (fits, w') ← writer_reserve grant w (length bytes)
  if fits
      then if leb (length w'.written + length bytes) w'.cap
        then ret (true, record w' { written = w'.written ++ bytes })
        else crash
      else ret (false, w')

unfoldable pub writer_null : Grants → Writer → M Status
writer_null grant w = writer_push grant w (type_null ∷ [])

unfoldable pub writer_bool : Grants → Writer → Bool → M Status
writer_bool grant w value = writer_push grant w (type_bool ∷ (if value then 1 else 0) ∷ [])

unfoldable pub writer_i64 : Grants → Writer → ℕ → M Status
writer_i64 grant w value = writer_push grant w (type_i64 ∷ put_u64 value)

unfoldable pub writer_u64 : Grants → Writer → ℕ → M Status
writer_u64 grant w value = writer_push grant w (type_u64 ∷ put_u64 value)

unfoldable pub writer_f64 : Grants → Writer → ℕ → M Status
writer_f64 grant w bits = writer_push grant w (type_f64 ∷ put_u64 bits)

-- The prefix of type and length, then the bytes: two pushes.
unfoldable pub push_blob : Grants → ℕ → Writer → Buffer → M Status
push_blob grant type w blob = if dangling blob then ret (false, w) else (do
  (pushed, w') ← writer_push grant w (type ∷ put_u32 (buffer_len blob))
  if pushed then writer_push grant w' (contents blob) else ret (false, w'))

unfoldable pub writer_bytes : Grants → Writer → Buffer → M Status
unfolding push_blob
writer_bytes grant w blob = push_blob grant type_bytes w blob

unfoldable pub writer_string : Grants → Writer → Buffer → M Status
unfolding push_blob
writer_string grant w blob = push_blob grant type_string w blob

-- The call that writes a datum.
unfoldable pub write : Grants → Writer → Datum → M Status
write grant w Datum.null = writer_null grant w
write grant w (Datum.boolean b) = writer_bool grant w b
write grant w (Datum.i64 v) = writer_i64 grant w v
write grant w (Datum.u64 v) = writer_u64 grant w v
write grant w (Datum.f64 v) = writer_f64 grant w v
write grant w (Datum.bytes bs) = writer_bytes grant w (present bs)
write grant w (Datum.string cs) = writer_string grant w (present cs)

-- The calls for a list of data, up to the first that fails.
unfoldable pub write_all : Grants → Writer → List Datum → M Status
write_all grant w [] = ret (true, w)
write_all grant w (d ∷ ds) = do
  (written, w') ← write grant w d
  if written then write_all grant w' ds else ret (false, w')
