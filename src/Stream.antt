-- ===== src/Stream.antt =====
-- The growing byte buffers of src/server.c and src/client.c, which a socket is read into and
-- written from.
pub mod Grow
pub mod Packet
pub mod Socket
use wirecall.Common.{
  ℕ, zero, suc, ◌+◌, ◌-◌, ◌*◌, ◌%◌, ◌^◌, Bool, true, false, List, [], ◌∷◌, ◌++◌, length, ltb, leb,
  ◌==◌, if◌then◌else◌, Outcome, ok, stuck,
}
use wirecall.Memory.{Grants, M, ◌>>=◌, ret, crash, lift, mem_realloc}

-- The `len` bytes of a buffer, its capacity, and whether its pointer is non-null.
pub record ByteBuffer : Type 0 where
  pub bytes : List ℕ
  pub cap : ℕ
  pub block : Bool

abbrev pub no_buffer : ByteBuffer
no_buffer = record { bytes = []; cap = 0; block = false }

-- `while (next_cap < need)`, on a size_t.
unfoldable pub double_cap : ℕ → ℕ → ℕ → Outcome ℕ
double_cap zero need cap = if ltb cap need then stuck else ok cap
double_cap (suc fuel) need cap =
    let more = double_cap fuel need (cap * 2 % 2 ^ 64) in if ltb cap need then more else ok cap

-- From a capacity of at least 1, so many doublings pass 2 ^ 63.
abbrev pub double_fuel : ℕ
double_fuel = 63

abbrev pub read_chunk : ℕ
read_chunk = 4096

-- The growth of a buffer whose first block has `first` bytes.
unfoldable pub grow_buffer : Grants → ℕ → ByteBuffer → ℕ → M (Bool × ByteBuffer)
grow_buffer grant first b need = do
  cap ← lift (double_cap double_fuel need (if b.cap == 0 then first else b.cap))
  granted ← mem_realloc grant b.block cap
  if granted then ret (true, record b { cap = cap; block = true }) else ret (false, b)

unfoldable pub reserve_bytes : Grants → ByteBuffer → ℕ → M (Bool × ByteBuffer)
reserve_bytes grant b need =
    if leb need b.cap then ret (true, b) else grow_buffer grant read_chunk b need

-- The copy must fit the capacity.
unfoldable pub copy_in : List ℕ → Bool → ByteBuffer → M (Bool × ByteBuffer)
copy_in new false b = ret (false, b)
copy_in new true b =
    if leb (length b.bytes + length new) b.cap
    then ret (true, record b { bytes = b.bytes ++ new })
    else crash

-- `append_bytes`; no call has a null pointer with a length.
unfoldable pub append_bytes : Grants → ByteBuffer → List ℕ → M (Bool × ByteBuffer)
unfolding reserve_bytes
append_bytes grant b new =
    if length new == 0
    then ret (true, b)
    else if ltb (2 ^ 64 - 1 - length new) (length b.bytes)
    then ret (false, b)
    else (do (fits, b') ← reserve_bytes grant b (length b.bytes + length new); copy_in new fits b')
