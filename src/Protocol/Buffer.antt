-- ===== src/Protocol/Buffer.antt =====
-- A pointer with a length, as src/protocol.c and src/payload.c take them.
use wirecall.Common.{ℕ, Bool, false, List, [], length, ltb}

-- A null pointer with the length that comes with it, or the bytes that the pointer and the
-- length denote.
pub data Buffer : Type 0 where
  absent : ℕ → Buffer
  present : List ℕ → Buffer

abbrev pub buffer_len : Buffer → ℕ
buffer_len (absent n) = n
buffer_len (present bytes) = length bytes

-- The bytes that are read through the pointer; code that passed `dangling` reads none of a null
-- pointer.
abbrev pub contents : Buffer → List ℕ
contents (absent n) = []
contents (present bytes) = bytes

-- `!payload && payload_len > 0`
abbrev pub dangling : Buffer → Bool
dangling (absent n) = ltb 0 n
dangling (present bytes) = false
