-- ===== src/Words/Window.antt =====
-- A word that is read from the middle of a buffer: its value, and the bytes that write it.
use wirecall.Common.{
  ℕ, ◌+◌, ◌≤◌, List, ok, ◌≡◌, arith, length, All, drop, take, sym, take-append-drop, drop-drop,
  ◌++◌, length-take, length-drop, All-take, All-drop,
}
use wirecall.Words.{IsByte, IsU32, IsU64, put_u32, put_u64, get_u32, get_u64}
use wirecall.Words.BigEndian.{
  get_u64-value, get_u32-value, value_from, put_u64-value_from, put_u32-value_from, value_from-lt,
}

-- The bytes of a word in the buffer, and the number that they write.
abbrev pub word : ℕ → ℕ → List ℕ → ℕ
word n at buf = value_from 0 (take n (drop at buf))

pub length_word :
    (n at : ℕ) (buf : List ℕ) → at + n ≤ length buf → length (take n (drop at buf)) ≡ n
length_word n at buf h = omega (arith, length-take n (drop at buf), length-drop at buf)

module _ (buf : List ℕ) (all : All IsByte buf) where
  pub word-All : (n at : ℕ) → All IsByte (take n (drop at buf))
  word-All n at = All-take IsByte n (drop at buf) (All-drop IsByte at buf all)

  pub get_u64-word : (at : ℕ) → at + 8 ≤ length buf → get_u64 buf at ≡ ok (word 8 at buf)
  get_u64-word at h =
      get_u64-value (take 8 (drop at buf)) buf at (drop 8 (drop at buf))
        (sym (take-append-drop 8 (drop at buf))) (length_word 8 at buf h) (word-All 8 at)

  pub get_u32-word : (at : ℕ) → at + 4 ≤ length buf → get_u32 buf at ≡ ok (word 4 at buf)
  get_u32-word at h =
      get_u32-value (take 4 (drop at buf)) buf at (drop 4 (drop at buf))
        (sym (take-append-drop 4 (drop at buf))) (length_word 4 at buf h) (word-All 4 at)

  pub put_u64-word : (at : ℕ) → at + 8 ≤ length buf → put_u64 (word 8 at buf) ≡ take 8 (drop at buf)
  put_u64-word at h = put_u64-value_from _ (length_word 8 at buf h) (word-All 8 at)

  pub put_u32-word : (at : ℕ) → at + 4 ≤ length buf → put_u32 (word 4 at buf) ≡ take 4 (drop at buf)
  put_u32-word at h = put_u32-value_from _ (length_word 4 at buf h) (word-All 4 at)

  pub word-IsU64 : (at : ℕ) → at + 8 ≤ length buf → IsU64 (word 8 at buf)
  word-IsU64 at h =
      ground (arith, length_word 8 at buf h, value_from-lt 0 (take 8 (drop at buf)) (word-All 8 at))

  pub word-IsU32 : (at : ℕ) → at + 4 ≤ length buf → IsU32 (word 4 at buf)
  word-IsU32 at h =
      ground (arith, length_word 4 at buf h, value_from-lt 0 (take 4 (drop at buf)) (word-All 4 at))

  -- The bytes from a word on are those that write it, and the rest.
  pub drop-put_u64 :
      (at : ℕ) → at + 8 ≤ length buf → drop at buf ≡ put_u64 (word 8 at buf) ++ drop (at + 8) buf
  drop-put_u64 at h =
      rw (put_u64-word at h, ← drop-drop at 8 buf) (sym (take-append-drop 8 (drop at buf)))

  pub drop-put_u32 :
      (at : ℕ) → at + 4 ≤ length buf → drop at buf ≡ put_u32 (word 4 at buf) ++ drop (at + 4) buf
  drop-put_u32 at h =
      rw (put_u32-word at h, ← drop-drop at 4 buf) (sym (take-append-drop 4 (drop at buf)))
