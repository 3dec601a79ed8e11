-- ===== src/Payload/Decode/Copy.antt =====
-- The copies that the decoder of src/payload.c makes, and what reading one value means.
use wirecall.Common.{
  ℕ, zero, suc, ◌+◌, ◌≤◌, ◌<◌, true, false, some, List, [], ◌∷◌, ◌++◌, length, take, drop, ◌≡◌,
  refl, sym, arith, lt→ltb, le→leb, drop-drop, take-append-drop, suc_add,
}
use wirecall.Words.Window.{length_word}
use wirecall.Memory.{Grants, Mem, mem_alloc, count_block}
use wirecall.Memory.Ends.{Ends, Ends-after, mem_alloc-Ends}
use wirecall.Payload.Value.{Value, Datum, IsDatum, encode, represent, copy_of, owns}
use wirecall.Payload.Decode.{copy_bytes, copy_blob}

pub first_byte :
    (buf : List ℕ) (off : ℕ) → off < length buf → (b : ℕ) × (drop off buf ≡ b ∷ drop (off + 1) buf)
first_byte [] off h = absurd (omega arith)
first_byte (x ∷ buf) zero h = (x, refl)
first_byte (x ∷ buf) (suc off) h =
    let (b, e) = first_byte buf off (omega arith) in (b, rw (suc_add off 1) e)

-- The value at `at` stands for a datum, whose encoding fills the buffer from there to the new
-- offset, and no block is live but those of `base` and the value's own.
pub record IsDecoded (buf : List ℕ) (at base : ℕ) (r : Value × ℕ) (s : Mem) : Type 0 where
  pub datum : Datum
  pub valid : IsDatum datum
  pub value : r.0 ≡ represent datum
  pub wire : drop at buf ≡ encode datum ++ drop r.1 buf
  pub advances : at < r.1
  pub inside : r.1 ≤ length buf
  pub live : s.live ≡ base + count_block (owns r.0)

-- The copy of a blob that lies inside the buffer.
pub copy_string-Ends :
    (grant : Grants) (buf : List ℕ) (off n : ℕ) (s : Mem)
    → off + n ≤ length buf
    → Ends s.live
        (λ copy s'. (copy ≡ some (take n (drop off buf) ++ 0 ∷ [])) × (s'.live ≡ s.live + 1))
        (copy_blob grant true buf off n s)
unfolding copy_blob copy_bytes
copy_string-Ends grant buf off n s h = rw (lt→ltb 0 (n + 1) (omega arith)) (
    Ends-after s.live _ _ (mem_alloc grant (n + 1) s) _ (mem_alloc-Ends grant (n + 1) s) elim [
      | true ↦ λ s' live. rw (le→leb (off + n) (length buf) h) (refl, live)
      | false ↦ λ s' live. omega arith
    ])

pub split_at :
    (n off : ℕ) (buf : List ℕ) → drop off buf ≡ take n (drop off buf) ++ drop (off + n) buf
split_at n off buf = rw (← drop-drop off n buf) (sym (take-append-drop n (drop off buf)))

pub copy_of-some : (xs : List ℕ) → 0 < length xs → copy_of xs ≡ some xs
copy_of-some [] h = absurd (omega arith)
copy_of-some (x ∷ xs) h = refl

pub copy_bytes-Ends :
    (grant : Grants) (buf : List ℕ) (off n : ℕ) (s : Mem)
    → off + n ≤ length buf
    → Ends s.live
        (λ copy s'.
          (copy ≡ copy_of (take n (drop off buf)))
          × (s'.live ≡ s.live + count_block (owns (Value.bytes copy n))))
        (copy_blob grant false buf off n s)
unfolding copy_blob copy_bytes
copy_bytes-Ends grant buf off zero s h = (refl, omega arith)
copy_bytes-Ends grant buf off (suc n) s h = rw (lt→ltb 0 (suc n) (omega arith)) (
    Ends-after s.live _ _ (mem_alloc grant (suc n) s) _ (mem_alloc-Ends grant (suc n) s) elim [
      | true ↦ λ s' live.
          rw (le→leb (off + suc n) (length buf) h)
            (sym (copy_of-some _ (ground (arith, length_word (suc n) off buf))), live)
      | false ↦ λ s' live. omega arith
    ])
