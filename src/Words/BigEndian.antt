-- ===== src/Words/BigEndian.antt =====
-- `put_u32`, `put_u64`, `get_u32` and `get_u64` against the big-endian value of a list of bytes.
use wirecall.Common.{
  ℕ, zero, suc, ◌+◌, ◌*◌, ◌%◌, ◌^◌, ◌<◌, ◌≤◌, bit_or, ◌≡◌, refl, ap, List, [], ◌∷◌, ◌++◌, drop,
  length, All, suc_add, ok, arith,
}
use native.Mathlib.Nat.{pow-suc, add_assoc}
use wirecall.Common.Bits.{or_high_low}
use wirecall.Words.{IsByte, IsU32, IsU64, byte_at, put_u32, put_u64, get_u32, get_u64_loop, get_u64}

-- The number that the bytes write, after the digits `acc`, most significant first.
unfoldable pub value_from : ℕ → List ℕ → ℕ
value_from acc [] = acc
value_from acc (b ∷ bs) = value_from (acc * 2 ^ 8 + b) bs

pub byte_at-drop :
    (buf : List ℕ) (at b : ℕ) (rest : List ℕ) → drop at buf ≡ b ∷ rest → byte_at buf at ≡ ok b
byte_at-drop [] zero b rest e = cc
byte_at-drop [] (suc at) b rest e = cc
byte_at-drop (x ∷ buf) zero b rest e = ground arith
byte_at-drop (x ∷ buf) (suc at) b rest e = byte_at-drop buf at b rest e

pub drop_next :
    (buf : List ℕ) (at b : ℕ) (rest : List ℕ) → drop at buf ≡ b ∷ rest → drop (at + 1) buf ≡ rest
drop_next [] zero b rest e = cc
drop_next [] (suc at) b rest e = cc
drop_next (x ∷ buf) zero b rest e = ground arith
drop_next (x ∷ buf) (suc at) b rest e = rw (suc_add at 1) (drop_next buf at b rest e)

push_byte : (v b : ℕ) → v < 2 ^ 56 → IsByte b → bit_or (v * 2 ^ 8 % 2 ^ 64) b ≡ v * 2 ^ 8 + b
push_byte v b p q = ground (arith, or_high_low 8 v b)

value_from-ge : (v : ℕ) (bs : List ℕ) → v ≤ value_from v bs
unfolding value_from
value_from-ge v [] = omega arith
value_from-ge v (b ∷ bs) = omega (arith, value_from-ge (v * 2 ^ 8 + b) bs)

scaled : (b p : ℕ) → IsByte b → b * p ≤ 255 * p
scaled b p h = grind arith

pub value_from-lt :
    (v : ℕ) (bs : List ℕ) → All IsByte bs → value_from v bs < (v + 1) * 256 ^ length bs
unfolding value_from
value_from-lt v [] h = omega arith
value_from-lt v (b ∷ bs) (hb, h) = omega (
  arith,
  value_from-lt (v * 2 ^ 8 + b) bs h,
  ap (λ (t : ℕ). (v + 1) * t) (pow-suc 256 (length bs)),
  scaled b (256 ^ length bs) hb,
)

-- A read of bytes that stand in the buffer gives the number that they write.
get_u64_loop-value :
    (bs buf : List ℕ) (at v : ℕ) (rest : List ℕ)
    → drop at buf ≡ bs ++ rest
    → All IsByte bs
    → value_from v bs < 2 ^ 64
    → get_u64_loop (length bs) buf at v ≡ ok (value_from v bs)
unfolding get_u64_loop value_from
get_u64_loop-value [] buf at v rest e h q = refl
get_u64_loop-value (b ∷ bs) buf at v rest e (hb, h) q = rw (byte_at-drop buf at b (bs ++ rest) e) (
    rw (push_byte v b (omega (arith, value_from-ge (v * 2 ^ 8 + b) bs)) hb) (
      get_u64_loop-value bs buf (at + 1) (v * 2 ^ 8 + b) rest (drop_next buf at b (bs ++ rest) e) h
        q))

pub get_u64-value :
    (bs buf : List ℕ) (at : ℕ) (rest : List ℕ)
    → drop at buf ≡ bs ++ rest
    → length bs ≡ 8
    → All IsByte bs
    → get_u64 buf at ≡ ok (value_from 0 bs)
get_u64-value bs buf at rest e n h =
    rw (get_u64_lem buf at, ← n)
      (get_u64_loop-value bs buf at 0 rest e h (ground (arith, value_from-lt 0 bs h)))
  where
    get_u64_lem : (buf : List ℕ) (at : ℕ) → get_u64 buf at ≡ get_u64_loop 8 buf at 0
    get_u64_lem buf at = unfold get_u64 in refl

-- `get_u64` after `put_u64`, as values.
pub value_from-put_u64 : (v : ℕ) → IsU64 v → value_from 0 (put_u64 v) ≡ v
unfolding value_from put_u64
value_from-put_u64 v h = omega arith

pub value_from-put_u32 : (v : ℕ) → IsU32 v → value_from 0 (put_u32 v) ≡ v
unfolding value_from put_u32
value_from-put_u32 v h = omega arith

-- Eight bytes are those of the number that they write, and so are four.
pub put_u64-value_from :
    (bs : List ℕ) → length bs ≡ 8 → All IsByte bs → put_u64 (value_from 0 bs) ≡ bs
unfolding value_from put_u64
put_u64-value_from (a ∷ b ∷ c ∷ d ∷ e ∷ f ∷ g ∷ h ∷ []) n all = ground arith
put_u64-value_from _ n all = absurd (omega arith)

pub put_u32-value_from :
    (bs : List ℕ) → length bs ≡ 4 → All IsByte bs → put_u32 (value_from 0 bs) ≡ bs
unfolding value_from put_u32
put_u32-value_from (a ∷ b ∷ c ∷ d ∷ []) n all = ground arith
put_u32-value_from _ n all = absurd (omega arith)

pub put_u64_shape : (v : ℕ) → (length (put_u64 v) ≡ 8) × All IsByte (put_u64 v)
unfolding put_u64
put_u64_shape v = (refl, omega arith)

pub put_u32_shape : (v : ℕ) → (length (put_u32 v) ≡ 4) × All IsByte (put_u32 v)
unfolding put_u32
put_u32_shape v = (refl, omega arith)

join_bytes :
    (a b c d : ℕ)
    → IsByte a
    → IsByte b
    → IsByte c
    → IsByte d
    → bit_or (bit_or (bit_or (a * 2 ^ 24 % 2 ^ 32) (b * 2 ^ 16 % 2 ^ 32)) (c * 2 ^ 8 % 2 ^ 32)) d
      ≡ ((a * 2 ^ 8 + b) * 2 ^ 8 + c) * 2 ^ 8 + d
join_bytes a b c d p q r s = ground (
  arith,
  or_high_low 24 a (b * 2 ^ 16),
  or_high_low 16 (a * 2 ^ 8 + b) (c * 2 ^ 8),
  or_high_low 8 ((a * 2 ^ 8 + b) * 2 ^ 8 + c) d,
)

pub get_u32-value :
    (bs buf : List ℕ) (at : ℕ) (rest : List ℕ)
    → drop at buf ≡ bs ++ rest
    → length bs ≡ 4
    → All IsByte bs
    → get_u32 buf at ≡ ok (value_from 0 bs)
unfolding get_u32 value_from
get_u32-value (a ∷ b ∷ c ∷ d ∷ []) buf at rest e n h =
    let e1 = drop_next buf at a _ e in
    let e2 = drop_after 1 b e1 in
    let e3 = drop_after 2 c e2 in
    rw
      (
        byte_at-drop buf at a _ e,
        byte_at-drop buf (at + 1) b _ e1,
        byte_at-drop buf (at + 2) c _ e2,
        byte_at-drop buf (at + 3) d _ e3,
      )
      (ground (arith, join_bytes a b c d))
  where
    drop_after :
        (k b : ℕ) {rest : List ℕ} → drop (at + k) buf ≡ b ∷ rest → drop (at + (k + 1)) buf ≡ rest
    drop_after k b e = rw (← add_assoc at k 1) (drop_next buf (at + k) b _ e)
get_u32-value _ buf at rest e n h = absurd (omega arith)

-- A word that stands behind the bytes before it is read back.
pub get_u64-put_u64 :
    (buf : List ℕ) (at v : ℕ) (rest : List ℕ)
    → IsU64 v
    → drop at buf ≡ put_u64 v ++ rest
    → get_u64 buf at ≡ ok v
get_u64-put_u64 buf at v rest h e =
    let (n, all) = put_u64_shape v in
    rw (get_u64-value (put_u64 v) buf at rest e n all) (ap ok (value_from-put_u64 v h))

pub get_u32-put_u32 :
    (buf : List ℕ) (at v : ℕ) (rest : List ℕ)
    → IsU32 v
    → drop at buf ≡ put_u32 v ++ rest
    → get_u32 buf at ≡ ok v
get_u32-put_u32 buf at v rest h e =
    let (n, all) = put_u32_shape v in
    rw (get_u32-value (put_u32 v) buf at rest e n all) (ap ok (value_from-put_u32 v h))
