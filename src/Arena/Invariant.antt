-- ===== src/Arena/Invariant.antt =====
-- When an arena of include/arena.h is well formed.
use wirecall.Common.{
  ℕ, ◌+◌, ◌*◌, ◌≤◌, ◌<◌, Bool-cases, inl, inr, ◌⊎◌, List, [], ◌∷◌, ltb, ◌==◌, ltb→lt, ltb→le,
  ==_self, if◌then◌else◌, ◌≡◌, ◌≢◌, sym, ap, ◌∙◌, arith,
}
use native.Mathlib.Nat.{mul-le-mul_right}
use wirecall.Arena.{Store, FixedArena, clear, write_word}

unfoldable pub occurs : ℕ → List ℕ → ℕ
occurs i [] = 0
occurs i (j ∷ js) = (if i == j then 1 else 0) + occurs i js

-- The address of the element with a number.
unfoldable pub element : FixedArena → ℕ → ℕ
element arena i = arena.base + i * arena.elem_size

-- From `p` on, the free list is the elements with these numbers.
abbrev pub Chain : FixedArena → Store → ℕ → List ℕ → Type 0
Chain arena st p [] = p ≡ 0
Chain arena st p (i ∷ rest) = (p ≡ element arena i) × Chain arena st (st p) rest

-- `free` are the numbers of the free list, in its order, and `used` those handed out: every element
-- below the watermark is one or the other, once.
pub record IsArena (arena : FixedArena) (st : Store) (free used : List ℕ) : Type 0 where
  pub mapped : 0 < arena.base
  pub sized : 0 < arena.elem_size
  pub chain : Chain arena st arena.free_list free
  pub parts : (i : ℕ) → occurs i free + occurs i used ≡ (if ltb i arena.watermark then 1 else 0)
  pub limit : arena.watermark ≤ arena.capacity
  pub pages : arena.capacity * arena.elem_size ≤ arena.bytes

-- Elements do not overlap.
pub element-apart :
    (arena : FixedArena) (i j : ℕ)
    → j ≢ i
    → (element arena j + arena.elem_size ≤ element arena i)
      ⊎ (element arena i + arena.elem_size ≤ element arena j)
unfolding element
element-apart arena i j h = elim (Bool-cases (ltb j i)) [
  | inl below ↦
      let m : (j + 1) * arena.elem_size ≤ i * arena.elem_size =
        mul-le-mul_right {m = j + 1} {n = i} arena.elem_size (omega (arith, ltb→lt j i below)) in
      inl (omega (arith, m))
  | inr above ↦
      let m : (i + 1) * arena.elem_size ≤ j * arena.elem_size =
        mul-le-mul_right {m = i + 1} {n = j} arena.elem_size (omega (arith, ltb→le j i above, h)) in
      inr (omega (arith, m))
]

-- A store that agrees on the first words of the free elements has the same free list.
pub Chain-ext :
    (arena arena' : FixedArena) (st st' : Store) (p : ℕ) (free : List ℕ)
    → ((i : ℕ) → element arena' i ≡ element arena i)
    → ((i : ℕ) → 0 < occurs i free → st' (element arena i) ≡ st (element arena i))
    → Chain arena st p free
    → Chain arena' st' p free
unfolding occurs
Chain-ext arena arena' st st' p [] e h c = c
Chain-ext arena arena' st st' p (i ∷ rest) e h (here, later) =
    let same : st' p ≡ st p = rw here (h i (rw (==_self i) omega arith)) in
    (
      here ∙ sym (e i),
      rw same (Chain-ext arena arena' st st' (st p) rest e (λ j m. h j (omega (arith, m))) later),
    )

-- Clearing or writing one element leaves the first words of the others.
pub clear-other :
    (arena : FixedArena) (st : Store) (i j : ℕ)
    → 0 < arena.elem_size
    → j ≢ i
    → clear (element arena i) arena.elem_size st (element arena j) ≡ st (element arena j)
unfolding clear
clear-other arena st i j sized h = elim (element-apart arena i j h) [
  | inl below ↦ ground arith
  | inr above ↦ ground arith
]

pub write_word-other :
    (arena : FixedArena) (st : Store) (word i j : ℕ)
    → 0 < arena.elem_size
    → j ≢ i
    → write_word (element arena i) word st (element arena j) ≡ st (element arena j)
unfolding write_word
write_word-other arena st word i j sized h = elim (element-apart arena i j h) [
  | inl below ↦ ground arith
  | inr above ↦ ground arith
]

pub elsewhere : (i j : ℕ) (js : List ℕ) → occurs i js ≡ 0 → 0 < occurs j js → j ≢ i
elsewhere i j js h m e = omega (arith, ap (λ k. occurs k js) e)

below_watermark : (i w : ℕ) (n m : ℕ) → n + m ≡ (if ltb i w then 1 else 0) → 0 < m → i < w
below_watermark i w n m h p = ground arith

-- An element in use lies inside the pages of the arena.
pub used_inside :
    (arena : FixedArena) (st : Store) (free used : List ℕ) (i : ℕ)
    → IsArena arena st free used
    → 0 < occurs i used
    → (arena.base ≤ element arena i)
      × (element arena i + arena.elem_size ≤ arena.base + arena.bytes)
unfolding element
used_inside arena st free used i v hi =
    let low = below_watermark i arena.watermark (occurs i free) (occurs i used) (v.parts i) hi in
    let m : (i + 1) * arena.elem_size ≤ arena.capacity * arena.elem_size =
      mul-le-mul_right {m = i + 1} {n = arena.capacity} arena.elem_size
        (omega (arith, low, v.limit)) in
    (omega arith, omega (arith, m, v.pages))
