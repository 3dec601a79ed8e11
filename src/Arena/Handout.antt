-- ===== src/Arena/Handout.antt =====
-- What `wirecall_fixed_arena_alloc` of include/arena.h hands out.
use wirecall.Common.{
  ℕ, ◌+◌, ◌*◌, ◌<◌, Bool, true, false, Bool-cases, inl, inr, ◌⊎◌, List, [], ◌∷◌, ltb, ◌==◌, ltb→lt,
  ltb→le, ne→==, ==_self, if◌then◌else◌, ◌≡◌, refl, ap, arith, ap₂, ◌≤◌, ◌≢◌, sym, ◌∙◌, subst,
}
use wirecall.Arena.{Store, FixedArena, clear, take_element, arena_alloc}
use wirecall.Arena.Invariant.{
  used_inside, element-apart, elsewhere, occurs, element, IsArena, Chain-ext, clear-other,
}

pub element-pos : (arena : FixedArena) (i : ℕ) → 0 < arena.base → 0 < element arena i
unfolding element
element-pos arena i h = omega arith

counted_once :
    (i j w : ℕ) (n : ℕ)
    → n ≡ (if ltb j w then 1 else 0)
    → i ≡ w
    → (if j == i then 1 else 0) + n ≡ (if ltb j (w + 1) then 1 else 0)
counted_once i j w n h e = ground arith

alone :
    (i : ℕ) (rest : List ℕ) (u : ℕ) (b : Bool)
    → occurs i (i ∷ rest) + u ≡ (if b then 1 else 0)
    → (occurs i rest ≡ 0) × (u ≡ 0)
unfolding occurs
alone i rest u b h = ground (arith, ==_self i)

-- The first free element is handed out.
from_list :
    (arena : FixedArena) (st : Store) (i : ℕ) (rest used : List ℕ)
    → IsArena arena st (i ∷ rest) used
    → (occurs i used ≡ 0)
      × IsArena
          (record arena { free_list = st arena.free_list })
          (clear (element arena i) arena.elem_size st)
          rest
          (i ∷ used)
unfolding occurs element
from_list arena st i rest used v =
    let (here, later) = v.chain in
    let (fresh, unused) = alone i rest (occurs i used) (ltb i arena.watermark) (v.parts i) in
    (
      unused,
      record {
        mapped = v.mapped;
        sized = v.sized;
        chain =
            Chain-ext arena (record arena { free_list = st arena.free_list }) st _
              (st arena.free_list) rest (λ j. refl)
              (λ j m. clear-other arena st i j v.sized (elsewhere i j rest fresh m)) later;
        parts = λ j. omega (arith, v.parts j);
        limit = v.limit;
        pages = v.pages;
      },
    )

parts_empty :
    (i : ℕ) (used : List ℕ) (w c : ℕ)
    → occurs i [] + occurs i used ≡ (if ltb i w then 1 else 0)
    → w ≡ c
    → occurs i used ≡ (if ltb i c then 1 else 0)
unfolding occurs
parts_empty i used w c h e = rw (← e) omega (arith, h)

-- With an empty list the next element is handed out.
from_pages :
    (arena : FixedArena) (st : Store) (used : List ℕ)
    → IsArena arena st [] used
    → arena.watermark < arena.capacity
    → (occurs arena.watermark used ≡ 0)
      × IsArena
          (record arena { watermark = arena.watermark + 1 })
          (clear (element arena arena.watermark) arena.elem_size st)
          []
          (arena.watermark ∷ used)
unfolding occurs
from_pages arena st used v room = (
  ground (arith, v.parts arena.watermark),
  record {
    mapped = v.mapped;
    sized = v.sized;
    chain = v.chain;
    parts = λ j. omega (
      arith,
      counted_once arena.watermark j arena.watermark (occurs j used) (omega (arith, v.parts j))
          refl,
    );
    limit = omega (arith, room);
    pages = v.pages;
  },
)

pub alloc_first :
    (arena : FixedArena) (st : Store) (p : ℕ)
    → arena.free_list ≡ p
    → 0 < p
    → arena_alloc arena st
      ≡ (p, record arena { free_list = st arena.free_list }, clear p arena.elem_size st)
unfolding arena_alloc take_element
alloc_first arena st p here positive =
    let there : (arena.free_list == 0) ≡ false =
      ne→== arena.free_list 0 (λ e. omega (arith, here, e)) in
    rw (there, there)
      (ap (λ q. (q, record arena { free_list = st arena.free_list }, clear q arena.elem_size st))
        here)

alloc_next :
    (arena : FixedArena) (st : Store)
    → arena.free_list ≡ 0
    → ltb arena.watermark arena.capacity ≡ true
    → 0 < arena.base
    → arena_alloc arena st ≡ (
      element arena arena.watermark,
      record arena { watermark = arena.watermark + 1 },
      clear (element arena arena.watermark) arena.elem_size st,
    )
unfolding arena_alloc take_element element
alloc_next arena st none room mapped =
    let empty : (arena.free_list == 0) ≡ true = rw none refl in
    let positive : (arena.base + arena.watermark * arena.elem_size == 0) ≡ false =
      ne→== (arena.base + arena.watermark * arena.elem_size) 0 (λ e. omega arith) in
    rw (empty, room, positive) refl

alloc_nothing :
    (arena : FixedArena) (st : Store)
    → arena.free_list ≡ 0
    → ltb arena.watermark arena.capacity ≡ false
    → arena_alloc arena st ≡ (0, arena, st)
unfolding arena_alloc take_element
alloc_nothing arena st none full =
    let empty : (arena.free_list == 0) ≡ true = rw none refl in rw (empty, full) refl

-- An allocation gives the address of an element that is not in use and adds it to those in use,
-- with its memory cleared and no other word changed; or it gives NULL and changes nothing, where
-- every element of the capacity is in use.
pub arena_alloc-IsArena :
    (arena : FixedArena) (st : Store) (free used : List ℕ)
    → IsArena arena st free used
    → ((i : ℕ) × (free' : List ℕ) × (arena' : FixedArena) × (arena_alloc arena st
          ≡ (element arena i, arena', clear (element arena i) arena.elem_size st))
        × (occurs i used ≡ 0)
        × IsArena arena' (clear (element arena i) arena.elem_size st) free' (i ∷ used))
      ⊎ ((arena_alloc arena st ≡ (0, arena, st))
          × ((i : ℕ) → occurs i used ≡ (if ltb i arena.capacity then 1 else 0)))
arena_alloc-IsArena arena st (i ∷ rest) used v =
    let (here, later) = v.chain in
    let (unused, w) = from_list arena st i rest used v in
    inl (
      i,
      rest,
      _,
      alloc_first arena st (element arena i) here (element-pos arena i v.mapped),
      unused,
      w,
    )
arena_alloc-IsArena arena st [] used v = elim (Bool-cases (ltb arena.watermark arena.capacity)) [
  | inl room ↦
      let (unused, w) = from_pages arena st used v (ltb→lt arena.watermark arena.capacity room) in
      inl (arena.watermark, [], _, alloc_next arena st v.chain room v.mapped, unused, w)
  | inr full ↦
      let end : arena.watermark ≡ arena.capacity =
        omega (arith, v.limit, ltb→le arena.watermark arena.capacity full) in
      inr (
        alloc_nothing arena st v.chain full,
        λ i. parts_empty i used arena.watermark arena.capacity (v.parts i) end,
      )
]

-- What an allocation leaves alone.
arena_alloc_kept :
    (arena : FixedArena) (st : Store)
    → ((arena_alloc arena st).1.base ≡ arena.base)
      × ((arena_alloc arena st).1.elem_size ≡ arena.elem_size)
      × ((arena_alloc arena st).1.bytes ≡ arena.bytes)
unfolding arena_alloc take_element
arena_alloc_kept arena st = elim (Bool-cases (arena.free_list == 0)) [
  | inr some_free ↦ rw some_free (refl, refl, refl)
  | inl no_free ↦ elim (Bool-cases (ltb arena.watermark arena.capacity)) [
    | inl room ↦ rw (no_free, room) (refl, refl, refl)
    | inr full ↦ rw (no_free, full) (refl, refl, refl)
  ]
]

-- An element that an allocation hands out lies inside the pages of the arena, and overlaps none of
-- those that were in use.
pub arena_alloc_apart :
    (arena : FixedArena) (st : Store) (free used : List ℕ) (p : ℕ) (arena' : FixedArena)
    (st' : Store)
    → IsArena arena st free used
    → arena_alloc arena st ≡ (p, arena', st')
    → p ≢ 0
    → (arena.base ≤ p)
      × (p + arena.elem_size ≤ arena.base + arena.bytes)
      × ((j : ℕ)
          → 0 < occurs j used
          → (element arena j + arena.elem_size ≤ p) ⊎ (p + arena.elem_size ≤ element arena j))
unfolding occurs element
arena_alloc_apart arena st free used p arena' st' v e real =
    elim (arena_alloc-IsArena arena st free used v) [
      | inr (none_left, full) ↦
          absurd (real (ap (λ (r : ℕ × FixedArena × Store). r.0) (sym e ∙ none_left)))
      | inl (i, free', after, given, unused, w) ↦
          let same : p ≡ element arena i =
            ap (λ (r : ℕ × FixedArena × Store). r.0) (sym e ∙ given) in
          let (base, size, bytes) = arena_alloc_kept arena st in
          let arena_same = ap (λ (r : ℕ × FixedArena × Store). r.1) given in
          let base' : after.base ≡ arena.base = ap FixedArena.base (sym arena_same) ∙ base in
          let size' : after.elem_size ≡ arena.elem_size =
            ap FixedArena.elem_size (sym arena_same) ∙ size in
          let bytes' : after.bytes ≡ arena.bytes = ap FixedArena.bytes (sym arena_same) ∙ bytes in
          let there : element after i ≡ element arena i = ap₂ (λ b n. b + i * n) base' size' in
          let here : 0 < occurs i (i ∷ used) = rw (==_self i) omega arith in
          let (low, high) = used_inside after _ free' (i ∷ used) i w here in
          (
            omega (arith, low, same, there, base'),
            omega (arith, high, same, there, size', base', bytes'),
            λ j used_j.
                subst
                  (λ q.
                    (element arena j + arena.elem_size ≤ q)
                    ⊎ (q + arena.elem_size ≤ element arena j))
                  (sym same) (element-apart arena i j (elsewhere i j used unused used_j)),
          )
    ]
