-- ===== src/Arena/Return.antt =====
-- What `wirecall_fixed_arena_free` of include/arena.h takes back.
use wirecall.Common.{
  ℕ, ◌+◌, ◌<◌, Bool, Bool-cases, inl, inr, List, [], ◌∷◌, ltb, ◌==◌, ==→eq, ne→==, ==_self,
  if◌then◌else◌, ◌≡◌, refl, sym, ap, ◌∙◌, subst, arith,
}
use wirecall.Arena.{Store, FixedArena, clear, write_word, arena_alloc, arena_free}
use wirecall.Arena.Invariant.{
  elsewhere, occurs, element, Chain, IsArena, Chain-ext, write_word-other,
}
use wirecall.Arena.Handout.{alloc_first, element-pos}

-- Without the first occurrence of a number.
unfoldable pub remove : ℕ → List ℕ → List ℕ
remove i [] = []
remove i (j ∷ js) = if i == j then js else j ∷ remove i js

occurs-remove :
    (i j : ℕ) (js : List ℕ)
    → 0 < occurs i js
    → occurs j (remove i js) + (if j == i then 1 else 0) ≡ occurs j js
unfolding occurs remove
occurs-remove i j [] h = absurd (omega arith)
occurs-remove i j (k ∷ js) h = elim (Bool-cases (i == k)) [
  | inl same ↦ rw (same, ==→eq i k same) omega arith
  | inr other ↦
      let h' : 0 < (if i == k then 1 else 0) + occurs i js = h in
      let m : 0 < occurs i js = ground (arith, h', other) in
      rw other omega (arith, occurs-remove i j js m)
]

write_word_self : (p word : ℕ) (st : Store) → write_word p word st p ≡ word
unfolding write_word
write_word_self p word st = rw (==_self p) refl

arena_free_lem :
    (arena : FixedArena) (st : Store) (p : ℕ)
    → 0 < p
    → arena_free arena st p ≡ (record arena { free_list = p }, write_word p arena.free_list st)
unfolding arena_free
arena_free_lem arena st p h = rw (ne→== p 0 (λ e. omega arith)) refl

unused_free : (i : ℕ) (n m : ℕ) (b : Bool) → n + m ≡ (if b then 1 else 0) → 0 < m → n ≡ 0
unused_free i n m b h p = ground arith

taken_back :
    (arena : FixedArena) (st : Store) (free used : List ℕ) (i : ℕ)
    → IsArena arena st free used
    → 0 < occurs i used
    → IsArena
        (record arena { free_list = element arena i })
        (write_word (element arena i) arena.free_list st)
        (i ∷ free)
        (remove i used)
unfolding occurs element
taken_back arena st free used i v h =
    let st' = write_word (element arena i) arena.free_list st in
    let absent =
      unused_free i (occurs i free) (occurs i used) (ltb i arena.watermark) (v.parts i) h in
    record {
      mapped = v.mapped;
      sized = v.sized;
      chain = (
        refl,
        subst (λ p. Chain (record arena { free_list = element arena i }) st' p free)
            (sym (write_word_self (element arena i) arena.free_list st))
            (Chain-ext arena (record arena { free_list = element arena i }) st st' arena.free_list
              free (λ j. refl)
              (λ j m.
                write_word-other arena st arena.free_list i j v.sized (elsewhere i j free absent m))
              v.chain),
      );
      parts = λ j. omega (arith, v.parts j, occurs-remove i j used h);
      limit = v.limit;
      pages = v.pages;
    }

-- Freeing an element that is in use puts it before the free ones, and takes it from those in use.
pub arena_free-IsArena :
    (arena : FixedArena) (st : Store) (free used : List ℕ) (i : ℕ)
    → IsArena arena st free used
    → 0 < occurs i used
    → IsArena
        (arena_free arena st (element arena i)).0
        (arena_free arena st (element arena i)).1
        (i ∷ free)
        (remove i used)
arena_free-IsArena arena st free used i v h =
    rw (arena_free_lem arena st (element arena i) (element-pos arena i v.mapped))
      (taken_back arena st free used i v h)

-- The element that was freed last is handed out next, cleared, and the arena is as before.
pub arena_alloc-arena_free :
    (arena : FixedArena) (st : Store) (p : ℕ)
    → 0 < p
    → arena_alloc (arena_free arena st p).0 (arena_free arena st p).1
      ≡ (p, arena, clear p arena.elem_size (write_word p arena.free_list st))
arena_alloc-arena_free arena st p h = rw (arena_free_lem arena st p h) (
    alloc_first (record arena { free_list = p }) (write_word p arena.free_list st) p refl h
    ∙ ap
        (λ q. (
          p,
          record arena { free_list = q },
          clear p arena.elem_size (write_word p arena.free_list st),
        ))
        (write_word_self p arena.free_list st))
