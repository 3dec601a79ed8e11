-- ===== src/Scheduler/Pool.antt =====
-- The calls of a scheduler of src/scheduler.c, with `call_free`.
use wirecall.Common.{
  ℕ, ◌+◌, ◌-◌, Bool, true, Option, none, some, List, ◌∷◌, ◌==◌, if◌then◌else◌, without, in_use, ◌≡◌,
  refl, ap, ◌∙◌, arith,
}
use wirecall.Memory.{Mem, returned, M, ◌>>=◌, ◌>>◌, after, ret, crash, mem_free, count_block}
use wirecall.Memory.Ends.{mem_free_lem}
use wirecall.Payload.Decode.{Array, values_free}
use wirecall.Payload.Decode.Blocks.{IsArray, blocks, values_free_lem}
use wirecall.Payload.Writer.{Writer, writer_init, writer_free}

-- The calls of a scheduler: the elements of `call_arena` in use and the coroutines that were destroyed.
pub record Pool : Type 0 where
  pub elements : List ℕ
  pub destroyed : List ℕ

unfoldable pub destroy_coroutine : Option ℕ → Pool → Pool
destroy_coroutine none pool = pool
destroy_coroutine (some co) pool = record pool { destroyed = co ∷ pool.destroyed }

-- `wirecall_fixed_arena_free`, of an element that must be in use.
unfoldable pub free_element : ℕ → Pool → M Pool
unfolding without in_use
free_element slot pool =
    if in_use slot pool.elements
    then ret (record pool { elements = without slot pool.elements })
    else crash

-- `call_free`: the coroutine, the arguments, the response, the payload and the element.
unfoldable pub call_free : ℕ → Option ℕ → Array → Writer → Bool → Pool → M Pool
unfolding destroy_coroutine free_element
call_free slot co args response payload pool =
    values_free args
    >> (writer_free response >>= λ _.
        mem_free payload >> free_element slot (destroy_coroutine co pool))

-- The calls with a new one.
abbrev pub with_call : ℕ → Pool → Pool
with_call slot pool = record pool { elements = slot ∷ pool.elements }

free_element_lem :
    (slot : ℕ) (pool : Pool) (s : Mem) → free_element slot (with_call slot pool) s ≡ returned pool s
unfolding free_element in_use without
free_element_lem slot pool s = rw (refl_test slot) refl
  where
    refl_test : (n : ℕ) → (n == n) ≡ true
    refl_test n = ground arith

pub call_free_lem :
    (slot : ℕ) (args : Array) (payload : Bool) (pool : Pool) (base : ℕ) (s : Mem)
    → IsArray args
    → s.live ≡ base + (blocks args + count_block payload)
    → call_free slot none args writer_init payload (with_call slot pool) s
      ≡ returned pool (record s { live = base })
unfolding call_free destroy_coroutine writer_free mem_free
call_free_lem slot args payload pool base s v e =
    ap (λ r. after r (λ _. mem_free payload >> free_element slot (with_call slot pool)))
      (values_free_lem args (base + count_block payload) s v (omega (arith, e)))
    ∙ ap (λ r. after r (λ _. free_element slot (with_call slot pool)))
        (mem_free_lem payload (record s { live = base + count_block payload }) (omega arith))
    ∙ free_element_lem slot pool
        (record s { live = base + count_block payload - count_block payload })
    ∙ ap (λ k. returned pool (record s { live = k })) (omega arith)
