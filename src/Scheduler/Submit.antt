-- ===== src/Scheduler/Submit.antt =====
-- `wirecall_scheduler_submit` of src/scheduler.c, with the blocks and the element that a call owns.
-- The arena's answer (`slot`) and the coroutine library's (`created`: the state of a new coroutine)
-- are arguments. A call that was never resumed has no coroutine and no response when it is freed.
use wirecall.Common.{
  ℕ, ◌+◌, Bool, true, false, Bool-cases, inl, inr, Option, none, some, All, ltb, if◌then◌else◌, ◌≡◌,
  refl, arith, ◌∷◌,
}
use wirecall.Words.{IsByte}
use wirecall.Scheduler.Pool.{Pool, call_free, with_call, call_free_lem}
use wirecall.Protocol.Buffer.{Buffer, buffer_len, contents, dangling}
use wirecall.Memory.{Grants, Mem, M, ◌>>=◌, attempt, ret, mem_alloc, count_block}
use wirecall.Payload.Writer.{writer_init}
use wirecall.Memory.Ends.{Ends, Ends-after, Ends-attempt, mem_alloc-Ample}
use wirecall.Payload.Decode.{Array, no_array, payload_decode}
use wirecall.Payload.Decode.Blocks.{IsArray, blocks, no_array-IsArray}
use wirecall.Payload.Decode.Loop.{payload_decode-Ends}

-- What a submission leaves: -1 and nothing, or 0 with `done` called at once on a failed call (is the
-- payload malformed, or is there no coroutine?), or 0 with a call in the queue: its slot, coroutine,
-- arguments, and whether it has a payload block.
pub data Submission : Type 0 where
  refused : Submission
  answered : ℕ → Bool → Submission
  queued : ℕ → ℕ → Array → Bool → Submission

-- A freed call and what the caller is told.
unfoldable pub freed_with : ℕ → Array → Bool → Submission → Pool → M (Submission × Pool)
unfolding call_free
freed_with slot args payload answer pool =
    call_free slot none args writer_init payload pool >>= λ after_free. ret (answer, after_free)

-- The code after the arguments were decoded.
unfoldable pub start_call : ℕ → Option ℕ → Array → Bool → Pool → M (Submission × Pool)
unfolding freed_with
start_call slot none args block pool = freed_with slot args block (answered slot false) pool
start_call slot (some co) args block pool = ret (queued slot co args block, pool)

-- The code after the payload was copied.
unfoldable pub submit_copied : Grants → ℕ → Option ℕ → Buffer → Bool → Pool → M (Submission × Pool)
unfolding freed_with start_call
submit_copied grant slot created payload block pool s =
    attempt (payload_decode grant payload s) (λ args. start_call slot created args block pool)
      (freed_with slot no_array block (answered slot true) pool)

-- The code after the call was allocated.
unfoldable pub submit_slot : Grants → ℕ → Option ℕ → Buffer → Pool → M (Submission × Pool)
unfolding submit_copied freed_with
submit_slot grant slot created payload pool =
    if ltb 0 (buffer_len payload)
    then (do
      granted ← mem_alloc grant (buffer_len payload)
      if granted
          then submit_copied grant slot created payload true pool
          else freed_with slot no_array false refused pool)
    else submit_copied grant slot created payload false pool

unfoldable pub submit_in : Grants → Option ℕ → Option ℕ → Buffer → Pool → M (Submission × Pool)
unfolding submit_slot
submit_in grant none created payload pool = ret (refused, pool)
submit_in grant (some slot) created payload pool =
    submit_slot grant slot created payload (record pool { elements = slot ∷ pool.elements })

unfoldable pub scheduler_submit :
    Grants → Option ℕ → Option ℕ → Option ℕ → Buffer → Pool → M (Submission × Pool)
unfolding submit_in
scheduler_submit grant slot created none payload pool = ret (refused, pool)
scheduler_submit grant slot created (some handler) payload pool =
    if dangling payload then ret (refused, pool) else submit_in grant slot created payload pool

-- The blocks that stay with a submission.
abbrev pub kept : Submission → ℕ
kept refused = 0
kept (answered slot malformed) = 0
kept (queued slot co args payload) = blocks args + count_block payload

-- The calls after a submission: only a queued one keeps its element.
abbrev pub pooled : Submission → Pool → Pool
pooled refused pool = pool
pooled (answered slot malformed) pool = pool
pooled (queued slot co args payload) pool = record pool { elements = slot ∷ pool.elements }

-- What a submission leaves that found `base` live blocks and the calls `pool`.
abbrev pub Submitted : ℕ → Pool → Submission × Pool → Mem → Type 0
Submitted base pool r s = (s.live ≡ base + kept r.0) × (r.1 ≡ pooled r.0 pool)

freed_with-Submitted :
    (left base slot : ℕ) (args : Array) (block : Bool) (r : Submission) (pool : Pool) (s : Mem)
    → IsArray args
    → s.live ≡ base + (blocks args + count_block block)
    → kept r ≡ 0
    → pooled r pool ≡ pool
    → Ends left (Submitted base pool) (freed_with slot args block r (with_call slot pool) s)
unfolding freed_with
freed_with-Submitted left base slot args block r pool s v e nothing same =
    rw (call_free_lem slot args block pool base s v e) (omega (arith, nothing), cc)

start_call-Ends :
    (left base slot : ℕ) (created : Option ℕ) (args : Array) (block : Bool) (pool : Pool) (s : Mem)
    → IsArray args
    → s.live ≡ base + (blocks args + count_block block)
    → Ends left (Submitted base pool) (start_call slot created args block (with_call slot pool) s)
unfolding start_call
start_call-Ends left base slot none args block pool s v e =
    freed_with-Submitted left base slot args block (answered slot false) pool s v e refl refl
start_call-Ends left base slot (some co) args block pool s v e = (e, refl)

submit_copied-Ends :
    (left base : ℕ) (grant : Grants) (slot : ℕ) (created : Option ℕ) (payload : Buffer)
    (block : Bool) (pool : Pool) (s : Mem)
    → All IsByte (contents payload)
    → s.live ≡ base + count_block block
    → Ends left
        (Submitted base pool)
        (submit_copied grant slot created payload block (with_call slot pool) s)
unfolding submit_copied
submit_copied-Ends left base grant slot created payload block pool s all e =
    Ends-attempt left s.live _ _ (payload_decode grant payload s) _ _
      (payload_decode-Ends grant payload s all)
      (λ args s' p.
        start_call-Ends left base slot created args block pool s' p.array
          (omega (arith, p.live, e)))
      (λ s' h.
        freed_with-Submitted left base slot no_array block (answered slot true) pool s'
          no_array-IsArray (omega (arith, h, e)) refl refl)

submit_slot-Ends :
    (left : ℕ) (grant : Grants) (slot : ℕ) (created : Option ℕ) (payload : Buffer) (pool : Pool)
    (s : Mem)
    → All IsByte (contents payload)
    → Ends left
        (Submitted s.live pool)
        (submit_slot grant slot created payload (with_call slot pool) s)
unfolding submit_slot
submit_slot-Ends left grant slot created payload pool s all =
    elim (Bool-cases (ltb 0 (buffer_len payload))) [
      | inr empty ↦
          rw empty (
            submit_copied-Ends left s.live grant slot created payload false pool s all
              (omega arith))
      | inl some_bytes ↦ rw some_bytes (
          Ends-after left _ _ (mem_alloc grant (buffer_len payload) s) _
            (mem_alloc-Ample left grant (buffer_len payload) s)
            elim [
              | false ↦ λ s' (sure, live).
                  freed_with-Submitted left s.live slot no_array false refused pool s'
                    no_array-IsArray (omega (arith, live)) refl refl
              | true ↦ λ s' (sure, live).
                  submit_copied-Ends left s.live grant slot created payload true pool s' all live
            ])
    ]

-- With any allocator, any payload of bytes and whatever the arena and the coroutine library answer, a
-- submission neither crashes nor leaks a block or an element of the arena: where it is refused or
-- answered at once no block more is live than before and the elements in use are those before,
-- and a queued call has its element and owns all that is newly live, its arguments and the copy
-- of its payload.
pub scheduler_submit-Ends :
    (left : ℕ) (grant : Grants) (slot created handler : Option ℕ) (payload : Buffer) (pool : Pool)
    (s : Mem)
    → All IsByte (contents payload)
    → Ends left
        (λ r s'. (s'.live ≡ s.live + kept r.0) × (r.1 ≡ pooled r.0 pool))
        (scheduler_submit grant slot created handler payload pool s)
unfolding scheduler_submit submit_in
scheduler_submit-Ends left grant slot created none payload pool s all = (omega arith, refl)
scheduler_submit-Ends left grant none created (some handler) payload pool s all =
    elim (Bool-cases (dangling payload)) [
      | inl bad ↦ rw bad (omega arith, refl)
      | inr good ↦ rw good (omega arith, refl)
    ]
scheduler_submit-Ends left grant (some slot) created (some handler) payload pool s all =
    elim (Bool-cases (dangling payload)) [
      | inl bad ↦ rw bad (omega arith, refl)
      | inr good ↦ rw good (submit_slot-Ends left grant slot created payload pool s all)
    ]
