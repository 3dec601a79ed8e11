-- ===== src/Tests/Scheduler.antt =====
-- The scheduler at concrete inputs.
use wirecall.Words.{IsByte}
use wirecall.Protocol.Buffer.{present}
use wirecall.Memory.Ends.{Ends}
use wirecall.Scheduler.Pool.{Pool}
use wirecall.Scheduler.Submit.{scheduler_submit, kept, pooled, scheduler_submit-Ends}
use wirecall.Common.{
  List, ◌+◌, All, ltb, ℕ, zero, suc, ◌≤◌, ◌<◌, ◌==◌, false, Bool-cases, inl, inr, [], ◌∷◌, some, ok,
  ◌≡◌, refl, if◌then◌else◌, arith,
}
use wirecall.Arena.Invariant.{occurs}
use wirecall.Scheduler.{Ready, enqueue, dequeue}
use wirecall.Scheduler.Queue.{last_of, IsQueue}
use wirecall.Scheduler.Fifo.{enqueue-IsQueue, dequeue-IsQueue}
use wirecall.Scheduler.Run.{Resumed, yielded, returned, Scheduler, run_ready}
use wirecall.Scheduler.Turns.{total}
use wirecall.Scheduler.Rounds.{Waits, Done, run_ready-Done}

-- The calls at 8 and 16 wait.
abbrev two_calls : Ready
two_calls = record { head = 8; tail = 16; next_ready = λ c. if c == 8 then 16 else 0 }

two_calls-IsQueue : IsQueue two_calls (8 ∷ 16 ∷ [])
unfolding occurs last_of
two_calls-IsQueue = record {
  linked = (refl, (refl, refl));
  last = refl;
  once = λ c. ground arith;
  valid = refl;
}

enqueue-IsQueue_example : IsQueue (enqueue two_calls 24) (8 ∷ 16 ∷ 24 ∷ [])
unfolding occurs
enqueue-IsQueue_example =
    enqueue-IsQueue two_calls (8 ∷ 16 ∷ []) 24 two_calls-IsQueue (omega arith) refl

dequeue-IsQueue_example : (q : Ready) × (dequeue two_calls ≡ some (8, q)) × IsQueue q (16 ∷ [])
dequeue-IsQueue_example = dequeue-IsQueue two_calls (8 ∷ 16 ∷ []) two_calls-IsQueue

-- A handler that yields as often as its state says, and then returns 0.
abbrev countdown : ℕ → Resumed
countdown zero = returned 0
countdown (suc n) = yielded n

abbrev waiting : Scheduler
waiting = record {
  ready = two_calls;
  call_at = λ c. record {
    co = if c == 8 then 1 else 0;
    result = 0;
    has_error = false;
    completed = false;
  };
  done = [];
}

abbrev turns : ℕ → ℕ
turns c = if c == 8 then 2 else 1

waiting-Waits : (c : ℕ) → 0 < occurs c (8 ∷ 16 ∷ []) → Waits countdown turns waiting c
waiting-Waits c h = elim (Bool-cases (c == 8)) [
  | inl first ↦ record { open_yet = refl; ends = rw first tt }
  | inr other ↦ record { open_yet = refl; ends = rw other tt }
]

turns_enough : total turns (8 ∷ 16 ∷ []) ≤ 3
unfolding total
turns_enough = omega arith

run_ready-Done_example :
    (s : Scheduler) × (run_ready 3 countdown waiting ≡ ok s) × Done waiting (8 ∷ 16 ∷ []) s
run_ready-Done_example =
    run_ready-Done 3 countdown waiting (8 ∷ 16 ∷ []) turns two_calls-IsQueue waiting-Waits
      turns_enough

-- A payload with the string "hi" and the truth value true.
abbrev wire : List ℕ
wire = 6 ∷ 0 ∷ 0 ∷ 0 ∷ 2 ∷ 104 ∷ 105 ∷ 1 ∷ 1 ∷ []

wire-All : All IsByte wire
wire-All = ground arith

-- A scheduler whose calls are at 4 and 5.
abbrev pool : Pool
pool = record { elements = 4 ∷ 5 ∷ []; destroyed = [] }

scheduler_submit-Ends_example :
    Ends 3
      (λ r s'. (s'.live ≡ 3 + kept r.0) × (r.1 ≡ pooled r.0 pool))
      (scheduler_submit
        (λ n size. ltb n 3)
        (some 8)
        (some 1)
        (some 5)
        (present wire)
        pool
        (record { requests = 0; live = 3 }))
scheduler_submit-Ends_example =
    scheduler_submit-Ends 3 (λ n size. ltb n 3) (some 8) (some 1) (some 5) (present wire) pool
      (record { requests = 0; live = 3 }) wire-All
