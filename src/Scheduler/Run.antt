-- ===== src/Scheduler/Run.antt =====
-- `call_entry`, `call_resume` and `wirecall_scheduler_run_ready` of src/scheduler.c. The coroutine
-- library and the handlers are the parameter `resume`: what comes of resuming a coroutine in a
-- given state. An int is its 32-bit pattern. The log has the calls of `done`, each with the call's
-- address and contents; how a finished call is freed is left out.
use wirecall.Common.{
  ℕ, zero, suc, ◌-◌, ◌^◌, Bool, true, false, not, ◌&&◌, ◌||◌, Option, none, some, List, [], ◌∷◌,
  ◌++◌, ◌==◌, if◌then◌else◌, Outcome, ok, stuck,
}
use wirecall.Scheduler.{Ready, enqueue, dequeue}

-- The handler yields and leaves a new state, it returns, or the coroutine cannot be resumed.
pub data Resumed : Type 0 where
  yielded : ℕ → Resumed
  returned : ℕ → Resumed
  broken : Resumed

pub record Call : Type 0 where
  pub co : ℕ
  pub result : ℕ
  pub has_error : Bool
  pub completed : Bool

pub record Scheduler : Type 0 where
  pub ready : Ready
  pub call_at : ℕ → Call
  pub done : List (ℕ × Call)

-- The end of `call_entry`.
unfoldable pub call_entry : Call → ℕ → Call
call_entry call result = record call {
  result = result;
  completed = true;
  has_error = call.has_error || not (result == 0);
}

-- The call after it was resumed, and whether its coroutine is suspended.
unfoldable pub call_resume : Resumed → Call → Call × Bool
call_resume (yielded co) call = (record call { co = co }, true)
call_resume (returned result) call = (call_entry call result, false)
call_resume broken call =
    (record call { has_error = true; result = 2 ^ 32 - 1; completed = true }, false)

unfoldable pub put_call : ℕ → Call → (ℕ → Call) → ℕ → Call
put_call c call calls = λ d. if d == c then call else calls d

-- One round of the loop, with the call that was dequeued.
unfoldable pub run_call : (ℕ → Resumed) → Scheduler → ℕ → Ready → Scheduler
run_call resume s c left =
    let (call, suspended) = call_resume (resume (s.call_at c).co) (s.call_at c) in
    if not call.completed && suspended
    then record s { ready = enqueue left c; call_at = put_call c call s.call_at }
    else record {
      ready = left;
      call_at = put_call c call s.call_at;
      done = s.done ++ (c, call) ∷ [];
    }

abbrev pub with_call :
    Option (ℕ × Ready) → Scheduler → (ℕ → Ready → Outcome Scheduler) → Outcome Scheduler
with_call none s round = ok s
with_call (some (c, left)) s round = round c left

-- `while ((call = dequeue(scheduler)) != NULL)`
unfoldable pub run_ready : ℕ → (ℕ → Resumed) → Scheduler → Outcome Scheduler
run_ready zero resume s = with_call (dequeue s.ready) s (λ c left. stuck)
run_ready (suc fuel) resume s =
    with_call (dequeue s.ready) s (λ c left. run_ready fuel resume (run_call resume s c left))
