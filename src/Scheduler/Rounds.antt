-- ===== src/Scheduler/Rounds.antt =====
-- The rounds of `wirecall_scheduler_run_ready` of src/scheduler.c.
use wirecall.Common.{
  ℕ, zero, suc, ◌-◌, ◌^◌, ◌≤◌, ◌<◌, true, false, Bool-cases, inl, inr, ◌⊎◌, List, [], ◌∷◌, ◌++◌,
  map, All, ◌==◌, ==→eq, ==→ne, ==_self, ok, ◌≡◌, refl, sym, ◌∙◌, arith, append_assoc, append-nil,
}
use wirecall.Arena.Invariant.{occurs, elsewhere}
use wirecall.Scheduler.{Ready, enqueue}
use wirecall.Scheduler.Queue.{IsQueue, occurs-append, once_head}
use wirecall.Scheduler.Fifo.{dequeue-none, head_positive, enqueue-IsQueue, dequeue-IsQueue}
use wirecall.Scheduler.Run.{
  Resumed, yielded, returned, broken, Call, Scheduler, call_entry, call_resume, put_call, run_call,
  run_ready,
}
use wirecall.Scheduler.Turns.{
  Then, Finishes, total, Finishes-step, less_turn, total_requeue, occurs_first, total-more,
  total_finish, put_call_other, put_call_self,
}

-- A call that waits: not completed, and its handler ends in its number of turns.
pub record Waits (resume : ℕ → Resumed) (turns : ℕ → ℕ) (s : Scheduler) (c : ℕ) : Type 0 where
  pub open_yet : (s.call_at c).completed ≡ false
  pub ends : Finishes resume (turns c) (s.call_at c).co

-- What the loop leaves.
pub record Done (s : Scheduler) (calls : List ℕ) (s' : Scheduler) : Type 0 where
  pub drained : IsQueue s'.ready []
  pub finished : List (ℕ × Call)
  pub log : s'.done ≡ s.done ++ finished
  pub completed : All (λ e. e.1.completed ≡ true) finished
  pub each : (c : ℕ) → occurs c (map (λ e. e.0) finished) ≡ occurs c calls

abbrev requeued : Scheduler → ℕ → Ready → Call → Scheduler
requeued s c left call = record s { ready = enqueue left c; call_at = put_call c call s.call_at }

abbrev finished_call : Scheduler → ℕ → Ready → Call → Scheduler
finished_call s c left call = record {
  ready = left;
  call_at = put_call c call s.call_at;
  done = s.done ++ (c, call) ∷ [];
}

-- A round either puts the call back or finishes it.
round_cases :
    (resume : ℕ → Resumed) (s : Scheduler) (c : ℕ) (left : Ready) (P : ℕ → Type 0)
    → (s.call_at c).completed ≡ false
    → Then (resume (s.call_at c).co) P
    → ((call : Call) × (run_call resume s c left ≡ requeued s c left call)
        × (call.completed ≡ false)
        × P call.co)
      ⊎ ((call : Call) × (run_call resume s c left ≡ finished_call s c left call)
          × (call.completed ≡ true))
unfolding run_call call_resume call_entry
round_cases resume s c left P still h = go (resume (s.call_at c).co) refl h
  where
    go :
        (r : Resumed)
        → resume (s.call_at c).co ≡ r
        → Then r P
        → ((call : Call) × (run_call resume s c left ≡ requeued s c left call)
            × (call.completed ≡ false)
            × P call.co)
          ⊎ ((call : Call) × (run_call resume s c left ≡ finished_call s c left call)
              × (call.completed ≡ true))
    go (yielded co) e p = inl (record (s.call_at c) { co = co }, rw (e, still) refl, still, p)
    go (returned result) e p = inr (call_entry (s.call_at c) result, rw e refl, refl)
    go broken e p = inr (
      record (s.call_at c) { has_error = true; result = 2 ^ 32 - 1; completed = true },
      rw e refl,
      refl,
    )

Waits-other :
    (resume : ℕ → Resumed) (turns turns' : ℕ → ℕ) (s s' : Scheduler) (d : ℕ)
    → turns' d ≡ turns d
    → s'.call_at d ≡ s.call_at d
    → Waits resume turns s d
    → Waits resume turns' s' d
Waits-other resume turns turns' s s' d e f w = record {
  open_yet = rw f w.open_yet;
  ends = rw (e, f) w.ends;
}

-- The calls that wait after a call was put back.
Waits-requeued :
    (resume : ℕ → Resumed) (turns : ℕ → ℕ) (s : Scheduler) (c : ℕ) (rest : List ℕ) (left : Ready)
    (call : Call)
    → ((d : ℕ) → 0 < occurs d (c ∷ rest) → Waits resume turns s d)
    → call.completed ≡ false
    → Finishes resume (turns c - 1) call.co
    → (d : ℕ) → 0 < occurs d (rest ++ c ∷ [])
    → Waits resume (less_turn c turns) (requeued s c left call) d
unfolding occurs
Waits-requeued resume turns s c rest left call w still ends d m = elim (Bool-cases (d == c)) [
  | inl same ↦ rw (==→eq d c same) record {
    open_yet = rw (put_call_self c call s.call_at) still;
    ends = rw (put_call_self c call s.call_at, ==_self c) ends;
  }
  | inr other ↦
      let there : 0 < occurs d rest = ground (arith, occurs-append d c rest, m, other) in
      Waits-other resume turns (less_turn c turns) s (requeued s c left call) d (rw other refl)
        (put_call_other c d call s.call_at (==→ne d c other)) (w d (omega (arith, there)))
]

-- The calls that wait after a call was finished.
Waits-finished :
    (resume : ℕ → Resumed) (turns : ℕ → ℕ) (s : Scheduler) (c : ℕ) (rest : List ℕ) (left : Ready)
    (call : Call)
    → occurs c rest ≡ 0
    → ((d : ℕ) → 0 < occurs d (c ∷ rest) → Waits resume turns s d)
    → (d : ℕ) → 0 < occurs d rest
    → Waits resume turns (finished_call s c left call) d
unfolding occurs
Waits-finished resume turns s c rest left call gone w d m =
    Waits-other resume turns turns s (finished_call s c left call) d refl
      (put_call_other c d call s.call_at (elsewhere c d rest gone m)) (w d (omega (arith, m)))

Done-requeued :
    (s : Scheduler) (c : ℕ) (rest : List ℕ) (left : Ready) (call : Call) (s' : Scheduler)
    → Done (requeued s c left call) (rest ++ c ∷ []) s'
    → Done s (c ∷ rest) s'
unfolding occurs
Done-requeued s c rest left call s' h = record {
  completed = h.completed;
  drained = h.drained;
  finished = h.finished;
  log = h.log;
  each = λ d. omega (arith, h.each d, occurs-append d c rest);
}

Done-finished :
    (s : Scheduler) (c : ℕ) (rest : List ℕ) (left : Ready) (call : Call) (s' : Scheduler)
    → call.completed ≡ true
    → Done (finished_call s c left call) rest s'
    → Done s (c ∷ rest) s'
unfolding occurs
Done-finished s c rest left call s' e h = record {
  completed = (e, h.completed);
  drained = h.drained;
  finished = (c, call) ∷ h.finished;
  log = h.log ∙ append_assoc s.done ((c, call) ∷ []) h.finished;
  each = λ d. omega (arith, h.each d);
}

Done-none : (s : Scheduler) → IsQueue s.ready [] → Done s [] s
unfolding occurs
Done-none s q = record {
  drained = q;
  finished = [];
  completed = tt;
  log = sym (append-nil s.done);
  each = λ c. refl;
}

-- Where the handler of each call in the queue ends after a number of resumptions, their sum is fuel
-- enough: `run_ready` ends with an empty queue, and `done` was called once for each call of the
-- queue, completed, and for no other.
pub run_ready-Done :
    (fuel : ℕ) (resume : ℕ → Resumed) (s : Scheduler) (calls : List ℕ) (turns : ℕ → ℕ)
    → IsQueue s.ready calls
    → ((c : ℕ) → 0 < occurs c calls → Waits resume turns s c)
    → total turns calls ≤ fuel
    → (s' : Scheduler) × (run_ready fuel resume s ≡ ok s') × Done s calls s'
unfolding run_ready
run_ready-Done zero resume s [] turns q w f = (s, rw (dequeue-none s.ready q) refl, Done-none s q)
run_ready-Done (suc fuel) resume s [] turns q w f =
    (s, rw (dequeue-none s.ready q) refl, Done-none s q)
run_ready-Done zero resume s (c ∷ rest) turns q w f =
    let (more, ends) =
      Finishes-step resume (turns c) (s.call_at c).co (w c (occurs_first c rest)).ends in
    absurd (omega (arith, f, total-more turns c rest more))
run_ready-Done (suc fuel) resume s (c ∷ rest) turns q w f =
    let first = w c (occurs_first c rest) in
    let (more, next) = Finishes-step resume (turns c) (s.call_at c).co first.ends in
    let (left, out, v) = dequeue-IsQueue s.ready (c ∷ rest) q in
    let gone = once_head c rest (q.once c) in
    elim (round_cases resume s c left (λ co. Finishes resume (turns c - 1) co) first.open_yet
      next) [
        | inl (call, ran, still, ends) ↦
            let (s', runs, done) =
              run_ready-Done fuel resume (requeued s c left call) (rest ++ c ∷ [])
                (less_turn c turns)
                (enqueue-IsQueue left rest c v (head_positive c rest q.valid) gone)
                (Waits-requeued resume turns s c rest left call w still ends)
                (total_requeue turns c rest fuel gone more f) in
            (s', rw (out, ran) runs, Done-requeued s c rest left call s' done)
        | inr (call, ran, over) ↦
            let (s', runs, done) =
              run_ready-Done fuel resume (finished_call s c left call) rest turns v
                (Waits-finished resume turns s c rest left call gone w)
                (total_finish turns c rest fuel more f) in
            (s', rw (out, ran) runs, Done-finished s c rest left call s' over done)
      ]
