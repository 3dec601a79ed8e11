-- ===== src/Server/Calls/Once.antt =====
-- `wirecall_deferred_complete` and `wirecall_deferred_fail` of src/server.c called more than once. The
-- exchange of `completed` is atomic, so that calls from several threads come one after the other.
use wirecall.Common.{ℕ, Bool, true, false, List, [], ◌∷◌, ◌++◌, ==_self, ◌≡◌, refl, ap, ◌∙◌, map}
use wirecall.Server.{Deferred, Worker, put, put_deferred}
use wirecall.Server.Calls.{deferred_complete, deferred_fail, error_text, worker_queue_completed}

-- One call of the two functions.
pub data Attempt : Type 0 where
  complete : Attempt
  fail_with : List ℕ → Attempt

abbrev pub make : ℕ → Attempt → Worker → Bool × Worker
make k complete w = deferred_complete k w
make k (fail_with message) w = deferred_fail k message w

-- Such calls in a row, with what each gives.
abbrev pub make_all : ℕ → List Attempt → Worker → List Bool × Worker
make_all k [] w = ([], w)
make_all k (a ∷ more) w =
    let (done, w') = make k a w in let (rest, w'') = make_all k more w' in (done ∷ rest, w'')

-- The call more an attempt that succeeds leaves it.
abbrev pub ended : Attempt → Deferred → Deferred
ended complete call = record call { completed = true; result = true }
ended (fail_with message) call = record call {
  completed = true;
  result = false;
  error = error_text message;
}

pub make_first :
    (k : ℕ) (a : Attempt) (w : Worker)
    → (w.call_at k).completed ≡ false
    → make k a w ≡ (true, worker_queue_completed k (put_deferred k (ended a (w.call_at k)) w))
unfolding deferred_complete deferred_fail
make_first k complete w e = rw e refl
make_first k (fail_with message) w e = rw e refl

pub make_again :
    (k : ℕ) (a : Attempt) (w : Worker) → (w.call_at k).completed ≡ true → make k a w ≡ (false, w)
unfolding deferred_complete deferred_fail
make_again k complete w e = rw e refl
make_again k (fail_with message) w e = rw e refl

make_all_again :
    (k : ℕ) (more : List Attempt) (w : Worker)
    → (w.call_at k).completed ≡ true
    → make_all k more w ≡ (map (λ a. false) more, w)
make_all_again k [] w e = refl
make_all_again k (a ∷ more) w e =
    ap (λ (r : Bool × Worker). (let (rest, w'') = make_all k more r.1 in (r.0 ∷ rest, w'')))
      (make_again k a w e)
    ∙ ap (λ (r : List Bool × Worker). (false ∷ r.0, r.1)) (make_all_again k more w e)

-- The state that the first attempt leaves.
abbrev pub first_ended : ℕ → Attempt → Worker → Worker
first_ended k a w = worker_queue_completed k (put_deferred k (ended a (w.call_at k)) w)

call_at-first_ended :
    (k : ℕ) (a : Attempt) (w : Worker) → (first_ended k a w).call_at k ≡ ended a (w.call_at k)
unfolding worker_queue_completed put_deferred put
call_at-first_ended k a w = rw (==_self k) refl

ended-completed : (a : Attempt) (call : Deferred) → (ended a call).completed ≡ true
ended-completed complete call = refl
ended-completed (fail_with message) call = refl

-- Of any number of calls of `wirecall_deferred_complete` and `wirecall_deferred_fail` on a deferred call
-- that is not completed, the first alone takes effect and gives 0; the others give -1 and change
-- nothing, so that the call is queued once, with the result of the first.
pub make_all_once :
    (k : ℕ) (a : Attempt) (more : List Attempt) (w : Worker)
    → (w.call_at k).completed ≡ false
    → (make_all k (a ∷ more) w ≡ (true ∷ map (λ a. false) more, first_ended k a w))
      × ((first_ended k a w).completed ≡ w.completed ++ k ∷ [])
      × ((first_ended k a w).call_at k ≡ ended a (w.call_at k))
unfolding worker_queue_completed put_deferred
make_all_once k a more w e =
    let here = call_at-first_ended k a w in
    let done : ((first_ended k a w).call_at k).completed ≡ true =
      ap (λ (call : Deferred). call.completed) here ∙ ended-completed a (w.call_at k) in
    (
      ap (λ (r : Bool × Worker). (let (rest, w'') = make_all k more r.1 in (r.0 ∷ rest, w'')))
            (make_first k a w e)
          ∙ ap (λ (r : List Bool × Worker). (true ∷ r.0, r.1))
              (make_all_again k more (first_ended k a w) done),
      refl,
      here,
    )
