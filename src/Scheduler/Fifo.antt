-- ===== src/Scheduler/Fifo.antt =====
-- `enqueue` and `dequeue` of src/scheduler.c against lists.
use wirecall.Common.{
  none, ℕ, ◌≤◌, ◌<◌, true, false, Bool-cases, inl, inr, some, List, [], ◌∷◌, ◌++◌, ◌==◌, ==→eq,
  ne→==, if◌then◌else◌, ◌≡◌, refl, sym, ap, ◌∙◌, arith,
}
use wirecall.Arena.Invariant.{occurs, elsewhere}
use wirecall.Scheduler.{Ready, link, enqueue, dequeue}
use wirecall.Scheduler.Queue.{
  Linked, last_of, IsQueue, occurs-last_of, occurs-append, last_of-append, link_self, link_other,
  Linked-ext, once_head, once_rest, Linked-append,
}

positive : (c : ℕ) (calls : List ℕ) → occurs 0 calls ≡ 0 → 0 < occurs c calls → 0 < c
positive c calls v m = let h = elsewhere 0 c calls v m in omega (arith, h)

pub head_positive : (c : ℕ) (rest : List ℕ) → occurs 0 (c ∷ rest) ≡ 0 → 0 < c
unfolding occurs
head_positive c rest h = ground arith

rest_valid : (c : ℕ) (rest : List ℕ) → occurs 0 (c ∷ rest) ≡ 0 → occurs 0 rest ≡ 0
unfolding occurs
rest_valid c rest h = omega (arith, h)

single : (c d : ℕ) → occurs c (d ∷ []) ≤ 1
unfolding occurs
single c d = ground arith

append_once :
    (c call : ℕ) (calls : List ℕ)
    → occurs c calls ≤ 1
    → occurs call calls ≡ 0
    → occurs c (calls ++ call ∷ []) ≤ 1
unfolding occurs
append_once c call calls h fresh = elim (Bool-cases (c == call)) [
  | inl same ↦
      rw (occurs-append c call calls, same) omega
        (arith, ap (λ k. occurs k calls) (==→eq c call same), fresh)
  | inr other ↦ rw (occurs-append c call calls, other) omega (arith, h)
]

append_valid :
    (call : ℕ) (calls : List ℕ) → 0 < call → occurs 0 calls ≡ 0 → occurs 0 (calls ++ call ∷ []) ≡ 0
unfolding occurs
append_valid call calls p h =
    let other : (0 == call) ≡ false = ne→== 0 call (λ e. omega (arith, e)) in
    rw (occurs-append 0 call calls, other) omega (arith, h)

enqueue_first :
    (q : Ready) (call : ℕ)
    → q.tail ≡ 0
    → enqueue q call ≡ record { head = call; tail = call; next_ready = link call 0 q.next_ready }
unfolding enqueue
enqueue_first q call h = let e : (q.tail == 0) ≡ true = rw h refl in rw e refl

enqueue_later :
    (q : Ready) (call : ℕ)
    → 0 < q.tail
    → enqueue q call ≡ record {
      head = q.head;
      tail = call;
      next_ready = link q.tail call (link call 0 q.next_ready);
    }
unfolding enqueue
enqueue_later q call h = rw (ne→== q.tail 0 (λ e. omega arith)) refl

-- A call that is not in the queue joins it at the end.
pub enqueue-IsQueue :
    (q : Ready) (calls : List ℕ) (call : ℕ)
    → IsQueue q calls
    → 0 < call
    → occurs call calls ≡ 0
    → IsQueue (enqueue q call) (calls ++ call ∷ [])
unfolding last_of
enqueue-IsQueue q [] call v p fresh = rw (enqueue_first q call v.last) record {
  linked = (refl, link_self call 0 q.next_ready);
  last = refl;
  once = λ c. single c call;
  valid = append_valid call [] p v.valid;
}
enqueue-IsQueue q (c ∷ rest) call v p fresh =
    let end = occurs-last_of c rest in
    rw (enqueue_later q call (rw v.last (positive (last_of (c ∷ rest)) (c ∷ rest) v.valid end)))
      record {
        linked =
            Linked-append q.next_ready (link q.tail call (link call 0 q.next_ready)) call c rest
              q.head v.once
              (λ d m ne.
                link_other q.tail call d _ (λ e. ne (e ∙ v.last))
                ∙ link_other call 0 d q.next_ready (elsewhere call d (c ∷ rest) fresh m))
              (ap (link q.tail call (link call 0 q.next_ready)) (sym v.last)
                ∙ link_self q.tail call _)
              (link_other q.tail call call _
                  (λ e. elsewhere call _ (c ∷ rest) fresh end (sym (e ∙ v.last)))
                ∙ link_self call 0 q.next_ready)
              v.linked;
        last = sym (last_of-append c call rest);
        once = λ d. append_once d call (c ∷ rest) (v.once d) fresh;
        valid = append_valid call (c ∷ rest) p v.valid;
      }

new_tail :
    (next tail c : ℕ) (rest : List ℕ) (links : ℕ → ℕ)
    → Linked links next rest
    → occurs 0 rest ≡ 0
    → tail ≡ last_of (c ∷ rest)
    → (if next == 0 then 0 else tail) ≡ last_of rest
unfolding last_of
new_tail next tail c [] links l v h = let e : (next == 0) ≡ true = rw l refl in rw e refl
new_tail next tail c (d ∷ rest) links (here, later) v h =
    let p = head_positive d rest v in rw (ne→== next 0 (λ e. omega (arith, e, here, p))) h

dequeue_first :
    (q : Ready) (c : ℕ) (rest : List ℕ)
    → IsQueue q (c ∷ rest)
    → (q' : Ready) × (dequeue q ≡ some (c, q')) × IsQueue q' rest
unfolding dequeue
dequeue_first q c rest v =
    let (here, later) = v.linked in
    let p = head_positive c rest v.valid in
    let gone = once_head c rest (v.once c) in
    (
      record {
        head = q.next_ready c;
        tail = if q.next_ready c == 0 then 0 else q.tail;
        next_ready = link c 0 q.next_ready;
      },
      rw (here, ne→== c 0 (λ e. omega (arith, e, p))) refl,
      record {
        linked =
            Linked-ext q.next_ready (link c 0 q.next_ready) (q.next_ready c) rest
              (λ d m. link_other c 0 d q.next_ready (elsewhere c d rest gone m)) later;
        last =
            new_tail (q.next_ready c) q.tail c rest q.next_ready later (rest_valid c rest v.valid)
              v.last;
        once = λ d. once_rest c d rest (v.once d);
        valid = rest_valid c rest v.valid;
      },
    )

pub dequeue-none : (q : Ready) → IsQueue q [] → dequeue q ≡ none
unfolding dequeue
dequeue-none q v = let e : (q.head == 0) ≡ true = rw v.linked refl in rw e refl

-- What `dequeue` gives from a queue of these calls.
abbrev pub Dequeued : Ready → List ℕ → Type 0
Dequeued q [] = dequeue q ≡ none
Dequeued q (c ∷ rest) = (q' : Ready) × (dequeue q ≡ some (c, q')) × IsQueue q' rest

-- The first call leaves the queue, and the others stay in it in their order; an empty queue gives
-- none.
pub dequeue-IsQueue : (q : Ready) (calls : List ℕ) → IsQueue q calls → Dequeued q calls
dequeue-IsQueue q [] v = dequeue-none q v
dequeue-IsQueue q (c ∷ rest) v = dequeue_first q c rest v
