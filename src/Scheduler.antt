-- ===== src/Scheduler.antt =====
-- The ready queue of src/scheduler.c: `head`, `tail` and the `next_ready` of each call. A call is its
-- address, and 0 is NULL.
pub mod Queue
pub mod Fifo
pub mod Run
pub mod Turns
pub mod Rounds
pub mod Pool
pub mod Submit
use wirecall.Common.{ℕ, Bool, not, Option, none, some, ◌==◌, if◌then◌else◌}

pub record Ready : Type 0 where
  pub head : ℕ
  pub tail : ℕ
  pub next_ready : ℕ → ℕ

-- `call->next_ready = next`
unfoldable pub link : ℕ → ℕ → (ℕ → ℕ) → ℕ → ℕ
link call next links = λ c. if c == call then next else links c

abbrev pub empty : Ready
empty = record { head = 0; tail = 0; next_ready = λ call. 0 }

-- `enqueue`, which always gives 0.
unfoldable pub enqueue : Ready → ℕ → Ready
enqueue q call =
    let ended = link call 0 q.next_ready in
    if not (q.tail == 0)
    then record { head = q.head; tail = call; next_ready = link q.tail call ended }
    else record { head = call; tail = call; next_ready = ended }

unfoldable pub dequeue : Ready → Option (ℕ × Ready)
dequeue q =
    if q.head == 0
    then none
    else (let next = q.next_ready q.head in
        some (
          q.head,
          record {
            head = next;
            tail = if next == 0 then 0 else q.tail;
            next_ready = link q.head 0 q.next_ready;
          },
        ))
