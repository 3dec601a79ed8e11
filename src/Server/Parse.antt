-- ===== src/Server/Parse.antt =====
-- The loop of `parse_available` of src/server.c, over the function that handles a packet. The
-- list is what lies in `read_buf` from `off` on; `State` is all that a handler can change.
pub mod More
pub mod Split
pub mod Sent
pub mod Safe
use wirecall.Common.{
  ℕ, zero, suc, ◌+◌, Bool, true, false, List, length, drop, if◌then◌else◌, Outcome, ok, fail, fault,
  stuck,
}
use wirecall.Memory.{Run, unfinished, M, ◌>>=◌, ret, crash}
use wirecall.Protocol.Header.{Header, header_size}
use wirecall.Stream.Packet.{Settings, Front, partial, refused, packet, take_packet}

-- What a handler leaves: whether it gave 0, and the state.
abbrev pub Handler : Type 0 → Type 0
Handler State = Header → List ℕ → State → M (Bool × State)

-- Whether the loop has set `closing`, the bytes that it left, and the state.
pub record Parsed (State : Type 0) : Type 0 where
  pub closing : Bool
  pub left : List ℕ
  pub state : State

module _ {State : Type 0} where
  abbrev pub stop : Bool → List ℕ → State → M (Parsed State)
  stop closing buf state = ret (record { closing = closing; left = buf; state = state })

  abbrev pub go_on : List ℕ → M (Parsed State) → Bool × State → M (Parsed State)
  go_on buf next (handled, state) = if handled then next else stop true buf state

  -- One round, with the front of the buffer and the rounds that follow a packet.
  unfoldable pub parse_round :
      Handler State
      → (List ℕ → State → M (Parsed State))
      → List ℕ
      → State
      → Outcome Front
      → M (Parsed State)
  parse_round handle next buf state (ok (packet header payload)) =
      handle header payload state >>= λ r.
      go_on buf (next (drop (header_size + header.size) buf) r.1) r
  parse_round handle next buf state (ok partial) = stop false buf state
  parse_round handle next buf state (ok refused) = stop true buf state
  parse_round handle next buf state fail = stop true buf state
  parse_round handle next buf state fault = crash
  parse_round handle next buf state stuck = λ s. unfinished

  -- `while (conn->read_len - off >= WIRECALL_HEADER_SIZE)`
  unfoldable pub parse_loop : ℕ → Settings → Handler State → List ℕ → State → M (Parsed State)
  unfolding parse_round
  parse_loop zero set handle buf state = λ s. unfinished
  parse_loop (suc fuel) set handle buf state =
      parse_round handle (parse_loop fuel set handle) buf state (take_packet set buf)

  -- A round that does not end the loop takes 34 bytes at least.
  unfoldable pub parse : Settings → Handler State → List ℕ → State → M (Parsed State)
  unfolding parse_loop
  parse set handle buf state = parse_loop (suc (length buf)) set handle buf state
