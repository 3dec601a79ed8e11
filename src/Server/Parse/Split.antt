-- ===== src/Server/Parse/Split.antt =====
-- `parse_available` of src/server.c on bytes that arrive in two parts.
use wirecall.Common.{
  ℕ, zero, suc, ◌+◌, ◌≤◌, ◌<◌, Bool, true, false, List, ◌++◌, length, drop, ok, ◌≡◌, refl, sym, ap,
  ◌∙◌, arith, length-drop, All, All-drop, append-nil, if◌then◌else◌, [], ◌||◌,
}
use wirecall.Words.{IsByte}
use wirecall.Memory.{Mem, Run, returned, failed, crashed, unfinished, M, after}
use wirecall.Protocol.Header.{Header, header_size}
use wirecall.Stream.Packet.{Settings, packet, refused, partial, take_packet}
use wirecall.Server.Parse.{Handler, Parsed, stop, go_on, parse_round, parse_loop, parse}
use wirecall.Server.Parse.More.{front_cases, waiting, bad, whole}

pub after_same {ℓ κ} :
    {A : Type ℓ} {B : Type κ} (r : Run A) (f g : A → Mem → Run B)
    → ((a : A) (s : Mem) → f a s ≡ g a s)
    → after r f ≡ after r g
after_same (returned a s) f g h = h a s
after_same (failed s) f g h = refl
after_same crashed f g h = refl
after_same unfinished f g h = refl

pub drop_short :
    (buf : List ℕ) (size fuel : ℕ)
    → header_size + size ≤ length buf
    → length buf < suc fuel
    → length (drop (header_size + size) buf) < fuel
drop_short buf size fuel room h = omega (arith, room, h, length-drop (header_size + size) buf)

-- What follows when `more` arrives after a call of `parse_available`: nothing, where its loop has set
-- `closing`.
unfoldable pub parse_more :
    {State : Type 0} → Settings → Handler State → List ℕ → Parsed State → M (Parsed State)
parse_more set handle more r =
    if r.closing
    then stop true (r.left ++ more) r.state
    else parse set handle (r.left ++ more) r.state

-- What `connection_read` does with `more` after a call of `parse_available`: nothing where `closing` is
-- set, which `closed` reads from the state that handlers change.
unfoldable pub read_on :
    {State : Type 0}
    → Settings
    → Handler State
    → (State → Bool)
    → List ℕ
    → Parsed State
    → M (Parsed State)
read_on set handle closed more r =
    if r.closing || closed r.state
    then stop true (r.left ++ more) r.state
    else parse set handle (r.left ++ more) r.state

module _ {State : Type 0} (set : Settings) (handle : Handler State) where
  pub whole_round :
      (fuel : ℕ) (buf : List ℕ) (state : State) (s : Mem) (h : Header) (payload : List ℕ)
      → take_packet set buf ≡ ok (packet h payload)
      → parse_loop (suc fuel) set handle buf state s
        ≡ after
            (handle h payload state s)
            (λ r. go_on buf (parse_loop fuel set handle (drop (header_size + h.size) buf) r.1) r)
  unfolding parse_loop parse_round
  whole_round fuel buf state s h payload e = rw e refl

  pub waiting_round :
      (fuel : ℕ) (buf : List ℕ) (state : State) (s : Mem)
      → take_packet set buf ≡ ok partial
      → parse_loop (suc fuel) set handle buf state s ≡ stop false buf state s
  unfolding parse_loop parse_round
  waiting_round fuel buf state s e = rw e refl

  pub bad_round :
      (fuel : ℕ) (buf : List ℕ) (state : State) (s : Mem)
      → take_packet set buf ≡ ok refused
      → parse_loop (suc fuel) set handle buf state s ≡ stop true buf state s
  unfolding parse_loop parse_round
  bad_round fuel buf state s e = rw e refl

  pub go_on_same :
      (buf : List ℕ) (f g : State → M (Parsed State)) (r : Bool × State) (s : Mem)
      → ((state : State) (s : Mem) → f state s ≡ g state s)
      → go_on buf (f r.1) r s ≡ go_on buf (g r.1) r s
  go_on_same buf f g (true, state) s h = h state s
  go_on_same buf f g (false, state) s h = refl

  -- More fuel than bytes is as good as any other.
  pub enough_fuel :
      (f g : ℕ) (buf : List ℕ) (state : State) (s : Mem)
      → All IsByte buf
      → length buf < f
      → length buf < g
      → parse_loop f set handle buf state s ≡ parse_loop g set handle buf state s
  enough_fuel zero g buf state s all h k = absurd (omega (arith, h))
  enough_fuel (suc f) zero buf state s all h k = absurd (omega (arith, k))
  enough_fuel (suc f) (suc g) buf state s all h k = elim (front_cases set buf all) [
    | waiting e ↦ waiting_round f buf state s e ∙ sym (waiting_round g buf state s e)
    | bad e ↦
        let now = ap (take_packet set) (sym (append-nil buf)) ∙ e [] tt in
        bad_round f buf state s now ∙ sym (bad_round g buf state s now)
    | whole header payload e room same ↦
        let now = ap (take_packet set) (sym (append-nil buf)) ∙ e [] tt in
        let left = drop (header_size + header.size) buf in
        whole_round f buf state s header payload now
        ∙ after_same (handle header payload state s) _ _ (λ r s'.
          go_on_same buf (parse_loop f set handle left) (parse_loop g set handle left) r s'
            (λ state' s''.
              enough_fuel f g left state' s'' (All-drop IsByte (header_size + header.size) buf all)
                (drop_short buf header.size f room h) (drop_short buf header.size g room k)))
        ∙ sym (whole_round g buf state s header payload now)
  ]
