-- ===== src/Server/Parse/Safe.antt =====
-- `parse_available` of src/server.c terminates, reads nothing outside the buffer, and keeps what the
-- handler keeps.
use wirecall.Common.{
  ℕ, zero, suc, ◌+◌, ◌<◌, Bool, true, false, List, [], length, drop, ok, ◌≡◌, refl, sym, ap, ◌∙◌,
  arith, All, All-drop, All-take, subst, append-nil, drop-drop,
}
use wirecall.Words.{IsByte}
use wirecall.Memory.{Mem, M}
use wirecall.Memory.Ends.{Ends, Ends-after, Ends-map}
use wirecall.Protocol.Header.{Header, header_size}
use wirecall.Stream.Packet.{Settings, partial, take_packet}
use wirecall.Server.Parse.{Handler, Parsed, go_on, parse_loop, parse}
use wirecall.Server.Parse.More.{front_cases, waiting, bad, whole}
use wirecall.Server.Parse.Split.{whole_round, waiting_round, bad_round, drop_short}

-- What is left is the end of the buffer; where the connection stays open, no whole packet.
pub record Consumed {State : Type 0} (set : Settings) (P : State → Mem → Type 0) (buf : List ℕ)
    (r : Parsed State) (s : Mem) : Type 0 where
  pub off : ℕ
  pub suffix : r.left ≡ drop off buf
  pub waits : r.closing ≡ false → take_packet set r.left ≡ ok partial
  pub kept : P r.state s

module _ {State : Type 0} (set : Settings) (handle : Handler State) (base : ℕ)
    (P : State → Mem → Type 0)
    (keeps : (h : Header) (payload : List ℕ) (state : State) (s : Mem)
      → P state s
      → All IsByte payload
      → Ends base (λ r s'. P r.1 s') (handle h payload state s)) where
  further :
      (buf : List ℕ) (n : ℕ) (r : Parsed State) (s : Mem)
      → Consumed set P (drop n buf) r s
      → Consumed set P buf r s
  further buf n r s c =
      let waits = c.waits in
      record {
        off = n + c.off;
        suffix = c.suffix ∙ drop-drop n c.off buf;
        waits = waits;
        kept = c.kept;
      }

  after_packet :
      (buf : List ℕ) (n : ℕ) (next : State → M (Parsed State)) (r : Bool × State) (s : Mem)
      → P r.1 s
      → ((state : State) (s : Mem)
          → P state s
          → Ends base (Consumed set P (drop n buf)) (next state s))
      → Ends base (Consumed set P buf) (go_on buf (next r.1) r s)
  after_packet buf n next (false, state) s p f = record {
    off = 0;
    suffix = refl;
    waits = λ c. cc;
    kept = p;
  }
  after_packet buf n next (true, state) s p f =
      Ends-map base _ _ (next state s) (f state s p) (λ r s' c. further buf n r s' c)

  parse_loop-Consumed :
      (fuel : ℕ) (buf : List ℕ) (state : State) (s : Mem)
      → All IsByte buf
      → length buf < fuel
      → P state s
      → Ends base (Consumed set P buf) (parse_loop fuel set handle buf state s)
  parse_loop-Consumed zero buf state s all h p = absurd (omega (arith, h))
  parse_loop-Consumed (suc fuel) buf state s all h p = elim (front_cases set buf all) [
    | waiting e ↦
        rw (waiting_round set handle fuel buf state s e)
          record { off = 0; suffix = refl; waits = λ c. e; kept = p }
    | bad e ↦
        rw
          (bad_round set handle fuel buf state s
            (ap (take_packet set) (sym (append-nil buf)) ∙ e [] tt))
          record { off = 0; suffix = refl; waits = λ c. cc; kept = p }
    | whole header payload e room same ↦
        let now = ap (take_packet set) (sym (append-nil buf)) ∙ e [] tt in
        let n = header_size + header.size in
        rw (whole_round set handle fuel buf state s header payload now) (
          Ends-after base _ _ (handle header payload state s) _
            (keeps header payload state s p (
              subst (All IsByte) (sym same) (
                All-take IsByte header.size (drop header_size buf)
                  (All-drop IsByte header_size buf all))))
            (λ r s' k.
              after_packet buf n (parse_loop fuel set handle (drop n buf)) r s' k (λ state' s'' p'.
                parse_loop-Consumed fuel (drop n buf) state' s'' (All-drop IsByte n buf all)
                  (drop_short buf header.size fuel room h) p')))
  ]

  -- Where the handler neither crashes nor runs on without end, `parse_available` returns too: it reads
  -- nothing outside the bytes that were read, what it leaves is the end of them and, where the
  -- connection stays open, has no whole packet in it, and what the handler keeps is kept.
  pub parse-Consumed :
      (buf : List ℕ) (state : State) (s : Mem)
      → All IsByte buf
      → P state s
      → Ends base (Consumed set P buf) (parse set handle buf state s)
  unfolding parse
  parse-Consumed buf state s all p =
      parse_loop-Consumed (suc (length buf)) buf state s all (omega arith) p
