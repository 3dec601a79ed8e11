-- ===== src/Server/Io.antt =====
-- Reading and writing a connection in src/server.c: `connection_set_interests`, `parse_available`,
-- `connection_read` and `connection_write`. The socket is a list of its answers.
pub mod Written
use wirecall.Common.{
  ℕ, ◌+◌, ◌-◌, Bool, true, false, ◌||◌, List, [], ◌∷◌, ◌++◌, length, take, drop, ltb, leb, ◌==◌,
  if◌then◌else◌, Outcome, ok, stuck, ◌>>=◌,
}
use wirecall.Memory
use wirecall.Memory.{Run, Mem, M, ret, crash, unfinished, ◌>>◌}
use wirecall.Protocol.Buffer.{present}
use wirecall.Stream.{ByteBuffer, read_chunk, reserve_bytes}
use wirecall.Stream.Socket.{
  Step, RecvAnswer, received, peer_closed, recv_interrupted, recv_blocks, recv_broken, recv,
}
use wirecall.Server.{Connection, Worker, put_conn}
use wirecall.Server.Host.{Host}
use wirecall.Server.Queue.{Env}
use wirecall.Server.Parse.{Parsed, parse}
use wirecall.Server.Dispatch.{Site, handle_packet}

-- `WIRECALL_BACKEND_READ` and `WIRECALL_BACKEND_WRITE`
abbrev pub read_interest : ℕ
read_interest = 1

abbrev pub write_interest : ℕ
write_interest = 2

-- `send`: what it transfers, or an error by its kind.
pub data SendAnswer : Type 0 where
  sent : ℕ → SendAnswer
  send_interrupted : SendAnswer
  send_blocks : SendAnswer
  send_broken : SendAnswer

-- `modified` says whether the backend takes the change.
unfoldable pub set_interests : Bool → ℕ → Connection → Bool × Connection
set_interests modified interests conn =
    if conn.interests == interests
    then (true, conn)
    else if modified
    then (true, record conn { interests = interests })
    else (false, conn)

-- After the loop of `connection_write`: the buffer is empty again.
unfoldable pub write_done : Bool → Connection → Connection
unfolding set_interests
write_done modified conn =
    (set_interests modified read_interest
      (record conn { write_buf = record conn.write_buf { bytes = [] }; write_off = 0 })).1

-- `while (conn->write_off < conn->write_len)`, with the bytes that went out.
unfoldable pub write_loop :
    Bool → List SendAnswer → Connection → List ℕ → Outcome (Connection × List ℕ)
unfolding write_done set_interests
write_loop modified [] conn out =
    if ltb conn.write_off (length conn.write_buf.bytes)
    then stuck
    else ok (write_done modified conn, out)
write_loop modified (sent n ∷ answers) conn out =
    let rest =
      write_loop modified answers (record conn { write_off = conn.write_off + n })
        (out ++ take n (drop conn.write_off conn.write_buf.bytes)) in
    if ltb conn.write_off (length conn.write_buf.bytes)
    then if ltb 0 n then rest else ok (record conn { closing = true }, out)
    else ok (write_done modified conn, out)
write_loop modified (send_interrupted ∷ answers) conn out =
    let rest = write_loop modified answers conn out in
    if ltb conn.write_off (length conn.write_buf.bytes)
    then rest
    else ok (write_done modified conn, out)
write_loop modified (send_blocks ∷ answers) conn out =
    if ltb conn.write_off (length conn.write_buf.bytes)
    then ok ((set_interests modified (read_interest + write_interest) conn).1, out)
    else ok (write_done modified conn, out)
write_loop modified (send_broken ∷ answers) conn out =
    if ltb conn.write_off (length conn.write_buf.bytes)
    then ok (record conn { closing = true }, out)
    else ok (write_done modified conn, out)

unfoldable pub connection_write :
    Bool → List SendAnswer → Connection → Outcome (Connection × List ℕ)
unfolding write_loop
connection_write modified answers conn = write_loop modified answers conn []

abbrev handled : Env → Host → ℕ → Site → M (Parsed Site)
handled env host c site =
    parse env.settings (λ header payload. handle_packet env host c header (present payload))
      (site.worker.conn_at c).read_buf.bytes site

-- What the loop has left is moved to the front of the buffer.
unfoldable pub keep_left : ℕ → Parsed Site → Site
unfolding put_conn
keep_left c r =
    let conn = r.state.worker.conn_at c in
    record r.state {
      worker =
          put_conn c
            (record conn {
              read_buf = record conn.read_buf { bytes = r.left };
              closing = conn.closing || r.closing;
            })
            r.state.worker;
    }

unfoldable pub parse_available : Env → Host → ℕ → Site → M Site
unfolding keep_left
parse_available env host c site s =
    Memory.after (handled env host c site s) (λ r. ret (keep_left c r))

unfoldable pub put_site : ℕ → Connection → Site → Site
unfolding put_conn
put_site c conn site = record site { worker = put_conn c conn site.worker }

unfoldable pub close_site : ℕ → Site → Site
unfolding put_site
close_site c site = put_site c (record (site.worker.conn_at c) { closing = true }) site

-- The room that a round of `connection_read` makes first.
unfoldable pub read_room : Env → ByteBuffer → M (Bool × ByteBuffer)
read_room env b =
    if ltb (b.cap - length b.bytes) read_chunk
    then reserve_bytes env.grant b (length b.bytes + read_chunk)
    else ret (true, b)

-- A round after the room was made, with the rounds that may follow it; what is still to arrive comes
-- with the result.
unfoldable pub read_answer :
    Env
    → Host
    → ℕ
    → (List ℕ → Site → M (Site × List ℕ))
    → RecvAnswer
    → List ℕ
    → Site
    → M (Site × List ℕ)
unfolding put_site close_site parse_available
read_answer env host c next (received bytes) arriving site s =
    let conn = site.worker.conn_at c in
    let left = drop (length bytes) arriving in
    if leb (length conn.read_buf.bytes + length bytes) conn.read_buf.cap
    then Memory.after
        (parse_available env host c
          (put_site c
            (record conn {
              read_buf = record conn.read_buf { bytes = conn.read_buf.bytes ++ bytes };
            })
            site)
          s)
        (λ site'. if (site'.worker.conn_at c).closing then ret (site', left) else next left site')
    else Memory.crashed
read_answer env host c next peer_closed arriving site s = ret (close_site c site, arriving) s
read_answer env host c next recv_interrupted arriving site s = next arriving site s
read_answer env host c next recv_blocks arriving site s = ret (site, arriving) s
read_answer env host c next recv_broken arriving site s = ret (close_site c site, arriving) s

unfoldable pub connection_read : Env → Host → ℕ → List Step → List ℕ → Site → M (Site × List ℕ)
unfolding read_room read_answer put_site close_site
connection_read env host c [] arriving site s = unfinished
connection_read env host c (step ∷ steps) arriving site s =
    Memory.after (read_room env (site.worker.conn_at c).read_buf s) (λ r.
      let roomy = put_site c (record (site.worker.conn_at c) { read_buf = r.1 }) site in
      if r.0
      then read_answer env host c (connection_read env host c steps)
          (recv step (r.1.cap - length r.1.bytes) arriving) arriving roomy
      else ret (close_site c roomy, arriving))
