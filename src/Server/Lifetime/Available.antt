-- ===== src/Server/Lifetime/Available.antt =====
-- `parse_available` of src/server.c against the connections and calls of the worker.
use wirecall.Common.{ℕ, false, List, All, ◌≡◌, refl, ap, ◌∙◌, arith, ◌||◌, drop, ok, sym}
use wirecall.Words.{IsByte}
use wirecall.Memory.{Mem}
use wirecall.Memory.Ends.{Ends, Ends-after}
use wirecall.Protocol.Header.{Header}
use wirecall.Protocol.Buffer.{present}
use wirecall.Stream.Packet.{partial, take_packet}
use wirecall.Server.{Connection}
use wirecall.Server.Queue.Touched.{conn_at-put_conn}
use wirecall.Server.Host.{Host}
use wirecall.Server.Queue.{Env}
use wirecall.Server.Dispatch.{Site, handle_packet}
use wirecall.Server.Parse.{Parsed, parse}
use wirecall.Server.Parse.Safe.{Consumed, parse-Consumed}
use wirecall.Server.Io.{keep_left, parse_available}
use wirecall.Server.Lifetime.Serve.{IsServerHost, Serving, put_conn-Ready}
use wirecall.Server.Lifetime.Packet.{others, handle_packet-Serving}

-- What `parse_available` leaves of the bytes that it found.
pub record Parse (env : Env) (base c : ℕ) (buf : List ℕ) (site : Site) (s : Mem) : Type 0 where
  pub serving : Serving base c site s
  pub off : ℕ
  pub left : (site.worker.conn_at c).read_buf.bytes ≡ drop off buf
  pub waits :
      (site.worker.conn_at c).closing ≡ false
      → take_packet env.settings (site.worker.conn_at c).read_buf.bytes ≡ ok partial

-- The end of `parse_available`.
keep_left-Parse :
    (left base : ℕ) (env : Env) (hosted : Host) (c : ℕ) (buf : List ℕ) (r : Parsed Site) (s : Mem)
    → IsServerHost env hosted
    → Consumed env.settings (λ site s'. Serving base c site s') buf r s
    → Parse env base c buf (keep_left c r) s
unfolding keep_left
keep_left-Parse left base env hosted c buf r s host p =
    let conn = r.state.worker.conn_at c in
    let h = p.kept in
    let conn' : Connection = record conn {
      read_buf = record conn.read_buf { bytes = r.left };
      closing = conn.closing || r.closing;
    } in
    let same = conn_at-put_conn c conn' r.state.worker in
    record {
      serving = record {
        ready =
            put_conn-Ready left (others base r.state) env c r.state.worker s host.allocator h.ready
              conn' refl refl refl refl refl;
        readers = h.readers;
        callable = h.callable;
      };
      off = p.off;
      left = ap (λ (x : Connection). x.read_buf.bytes) same ∙ p.suffix;
      waits = λ e.
          ap (λ (x : Connection). take_packet env.settings x.read_buf.bytes) same
          ∙ p.waits (
              let open_conn = sym (ap (λ (x : Connection). x.closing) same) ∙ e in
              ground (arith, open_conn));
    }

-- Whatever bytes a client has sent on a connection that is not detached, `parse_available` returns and
-- keeps the worker sound: of the connections and calls it uses and frees only those in use, and every
-- live block but the `base` of others is that of a connection, of a deferred or submitted call or of a
-- retired route. It leaves the end of the bytes, and in a connection that it does not close no whole
-- packet. The allocator, which grants nothing over the limit, may refuse any request; the handlers
-- keep their contract, each route has the handler of its kind, the arena gives unused elements, and the
-- count of the table's readers does not wrap around.
pub parse_available-Serving :
    (left base : ℕ) (env : Env) (hosted : Host) (c : ℕ) (site : Site) (s : Mem)
    → IsServerHost env hosted
    → All IsByte (site.worker.conn_at c).read_buf.bytes
    → Serving base c site s
    → Ends left
        (λ site' s'. Parse env base c (site.worker.conn_at c).read_buf.bytes site' s')
        (parse_available env hosted c site s)
unfolding parse_available
parse_available-Serving left base env hosted c site s host bytes h =
    let buf = (site.worker.conn_at c).read_buf.bytes in
    let handle =
      λ (header : Header) (payload : List ℕ). handle_packet env hosted c header (present payload) in
    Ends-after left _ _ (parse env.settings handle buf site s) _
      (parse-Consumed env.settings handle left (λ site' s'. Serving base c site' s')
        (λ header payload site' s' h' all.
          handle_packet-Serving left base env hosted c host header (present payload) site' s' all
            h')
        buf site s bytes h)
      (λ r s' p. keep_left-Parse left base env hosted c buf r s' host p)
