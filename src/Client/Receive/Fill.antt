-- ===== src/Client/Receive/Fill.antt =====
-- `client_read_reserve` and `client_read_fill` of src/client.c against the stream that arrives.
use wirecall.Common.{
  ℕ, ◌+◌, ◌^◌, ◌≤◌, ◌<◌, Bool, true, false, List, length, drop, ltb, leb, ltb→le, leb→le, ◌==◌,
  ne→==, if◌then◌else◌, ◌≡◌, inl, inr, refl, sym, ap, ap₂, arith, Bool-cases, length-drop,
}
use wirecall.Memory.{Grants, Mem, ret, count_block}
use wirecall.Memory.Ends.{IsHost, Ample, Ends, Ends-after}
use wirecall.Stream.{grow_buffer}
use wirecall.Stream.Grow.{IsByteBuffer, grow_buffer-Grown}
use wirecall.Client.{Client}
use wirecall.Client.Receive.{
  read_available, compact, client_read_reserve, fill_room, first_read_cap,
}

pub record IsClient (client : Client) : Type 0 where
  pub buf : IsByteBuffer client.read_buf
  pub off : client.read_off ≤ length client.read_buf.bytes

abbrev pub unread : Client → List ℕ
unread client = drop client.read_off client.read_buf.bytes

pub read_available_lem : (client : Client) → read_available client ≡ length (unread client)
unfolding read_available
read_available_lem client = sym (length-drop client.read_off client.read_buf.bytes)

-- The client with its unread bytes at the front.
abbrev front : Client → Client
front client = record client {
  read_buf = record client.read_buf { bytes = unread client };
  read_off = 0;
}

compact_lem : (client : Client) → compact client ≡ front client
unfolding compact
compact_lem client = elim (Bool-cases (ltb 0 client.read_off)) [
  | inl moved ↦ rw moved refl
  | inr still ↦
      let e : client.read_off ≡ 0 = omega (arith, ltb→le 0 client.read_off still) in
      rw still (at_zero client.read_off e)
]
  where
    at_zero : (off : ℕ) → client.read_off ≡ 0 → client ≡ front client
    at_zero off e =
        ap₂
          (λ o q. record client {
            read_buf = record client.read_buf { bytes = drop o client.read_buf.bytes };
            read_off = q;
          })
          (sym e) e

-- What making room for `need` bytes leaves, where there are fewer.
pub record Roomy (grant : Grants) (client : Client) (need : ℕ) (s : Mem) (r : Bool × Client)
    (s' : Mem) : Type 0 where
  pub valid : IsClient r.1
  pub same : r.1 ≡ record client { read_buf = r.1.read_buf; read_off = r.1.read_off }
  pub bytes : unread r.1 ≡ unread client
  pub room : r.0 ≡ true → length r.1.read_buf.bytes < r.1.read_buf.cap
  pub sure : Ample grant → need ≤ 2 ^ 61 → r.0 ≡ true
  pub live : s'.live + count_block client.read_buf.block ≡ s.live + count_block r.1.read_buf.block

front-IsByteBuffer : (client : Client) → IsClient client → IsByteBuffer (front client).read_buf
front-IsByteBuffer client v =
    let fits = v.buf.fits in
    let limit = v.buf.limit in
    let empty = v.buf.empty in
    record {
      fits = omega (arith, length-drop client.read_off client.read_buf.bytes);
      limit = limit;
      empty = empty;
    }

client_read_reserve-Roomy :
    (base : ℕ) (grant : Grants) (need : ℕ) (client : Client) (s : Mem)
    → IsHost grant
    → IsClient client
    → length (unread client) < need
    → need ≤ 2 ^ 63
    → Ends base (Roomy grant client need s) (client_read_reserve grant need client s)
unfolding client_read_reserve
client_read_reserve-Roomy base grant need client s host v short n =
    let few : leb need (read_available client) ≡ false =
      rw (read_available_lem client) (ground (arith, short)) in
    let k = front client in
    let ok_buf = front-IsByteBuffer client v in
    let at_front = compact_lem client in
    elim (Bool-cases (leb need k.read_buf.cap)) [
      | inl fits ↦
          rw (few, at_front, fits)
            record {
              valid = record { buf = ok_buf; off = omega arith };
              same = refl;
              bytes = refl;
              room = λ e. omega (arith, short, leb→le need k.read_buf.cap fits);
              sure = λ a l. refl;
              live = refl;
            }
      | inr full ↦
          rw (few, at_front, full)
            (Ends-after base _ _ (grow_buffer grant first_read_cap k.read_buf need s) _
              (grow_buffer-Grown base grant first_read_cap k.read_buf need s host ok_buf
                (omega arith) (omega arith) (ground (arith, full)) n)
              (λ r s' g.
                (let valid = g.valid in
                  let live = g.live in
                  let sure = g.sure in
                  record {
                    valid = record { buf = valid; off = omega arith };
                    same = refl;
                    bytes = g.same;
                    room = λ e. omega (arith, short, g.room e, ap length g.same);
                    sure = sure;
                    live = live;
                  })))
    ]

pub fill_room-Roomy :
    (base : ℕ) (grant : Grants) (need : ℕ) (client : Client) (s : Mem)
    → IsHost grant
    → IsClient client
    → length (unread client) < need
    → need ≤ 2 ^ 63
    → Ends base (Roomy grant client need s) (fill_room grant need client s)
unfolding fill_room
fill_room-Roomy base grant need client s host v short n =
    Ends-after base _ _ (client_read_reserve grant need client s) _
      (client_read_reserve-Roomy base grant need client s host v short n)
      (λ r s' g. go r.0 r.1 s' g)
  where
    go :
        (b : Bool) (client' : Client) (s' : Mem)
        → Roomy grant client need s (b, client') s'
        → Ends base (Roomy grant client need s) (
            (if b
                then if length client'.read_buf.bytes == client'.read_buf.cap
                  then client_read_reserve grant (client'.read_buf.cap + 1) client'
                  else ret (true, client')
                else ret (false, client'))
              s')
    go false client' s' g = g
    go true client' s' g =
        let room = g.room refl in
        rw
          (ne→== (length client'.read_buf.bytes) client'.read_buf.cap (λ e. omega (arith, e, room)))
          g
