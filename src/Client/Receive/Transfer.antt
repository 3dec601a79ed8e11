-- ===== src/Client/Receive/Transfer.antt =====
-- One transfer of `client_read_fill` of src/client.c, and what the loop leaves.
use wirecall.Common.{
  drop_append, drop_left, ℕ, ◌+◌, ◌-◌, ◌^◌, ◌≤◌, ◌<◌, min, Bool, true, List, [], ◌∷◌, ◌++◌, length,
  take, drop, All, map, ◌≡◌, refl, sym, ap, ◌∙◌, arith, append_assoc, length-append, length-take,
  take-append-drop,
}
use wirecall.Memory.{Grants, Mem, count_block}
use wirecall.Memory.Ends.{Ample}
use wirecall.Stream.Socket.{gives, received, transfer}
use wirecall.Client.{Client, Link}
use wirecall.Client.Receive.Fill.{IsClient, unread}

-- What the client has not read yet.
abbrev pub stream : Link → List ℕ
stream link = unread link.client ++ link.arriving

-- A socket of which each call transfers a byte at least, with enough calls for so many bytes.
pub record Feeds (link : Link) (counts : List ℕ) (need : ℕ) : Type 0 where
  pub steps : link.steps ≡ map gives counts
  pub positive : All (λ n. 0 < n) counts
  pub enough : need ≤ length (unread link.client) + length counts
  pub arrives : need ≤ length (stream link)

pub record Filled (grant : Grants) (need : ℕ) (link : Link) (calls : List ℕ) (s : Mem)
    (r : Bool × Link) (s' : Mem) : Type 0 where
  pub valid : IsClient r.1.client
  pub same :
      r.1.client
      ≡ record link.client { read_buf = r.1.client.read_buf; read_off = r.1.client.read_off }
  pub bytes : stream r.1 ≡ stream link
  pub whole : r.0 ≡ true → need ≤ length (unread r.1.client)
  pub counts : List ℕ
  pub steps : r.1.steps ≡ map gives counts
  pub positive : All (λ n. 0 < n) counts
  pub left :
      r.0 ≡ true
      → length (unread link.client) + length calls ≤ length (unread r.1.client) + length counts
  pub sure : Ample grant → need ≤ 2 ^ 61 → r.0 ≡ true
  pub live :
      s'.live + count_block link.client.read_buf.block
      ≡ s.live + count_block r.1.client.read_buf.block

pub transfer_lem : (bs : List ℕ) → 0 < length bs → transfer bs ≡ received bs
transfer_lem [] h = absurd (omega arith)
transfer_lem (b ∷ bs) h = refl

-- The bytes of one call of `recv`.
module _ (n : ℕ) (client : Client) (arriving : List ℕ) (p : 0 < n)
    (room : length client.read_buf.bytes < client.read_buf.cap) (more : 0 < length arriving) where
  abbrev pub new : List ℕ
  new = take (min n (client.read_buf.cap - length client.read_buf.bytes)) arriving

  pub new_some : 0 < length new
  new_some = omega (
    arith,
    p,
    room,
    more,
    length-take (min n (client.read_buf.cap - length client.read_buf.bytes)) arriving,
  )

  pub new_fits : length client.read_buf.bytes + length new ≤ client.read_buf.cap
  new_fits = omega (
    arith,
    room,
    length-take (min n (client.read_buf.cap - length client.read_buf.bytes)) arriving,
  )

  pub new_rest : new ++ drop (length new) arriving ≡ arriving
  new_rest =
      let k = min n (client.read_buf.cap - length client.read_buf.bytes) in
      let whole = take-append-drop k arriving in
      ap (◌++◌ new) (ap (drop (length new)) (sym whole) ∙ drop_left new (drop k arriving)) ∙ whole

-- The link after such a call.
abbrev pub fed : Link → List ℕ → Link
fed link bs = record link {
  client = record link.client {
    read_buf = record link.client.read_buf { bytes = link.client.read_buf.bytes ++ bs };
  };
  arriving = drop (length bs) link.arriving;
}

pub fed-IsClient :
    (link : Link) (bs : List ℕ)
    → IsClient link.client
    → length link.client.read_buf.bytes + length bs ≤ link.client.read_buf.cap
    → IsClient (fed link bs).client
fed-IsClient link bs v room =
    let limit = v.buf.limit in
    let empty = v.buf.empty in
    let off = v.off in
    let len = length-append link.client.read_buf.bytes bs in
    record { buf = record { fits = omega arith; limit = limit; empty = empty }; off = omega arith }

pub unread-fed :
    (link : Link) (bs : List ℕ)
    → IsClient link.client
    → unread (fed link bs).client ≡ unread link.client ++ bs
unread-fed link bs v = drop_append link.client.read_off link.client.read_buf.bytes bs v.off

pub stream-fed :
    (link : Link) (bs : List ℕ)
    → IsClient link.client
    → bs ++ drop (length bs) link.arriving ≡ link.arriving
    → stream (fed link bs) ≡ stream link
stream-fed link bs v whole =
    ap (λ t. t ++ drop (length bs) link.arriving) (unread-fed link bs v)
    ∙ append_assoc (unread link.client) bs (drop (length bs) link.arriving)
    ∙ ap (◌++◌ (unread link.client)) whole

-- Nothing is left to do.
pub nothing_to_do :
    (grant : Grants) (need : ℕ) (link : Link) (counts : List ℕ) (s : Mem)
    → IsClient link.client
    → link.steps ≡ map gives counts
    → All (λ n. 0 < n) counts
    → need ≤ length (unread link.client)
    → Filled grant need link counts s (true, link) s
nothing_to_do grant need link counts s v e p enough = record {
  valid = v;
  same = refl;
  bytes = refl;
  whole = λ t. enough;
  counts = counts;
  steps = e;
  positive = p;
  left = λ t. omega arith;
  sure = λ a l. refl;
  live = refl;
}
