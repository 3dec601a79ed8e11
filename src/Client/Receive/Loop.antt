-- ===== src/Client/Receive/Loop.antt =====
-- The loop of `client_read_fill` of src/client.c against the stream that arrives.
use wirecall.Common.{
  ℕ, ◌+◌, ◌-◌, ◌^◌, ◌≤◌, ◌<◌, Bool, true, false, List, [], ◌∷◌, ◌++◌, length, drop, map, ltb,
  ltb→lt, ltb→le, le→leb, le→ltb, if◌then◌else◌, ◌≡◌, inl, inr, refl, sym, ap, ◌∙◌, subst, arith,
  Bool-cases, length-append,
}
use wirecall.Memory.{Grants, Mem, M, ret}
use wirecall.Memory.Ends.{IsHost, Ends, Ends-after, Ends-map}
use wirecall.Stream.Socket.{gives, recv}
use wirecall.Client.{Client, Link}
use wirecall.Client.Receive.{read_available, fill_room, fill_answer, fill_loop, client_read_fill}
use wirecall.Client.Receive.Fill.{IsClient, unread, read_available_lem, Roomy, fill_room-Roomy}
use wirecall.Client.Receive.Transfer.{
  Feeds, Filled, transfer_lem, new, new_some, new_fits, new_rest, fed, fed-IsClient, unread-fed,
  stream-fed, nothing_to_do,
}

-- The rest of a round, for the rounds `next` that follow it.
module _ (base : ℕ) (grant : Grants) (need : ℕ) (link : Link) (k : ℕ) (ks : List ℕ) (s : Mem)
    (f : Feeds link (k ∷ ks) need) (few : length (unread link.client) < need)
    (next : Link → M (Bool × Link))
    (goes_on : (link' : Link) (s' : Mem)
      → IsClient link'.client
      → Feeds link' ks need
      → Ends base (Filled grant need link' ks s') (next link' s')) where
  -- After a transfer of `bs`.
  after_transfer :
      (client : Client) (bs : List ℕ) (s' : Mem)
      → Roomy grant link.client need s (true, client) s'
      → 0 < length bs
      → length client.read_buf.bytes + length bs ≤ client.read_buf.cap
      → bs ++ drop (length bs) link.arriving ≡ link.arriving
      → let link' = record link { client = client; steps = map gives ks } in
        Ends base (Filled grant need link (k ∷ ks) s) (next (fed link' bs) s')
  after_transfer client bs s' g some_bytes room whole =
      let link' = record link { client = client; steps = map gives ks } in
      let now = unread-fed link' bs g.valid in
      let len =
        ap length now ∙ length-append (unread client) bs ∙ ap (λ t. length t + length bs) g.bytes in
      let flow = stream-fed link' bs g.valid whole ∙ ap (λ t. t ++ link.arriving) g.bytes in
      let enough = f.enough in
      let arrives = f.arrives in
      Ends-map base _ _ (next (fed link' bs) s')
        (goes_on (fed link' bs) s' (fed-IsClient link' bs g.valid room) record {
          steps = refl;
          positive = f.positive.1;
          enough = omega (arith, len, enough, some_bytes);
          arrives = omega (arith, ap length flow, arrives);
        })
        (λ r s'' q.
          (let live = q.live in
            let live' = g.live in
            let valid = q.valid in
            let whole = q.whole in
            let steps = q.steps in
            let positive = q.positive in
            let sure = q.sure in
            record {
              valid = valid;
              same =
                  q.same
                  ∙ ap
                      (λ (c : Client). record c {
                        read_buf = r.1.client.read_buf;
                        read_off = r.1.client.read_off;
                      })
                      g.same;
              bytes = q.bytes ∙ flow;
              whole = whole;
              counts = q.counts;
              steps = steps;
              positive = positive;
              left = λ t. omega (arith, q.left t, len, some_bytes);
              sure = sure;
              live = omega arith;
            }))

  round-Filled :
      (fits : Bool) (client : Client) (s' : Mem)
      → Roomy grant link.client need s (fits, client) s'
      → let link' = record link { client = client; steps = map gives ks } in
        Ends base (Filled grant need link (k ∷ ks) s) (
          (if fits
              then fill_answer next
                  (recv
                    (gives k)
                    (client.read_buf.cap - length client.read_buf.bytes)
                    link.arriving)
                  link'
              else ret (false, link'))
            s')
  unfolding recv fill_answer
  round-Filled false client s' g =
      let valid = g.valid in
      let same = g.same in
      let sure = g.sure in
      let live = g.live in
      record {
        valid = valid;
        same = same;
        bytes = ap (λ t. t ++ link.arriving) g.bytes;
        whole = λ e. cc;
        counts = ks;
        steps = refl;
        positive = f.positive.1;
        left = λ e. cc;
        sure = sure;
        live = live;
      }
  round-Filled true client s' g =
      let room = g.room refl in
      let arrives = f.arrives in
      let more : 0 < length link.arriving =
        omega (arith, arrives, few, length-append (unread link.client) link.arriving) in
      let bs = new k client link.arriving f.positive.0 room more in
      let some_bytes = new_some k client link.arriving f.positive.0 room more in
      let fits = new_fits k client link.arriving f.positive.0 room more in
      rw
        (
          transfer_lem bs some_bytes,
          le→leb (length client.read_buf.bytes + length bs) client.read_buf.cap fits,
        )
        (after_transfer client bs s' g some_bytes fits
          (new_rest k client link.arriving f.positive.0 room more))

fill_loop-Filled :
    (base : ℕ) (counts : List ℕ) (grant : Grants) (need : ℕ) (link : Link) (s : Mem)
    → IsHost grant
    → IsClient link.client
    → need ≤ 2 ^ 63
    → Feeds link counts need
    → Ends base (Filled grant need link counts s) (fill_loop (map gives counts) grant need link s)
unfolding fill_loop
fill_loop-Filled base [] grant need link s host v n f =
    let enough = f.enough in
    rw (le→ltb (read_available link.client) need (rw (read_available_lem link.client) omega arith))
      (nothing_to_do grant need link [] s v f.steps f.positive (omega arith))
fill_loop-Filled base (k ∷ ks) grant need link s host v n f =
    elim (Bool-cases (ltb (read_available link.client) need)) [
      | inr enough ↦ rw enough (
          nothing_to_do grant need link (k ∷ ks) s v f.steps f.positive (
            ltb→le (length (unread link.client)) need
              (rw (← read_available_lem link.client) enough)))
      | inl short ↦
          let few : length (unread link.client) < need =
            ltb→lt (length (unread link.client)) need
              (rw (← read_available_lem link.client) short) in
          rw short (
            Ends-after base _ _ (fill_room grant need link.client s) _
              (fill_room-Roomy base grant need link.client s host v few n)
              (λ r s' g.
                round-Filled base grant need link k ks s f few (fill_loop (map gives ks) grant need)
                  (λ link' s'' v' f'. fill_loop-Filled base ks grant need link' s'' host v' n f')
                  r.0 r.1 s' g))
    ]

-- Where each call of `recv` transfers a byte at least and enough is to arrive, `client_read_fill`
-- returns: it keeps the order of the stream, has so many bytes in the buffer where it succeeds,
-- and fails only for want of memory.
pub client_read_fill-Filled :
    (base : ℕ) (counts : List ℕ) (grant : Grants) (need : ℕ) (link : Link) (s : Mem)
    → IsHost grant
    → IsClient link.client
    → need ≤ 2 ^ 63
    → Feeds link counts need
    → Ends base (Filled grant need link counts s) (client_read_fill grant need link s)
unfolding client_read_fill
client_read_fill-Filled base counts grant need link s host v n f =
    subst (λ steps. Ends base (Filled grant need link counts s) (fill_loop steps grant need link s))
      (sym f.steps) (fill_loop-Filled base counts grant need link s host v n f)
