-- ===== src/Server/Io/Written.antt =====
-- `connection_write` of src/server.c against the bytes that go out.
use wirecall.Common.{
  ℕ, ◌+◌, ◌≤◌, true, false, List, [], ◌∷◌, ◌++◌, length, take, drop, ltb, ltb→le, ◌==◌, ==→eq, ok,
  ◌≡◌, inl, inr, refl, sym, ap, ◌∙◌, arith, Bool-cases, append_assoc, drop-drop, take-append-drop,
  drop-nil, zero, suc, Bool, if◌then◌else◌,
}
use wirecall.Server.{Connection}
use wirecall.Server.Io.{
  SendAnswer, sent, send_interrupted, send_blocks, send_broken, read_interest, write_interest,
  set_interests, write_done, write_loop, connection_write,
}

-- What waits in the write buffer.
abbrev pub unsent : Connection → List ℕ
unsent conn = drop conn.write_off conn.write_buf.bytes

-- How a call of `connection_write` leaves a connection: closed, or all sent and the buffer empty, or
-- waiting for the socket. Its interests are the new ones where the backend takes a change of them,
-- and else the old ones.
pub data Standing (modified : Bool) (before : ℕ) (conn : Connection) : Type 0 where
  failed : conn.closing ≡ true → Standing modified before conn
  all_sent :
      conn.closing ≡ false
      → conn.write_buf.bytes ≡ []
      → conn.write_off ≡ 0
      → conn.interests ≡ (if modified then read_interest else before)
      → Standing modified before conn
  waits :
      conn.closing ≡ false
      → conn.interests ≡ (if modified then read_interest + write_interest else before)
      → Standing modified before conn

pub record Written (modified : Bool) (before : Connection) (gone : List ℕ) (r : Connection × List ℕ)
    : Type 0 where
  pub bytes : r.1 ++ unsent r.0 ≡ gone ++ unsent before
  pub standing : Standing modified before.interests r.0
  pub read_buf : r.0.read_buf ≡ before.read_buf
  pub pending : r.0.pending_deferred ≡ before.pending_deferred

set_interests_lem :
    (modified : Bool) (interests : ℕ) (conn : Connection)
    → (set_interests modified interests conn).1
      ≡ record conn { interests = if modified then interests else conn.interests }
unfolding set_interests
set_interests_lem modified interests conn = elim (Bool-cases (conn.interests == interests)) [
  | inl same ↦ rw same (keeps modified (==→eq conn.interests interests same))
  | inr other ↦ rw other (changes modified)
]
  where
    keeps :
        (b : Bool)
        → conn.interests ≡ interests
        → conn ≡ record conn { interests = if b then interests else conn.interests }
    keeps true e = ap (λ i. record conn { interests = i }) e
    keeps false e = refl

    changes :
        (b : Bool)
        → (let r : Bool × Connection =
              if b then (true, record conn { interests = interests }) else (false, conn) in
            r.1)
          ≡ record conn { interests = if b then interests else conn.interests }
    changes true = refl
    changes false = refl

drop_all : (n : ℕ) (bs : List ℕ) → length bs ≤ n → drop n bs ≡ []
drop_all n [] h = drop-nil n
drop_all zero (b ∷ bs) h = absurd (omega arith)
drop_all (suc n) (b ∷ bs) h = drop_all n bs (omega arith)

finished :
    (modified : Bool) (conn : Connection) (out : List ℕ)
    → conn.closing ≡ false
    → length conn.write_buf.bytes ≤ conn.write_off
    → Written modified conn out (write_done modified conn, out)
unfolding write_done
finished modified conn out e all =
    rw
      (set_interests_lem modified read_interest
        (record conn { write_buf = record conn.write_buf { bytes = [] }; write_off = 0 }))
      record {
        bytes = ap (◌++◌ out) (sym (drop_all conn.write_off conn.write_buf.bytes all));
        standing = all_sent e refl refl refl;
        read_buf = refl;
        pending = refl;
      }

-- The bytes of one write, and those behind them.
one_write :
    (out bs : List ℕ) (off n : ℕ)
    → (out ++ take n (drop off bs)) ++ drop (off + n) bs ≡ out ++ drop off bs
one_write out bs off n =
    append_assoc out (take n (drop off bs)) (drop (off + n) bs)
    ∙ ap (λ t. out ++ (take n (drop off bs) ++ t)) (sym (drop-drop off n bs))
    ∙ ap (◌++◌ out) (take-append-drop n (drop off bs))

loop_done :
    (modified : Bool) (answers : List SendAnswer) (conn : Connection) (out : List ℕ)
    → ltb conn.write_off (length conn.write_buf.bytes) ≡ false
    → write_loop modified answers conn out ≡ ok (write_done modified conn, out)
unfolding write_loop
loop_done modified [] conn out h = rw h refl
loop_done modified (sent n ∷ answers) conn out h = rw h refl
loop_done modified (send_interrupted ∷ answers) conn out h = rw h refl
loop_done modified (send_blocks ∷ answers) conn out h = rw h refl
loop_done modified (send_broken ∷ answers) conn out h = rw h refl

abbrev Result : Bool → List SendAnswer → Connection → List ℕ → Type 0
Result modified answers conn out =
    (r : Connection × List ℕ) × (write_loop modified answers conn out ≡ ok r)
    × Written modified conn out r

-- Whether there is something to write, in any round.
some_round :
    (modified : Bool) (answers : List SendAnswer) (conn : Connection) (out : List ℕ)
    → conn.closing ≡ false
    → (ltb conn.write_off (length conn.write_buf.bytes) ≡ true → Result modified answers conn out)
    → Result modified answers conn out
some_round modified answers conn out e more =
    elim (Bool-cases (ltb conn.write_off (length conn.write_buf.bytes))) [
      | inl to_write ↦ more to_write
      | inr no_more ↦ (
        (write_done modified conn, out),
        loop_done modified answers conn out no_more,
        finished modified conn out e (ltb→le conn.write_off (length conn.write_buf.bytes) no_more),
      )
    ]

-- A loop that ends once the socket blocks.
write_loop-Written :
    (modified : Bool) (answers : List SendAnswer) (conn : Connection) (out : List ℕ)
    → conn.closing ≡ false
    → Result modified (answers ++ send_blocks ∷ []) conn out
unfolding write_loop
write_loop-Written modified [] conn out e =
    some_round modified (send_blocks ∷ []) conn out e (λ more. (
      (
        record conn {
          interests = if modified then read_interest + write_interest else conn.interests;
        },
        out,
      ),
      rw more (
          ap (λ conn. ok (conn, out))
            (set_interests_lem modified (read_interest + write_interest) conn)),
      record { bytes = refl; standing = waits e refl; read_buf = refl; pending = refl },
    ))
write_loop-Written modified (sent n ∷ answers) conn out e =
    some_round modified (sent n ∷ (answers ++ send_blocks ∷ [])) conn out e (λ more.
      elim (Bool-cases (ltb 0 n)) [
        | inr nothing ↦ (
          (record conn { closing = true }, out),
          rw (more, nothing) refl,
          record { bytes = refl; standing = failed refl; read_buf = refl; pending = refl },
        )
        | inl progress ↦
            let next = record conn { write_off = conn.write_off + n } in
            let (r, d, w) =
              write_loop-Written modified answers next
                (out ++ take n (drop conn.write_off conn.write_buf.bytes)) e in
            (
              r,
              rw (more, progress) d,
              record {
                bytes = w.bytes ∙ one_write out conn.write_buf.bytes conn.write_off n;
                standing = w.standing;
                read_buf = w.read_buf;
                pending = w.pending;
              },
            )
      ])
write_loop-Written modified (send_interrupted ∷ answers) conn out e =
    some_round modified (send_interrupted ∷ (answers ++ send_blocks ∷ [])) conn out e
      (λ more. let (r, d, w) = write_loop-Written modified answers conn out e in (r, rw more d, w))
write_loop-Written modified (send_blocks ∷ answers) conn out e =
    some_round modified (send_blocks ∷ (answers ++ send_blocks ∷ [])) conn out e (λ more. (
      (
        record conn {
          interests = if modified then read_interest + write_interest else conn.interests;
        },
        out,
      ),
      rw more (
          ap (λ conn. ok (conn, out))
            (set_interests_lem modified (read_interest + write_interest) conn)),
      record { bytes = refl; standing = waits e refl; read_buf = refl; pending = refl },
    ))
write_loop-Written modified (send_broken ∷ answers) conn out e =
    some_round modified (send_broken ∷ (answers ++ send_blocks ∷ [])) conn out e (λ more. (
      (record conn { closing = true }, out),
      rw more refl,
      record { bytes = refl; standing = failed refl; read_buf = refl; pending = refl },
    ))

-- However the socket splits, interrupts or refuses the writes, as long as it blocks in the end,
-- `connection_write` returns on an open connection: what went out and what still waits are, in
-- order, what waited before. It leaves the connection closing; or with all sent and an empty buffer,
-- no more interested in writes; or open and interested in writes. Where the backend refuses to change
-- the interests, whose status is ignored, they stay as they were.
pub connection_write-Written :
    (modified : Bool) (answers : List SendAnswer) (conn : Connection)
    → conn.closing ≡ false
    → (r : Connection × List ℕ) × (connection_write modified (answers ++ send_blocks ∷ []) conn
        ≡ ok r)
      × Written modified conn [] r
unfolding connection_write
connection_write-Written modified answers conn e = write_loop-Written modified answers conn [] e
