-- ===== src/Client/Send.antt =====
-- `send_iov_full` of src/client.c: the loop over partial writes of at most two buffers.
use wirecall.Common.{
  ℕ, zero, suc, ◌-◌, ◌≤◌, ◌<◌, false, ◌||◌, Bool-cases, inl, inr, List, [], ◌∷◌, ◌++◌, length, take,
  drop, All, map, ne→==, le→ltb, leb, ltb, ◌==◌, leb→le, if◌then◌else◌, Outcome, ok, fail, stuck,
  ◌≡◌, refl, sym, ap, ◌∙◌, arith, append_assoc, append-nil, take-append-drop, length-append,
  drop-nil, length-drop, lt→ltb,
}

-- What `sendmsg` answers: a count of bytes, an interruption, or another error.
pub data Answer : Type 0 where
  sent : ℕ → Answer
  interrupted : Answer
  broken : Answer

abbrev pub concat : List (List ℕ) → List ℕ
concat [] = []
concat (b ∷ bs) = b ++ concat bs

-- The buffers that are left after so many bytes.
unfoldable pub advance : ℕ → List (List ℕ) → List (List ℕ)
advance n [] = []
advance n (b ∷ bs) =
    let rest = advance (n - length b) bs in if leb (length b) n then rest else drop n b ∷ bs

-- `while (iov_count > 0)`, with the bytes that went out.
unfoldable pub send_loop : List Answer → List (List ℕ) → List ℕ → Outcome (List ℕ)
send_loop answers [] out = ok out
send_loop [] (b ∷ bs) out = stuck
send_loop (interrupted ∷ answers) (b ∷ bs) out = send_loop answers (b ∷ bs) out
send_loop (broken ∷ answers) (b ∷ bs) out = fail
send_loop (sent n ∷ answers) (b ∷ bs) out =
    let rest = send_loop answers (advance n (b ∷ bs)) (out ++ take n (concat (b ∷ bs))) in
    if ltb 0 n then rest else fail

unfoldable pub send_iov_full : List Answer → List (List ℕ) → Outcome (List ℕ)
send_iov_full answers iov =
    if length iov == 0 || ltb 2 (length iov) then fail else send_loop answers iov []

drop_short :
    (n : ℕ) (b rest : List ℕ) → length b ≤ n → drop n (b ++ rest) ≡ drop (n - length b) rest
drop_short n [] rest h = ap (λ k. drop k rest) (omega arith)
drop_short zero (x ∷ b) rest h = absurd (omega arith)
drop_short (suc n) (x ∷ b) rest h =
    drop_short n b rest (omega arith) ∙ ap (λ k. drop k rest) (omega arith)

drop_long : (n : ℕ) (b rest : List ℕ) → n ≤ length b → drop n (b ++ rest) ≡ drop n b ++ rest
drop_long zero b rest h = refl
drop_long (suc n) [] rest h = absurd (omega arith)
drop_long (suc n) (x ∷ b) rest h = drop_long n b rest (omega arith)

concat-advance : (n : ℕ) (iov : List (List ℕ)) → concat (advance n iov) ≡ drop n (concat iov)
unfolding advance
concat-advance n [] = sym (drop-nil n)
concat-advance n (b ∷ bs) = elim (Bool-cases (leb (length b) n)) [
  | inl whole ↦ rw whole (
      concat-advance (n - length b) bs
      ∙ sym (drop_short n b (concat bs) (leb→le (length b) n whole)))
  | inr part ↦ rw part (sym (drop_long n b (concat bs) (ground (arith, part))))
]

-- A round that sends `n` bytes.
went_out :
    (n : ℕ) (iov : List (List ℕ)) (out : List ℕ)
    → (out ++ take n (concat iov)) ++ concat (advance n iov) ≡ out ++ concat iov
went_out n iov out =
    append_assoc out (take n (concat iov)) (concat (advance n iov))
    ∙ ap (λ t. out ++ (take n (concat iov) ++ t)) (concat-advance n iov)
    ∙ ap (◌++◌ out) (take-append-drop n (concat iov))

-- Buffers with a byte at least.
abbrev pub Filled : List (List ℕ) → Type 0
Filled iov = All (λ b. 0 < length b) iov

not_whole : (n : ℕ) (b : List ℕ) → leb (length b) n ≡ false → n < length b
not_whole n b h = ground (arith, h)

Filled-advance : (n : ℕ) (iov : List (List ℕ)) → Filled iov → Filled (advance n iov)
unfolding advance
Filled-advance n [] h = tt
Filled-advance n (b ∷ bs) (p, h) = elim (Bool-cases (leb (length b) n)) [
  | inl whole ↦ rw whole (Filled-advance (n - length b) bs h)
  | inr part ↦ rw part (omega (arith, length-drop n b, not_whole n b part), h)
]

send_loop_lem :
    (counts : List ℕ) (iov : List (List ℕ)) (out : List ℕ)
    → All (λ n. 0 < n) counts
    → Filled iov
    → length (concat iov) ≤ length counts
    → send_loop (map sent counts) iov out ≡ ok (out ++ concat iov)
unfolding send_loop
send_loop_lem [] [] out p h l = ap ok (sym (append-nil out))
send_loop_lem (n ∷ ns) [] out p h l = ap ok (sym (append-nil out))
send_loop_lem [] (b ∷ bs) out p (q, h) l = absurd (omega (arith, q, l, length-append b (concat bs)))
send_loop_lem (n ∷ ns) (b ∷ bs) out (p, ps) h l = rw (lt→ltb 0 n p) (
    send_loop_lem ns (advance n (b ∷ bs)) (out ++ take n (concat (b ∷ bs))) ps
      (Filled-advance n (b ∷ bs) h)
      (omega (arith, ap length (concat-advance n (b ∷ bs)), length-drop n (concat (b ∷ bs)), l, p))
    ∙ ap ok (went_out n (b ∷ bs) out))

-- Where every write sends a byte at least, one or two buffers with bytes go out whole and in order,
-- in no more writes than there are bytes, however the writes split them.
pub send_iov_full_lem :
    (counts : List ℕ) (iov : List (List ℕ))
    → All (λ n. 0 < n) counts
    → Filled iov
    → 0 < length iov
    → length iov ≤ 2
    → length (concat iov) ≤ length counts
    → send_iov_full (map sent counts) iov ≡ ok (concat iov)
unfolding send_iov_full
send_iov_full_lem counts iov p h some_buffer two l =
    rw (ne→== (length iov) 0 (λ e. omega (arith, e, some_buffer)), le→ltb 2 (length iov) two)
      (send_loop_lem counts iov [] p h l)
