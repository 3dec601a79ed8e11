-- ===== src/Scheduler/Queue.antt =====
-- When the links of the ready queue of src/scheduler.c hold a list of calls.
use wirecall.Common.{
  ℕ, ◌+◌, ◌≤◌, ◌<◌, List, [], ◌∷◌, ◌++◌, ne→==, ==_self, ◌≡◌, ◌≢◌, refl, sym, arith,
}
use wirecall.Arena.Invariant.{occurs, elsewhere}
use wirecall.Scheduler.{Ready, link}

abbrev pub Linked : (ℕ → ℕ) → ℕ → List ℕ → Type 0
Linked links p [] = p ≡ 0
Linked links p (c ∷ rest) = (p ≡ c) × Linked links (links c) rest

unfoldable pub last_of : List ℕ → ℕ
last_of [] = 0
last_of (c ∷ []) = c
last_of (c ∷ d ∷ rest) = last_of (d ∷ rest)

-- The queue holds these calls, none of them twice and none at NULL.
pub record IsQueue (q : Ready) (calls : List ℕ) : Type 0 where
  pub linked : Linked q.next_ready q.head calls
  pub last : q.tail ≡ last_of calls
  pub once : (c : ℕ) → occurs c calls ≤ 1
  pub valid : occurs 0 calls ≡ 0

pub occurs-last_of : (c : ℕ) (rest : List ℕ) → 0 < occurs (last_of (c ∷ rest)) (c ∷ rest)
unfolding occurs last_of
occurs-last_of c [] = rw (==_self c) omega arith
occurs-last_of c (d ∷ rest) = omega (arith, occurs-last_of d rest)

pub occurs-append :
    (c d : ℕ) (cs : List ℕ) → occurs c (cs ++ d ∷ []) ≡ occurs c cs + occurs c (d ∷ [])
unfolding occurs
occurs-append c d [] = omega arith
occurs-append c d (e ∷ cs) = omega (arith, occurs-append c d cs)

pub last_of-append : (c d : ℕ) (cs : List ℕ) → last_of ((c ∷ cs) ++ d ∷ []) ≡ d
unfolding last_of
last_of-append c d [] = refl
last_of-append c d (e ∷ cs) = last_of-append e d cs

pub link_self : (c n : ℕ) (links : ℕ → ℕ) → link c n links c ≡ n
unfolding link
link_self c n links = rw (==_self c) refl

pub link_other : (c n d : ℕ) (links : ℕ → ℕ) → d ≢ c → link c n links d ≡ links d
unfolding link
link_other c n d links h = rw (ne→== d c h) refl

-- Links that differ at calls outside the list only.
pub Linked-ext :
    (links links' : ℕ → ℕ) (p : ℕ) (cs : List ℕ)
    → ((c : ℕ) → 0 < occurs c cs → links' c ≡ links c)
    → Linked links p cs
    → Linked links' p cs
unfolding occurs
Linked-ext links links' p [] h l = l
Linked-ext links links' p (c ∷ rest) h (here, later) = (
  here,
  rw (h c (rw (==_self c) omega arith))
      (Linked-ext links links' (links c) rest (λ d m. h d (omega (arith, m))) later),
)

pub once_head : (c : ℕ) (rest : List ℕ) → occurs c (c ∷ rest) ≤ 1 → occurs c rest ≡ 0
unfolding occurs
once_head c rest h = ground (arith, ==_self c)

pub once_rest : (c d : ℕ) (rest : List ℕ) → occurs d (c ∷ rest) ≤ 1 → occurs d rest ≤ 1
unfolding occurs
once_rest c d rest h = omega (arith, h)

-- Linking the last call to a new one.
pub Linked-append :
    (links links' : ℕ → ℕ) (call c : ℕ) (rest : List ℕ) (p : ℕ)
    → ((d : ℕ) → occurs d (c ∷ rest) ≤ 1)
    → ((d : ℕ) → 0 < occurs d (c ∷ rest) → d ≢ last_of (c ∷ rest) → links' d ≡ links d)
    → links' (last_of (c ∷ rest)) ≡ call
    → links' call ≡ 0
    → Linked links p (c ∷ rest)
    → Linked links' p ((c ∷ rest) ++ call ∷ [])
unfolding occurs last_of
Linked-append links links' call c [] p once same joined ended (here, later) =
    (here, (joined, ended))
Linked-append links links' call c (d ∷ rest) p once same joined ended (here, later) =
    let gone = once_head c (d ∷ rest) (once c) in
    let unlike : c ≢ last_of (d ∷ rest) =
      λ e. elsewhere c _ (d ∷ rest) gone (occurs-last_of d rest) (sym e) in
    (
      here,
      rw (same c (rw (==_self c) omega arith) unlike) (
          Linked-append links links' call d rest (links c) (λ e. once_rest c e (d ∷ rest) (once e))
            (λ e m. same e (omega (arith, m))) joined ended later),
    )
