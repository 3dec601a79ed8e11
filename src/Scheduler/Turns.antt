-- ===== src/Scheduler/Turns.antt =====
-- The turns that handlers take in the loop of src/scheduler.c.
use wirecall.Common.{
  ℕ, zero, suc, ◌+◌, ◌-◌, ◌≤◌, ◌<◌, false, List, [], ◌∷◌, ◌++◌, ◌==◌, ne→==, ==_self, if◌then◌else◌,
  ◌≡◌, ◌≢◌, refl, subst, arith,
}
use wirecall.Arena.Invariant.{occurs}
use wirecall.Scheduler.Run.{Resumed, yielded, returned, broken, Call, put_call}

-- What holds of the new state where the handler yields.
abbrev pub Then : Resumed → (ℕ → Type 0) → Type 0
Then (yielded co) P = P co
Then (returned result) P = Unit {0}
Then broken P = Unit {0}

-- Resuming the coroutine so many times at most ends its handler.
abbrev pub Finishes : (ℕ → Resumed) → ℕ → ℕ → Type 0
Finishes resume zero co = ⊥
Finishes resume (suc n) co = Then (resume co) (λ co'. Finishes resume n co')

-- The resumptions that a list of calls needs.
unfoldable pub total : (ℕ → ℕ) → List ℕ → ℕ
total turns [] = 0
total turns (c ∷ cs) = turns c + total turns cs

pub Finishes-step :
    (resume : ℕ → Resumed) (t co : ℕ)
    → Finishes resume t co
    → (0 < t) × Then (resume co) (λ co'. Finishes resume (t - 1) co')
Finishes-step resume zero co h = absurd h
Finishes-step resume (suc n) co h =
    (omega arith, subst (λ k. Then (resume co) (λ co'. Finishes resume k co')) (omega arith) h)

-- One turn of a call less.
abbrev pub less_turn : ℕ → (ℕ → ℕ) → ℕ → ℕ
less_turn c turns d = if d == c then turns c - 1 else turns d

pub total-append :
    (turns : ℕ → ℕ) (cs : List ℕ) (c : ℕ) → total turns (cs ++ c ∷ []) ≡ total turns cs + turns c
unfolding total
total-append turns [] c = omega arith
total-append turns (d ∷ cs) c = omega (arith, total-append turns cs c)

pub total-less_turn :
    (turns : ℕ → ℕ) (c : ℕ) (cs : List ℕ)
    → occurs c cs ≡ 0
    → total (less_turn c turns) cs ≡ total turns cs
unfolding total occurs
total-less_turn turns c [] h = refl
total-less_turn turns c (d ∷ cs) h =
    let apart : (d == c) ≡ false = ground (arith, h) in
    rw apart omega (arith, total-less_turn turns c cs (omega (arith, h)))

pub total_requeue :
    (turns : ℕ → ℕ) (c : ℕ) (rest : List ℕ) (fuel : ℕ)
    → occurs c rest ≡ 0
    → 0 < turns c
    → total turns (c ∷ rest) ≤ suc fuel
    → total (less_turn c turns) (rest ++ c ∷ []) ≤ fuel
unfolding total
total_requeue turns c rest fuel gone more h =
    let own : less_turn c turns c ≡ turns c - 1 = rw (==_self c) refl in
    omega (arith, total-append (less_turn c turns) rest c, total-less_turn turns c rest gone, own)

pub occurs_first : (c : ℕ) (rest : List ℕ) → 0 < occurs c (c ∷ rest)
unfolding occurs
occurs_first c rest = rw (==_self c) omega arith

pub total-more : (turns : ℕ → ℕ) (c : ℕ) (rest : List ℕ) → 0 < turns c → 0 < total turns (c ∷ rest)
unfolding total
total-more turns c rest h = omega (arith, h)

pub total_finish :
    (turns : ℕ → ℕ) (c : ℕ) (rest : List ℕ) (fuel : ℕ)
    → 0 < turns c
    → total turns (c ∷ rest) ≤ suc fuel
    → total turns rest ≤ fuel
unfolding total
total_finish turns c rest fuel more h = omega (arith, more, h)

pub put_call_other :
    (c d : ℕ) (call : Call) (calls : ℕ → Call) → d ≢ c → put_call c call calls d ≡ calls d
unfolding put_call
put_call_other c d call calls h = rw (ne→== d c h) refl

pub put_call_self : (c : ℕ) (call : Call) (calls : ℕ → Call) → put_call c call calls c ≡ call
unfolding put_call
put_call_self c call calls = rw (==_self c) refl
