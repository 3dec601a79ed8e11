-- ===== src/Server/Lifetime/Elements.antt =====
-- Lists of the elements of an arena in use, for src/server.c: an element that goes leaves the others,
-- and takes away its own part of a sum.
use wirecall.Common.{
  ℕ, ◌+◌, true, false, List, [], ◌∷◌, ◌++◌, ◌⊎◌, ==→ne, ◌==◌, if◌then◌else◌, ◌≡◌, ◌≢◌, refl, ap,
  ◌∙◌, arith, Bool-cases, inl, inr, ==→eq, ne→==, ==_self, sym, subst,
}
use wirecall.Server.{without, in_use}

-- No element twice.
abbrev pub Distinct : List ℕ → Type 0
Distinct [] = Unit {0}
Distinct (x ∷ xs) = (in_use x xs ≡ false) × Distinct xs

abbrev pub total : (ℕ → ℕ) → List ℕ → ℕ
total f [] = 0
total f (x ∷ xs) = f x + total f xs

pub in_use-without_kept : (d c : ℕ) (l : List ℕ) → in_use d (without c l) ≡ true → in_use d l ≡ true
unfolding in_use without
in_use-without_kept d c [] e = e
in_use-without_kept d c (x ∷ xs) e = elim (Bool-cases (x == d)) [
  | inl here ↦ rw here refl
  | inr other ↦ rw other (elim (Bool-cases (x == c)) [
    | inl gone ↦
        let e' = subst (λ b. in_use d (if b then xs else x ∷ without c xs) ≡ true) gone e in e'
    | inr stays ↦
        let e' = subst (λ b. in_use d (if b then xs else x ∷ without c xs) ≡ true) stays e in
        in_use-without_kept d c xs
          (subst (λ b. (if b then true else in_use d (without c xs)) ≡ true) other e')
  ])
]

pub in_use-without_other :
    (d c : ℕ) (l : List ℕ) → d ≢ c → in_use d l ≡ true → in_use d (without c l) ≡ true
unfolding in_use without
in_use-without_other d c [] ne e = e
in_use-without_other d c (x ∷ xs) ne e = elim (Bool-cases (x == c)) [
  | inl gone ↦ rw gone (
      let other = ne→== x d (λ same. ne (sym same ∙ ==→eq x c gone)) in
      subst (λ b. (if b then true else in_use d xs) ≡ true) other e)
  | inr stays ↦ rw stays (elim (Bool-cases (x == d)) [
    | inl here ↦ rw here refl
    | inr other ↦ rw other (
        in_use-without_other d c xs ne
          (subst (λ b. (if b then true else in_use d xs) ≡ true) other e))
  ])
]

pub in_use-without_absent :
    (d c : ℕ) (l : List ℕ) → in_use d l ≡ false → in_use d (without c l) ≡ false
in_use-without_absent d c l e = elim (Bool-cases (in_use d (without c l))) [
  | inl kept ↦ let still = in_use-without_kept d c l kept in cc
  | inr gone ↦ gone
]

pub in_use-without_self : (c : ℕ) (l : List ℕ) → Distinct l → in_use c (without c l) ≡ false
unfolding in_use without
in_use-without_self c [] h = refl
in_use-without_self c (x ∷ xs) (fresh, h) = elim (Bool-cases (x == c)) [
  | inl gone ↦ rw gone (subst (λ y. in_use y xs ≡ false) (==→eq x c gone) fresh)
  | inr stays ↦ rw (stays, stays) (in_use-without_self c xs h)
]

pub without-Distinct : (c : ℕ) (l : List ℕ) → Distinct l → Distinct (without c l)
unfolding without
without-Distinct c [] h = h
without-Distinct c (x ∷ xs) (fresh, h) = elim (Bool-cases (x == c)) [
  | inl gone ↦ rw gone h
  | inr stays ↦ rw stays (in_use-without_absent x c xs fresh, without-Distinct c xs h)
]

pub total-without :
    (f : ℕ → ℕ) (c : ℕ) (l : List ℕ) → in_use c l ≡ true → total f l ≡ f c + total f (without c l)
unfolding in_use without
total-without f c [] e = cc
total-without f c (x ∷ xs) e = elim (Bool-cases (x == c)) [
  | inl here ↦ rw here (ap (λ y. f y + total f xs) (==→eq x c here))
  | inr other ↦ rw other (
      let rest =
        total-without f c xs (subst (λ b. (if b then true else in_use c xs) ≡ true) other e) in
      omega (arith, rest))
]

-- A sum of the same parts.
pub total-same :
    (f g : ℕ → ℕ) (l : List ℕ) → ((d : ℕ) → in_use d l ≡ true → f d ≡ g d) → total f l ≡ total g l
unfolding in_use
total-same f g [] h = refl
total-same f g (x ∷ xs) h =
    let first : f x ≡ g x = h x (rw (==_self x) refl) in
    let rest = total-same f g xs (λ d e. h d (later d e)) in omega (arith, first, rest)
  where
    later : (d : ℕ) → in_use d xs ≡ true → in_use d (x ∷ xs) ≡ true
    later d e = elim (Bool-cases (x == d)) [ inl t ↦ rw t refl | inr n ↦ rw n e ]

-- A part of a sum that is 0.
pub total_zero : (f : ℕ → ℕ) (l : List ℕ) (d : ℕ) → total f l ≡ 0 → in_use d l ≡ true → f d ≡ 0
total_zero f l d e here = let parts = total-without f d l here in omega (arith, parts, e)

-- A sum with another part for one element.
pub total-put :
    (f g : ℕ → ℕ) (c : ℕ) (l : List ℕ)
    → Distinct l
    → in_use c l ≡ true
    → ((d : ℕ) → d ≢ c → g d ≡ f d)
    → total g l + f c ≡ total f l + g c
total-put f g c l h here same =
    let old = total-without f c l here in
    let new = total-without g c l here in
    let rest = total-same g f (without c l) (λ d e. same d (away d e)) in
    omega (arith, old, new, rest)
  where
    away : (d : ℕ) → in_use d (without c l) ≡ true → d ≢ c
    away d e eq =
        let gone = in_use-without_self c l h in
        let here' = subst (λ y. in_use y (without c l) ≡ true) eq e in cc

-- An element at the end of a list.
pub in_use-append :
    (j k : ℕ) (l : List ℕ) → in_use j (l ++ k ∷ []) ≡ true → (in_use j l ≡ true) ⊎ (j ≡ k)
unfolding in_use
in_use-append j k [] e = inr (ground (arith, e))
in_use-append j k (x ∷ xs) e = elim (Bool-cases (x == j)) [
  | inl here ↦ inl (rw here refl)
  | inr other ↦ rw other (
      in_use-append j k xs
        (subst (λ b. (if b then true else in_use j (xs ++ k ∷ [])) ≡ true) other e))
]

pub append-Distinct :
    (k : ℕ) (l : List ℕ) → Distinct l → in_use k l ≡ false → Distinct (l ++ k ∷ [])
unfolding in_use
append-Distinct k [] h e = (refl, tt)
append-Distinct k (x ∷ xs) (fresh, h) e = elim (Bool-cases (x == k)) [
  | inl same ↦ let e' = subst (λ b. (if b then true else in_use k xs) ≡ false) same e in cc
  | inr other ↦ (
    still_out other,
    append-Distinct k xs h (subst (λ b. (if b then true else in_use k xs) ≡ false) other e),
  )
]
  where
    still_out : (x == k) ≡ false → in_use x (xs ++ k ∷ []) ≡ false
    still_out other = elim (Bool-cases (in_use x (xs ++ k ∷ []))) [
      | inl inside ↦ elim (in_use-append x k xs inside) [
        | inl before ↦ cc
        | inr same ↦ absurd (==→ne x k other same)
      ]
      | inr out ↦ out
    ]
