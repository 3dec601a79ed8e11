-- ===== src/Payload/Writer/Reserve.antt =====
-- The growth of a writer of src/payload.c.
use wirecall.Common.{
  ℕ, zero, suc, ◌+◌, ◌*◌, ◌-◌, ◌/◌, ◌^◌, ◌≤◌, ◌<◌, Bool, true, false, ◌||◌, length, ltb, leb, ◌==◌,
  if◌then◌else◌, ok, ◌≡◌, refl, arith, Bool-cases, inl, inr, ==→ne, ltb→le,
}
use wirecall.Common.Bits.{double_pow}
use wirecall.Protocol.Header.{max_payload_size}
use wirecall.Memory.{Grants, Mem, mem_realloc, count_block}
use wirecall.Memory.Ends.{Ample, host_limit, Ends, Ends-after}
use wirecall.Payload.Writer.{Writer, Status, writer_init, writer_reserve, grow_cap, grow_fuel}

pub record IsWriter (w : Writer) : Type 0 where
  pub fits : length w.written ≤ w.cap
  pub limit : w.cap ≤ max_payload_size
  pub empty : w.block ≡ false → w.cap ≡ 0

pub writer_init-IsWriter : IsWriter writer_init
unfolding writer_init
writer_init-IsWriter = record { fits = omega arith; limit = omega arith; empty = λ e. refl }

-- Fuel that doubles the capacity past the limit is enough.
grow_cap_lem :
    (fuel need cap : ℕ)
    → need ≤ max_payload_size
    → cap ≤ max_payload_size
    → max_payload_size < cap * 2 ^ fuel
    → (c : ℕ) × (grow_cap fuel need cap ≡ ok c) × (need ≤ c) × (c ≤ max_payload_size)
unfolding grow_cap
grow_cap_lem zero need cap n l h = absurd (omega arith)
grow_cap_lem (suc fuel) need cap n l h = elim (Bool-cases (ltb cap need)) [
  | inr enough ↦ (cap, ground arith, omega (arith, ltb→le cap need enough), l)
  | inl less ↦ elim (Bool-cases (ltb (max_payload_size / 2) cap)) [
    | inl last ↦ (max_payload_size, ground arith, n, omega arith)
    | inr more ↦
        let (c, e, p, q) =
          grow_cap_lem fuel need (cap * 2) n (omega (arith, ltb→le (max_payload_size / 2) cap more))
            (omega (arith, double_pow cap fuel)) in
        (c, ground arith, p, q)
  ]
]

start-le : (cap : ℕ) → cap ≤ max_payload_size → (if cap == 0 then 64 else cap) ≤ max_payload_size
start-le cap h = ground arith

start-grows : (cap : ℕ) → max_payload_size < (if cap == 0 then 64 else cap) * 2 ^ grow_fuel
start-grows cap = elim (Bool-cases (cap == 0)) [
  | inl z ↦ rw z omega arith
  | inr more ↦ rw more (let h = ==→ne cap 0 more in omega arith)
]

pub grown_live :
    (block : Bool) (base n : ℕ)
    → n ≡ (if block then base else base + 1)
    → n + count_block block ≡ base + count_block true
grown_live true base n h = omega arith
grown_live false base n h = omega arith

pub mem_realloc-Ample :
    (base : ℕ) (grant : Grants) (block : Bool) (size : ℕ) (s : Mem)
    → Ends base
        (λ b s'.
          (Ample grant → size ≤ host_limit → b ≡ true)
          × (s'.live ≡ (if b then (if block then s.live else s.live + 1) else s.live)))
        (mem_realloc grant block size s)
unfolding mem_realloc
mem_realloc-Ample base grant block size s =
    elim (Bool-cases (grant s.requests (if size == 0 then 1 else size))) [
      | inl given ↦ rw given ((λ g l. refl), refl)
      | inr refused ↦ rw refused (
        (λ g l. (let e = g s.requests (if size == 0 then 1 else size) (ground (arith, l)) in cc)),
        refl,
      )
    ]

abbrev pub Reserved : Grants → Writer → ℕ → Mem → Status → Mem → Type 0
Reserved grant w extra s r s' =
    IsWriter r.1
    × (r.1.written ≡ w.written)
    × (r.0 ≡ true → length w.written + extra ≤ r.1.cap)
    × (Ample grant → length w.written + extra ≤ max_payload_size → r.0 ≡ true)
    × (s'.live + count_block w.block ≡ s.live + count_block r.1.block)

-- `writer_reserve` keeps the bytes; where it succeeds there is room for `extra` more.
pub writer_reserve-Ends :
    (base : ℕ) (grant : Grants) (w : Writer) (extra : ℕ) (s : Mem)
    → IsWriter w
    → Ends base (Reserved grant w extra s) (writer_reserve grant w extra s)
unfolding writer_reserve
writer_reserve-Ends base grant w extra s v =
    elim (Bool-cases
      (ltb max_payload_size extra || ltb (max_payload_size - extra) (length w.written))) [
        | inl big ↦ rw big (v, refl, (λ e. cc), (λ g l. ground arith), refl)
        | inr small ↦ elim (Bool-cases (leb (length w.written + extra) w.cap)) [
          | inl room ↦ rw (small, room) (v, refl, (λ e. ground arith), (λ g l. refl), refl)
          | inr full ↦
              let (cap, grown, enough, limit) =
                grow_cap_lem grow_fuel (length w.written + extra) (if w.cap == 0 then 64 else w.cap)
                  (ground arith) (start-le w.cap v.limit) (start-grows w.cap) in
              rw (small, full, grown)
                (Ends-after base _ _ (mem_realloc grant w.block cap s) _
                  (mem_realloc-Ample base grant w.block cap s)
                  elim [
                    | false ↦ λ s' (sure, live).
                        (v, refl, (λ e. cc), (λ g l. sure g (omega arith)), omega arith)
                    | true ↦ λ s' (sure, live). (
                      record { fits = omega arith; limit = limit; empty = λ e. cc },
                      refl,
                      (λ e. enough),
                      (λ g l. refl),
                      grown_live w.block s.live s'.live live,
                    )
                  ])
        ]
      ]
