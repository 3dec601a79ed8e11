-- ===== src/Stream/Grow.antt =====
-- The growth of the byte buffers of src/server.c and src/client.c.
use wirecall.Common.{
  ℕ, zero, suc, ◌+◌, ◌*◌, ◌-◌, ◌%◌, ◌^◌, ◌≤◌, ◌<◌, Bool, true, false, List, ◌++◌, length, ltb, leb,
  ◌==◌, if◌then◌else◌, ok, max, ◌≡◌, refl, sym, arith, Bool-cases, inl, inr, ==→ne, ltb→le, ltb→lt,
  leb→le, le→leb, le→ltb, length-append, ◌∷◌, append-nil, [],
}
use wirecall.Common.Bits.{double_pow}
use wirecall.Memory.{Grants, Mem, mem_realloc, count_block}
use wirecall.Memory.Ends.{Ends, Ends-after, host_limit, IsHost, Ample}
use wirecall.Payload.Writer.Reserve.{grown_live}
use wirecall.Stream.{
  ByteBuffer, no_buffer, double_cap, double_fuel, read_chunk, grow_buffer, reserve_bytes, copy_in,
  append_bytes,
}

pub record IsByteBuffer (b : ByteBuffer) : Type 0 where
  pub fits : length b.bytes ≤ b.cap
  pub limit : b.cap ≤ host_limit
  pub empty : b.block ≡ false → b.cap ≡ 0

pub no_buffer-IsByteBuffer : IsByteBuffer no_buffer
no_buffer-IsByteBuffer = record { fits = omega arith; limit = omega arith; empty = λ e. refl }

one_more :
    (fuel need cap c : ℕ)
    → ltb cap need ≡ true
    → cap * 2 % 2 ^ 64 ≡ cap * 2
    → double_cap fuel need (cap * 2) ≡ ok c
    → double_cap (suc fuel) need cap ≡ ok c
unfolding double_cap
one_more fuel need cap c less whole e = rw (less, whole) e

-- A need of at most half the address space is met before the capacity wraps around, and the
-- capacity stays below twice the need or as it was.
double_cap_lem :
    (fuel need cap : ℕ)
    → need ≤ 2 ^ 63
    → 2 ^ 63 ≤ cap * 2 ^ fuel
    → (c : ℕ) × (double_cap fuel need cap ≡ ok c) × (need ≤ c) × (c ≤ max cap (2 * need))
unfolding double_cap
double_cap_lem zero need cap n h = elim (Bool-cases (ltb cap need)) [
  | inl less ↦ absurd (omega (arith, ltb→lt cap need less))
  | inr enough ↦ (cap, rw enough refl, ltb→le cap need enough, omega arith)
]
double_cap_lem (suc fuel) need cap n h = elim (Bool-cases (ltb cap need)) [
  | inr enough ↦ (cap, rw enough refl, ltb→le cap need enough, omega arith)
  | inl less ↦
      let small = ltb→lt cap need less in
      let (c, e, p, q) =
        double_cap_lem fuel need (cap * 2) n (omega (arith, double_pow cap fuel)) in
      (c, one_more fuel need cap c less (omega arith) e, p, omega (arith, q, small))
]

-- What a reservation of `need` bytes leaves.
pub record Grown (grant : Grants) (b : ByteBuffer) (need : ℕ) (s : Mem) (r : Bool × ByteBuffer)
    (s' : Mem) : Type 0 where
  pub valid : IsByteBuffer r.1
  pub same : r.1.bytes ≡ b.bytes
  pub room : r.0 ≡ true → need ≤ r.1.cap
  pub sure : Ample grant → need ≤ 2 ^ 61 → r.0 ≡ true
  pub live : s'.live + count_block b.block ≡ s.live + count_block r.1.block

start_doubles :
    (first cap : ℕ) → 0 < first → 2 ^ 63 ≤ (if cap == 0 then first else cap) * 2 ^ double_fuel
start_doubles first cap h = elim (Bool-cases (cap == 0)) [
  | inl z ↦ rw z omega arith
  | inr more ↦ rw more (let h = ==→ne cap 0 more in omega arith)
]

start_limit :
    (first cap : ℕ)
    → first ≤ host_limit
    → cap ≤ host_limit
    → (if cap == 0 then first else cap) ≤ host_limit
start_limit first cap f h = ground arith

-- The answer to a request for a block that is to grow.
record Answered (grant : Grants) (block : Bool) (size : ℕ) (s : Mem) (b : Bool) (s' : Mem)
    : Type 0 where
  limit : b ≡ true → size ≤ host_limit
  sure : Ample grant → size ≤ host_limit → b ≡ true
  live : s'.live ≡ (if b then (if block then s.live else s.live + 1) else s.live)

refused_size :
    (grant : Grants) (n size : ℕ)
    → IsHost grant
    → grant n (if size == 0 then 1 else size) ≡ true
    → size ≤ host_limit
refused_size grant n size host given = elim (Bool-cases (ltb host_limit size)) [
  | inr fits ↦ ltb→le host_limit size fits
  | inl big ↦ let e = host n (if size == 0 then 1 else size) (ground (arith, big)) in cc
]

mem_realloc-Answered :
    (base : ℕ) (grant : Grants) (block : Bool) (size : ℕ) (s : Mem)
    → IsHost grant
    → Ends base (Answered grant block size s) (mem_realloc grant block size s)
unfolding mem_realloc
mem_realloc-Answered base grant block size s host =
    elim (Bool-cases (grant s.requests (if size == 0 then 1 else size))) [
      | inl given ↦ rw given record {
        limit = λ e. refused_size grant s.requests size host given;
        sure = λ a l. refl;
        live = refl;
      }
      | inr refused ↦ rw refused record {
        limit = λ e. cc;
        sure =
            λ a l. (let e = a s.requests (if size == 0 then 1 else size) (ground (arith, l)) in cc);
        live = refl;
      }
    ]

pub grow_buffer-Grown :
    (base : ℕ) (grant : Grants) (first : ℕ) (b : ByteBuffer) (need : ℕ) (s : Mem)
    → IsHost grant
    → IsByteBuffer b
    → 0 < first
    → first ≤ host_limit
    → b.cap < need
    → need ≤ 2 ^ 63
    → Ends base (Grown grant b need s) (grow_buffer grant first b need s)
unfolding grow_buffer
grow_buffer-Grown base grant first b need s host v f f' short n =
    let start = if b.cap == 0 then first else b.cap in
    let (cap, grown, enough, small) =
      double_cap_lem double_fuel need start n (start_doubles first b.cap f) in
    let fits = v.fits in
    let low = start_limit first b.cap f' v.limit in
    rw grown (
      Ends-after base _ _ (mem_realloc grant b.block cap s) _
        (mem_realloc-Answered base grant b.block cap s host)
        elim [
          | false ↦ λ s' a.
              (let live = a.live in
                record {
                  valid = v;
                  same = refl;
                  room = λ e. cc;
                  sure = λ g l. a.sure g (omega (arith, small, low, l));
                  live = omega arith;
                })
          | true ↦ λ s' a. record {
            valid = record { fits = omega arith; limit = a.limit refl; empty = λ e. cc };
            same = refl;
            room = λ e. enough;
            sure = λ g l. refl;
            live = grown_live b.block s.live s'.live a.live;
          }
        ])

pub reserve_bytes-Grown :
    (base : ℕ) (grant : Grants) (b : ByteBuffer) (need : ℕ) (s : Mem)
    → IsHost grant
    → IsByteBuffer b
    → need ≤ 2 ^ 63
    → Ends base (Grown grant b need s) (reserve_bytes grant b need s)
unfolding reserve_bytes
reserve_bytes-Grown base grant b need s host v n = elim (Bool-cases (leb need b.cap)) [
  | inl room ↦ rw room record {
    valid = v;
    same = refl;
    room = λ e. leb→le need b.cap room;
    sure = λ g l. refl;
    live = refl;
  }
  | inr full ↦ rw full (
      grow_buffer-Grown base grant read_chunk b need s host v (omega arith) (omega arith)
        (ground (arith, full)) n)
]

-- What an append of `new` leaves: all of it, or nothing.
pub record Appended (grant : Grants) (b : ByteBuffer) (new : List ℕ) (s : Mem)
    (r : Bool × ByteBuffer) (s' : Mem) : Type 0 where
  pub valid : IsByteBuffer r.1
  pub whole : r.0 ≡ true → r.1.bytes ≡ b.bytes ++ new
  pub nothing : r.0 ≡ false → r.1.bytes ≡ b.bytes
  pub sure : Ample grant → length b.bytes + length new ≤ 2 ^ 61 → r.0 ≡ true
  pub live : s'.live + count_block b.block ≡ s.live + count_block r.1.block

copy_in-Appended :
    (base : ℕ) (grant : Grants) (b : ByteBuffer) (new : List ℕ) (s : Mem) (fits : Bool)
    (b' : ByteBuffer) (s' : Mem)
    → Grown grant b (length b.bytes + length new) s (fits, b') s'
    → Ends base (Appended grant b new s) (copy_in new fits b' s')
unfolding copy_in
copy_in-Appended base grant b new s false b' s' g = record {
  valid = g.valid;
  whole = λ e. cc;
  nothing = λ e. g.same;
  sure = g.sure;
  live = g.live;
}
copy_in-Appended base grant b new s true b' s' g =
    let fits = g.room refl in
    let same = g.same in
    let empty = g.valid.empty in
    let limit = g.valid.limit in
    let live = g.live in
    rw (same, le→leb (length b.bytes + length new) b'.cap fits)
      record {
        valid = record {
          fits = omega (arith, length-append b.bytes new);
          limit = limit;
          empty = empty;
        };
        whole = λ e. refl;
        nothing = λ e. cc;
        sure = λ g l. refl;
        live = live;
      }

nil_of_length : (xs : List ℕ) → length xs ≡ 0 → xs ≡ []
nil_of_length [] e = refl
nil_of_length (x ∷ xs) e = absurd (omega (arith, e))

pub append_bytes-Appended :
    (base : ℕ) (grant : Grants) (b : ByteBuffer) (new : List ℕ) (s : Mem)
    → IsHost grant
    → IsByteBuffer b
    → length new ≤ host_limit
    → Ends base (Appended grant b new s) (append_bytes grant b new s)
unfolding append_bytes
append_bytes-Appended base grant b new s host v n =
    let fits = v.fits in
    let limit = v.limit in
    elim (Bool-cases (length new == 0)) [
      | inl empty ↦ rw empty record {
        valid = v;
        whole = λ e. rw (nil_of_length new (ground (arith, empty))) (sym (append-nil b.bytes));
        nothing = λ e. refl;
        sure = λ g l. refl;
        live = refl;
      }
      | inr more ↦
          let some_new = ==→ne (length new) 0 more in
          rw (more, le→ltb (2 ^ 64 - 1 - length new) (length b.bytes) (omega arith))
            (Ends-after base _ _ (reserve_bytes grant b (length b.bytes + length new) s) _
              (reserve_bytes-Grown base grant b (length b.bytes + length new) s host v
                (omega arith))
              (λ (fits, b') s' g. copy_in-Appended base grant b new s fits b' s' g))
    ]
