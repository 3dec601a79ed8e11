-- ===== src/Server/Queue/Append.antt =====
-- The two calls of `append_bytes` in `queue_packet` of src/server.c.
use wirecall.Common.{
  ℕ, ◌+◌, ◌^◌, ◌≤◌, Bool, true, false, List, ◌++◌, length, if◌then◌else◌, ◌≡◌, ◌⊎◌, inl, inr, refl,
  ap, ◌∙◌, arith, append_assoc, length-append,
}
use wirecall.Memory.{Grants, Mem, count_block, ret}
use wirecall.Memory.Ends.{IsHost, Ample, host_limit, Ends, Ends-after, Ends-map}
use wirecall.Stream.{ByteBuffer, append_bytes}
use wirecall.Stream.Grow.{IsByteBuffer, Appended, append_bytes-Appended}
use wirecall.Server.Queue.{append_packet}

-- The write buffer after the two appends: the packet, or nothing of it, or its header only, where
-- the second append had no memory.
pub record Packed (grant : Grants) (b : ByteBuffer) (header payload : List ℕ) (s : Mem)
    (r : Bool × ByteBuffer) (s' : Mem) : Type 0 where
  pub valid : IsByteBuffer r.1
  pub whole : r.0 ≡ true → r.1.bytes ≡ b.bytes ++ (header ++ payload)
  pub part : r.0 ≡ false → (r.1.bytes ≡ b.bytes) ⊎ (r.1.bytes ≡ b.bytes ++ header)
  pub sure : Ample grant → length b.bytes + (length header + length payload) ≤ 2 ^ 61 → r.0 ≡ true
  pub live : s'.live + count_block b.block ≡ s.live + count_block r.1.block

append_second :
    (base : ℕ) (grant : Grants) (b : ByteBuffer) (header payload : List ℕ) (s : Mem) (first : Bool)
    (b' : ByteBuffer) (s' : Mem)
    → IsHost grant
    → length payload ≤ host_limit
    → Appended grant b header s (first, b') s'
    → Ends base
        (Packed grant b header payload s)
        ((if first then append_bytes grant b' payload else ret (false, b')) s')
append_second base grant b header payload s false b' s' host fits a = record {
  valid = a.valid;
  whole = λ e. cc;
  part = λ e. inl (a.nothing refl);
  sure = λ g l. a.sure g (omega (arith, l));
  live = a.live;
}
append_second base grant b header payload s true b' s' host fits a =
    Ends-map base _ _ (append_bytes grant b' payload s')
      (append_bytes-Appended base grant b' payload s' host a.valid fits)
      (λ r s'' a'.
        (let live = a.live in
          let live' = a'.live in
          let same = a.whole refl in
          record {
            valid = a'.valid;
            whole =
                λ e. a'.whole e ∙ ap (λ t. t ++ payload) same ∙ append_assoc b.bytes header payload;
            part = λ e. inr (a'.nothing e ∙ same);
            sure =
                λ g l. a'.sure g (omega (arith, l, ap length same, length-append b.bytes header));
            live = omega arith;
          }))

pub append_packet-Packed :
    (base : ℕ) (grant : Grants) (header payload : List ℕ) (b : ByteBuffer) (s : Mem)
    → IsHost grant
    → IsByteBuffer b
    → length header ≤ host_limit
    → length payload ≤ host_limit
    → Ends base (Packed grant b header payload s) (append_packet grant header payload b s)
unfolding append_packet
append_packet-Packed base grant header payload b s host v n m =
    Ends-after base _ _ (append_bytes grant b header s) _
      (append_bytes-Appended base grant b header s host v n)
      (λ r s' a. append_second base grant b header payload s r.0 r.1 s' host m a)
