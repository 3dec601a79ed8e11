-- ===== src/Tests/Payload.antt =====
-- Payloads at concrete inputs.
use wirecall.Common.{ℕ, ◌+◌, ◌≡◌, refl, List, [], ◌∷◌, true, some, All, map, arith, ltb}
use wirecall.Words.{IsByte, put_u32}
use wirecall.Protocol.Buffer.{present}
use wirecall.Memory.{Grants, Mem, returned, count_block}
use wirecall.Memory.Ends.{Ends}
use wirecall.Payload.Value.{Value, Datum, IsDatum, encode_all, represent}
use wirecall.Payload.Decode.{Array, payload_decode}
use wirecall.Payload.Decode.Blocks.{IsArray}
use wirecall.Payload.Decode.Loop.{IsPayload, payload_decode-Ends}
use wirecall.Payload.Decode.Complete.{Gives}
use wirecall.Payload.Decode.RoundTrip.{payload_decode-encode_all}
use wirecall.Payload.Writer.{Writer, writer_init, write_all}
use wirecall.Payload.Writer.Reserve.{IsWriter, writer_init-IsWriter}
use wirecall.Payload.Writer.Write.{Wrote, write_all-Ends}
use wirecall.Payload.RoundTrip.{payload_decode-write_all}

abbrev start : Mem
start = record { requests = 0; live = 0 }

-- Two requests are granted, the third is not.
abbrev two_grants : Grants
two_grants n size = ltb n 2

abbrev all_grants : Grants
all_grants n size = true

-- The string "hi" and the truth value true.
abbrev wire : List ℕ
wire = 6 ∷ 0 ∷ 0 ∷ 0 ∷ 2 ∷ 104 ∷ 105 ∷ 1 ∷ 1 ∷ []

wire-All : All IsByte wire
wire-All = ground arith

payload_decode-Ends_example :
    Ends 0 (IsPayload wire 0) (payload_decode two_grants (present wire) start)
payload_decode-Ends_example = payload_decode-Ends two_grants (present wire) start wire-All

abbrev data_of : List Datum
data_of = Datum.string (104 ∷ 105 ∷ []) ∷ Datum.boolean true ∷ []

data_of-All : All IsDatum data_of
data_of-All = ground arith

payload_decode-encode_all_example :
    (a : Array) × Gives a (payload_decode all_grants (present (encode_all data_of)) start)
    × IsArray a
    × (a.items ≡ map represent data_of)
payload_decode-encode_all_example =
    payload_decode-encode_all all_grants (λ n size. refl) data_of start data_of-All

abbrev array : Array
array = record {
  items = Value.bytes (some (7 ∷ [])) 1 ∷ Value.null ∷ [];
  cap = 4;
  block = true;
  ended = true;
}

array-IsArray : IsArray array
array-IsArray = record { fits = omega arith; empty = λ e. cc; ends = λ e. refl }

write_all-Ends_example :
    Ends 0
      (λ r s'.
        IsWriter r.1
        × Wrote r.0 [] (encode_all data_of) r.1.written
        × (s'.live + 0 ≡ 0 + count_block r.1.block))
      (write_all two_grants writer_init data_of start)
unfolding writer_init
write_all-Ends_example = write_all-Ends two_grants writer_init data_of start writer_init-IsWriter

payload_decode-write_all_example :
    (w : Writer) × (s' : Mem) × (write_all all_grants writer_init data_of start
      ≡ returned (true, w) s')
    × (w.written ≡ encode_all data_of)
    × (a : Array) × Gives a (payload_decode all_grants (present w.written) s')
    × (a.items ≡ map represent data_of)
unfolding put_u32
payload_decode-write_all_example =
    payload_decode-write_all all_grants data_of start (λ n size. refl) data_of-All (omega arith)
