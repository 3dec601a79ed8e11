-- ===== src/Tests/Client.antt =====
-- The client at concrete inputs.
use wirecall.Common.{[], ◌∷◌, map, ok, ◌≡◌, arith}
use wirecall.Client.Send.{sent, send_iov_full, send_iov_full_lem}

-- Three bytes and two, by writes of two, two and one.
send_iov_full_lem_example :
    send_iov_full (map sent (2 ∷ 2 ∷ 1 ∷ 1 ∷ 1 ∷ [])) ((1 ∷ 2 ∷ 3 ∷ []) ∷ (4 ∷ 5 ∷ []) ∷ [])
    ≡ ok (1 ∷ 2 ∷ 3 ∷ 4 ∷ 5 ∷ [])
send_iov_full_lem_example =
    send_iov_full_lem (2 ∷ 2 ∷ 1 ∷ 1 ∷ 1 ∷ []) ((1 ∷ 2 ∷ 3 ∷ []) ∷ (4 ∷ 5 ∷ []) ∷ []) (ground arith)
      (ground arith) (omega arith) (omega arith) (omega arith)
