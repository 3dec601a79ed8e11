-- ===== src/Client/Text.antt =====
-- The messages of src/client.c.
use wirecall.Common.{ℕ, List, [], ◌∷◌}

-- "send failed"
abbrev pub send_failed : List ℕ
send_failed = b's' ∷ b'e' ∷ b'n' ∷ b'd' ∷ b' ' ∷ b'f' ∷ b'a' ∷ b'i' ∷ b'l' ∷ b'e' ∷ b'd' ∷ []

-- "read failed"
abbrev pub read_failed : List ℕ
read_failed = b'r' ∷ b'e' ∷ b'a' ∷ b'd' ∷ b' ' ∷ b'f' ∷ b'a' ∷ b'i' ∷ b'l' ∷ b'e' ∷ b'd' ∷ []

-- "packet integrity failed"
abbrev pub integrity_failed : List ℕ
integrity_failed =
    b'p' ∷ b'a' ∷ b'c' ∷ b'k' ∷ b'e' ∷ b't' ∷ b' ' ∷ b'i' ∷ b'n' ∷ b't' ∷ b'e' ∷ b'g' ∷ b'r' ∷ b'i'
    ∷ b't' ∷ b'y' ∷ b' ' ∷ b'f' ∷ b'a' ∷ b'i' ∷ b'l' ∷ b'e' ∷ b'd' ∷ []

-- "out of memory"
abbrev pub out_of_memory : List ℕ
out_of_memory =
    b'o' ∷ b'u' ∷ b't' ∷ b' ' ∷ b'o' ∷ b'f' ∷ b' ' ∷ b'm' ∷ b'e' ∷ b'm' ∷ b'o' ∷ b'r' ∷ b'y' ∷ []

-- "unexpected ping response"
abbrev pub unexpected_ping : List ℕ
unexpected_ping =
    b'u' ∷ b'n' ∷ b'e' ∷ b'x' ∷ b'p' ∷ b'e' ∷ b'c' ∷ b't' ∷ b'e' ∷ b'd' ∷ b' ' ∷ b'p' ∷ b'i' ∷ b'n'
    ∷ b'g' ∷ b' ' ∷ b'r' ∷ b'e' ∷ b's' ∷ b'p' ∷ b'o' ∷ b'n' ∷ b's' ∷ b'e' ∷ []

-- "unexpected call id"
abbrev pub unexpected_call_id : List ℕ
unexpected_call_id =
    b'u' ∷ b'n' ∷ b'e' ∷ b'x' ∷ b'p' ∷ b'e' ∷ b'c' ∷ b't' ∷ b'e' ∷ b'd' ∷ b' ' ∷ b'c' ∷ b'a' ∷ b'l'
    ∷ b'l' ∷ b' ' ∷ b'i' ∷ b'd' ∷ []

-- "malformed response payload"
abbrev pub malformed_response : List ℕ
malformed_response =
    b'm' ∷ b'a' ∷ b'l' ∷ b'f' ∷ b'o' ∷ b'r' ∷ b'm' ∷ b'e' ∷ b'd' ∷ b' ' ∷ b'r' ∷ b'e' ∷ b's' ∷ b'p'
    ∷ b'o' ∷ b'n' ∷ b's' ∷ b'e' ∷ b' ' ∷ b'p' ∷ b'a' ∷ b'y' ∷ b'l' ∷ b'o' ∷ b'a' ∷ b'd' ∷ []

-- "server returned error"
abbrev pub server_error : List ℕ
server_error =
    b's' ∷ b'e' ∷ b'r' ∷ b'v' ∷ b'e' ∷ b'r' ∷ b' ' ∷ b'r' ∷ b'e' ∷ b't' ∷ b'u' ∷ b'r' ∷ b'n' ∷ b'e'
    ∷ b'd' ∷ b' ' ∷ b'e' ∷ b'r' ∷ b'r' ∷ b'o' ∷ b'r' ∷ []

-- "unexpected response op"
abbrev pub unexpected_op : List ℕ
unexpected_op =
    b'u' ∷ b'n' ∷ b'e' ∷ b'x' ∷ b'p' ∷ b'e' ∷ b'c' ∷ b't' ∷ b'e' ∷ b'd' ∷ b' ' ∷ b'r' ∷ b'e' ∷ b's'
    ∷ b'p' ∷ b'o' ∷ b'n' ∷ b's' ∷ b'e' ∷ b' ' ∷ b'o' ∷ b'p' ∷ []

-- "client error"
abbrev pub client_failed : List ℕ
client_failed =
    b'c' ∷ b'l' ∷ b'i' ∷ b'e' ∷ b'n' ∷ b't' ∷ b' ' ∷ b'e' ∷ b'r' ∷ b'r' ∷ b'o' ∷ b'r' ∷ []
