-- ===== src/Server/Text.antt =====
-- The messages of the error replies of src/server.c and src/scheduler.c.
use wirecall.Common.{ℕ, List, [], ◌∷◌}

-- "unknown procedure"
abbrev pub unknown_procedure : List ℕ
unknown_procedure =
    b'u' ∷ b'n' ∷ b'k' ∷ b'n' ∷ b'o' ∷ b'w' ∷ b'n' ∷ b' ' ∷ b'p' ∷ b'r' ∷ b'o' ∷ b'c' ∷ b'e' ∷ b'd'
    ∷ b'u' ∷ b'r' ∷ b'e' ∷ []

-- "unsupported operation"
abbrev pub unsupported_operation : List ℕ
unsupported_operation =
    b'u' ∷ b'n' ∷ b's' ∷ b'u' ∷ b'p' ∷ b'p' ∷ b'o' ∷ b'r' ∷ b't' ∷ b'e' ∷ b'd' ∷ b' ' ∷ b'o' ∷ b'p'
    ∷ b'e' ∷ b'r' ∷ b'a' ∷ b't' ∷ b'i' ∷ b'o' ∷ b'n' ∷ []

-- "malformed payload"
abbrev pub malformed_payload : List ℕ
malformed_payload =
    b'm' ∷ b'a' ∷ b'l' ∷ b'f' ∷ b'o' ∷ b'r' ∷ b'm' ∷ b'e' ∷ b'd' ∷ b' ' ∷ b'p' ∷ b'a' ∷ b'y' ∷ b'l'
    ∷ b'o' ∷ b'a' ∷ b'd' ∷ []

-- "procedure failed"
abbrev pub procedure_failed : List ℕ
procedure_failed =
    b'p' ∷ b'r' ∷ b'o' ∷ b'c' ∷ b'e' ∷ b'd' ∷ b'u' ∷ b'r' ∷ b'e' ∷ b' ' ∷ b'f' ∷ b'a' ∷ b'i' ∷ b'l'
    ∷ b'e' ∷ b'd' ∷ []

-- "scheduler failure"
abbrev pub scheduler_failure : List ℕ
scheduler_failure =
    b's' ∷ b'c' ∷ b'h' ∷ b'e' ∷ b'd' ∷ b'u' ∷ b'l' ∷ b'e' ∷ b'r' ∷ b' ' ∷ b'f' ∷ b'a' ∷ b'i' ∷ b'l'
    ∷ b'u' ∷ b'r' ∷ b'e' ∷ []

-- "deferred procedure failed"
abbrev pub deferred_failed : List ℕ
deferred_failed =
    b'd' ∷ b'e' ∷ b'f' ∷ b'e' ∷ b'r' ∷ b'r' ∷ b'e' ∷ b'd' ∷ b' ' ∷ b'p' ∷ b'r' ∷ b'o' ∷ b'c' ∷ b'e'
    ∷ b'd' ∷ b'u' ∷ b'r' ∷ b'e' ∷ b' ' ∷ b'f' ∷ b'a' ∷ b'i' ∷ b'l' ∷ b'e' ∷ b'd' ∷ []

-- "deferred call allocation failed"
abbrev pub no_deferred_call : List ℕ
no_deferred_call =
    b'd' ∷ b'e' ∷ b'f' ∷ b'e' ∷ b'r' ∷ b'r' ∷ b'e' ∷ b'd' ∷ b' ' ∷ b'c' ∷ b'a' ∷ b'l' ∷ b'l' ∷ b' '
    ∷ b'a' ∷ b'l' ∷ b'l' ∷ b'o' ∷ b'c' ∷ b'a' ∷ b't' ∷ b'i' ∷ b'o' ∷ b'n' ∷ b' ' ∷ b'f' ∷ b'a'
    ∷ b'i' ∷ b'l' ∷ b'e' ∷ b'd' ∷ []

-- "deferred payload allocation failed"
abbrev pub no_deferred_payload : List ℕ
no_deferred_payload =
    b'd' ∷ b'e' ∷ b'f' ∷ b'e' ∷ b'r' ∷ b'r' ∷ b'e' ∷ b'd' ∷ b' ' ∷ b'p' ∷ b'a' ∷ b'y' ∷ b'l' ∷ b'o'
    ∷ b'a' ∷ b'd' ∷ b' ' ∷ b'a' ∷ b'l' ∷ b'l' ∷ b'o' ∷ b'c' ∷ b'a' ∷ b't' ∷ b'i' ∷ b'o' ∷ b'n'
    ∷ b' ' ∷ b'f' ∷ b'a' ∷ b'i' ∷ b'l' ∷ b'e' ∷ b'd' ∷ []
