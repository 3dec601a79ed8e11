-- ===== src/Stream/Socket.antt =====
-- The receiving end of a socket, as src/server.c and src/client.c use it: the bytes that are to
-- arrive, and how each call of `recv` goes.
use wirecall.Common.{ℕ, List, [], ◌∷◌, take, min}

-- So many bytes at most, or an error by its kind.
pub data Step : Type 0 where
  gives : ℕ → Step
  interrupted : Step
  blocks : Step
  broken : Step

pub data RecvAnswer : Type 0 where
  received : List ℕ → RecvAnswer
  peer_closed : RecvAnswer
  recv_interrupted : RecvAnswer
  recv_blocks : RecvAnswer
  recv_broken : RecvAnswer

-- A transfer of nothing says that the peer has closed.
abbrev pub transfer : List ℕ → RecvAnswer
transfer [] = peer_closed
transfer (b ∷ bytes) = received (b ∷ bytes)

-- `recv` into a buffer with so much room.
unfoldable pub recv : Step → ℕ → List ℕ → RecvAnswer
recv (gives n) room arriving = transfer (take (min n room) arriving)
recv interrupted room arriving = recv_interrupted
recv blocks room arriving = recv_blocks
recv broken room arriving = recv_broken
