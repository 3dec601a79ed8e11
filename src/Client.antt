-- ===== src/Client.antt =====
-- src/client.c: a client, with what is still to arrive at its socket. The sending end of the socket
-- is a list of its answers to the calls of `sendmsg`.
pub mod Text
pub mod Send
pub mod Receive
pub mod Call
use wirecall.Common.{
  ℕ, Bool, List, [], ◌∷◌, take, bit_and, not, ◌||◌, ◌&&◌, ◌==◌, if◌then◌else◌, Option, none, some,
  Outcome, ok, fail,
}
use wirecall.Protocol.Integrity.{has_flag, integrity_mac, is_null}
use wirecall.Stream.{ByteBuffer}
use wirecall.Stream.Packet.{Settings}
use wirecall.Stream.Socket.{Step}

-- `has_fd` says that `fd >= 0`.
pub record Client : Type 0 where
  pub has_fd : Bool
  pub next_call_id : ℕ
  pub read_buf : ByteBuffer
  pub read_off : ℕ
  pub settings : Settings
  pub error : List ℕ

pub record Link : Type 0 where
  pub client : Client
  pub arriving : List ℕ
  pub steps : List Step

-- `snprintf` into 160 bytes.
unfoldable pub set_error : List ℕ → Client → Client
set_error message client = record client { error = take 159 message }

-- The bits of `integrity` but the two that are known.
abbrev pub unknown_flags : ℕ
unknown_flags = 0xfffffffc

-- The test that the client and the server make of new settings, and the settings.
unfoldable pub change_settings : ℕ → Option (List ℕ) → Settings → Outcome Settings
change_settings integrity key set =
    if not (bit_and integrity unknown_flags == 0)
      || (has_flag integrity integrity_mac && is_null key)
    then fail
    else ok (record set {
      integrity = integrity;
      mac_key = elim key [ none ↦ set.mac_key | some bytes ↦ bytes ];
    })
