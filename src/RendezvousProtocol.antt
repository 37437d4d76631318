-- ===== src/RendezvousProtocol.antt =====
-- p2p-rendezvous/src/protocol.rs: the messages between a peer and the rendezvous server, and the checks that
-- server.rs makes of a registration.
pub mod Codes
use p2pfile_transfer.Common.{ℕ, Bool, true, List, [], ◌∷◌, leb, ◌||◌, ◌&&◌, length}
use p2pfile_transfer.Stun.{SocketAddr}

pub record RegisterRequest : Type 0 where
  pub protocol_version : ℕ
  pub code : List ℕ
  pub public_endpoint : SocketAddr
  pub cert_fingerprint : List ℕ
  pub device_id : ℕ
  pub want_relay : Bool

pub data Message : Type 0 where
  register : RegisterRequest → Message
  matched : SocketAddr → List ℕ → ℕ → Message
  relay_match : SocketAddr → List ℕ → List ℕ → ℕ → Message
  expired rejected : Message

abbrev pub protocol_version : ℕ
protocol_version = 1

between : ℕ → ℕ → ℕ → Bool
between low b high = leb low b && leb b high

-- `is_ascii_alphanumeric`
all_alphanumeric : List ℕ → Bool
unfolding between
all_alphanumeric [] = true
all_alphanumeric (b ∷ bytes) =
    (between 48 b 57 || between 65 b 90 || between 97 b 122) && all_alphanumeric bytes

unfoldable pub is_valid_code : List ℕ → Bool
unfolding all_alphanumeric between
is_valid_code code = between 4 (length code) 32 && all_alphanumeric code

-- The registration with the address that the TCP connection comes from.
unfoldable pub stamp : SocketAddr → RegisterRequest → RegisterRequest
stamp peer r = record r { public_endpoint = record { ip = peer.ip; port = r.public_endpoint.port } }
