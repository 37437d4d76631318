-- ===== src/RendezvousClient.antt =====
-- p2p-rendezvous/src/client.rs: the registration of a peer at the rendezvous server, over a TCP stream of its own.
pub mod Laws
use p2pfile_transfer.Common.{ℕ, ◌⊎◌, inl, inr, Bool, List, [], Option, none, some, if◌then◌else◌}
use p2pfile_transfer.Protocol.{Digest}
use p2pfile_transfer.Stun.{SocketAddr}
use p2pfile_transfer.RendezvousProtocol.{RegisterRequest, Message}
use p2pfile_transfer.RendezvousWire.{MessageCodec, ProtoError, write_message, read_message}

pub record PeerInfo : Type 0 where
  pub endpoint : SocketAddr
  pub fingerprint : Digest
  pub device_id : ℕ

pub record RelayInfo : Type 0 where
  pub relay_endpoint : SocketAddr
  pub session_token : List ℕ
  pub peer_fingerprint : Digest
  pub peer_device_id : ℕ

pub data MatchOutcome : Type 0 where
  direct : PeerInfo → MatchOutcome
  relay : RelayInfo → MatchOutcome

pub data ClientError : Type 0 where
  connect timeout expired rejected unexpected_from_server : ClientError
  wire : ProtoError → ClientError

-- The stream to the server: whether the connect and the writes succeed, and the bytes that come back
-- until the server closes; none, if the wait for them times out.
pub record Link : Type 0 where
  pub connects : Bool
  pub writable : Bool
  pub response : Option (List ℕ)

-- The `match` on the response.
unfoldable pub outcome_of : Message → ClientError ⊎ MatchOutcome
outcome_of (Message.matched endpoint fingerprint device_id) =
    inr (direct (record { endpoint = endpoint; fingerprint = fingerprint; device_id = device_id }))
outcome_of (Message.relay_match relay_endpoint token fingerprint device_id) = inr (
    relay (record {
      relay_endpoint = relay_endpoint;
      session_token = token;
      peer_fingerprint = fingerprint;
      peer_device_id = device_id;
    }))
outcome_of Message.expired = inl expired
outcome_of Message.rejected = inl rejected
outcome_of (Message.register r) = inl unexpected_from_server

received : ProtoError ⊎ (Message × List ℕ) → ClientError ⊎ MatchOutcome
received (inl e) = inl (wire e)
received (inr (msg, later)) = outcome_of msg

direct_only : ClientError ⊎ MatchOutcome → ClientError ⊎ PeerInfo
direct_only (inl e) = inl e
direct_only (inr (direct peer)) = inr peer
direct_only (inr (relay info)) = inl unexpected_from_server

module _ (codec : MessageCodec) where
  awaited : Option (List ℕ) → ClientError ⊎ MatchOutcome
  unfolding received
  awaited none = inl timeout
  awaited (some bytes) = received (read_message codec bytes)

  after_write :
      Option (List ℕ) → (ProtoError ⊎ Unit {0}) × List ℕ → (ClientError ⊎ MatchOutcome) × List ℕ
  unfolding awaited received
  after_write response (inl e, sent) = (inl (wire e), sent)
  after_write response (inr _, sent) = (awaited response, sent)

  -- The outcome, and the bytes that were sent.
  unfoldable pub register_full : Link → RegisterRequest → (ClientError ⊎ MatchOutcome) × List ℕ
  unfolding after_write received
  register_full link req =
      if link.connects
      then after_write link.response (write_message codec link.writable (Message.register req) [])
      else (inl connect, [])

  -- `register`
  unfoldable pub register_direct : Link → RegisterRequest → ClientError ⊎ PeerInfo
  unfolding direct_only
  register_direct link req = direct_only (register_full link req).0
