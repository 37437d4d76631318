-- ===== src/Quic.antt =====
-- p2p-core/src/network/quic.rs and p2p-core/src/tls.rs: how a QUIC connection comes about, and whom its TLS handshake
-- lets in. What the far end does is given; rustls checks its signature, and SHA-256 is a parameter.
use p2pfile_transfer.Common.{Bool, true, List, Option, none, some, ◌&&◌, bytes_eq, if◌then◌else◌, ℕ}
use p2pfile_transfer.Errors.{Result, ok, err, quic, protocol, ◌>>=◌}
use p2pfile_transfer.Protocol.{Digest}
use p2pfile_transfer.Framing.{protocol_magic}
use p2pfile_transfer.Stun.{SocketAddr}

-- The address of the peer, and the fingerprint of the certificate that it presented.
pub record QuicConnection : Type 0 where
  pub peer_addr : SocketAddr
  pub presented : Digest

-- What a dialled server shows: its certificate, whether its signature of the handshake is one of that
-- certificate's key, and whether the control stream opens.
pub record Answer : Type 0 where
  pub certificate : List ℕ
  pub signed : Bool
  pub control : Result (Unit {0})

-- What a client that comes in shows: its address, its certificate if it has one, its signature, and
-- the first four bytes of its control stream.
pub record Incoming : Type 0 where
  pub addr : SocketAddr
  pub certificate : Option (List ℕ)
  pub signed : Bool
  pub control : Result (List ℕ)

-- `AcceptAnyClientCert`: a certificate is mandatory, and any one will do.
unfoldable pub verify_client_cert : List ℕ → Bool
verify_client_cert certificate = true

-- `open_control_responder`
unfoldable pub open_control_responder : SocketAddr → Digest → List ℕ → Result QuicConnection
open_control_responder addr presented magic =
    if bytes_eq magic protocol_magic
    then ok (record { peer_addr = addr; presented = presented })
    else err protocol

module _ (sha256 : List ℕ → Digest) where
  abbrev pub fingerprint_of : List ℕ → Digest
  fingerprint_of certificate = sha256 certificate

  -- `FingerprintVerifier::verify_server_cert`
  unfoldable pub verify_server_cert : Digest → List ℕ → Bool
  verify_server_cert expected certificate = bytes_eq (fingerprint_of certificate) expected

  handshaken : Digest → SocketAddr → Answer → Result QuicConnection
  handshaken expected addr answer =
      if verify_server_cert expected answer.certificate && answer.signed
      then answer.control
        >>= (λ _. ok (record { peer_addr = addr; presented = fingerprint_of answer.certificate }))
      else err quic

  -- `QuicEndpoint::connect`
  unfoldable pub connect : SocketAddr → Digest → Result Answer → Result QuicConnection
  unfolding handshaken
  connect addr peer_fingerprint answer = answer >>= handshaken peer_fingerprint addr

  admitted : SocketAddr → Bool → Result (List ℕ) → Option (List ℕ) → Result QuicConnection
  admitted addr signed control none = err quic
  admitted addr signed control (some certificate) =
      if verify_client_cert certificate && signed
      then control >>= open_control_responder addr (fingerprint_of certificate)
      else err quic

  -- `QuicEndpoint::accept`
  unfoldable pub accept : Result Incoming → Result QuicConnection
  unfolding admitted
  accept came = came >>= (λ i. admitted i.addr i.signed i.control i.certificate)
