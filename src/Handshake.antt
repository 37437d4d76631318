-- ===== src/Handshake.antt =====
-- p2p-core/src/handshake.rs: the exchange of hellos and of the transfer's configuration. A connection
-- is the messages still to come, the messages sent, and the fingerprint of the certificate that TLS
-- saw. Which certificates TLS lets in is in Quic.antt. A message is written and read as the frame of
-- network/framing.rs, whose bytes are in Framing.antt; here are its limit and its failures.
pub mod Laws
pub mod Agreement
pub mod Runs
use p2pfile_transfer.Common.{
  ℕ, ◌≡◌, Bool, true, false, List, [], ◌∷◌, ◌++◌, Option, none, some, ◌==◌, ltb, bytes_eq, length,
  if◌then◌else◌,
}
use p2pfile_transfer.Errors.{
  Error, Result, ok, err, panic, disconnected, protocol, serialization, deserialization,
  version_mismatch, fingerprint_mismatch,
}
use p2pfile_transfer.Effects.{M, and_then, ◌>>=◌, ◌>>◌, done, lift}
use p2pfile_transfer.Protocol.{
  Uuid, Digest, Message, HelloMessage, ConfigMessage, TransferInfo, protocol_version,
  min_protocol_version,
}
use p2pfile_transfer.Framing.{max_message_size}

-- `to_vec` is `rmp_serde::to_vec`. What comes in is the message of a frame, or how the read of a frame
-- fails. `link` says how the writes of frames go; behind its end all succeed.
pub record Conn : Type 0 where
  pub to_vec : Message → Option (List ℕ)
  pub incoming : List (Result Message)
  pub sent : List Message
  pub link : List (Result (Unit {0}))
  pub peer_fingerprint : Option Digest

pub record HandshakeResult : Type 0 where
  pub peer_device_id : Uuid
  pub peer_fingerprint : Digest
  pub config : ConfigMessage

-- A side of the handshake, `HandshakeClient` or `HandshakeServer`.
pub record Side : Type 0 where
  pub device_id : Uuid
  pub fingerprint : Digest

-- The writer's test of a serialized message.
abbrev pub check_payload : Option (List ℕ) → Result (Unit {0})
check_payload none = err serialization
check_payload (some payload) = if ltb max_message_size (length payload) then err protocol else ok tt

sent_over : Message → List (Result (Unit {0})) → M Conn (Unit {0})
sent_over message (ok _ ∷ link) c =
    (ok tt, record c { sent = c.sent ++ (message ∷ []); link = link })
sent_over message (err e ∷ link) c = (err e, record c { link = link })
sent_over message (panic ∷ link) c = (panic, record c { link = link })
sent_over message [] c = (ok tt, record c { sent = c.sent ++ (message ∷ []) })

unfoldable pub send_message : Message → M Conn (Unit {0})
unfolding sent_over
send_message message c =
    and_then (check_payload (c.to_vec message), c) (λ _ d. sent_over message d.link d)

-- The reader's test of the length that a frame announces, and the decoding of its payload.
abbrev pub read_payload : Option (List ℕ) → Message → Result Message
read_payload none message = err deserialization
read_payload (some payload) message =
    if ltb max_message_size (length payload) then err protocol else ok message

next : List (Result Message) → M Conn Message
next [] c = (err disconnected, c)
next (ok message ∷ later) c =
    (read_payload (c.to_vec message) message, record c { incoming = later })
next (err e ∷ later) c = (err e, record c { incoming = later })
next (panic ∷ later) c = (panic, record c { incoming = later })

unfoldable pub recv_message : M Conn Message
unfolding next
recv_message c = next c.incoming c

-- The `match` on the message that came, at each place.
abbrev pub expect_hello_ack : Message → Result HelloMessage
expect_hello_ack (Message.hello_ack h) = ok h
expect_hello_ack _ = err protocol

abbrev pub expect_hello : Message → Result HelloMessage
expect_hello (Message.hello h) = ok h
expect_hello _ = err protocol

abbrev pub expect_config : Message → Result ConfigMessage
expect_config (Message.config config) = ok config
expect_config _ = err protocol

abbrev pub expect_config_ack : Message → Result (Unit {0})
expect_config_ack Message.config_ack = ok tt
expect_config_ack _ = err protocol

abbrev pub expect_ready : Message → Result (Unit {0})
expect_ready Message.ready = ok tt
expect_ready _ = err protocol

abbrev pub expect_transfer_info : Message → Result TransferInfo
expect_transfer_info (Message.transfer_info info) = ok info
expect_transfer_info _ = err protocol

abbrev pub check_version : HelloMessage → Result (Unit {0})
check_version h =
    if h.protocol_version == protocol_version
    then ok tt
    else err (version_mismatch h.protocol_version protocol_version)

abbrev pub cross_check_fingerprint : Digest → Option Digest → Result (Unit {0})
cross_check_fingerprint claimed none = err fingerprint_mismatch
cross_check_fingerprint claimed (some observed) =
    if bytes_eq claimed observed then ok tt else err fingerprint_mismatch

abbrev pub hello_of : Side → HelloMessage
hello_of side = record {
  protocol_version = protocol_version;
  min_version = min_protocol_version;
  device_id = side.device_id;
  cert_fingerprint = side.fingerprint;
}

observe : M Conn (Option Digest)
observe c = (ok c.peer_fingerprint, c)

abbrev pub result_of : HelloMessage → ConfigMessage → HandshakeResult
result_of h config = record {
  peer_device_id = h.device_id;
  peer_fingerprint = h.cert_fingerprint;
  config = config;
}

-- `HandshakeClient::perform_handshake`.
unfoldable pub client_handshake : Side → ConfigMessage → M Conn HandshakeResult
unfolding observe
client_handshake side config = do
  send_message (Message.hello (hello_of side))
  message ← recv_message
  h ← lift (expect_hello_ack message)
  lift (check_version h)
  observed ← observe
  lift (cross_check_fingerprint h.cert_fingerprint observed)
  send_message (Message.config config)
  answer ← recv_message
  lift (expect_config_ack answer)
  done (result_of h config)

-- `HandshakeServer::perform_handshake`.
unfoldable pub server_handshake : Side → M Conn HandshakeResult
unfolding observe
server_handshake side = do
  message ← recv_message
  h ← lift (expect_hello message)
  lift (check_version h)
  observed ← observe
  lift (cross_check_fingerprint h.cert_fingerprint observed)
  send_message (Message.hello_ack (hello_of side))
  request ← recv_message
  config ← lift (expect_config request)
  send_message Message.config_ack
  done (result_of h config)

unfoldable pub send_transfer_info : TransferInfo → M Conn (Unit {0})
send_transfer_info info = do
  send_message (Message.transfer_info info)
  message ← recv_message
  lift (expect_ready message)

unfoldable pub recv_transfer_info : M Conn TransferInfo
recv_transfer_info = do
  message ← recv_message
  info ← lift (expect_transfer_info message)
  send_message Message.ready
  done info
