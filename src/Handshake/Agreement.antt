-- ===== src/Handshake/Agreement.antt =====
-- handshake.rs: both ends together.
use p2pfile_transfer.Common.{
  ℕ, ◌≤◌, ◌≡◌, refl, false, List, [], ◌∷◌, ◌++◌, Option, some, All, arith, map, ltb, length,
  bytes_eq_refl,
}
use p2pfile_transfer.Errors.{ok}
use p2pfile_transfer.Protocol.{Digest, Message, ConfigMessage}
use p2pfile_transfer.Framing.{max_message_size}
use p2pfile_transfer.Handshake.{
  Conn, HandshakeResult, check_payload, read_payload, Side, hello_of, send_message, recv_message,
  sent_over, next, observe, client_handshake, server_handshake,
}

-- What an end's connection is over: its serializer, and the fingerprint that TLS saw.
pub record Wire : Type 0 where
  pub to_vec : Message → Option (List ℕ)
  pub seen : Digest

-- A message that a frame can carry.
abbrev pub Fits : (Message → Option (List ℕ)) → Message → Type 0
Fits to_vec message =
    (payload : List ℕ) × (to_vec message ≡ some payload) × (length payload ≤ max_message_size)

module _ (to_vec : Message → Option (List ℕ)) (message : Message) (fits : Fits to_vec message) where
  not_large :
      (payload : List ℕ)
      → length payload ≤ max_message_size
      → ltb max_message_size (length payload) ≡ false
  not_large payload small = ground arith

  pub check_payload-ok : check_payload (to_vec message) ≡ ok tt
  check_payload-ok = let (payload, e, small) = fits in rw (e, not_large payload small) refl

  pub read_payload-ok : read_payload (to_vec message) message ≡ ok message
  read_payload-ok = let (payload, e, small) = fits in rw (e, not_large payload small) refl

-- A new connection, on which these messages come in.
abbrev pub conn : List Message → Wire → Conn
conn messages wire = record {
  to_vec = wire.to_vec;
  incoming = map ok messages;
  sent = [];
  link = [];
  peer_fingerprint = some wire.seen;
}

-- The connection when all of them were read and these were sent.
abbrev pub over : List Message → Wire → Conn
over messages wire = record {
  to_vec = wire.to_vec;
  incoming = [];
  sent = messages;
  link = [];
  peer_fingerprint = some wire.seen;
}

-- The connection of an end that sees this peer.
abbrev pub wire_to : (Message → Option (List ℕ)) → Side → Wire
wire_to to_vec peer = record { to_vec = to_vec; seen = peer.fingerprint }

abbrev pub from_client : Side → ConfigMessage → List Message
from_client client config = Message.hello (hello_of client) ∷ Message.config config ∷ []

abbrev pub from_server : Side → List Message
from_server server = Message.hello_ack (hello_of server) ∷ Message.config_ack ∷ []

abbrev pub learned : Side → ConfigMessage → HandshakeResult
learned side config = record {
  peer_device_id = side.device_id;
  peer_fingerprint = side.fingerprint;
  config = config;
}

module _ (to_vec : Message → Option (List ℕ)) (client server : Side) (config : ConfigMessage)
    (client_fits : All (Fits to_vec) (from_client client config))
    (server_fits : All (Fits to_vec) (from_server server)) where
  client_completes :
      client_handshake client config (conn (from_server server) (wire_to to_vec server))
      ≡ (ok (learned server config), over (from_client client config) (wire_to to_vec server))
  unfolding client_handshake send_message recv_message sent_over next observe
  client_completes = rw (
    check_payload-ok to_vec _ client_fits.0,
    read_payload-ok to_vec _ server_fits.0,
    bytes_eq_refl server.fingerprint,
    check_payload-ok to_vec _ client_fits.1.0,
    read_payload-ok to_vec _ server_fits.1.0,
  )

  server_completes :
      server_handshake server (conn (from_client client config) (wire_to to_vec client))
      ≡ (ok (learned client config), over (from_server server) (wire_to to_vec client))
  unfolding server_handshake send_message recv_message sent_over next observe
  server_completes = rw (
    read_payload-ok to_vec _ client_fits.0,
    bytes_eq_refl client.fingerprint,
    check_payload-ok to_vec _ server_fits.0,
    read_payload-ok to_vec _ client_fits.1.0,
    check_payload-ok to_vec _ server_fits.1.0,
  )

  -- Two honest ends, each of which sees the other's certificate, complete the handshake, if each of its
  -- four messages serializes to at most the 10 MB of a frame: what either receives is exactly what
  -- the other sends, each learns the other's device and fingerprint, and both hold the initiator's
  -- configuration.
  pub handshake_completes :
      (client_handshake client config (conn (from_server server) (wire_to to_vec server))
        ≡ (ok (learned server config), over (from_client client config) (wire_to to_vec server)))
      × (server_handshake server (conn (from_client client config) (wire_to to_vec client))
          ≡ (ok (learned client config), over (from_server server) (wire_to to_vec client)))
  handshake_completes = (client_completes, server_completes)

-- One message each way, on a new connection.
module _ (out answer : Message) (wire : Wire) where
  abbrev pub midway : Conn
  midway = record {
    to_vec = wire.to_vec;
    incoming = ok answer ∷ [];
    sent = out ∷ [];
    link = [];
    peer_fingerprint = some wire.seen;
  }

  pub send_message-conn :
      Fits wire.to_vec out → send_message out (conn (answer ∷ []) wire) ≡ (ok tt, midway)
  unfolding send_message sent_over
  send_message-conn fits = rw (check_payload-ok wire.to_vec out fits) refl

  pub recv_message-midway :
      Fits wire.to_vec answer → recv_message midway ≡ (ok answer, over (out ∷ []) wire)
  unfolding recv_message next
  recv_message-midway fits = rw (read_payload-ok wire.to_vec answer fits) refl

-- A connection on which these messages have been sent and these are to come.
abbrev pub talking : List Message → List Message → Wire → Conn
talking sent coming wire = record {
  to_vec = wire.to_vec;
  incoming = map ok coming;
  sent = sent;
  link = [];
  peer_fingerprint = some wire.seen;
}

pub send_message-talking :
    (m : Message) (sent coming : List Message) (wire : Wire)
    → Fits wire.to_vec m
    → send_message m (talking sent coming wire) ≡ (ok tt, talking (sent ++ (m ∷ [])) coming wire)
unfolding send_message sent_over
send_message-talking m sent coming wire fits = rw (check_payload-ok wire.to_vec m fits) refl

pub recv_message-talking :
    (m : Message) (sent coming : List Message) (wire : Wire)
    → Fits wire.to_vec m
    → recv_message (talking sent (m ∷ coming) wire) ≡ (ok m, talking sent coming wire)
unfolding recv_message next
recv_message-talking m sent coming wire fits = rw (read_payload-ok wire.to_vec m fits) refl
