-- ===== src/Session/Pairing.antt =====
-- session.rs: two ends that the rendezvous brought together.
use p2pfile_transfer.Common.{
  ◌<◌, ◌≡◌, refl, ap, true, false, List, [], Option, none, All, arith, ltb, ℕ,
}
use p2pfile_transfer.Errors.{ok}
use p2pfile_transfer.Effects.{M}
use p2pfile_transfer.Protocol.{Uuid, Message, ConfigMessage}
use p2pfile_transfer.Handshake.{Conn, Side, HandshakeResult}
use p2pfile_transfer.Handshake.Agreement.{
  Wire, Fits, conn, over, wire_to, from_client, from_server, learned, handshake_completes,
}
use p2pfile_transfer.Session.{
  Connection, P2PSession, shaken_over, shake_hands, shake_by_role, paired, from_rendezvous,
}

-- A new connection over which these messages come.
abbrev pub fresh_connection : List Message → Wire → Connection
fresh_connection messages wire = record { conn = conn messages wire; link = [] }

-- A session of `side` with `peer`, over a connection on which these messages were sent.
abbrev pub session_with :
    (Message → Option (List ℕ)) → Side → Side → ConfigMessage → Uuid → List Message → P2PSession
session_with to_vec side peer config session_id sent = record {
  connection = record { conn = over sent (wire_to to_vec peer); link = [] };
  side = side;
  session_id = session_id;
  handshake = learned peer config;
  initiator_target = none;
}

shake_hands-ok :
    (m : M Conn HandshakeResult) (c : Connection) (h : HandshakeResult) (d : Conn)
    → m c.conn ≡ (ok h, d)
    → shake_hands m c ≡ ok (h, record c { conn = d })
unfolding shake_hands shaken_over
shake_hands-ok m c h d e = ap (shaken_over c) e

module _ (to_vec : Message → Option (List ℕ)) (low high : Side)
    (low_config high_config : ConfigMessage) (low_id high_id : Uuid)
    (less : low.device_id < high.device_id)
    (low_fits : All (Fits to_vec) (from_client low low_config))
    (high_fits : All (Fits to_vec) (from_server high)) where
  -- Two honest ends with different device ids, that the rendezvous told of each other's id and whose
  -- connection shows each the other's certificate, take different parts: where the
  -- four messages of the handshake fit frames, what either end receives is
  -- what the other sends, both sessions are established, each names the other's device and
  -- fingerprint, and both hold the configuration of the end with the smaller id.
  pub from_rendezvous_pairs :
      (from_rendezvous
          (ok (fresh_connection (from_server high) (wire_to to_vec high), high.device_id))
          low
          low_config
          low_id
        ≡ ok (session_with to_vec low high low_config low_id (from_client low low_config)))
      × (from_rendezvous
            (ok (fresh_connection (from_client low low_config) (wire_to to_vec low), low.device_id))
            high
            high_config
            high_id
          ≡ ok (session_with to_vec high low low_config high_id (from_server high)))
  unfolding from_rendezvous shake_by_role shake_hands paired
  from_rendezvous_pairs =
      let (client, server) = handshake_completes to_vec low high low_config low_fits high_fits in
      let first : ltb low.device_id high.device_id ≡ true = ground (arith, less) in
      let second : ltb high.device_id low.device_id ≡ false = ground (arith, less) in
      (
        rw
            (
              first,
              shake_hands-ok _ (fresh_connection (from_server high) (wire_to to_vec high)) _ _
                  client,
            )
            refl,
        rw
            (
              second,
              shake_hands-ok _ (fresh_connection (from_client low low_config) (wire_to to_vec low))
                  _ _ server,
            )
            refl,
      )
