-- ===== src/Handshake/Runs.antt =====
-- handshake.rs: the theorems at concrete inputs.
use p2pfile_transfer.Common.{ℕ, ◌≡◌, refl, List, [], ◌∷◌, ◌++◌, Option, some, All, arith}
use p2pfile_transfer.Errors.{ok}
use p2pfile_transfer.Protocol.{Message, HelloMessage, default_config}
use p2pfile_transfer.Handshake.{Side, hello_of, client_handshake, server_handshake}
use p2pfile_transfer.Handshake.Laws.{Vouched, client_handshake_checks, server_handshake_checks}
use p2pfile_transfer.Handshake.Agreement.{
  Fits, conn, over, wire_to, from_client, from_server, learned, handshake_completes,
}

abbrev alice : Side
alice = record { device_id = 1; fingerprint = 10 ∷ 11 ∷ [] }

abbrev bob : Side
bob = record { device_id = 2; fingerprint = 20 ∷ 21 ∷ [] }

-- Every message is one byte long.
abbrev short : Message → Option (List ℕ)
short message = some (0 ∷ [])

all_short : (messages : List Message) → All (Fits short) messages
all_short [] = tt
all_short (m ∷ messages) = ((0 ∷ [], refl, omega arith), all_short messages)

handshake_completes_example :
    (client_handshake alice default_config (conn (from_server bob) (wire_to short bob)) ≡ (
      ok (learned bob default_config),
      over (from_client alice default_config) (wire_to short bob),
    ))
    × (server_handshake bob (conn (from_client alice default_config) (wire_to short alice))
        ≡ (ok (learned alice default_config), over (from_server bob) (wire_to short alice)))
handshake_completes_example =
    handshake_completes short alice bob default_config
      (all_short (from_client alice default_config)) (all_short (from_server bob))

client_handshake_checks_example :
    (h : HelloMessage) × ((conn (from_server bob) (wire_to short bob)).incoming
      ≡ ok (Message.hello_ack h) ∷ ok Message.config_ack ∷ [])
    × (from_client alice default_config
        ≡ [] ++ (Message.hello (hello_of alice) ∷ Message.config default_config ∷ []))
    × (default_config ≡ default_config)
    × Vouched h
        (conn (from_server bob) (wire_to short bob)).peer_fingerprint
        (learned bob default_config)
client_handshake_checks_example =
    client_handshake_checks alice default_config (conn (from_server bob) (wire_to short bob))
      (over (from_client alice default_config) (wire_to short bob)) (learned bob default_config)
      (handshake_completes short alice bob default_config
        (all_short (from_client alice default_config)) (all_short (from_server bob))).0

server_handshake_checks_example :
    (h : HelloMessage) × ((conn (from_client alice default_config) (wire_to short alice)).incoming
      ≡ ok (Message.hello h) ∷ ok (Message.config default_config) ∷ [])
    × (from_server bob ≡ [] ++ (Message.hello_ack (hello_of bob) ∷ Message.config_ack ∷ []))
    × Vouched h
        (conn (from_client alice default_config) (wire_to short alice)).peer_fingerprint
        (learned alice default_config)
server_handshake_checks_example =
    server_handshake_checks bob (conn (from_client alice default_config) (wire_to short alice))
      (over (from_server bob) (wire_to short alice)) (learned alice default_config)
      (handshake_completes short alice bob default_config
        (all_short (from_client alice default_config)) (all_short (from_server bob))).1
